-- ===== src/Cycle/Crash.antt =====
-- A crash of a server: how it ends, and what it leaves as it was.
use raft_algorep.Base.{
  ℕ, zero, suc, ◌+◌, ◌≤◌, ◌<◌, Bool, true, false, Bool-cases, List, Option, none, some, Outcome, ok,
  fault, ◌>>=◌, waiting, Ends, Ends-bind, Ends-mono, Ends-IfReturns, IfReturns, ◌≡◌, refl, subst,
  inl, inr, arith, Fault, Text,
}
use raft_algorep.Rpc.{
  Rpc, controller_request, RpcResponse, ControllerRequest, ControllerRequestType, status, crash,
  speed, start, recovery, print_log, entry,
}
use raft_algorep.Reciever.{RpcRecieverReinjecter, get_rpc_blocking, pending}
use raft_algorep.Reciever.Fifo.{upcoming}
use raft_algorep.Clock.{SpeedType}
use raft_algorep.Cycle.Asleep.{woken, awake, Sleeps, crash_loop-Sleeps}
use raft_algorep.Reciever.Queue.{get_rpc_blocking-pending}
use raft_algorep.Cycle.{
  Cycle, handle_request, crash_message, crash_round, crash_loop, handle_controller_request,
}

-- Only the messages to come, the crash flag and the speed may differ.
abbrev pub Frozen : Cycle → Cycle → Type 0
Frozen c d = d ≡ record c {
  node = record c.node {
    rpc_reciever = d.node.rpc_reciever;
    crash = d.node.crash;
    clock = d.node.clock;
  };
}

pub Frozen-trans : (c d e : Cycle) → Frozen c d → Frozen d e → Frozen c e
Frozen-trans c d e p q = ground arith

abbrev Stuck : Fault → Type 0
Stuck e = e ≡ waiting

-- A crashed node's answer to a request.
handle_request-crashed :
    (loop : Cycle → Outcome Cycle) (q : ControllerRequestType) (r : ControllerRequest) (c : Cycle)
    → c.node.crash ≡ true
    → Ends Stuck
        (λ x. Frozen c x.1 × (x.1.node.rpc_reciever ≡ c.node.rpc_reciever))
        (handle_request loop q r c)
unfolding handle_request
handle_request-crashed loop status r c h = (refl, refl)
handle_request-crashed loop crash r c h = rw h (refl, refl)
handle_request-crashed loop recovery r c h = rw h (refl, refl)
handle_request-crashed loop _ r c h = (refl, refl)

-- The crash loop ends recovered, or still waits; the server's state is as it was before the crash.
abbrev Recovered : Cycle → Cycle → Type 0
Recovered c d =
    Frozen c d
    × (d.node.crash ≡ false)
    × (pending d.node.rpc_reciever ≤ pending c.node.rpc_reciever)

module _ (loop : Cycle → Outcome Cycle) (bound : ℕ)
    (ih : (c : Cycle)
      → pending c.node.rpc_reciever < bound
      → Ends Stuck (Recovered c) (loop c)) where
  crash_message-Ends :
      (rpc : Rpc) (c : Cycle)
      → c.node.crash ≡ true
      → pending c.node.rpc_reciever < bound
      → Ends Stuck (Recovered c) (crash_message loop rpc c)
  unfolding crash_message
  crash_message-Ends (controller_request r) c h lt =
      Ends-bind Stuck (λ x. Frozen c x.1 × (x.1.node.rpc_reciever ≡ c.node.rpc_reciever))
        (Recovered c) (handle_request loop r.request r c) _
        (handle_request-crashed loop r.request r c h)
        λ x f. Ends-mono Stuck (Recovered x.1) (Recovered c) (loop x.1) (ih x.1 (rw f.1 lt)) λ d k.
          (
            Frozen-trans c x.1 d f.0 k.0,
            k.1,
            subst (λ r. pending d.node.rpc_reciever ≤ pending r) f.1 k.2,
          )
  crash_message-Ends _ c h lt = ih c lt

  taken-Ends :
      (rpc : Rpc) (r : RpcRecieverReinjecter) (c : Cycle)
      → c.node.crash ≡ true
      → pending r < bound
      → pending r < pending c.node.rpc_reciever
      → Ends Stuck
          (Recovered c)
          (crash_message loop rpc (record c { node = record c.node { rpc_reciever = r } }))
  taken-Ends rpc r c down small less =
      Ends-mono Stuck (Recovered (record c { node = record c.node { rpc_reciever = r } }))
        (Recovered c)
        (crash_message loop rpc (record c { node = record c.node { rpc_reciever = r } }))
        (crash_message-Ends rpc (record c { node = record c.node { rpc_reciever = r } }) down small)
        (λ d k. (k.0, k.1, omega arith))

  crash_round-Ends :
      (down : Bool) (arrived : Option (RpcResponse × RpcRecieverReinjecter)) (c : Cycle)
      → c.node.crash ≡ down
      → pending c.node.rpc_reciever < suc bound
      → ((m : RpcResponse) (r : RpcRecieverReinjecter)
          → arrived ≡ some (m, r)
          → pending r < pending c.node.rpc_reciever)
      → Ends Stuck (Recovered c) (crash_round loop down arrived c)
  unfolding crash_round
  crash_round-Ends false arrived c e lt less = (refl, e, omega arith)
  crash_round-Ends true none c e lt less = refl
  crash_round-Ends true (some (m, r)) c e lt less =
      let fewer = less m r refl in taken-Ends m.rpc r c e (omega arith) fewer

crash_loop-Ends :
    (fuel : ℕ) (c : Cycle)
    → pending c.node.rpc_reciever < fuel
    → Ends Stuck (Recovered c) (crash_loop fuel c)
unfolding crash_loop
crash_loop-Ends zero c h = elim h [ ]
crash_loop-Ends (suc fuel) c h =
    crash_round-Ends (crash_loop fuel) fuel (crash_loop-Ends fuel) c.node.crash
      (get_rpc_blocking c.node.rpc_reciever) c refl h (get_rpc_blocking-pending c.node.rpc_reciever)

abbrev crashed : Cycle → Cycle
crashed c = record c { node = record c.node { crash = true } }

-- How a crash ends, for what a server that sleeps is like when it wakes up.
abbrev pub Crashes :
    Cycle → Option (SpeedType × List (Option RpcResponse)) → Outcome (Bool × Cycle) → Type 0
Crashes c none m = m ≡ fault waiting
Crashes c (some (s, rest)) m =
    (r : RpcRecieverReinjecter) × (m ≡ ok (true, awake c s r)) × (upcoming r ≡ rest)

slept-Crashes :
    (c : Cycle) (o : Option (SpeedType × List (Option RpcResponse))) (m : Outcome Cycle)
    → Sleeps c o m
    → Crashes c o (do d ← m; ok (true, d))
slept-Crashes c none m h = rw h refl
slept-Crashes c (some (s, rest)) m (r, woke, left) = (r, rw woke refl, left)

-- A CRASH request stops a running node until the first RECOVERY of the controller among the
-- messages to come, and for ever if there is none: it drops all messages before that one, of which
-- only a SPEED has an effect, and leaves those after it to come. Then the node is told to leave its
-- cycle and runs again, and its state, log, term, vote, leader, indices, file and what it sent are
-- as before the crash.
pub crash-durable :
    (message : Text) (c : Cycle)
    → c.node.crash ≡ false
    → Crashes c
        (woken c.node.clock (upcoming c.node.rpc_reciever))
        (handle_controller_request (record { request = crash; message = message }) c)
unfolding handle_controller_request handle_request
crash-durable message c up = rw up (
    slept-Crashes c (woken c.node.clock (upcoming c.node.rpc_reciever))
      (crash_loop (pending c.node.rpc_reciever + 1) (crashed c))
      (crash_loop-Sleeps c (pending c.node.rpc_reciever + 1) c.node.clock c.node.rpc_reciever
        (omega arith)))

request-Ends :
    (q : ControllerRequestType) (r : ControllerRequest) (c : Cycle)
    → Ends Stuck
        (λ x. Frozen c x.1 × (pending x.1.node.rpc_reciever ≤ pending c.node.rpc_reciever))
        (handle_request (crash_loop (pending c.node.rpc_reciever + 1)) q r c)
unfolding handle_request
request-Ends status r c = (refl, omega arith)
request-Ends speed r c = (refl, omega arith)
request-Ends crash r c = elim (Bool-cases c.node.crash) [
  | inl down ↦ rw down (refl, omega arith)
  | inr up ↦ rw up (
      Ends-bind Stuck (Recovered (crashed c))
        (λ x. Frozen c x.1 × (pending x.1.node.rpc_reciever ≤ pending c.node.rpc_reciever))
        (crash_loop (pending c.node.rpc_reciever + 1) (crashed c)) (λ d. ok (true, d))
        (crash_loop-Ends (pending c.node.rpc_reciever + 1) (crashed c) (omega arith))
        (λ d k. (k.0, k.2)))
]
request-Ends recovery r c = elim (Bool-cases c.node.crash) [
  | inl down ↦ rw down (refl, omega arith)
  | inr up ↦ rw up (refl, omega arith)
]
request-Ends print_log r c = (refl, omega arith)
request-Ends start r c = (refl, omega arith)
request-Ends entry r c = (refl, omega arith)

-- Any request of the controller: a cycle that goes on keeps its messages to come.
pub controller-Ends :
    (r : ControllerRequest) (c : Cycle)
    → Ends
        (λ e. e ≡ waiting)
        (λ x. Frozen c x.1 × (pending x.1.node.rpc_reciever ≤ pending c.node.rpc_reciever))
        (handle_controller_request r c)
unfolding handle_controller_request
controller-Ends r c = request-Ends r.request r c

pub controller-Frozen :
    (r : ControllerRequest) (c : Cycle)
    → IfReturns (λ x. Frozen c x.1) (handle_controller_request r c)
controller-Frozen r c =
    Ends-IfReturns Stuck
      (λ (x : Bool × Cycle).
        Frozen c x.1 × (pending x.1.node.rpc_reciever ≤ pending c.node.rpc_reciever))
      (λ x. Frozen c x.1) (handle_controller_request r c) (controller-Ends r c) (λ x k. k.0)
