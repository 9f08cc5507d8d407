-- ===== src/Cycle/Asleep.antt =====
-- A crashed server, message by message: which RECOVERY wakes it, and what it has heard till then.
use raft_algorep.Base.{
  ℕ, zero, suc, ◌<◌, Bool, true, false, List, [], ◌∷◌, Option, none, some, Outcome, ok, fault,
  waiting, Text, ◌≡◌, refl, arith, ◌>>=◌,
}
use raft_algorep.Rpc.{
  Rpc, controller_request, RpcResponse, ControllerRequest, ControllerRequestType, status, crash,
  speed, start, recovery, print_log, entry,
}
use raft_algorep.Reciever.{RpcRecieverReinjecter, get_rpc_blocking, pending}
use raft_algorep.Reciever.Fifo.{upcoming}
use raft_algorep.Reciever.Blocking.{Next, get_rpc_blocking-Next}
use raft_algorep.Reciever.Queue.{get_rpc_blocking-pending}
use raft_algorep.Clock.{SpeedType, get_speed_type}
use raft_algorep.Cycle.{Cycle, handle_request, crash_message, crash_round, crash_loop}

abbrev pub is_recovery : ControllerRequestType → Bool
is_recovery recovery = true
is_recovery status = false
is_recovery crash = false
is_recovery speed = false
is_recovery start = false
is_recovery print_log = false
is_recovery entry = false

-- The speed after a request with that message.
abbrev pub speed_after : ControllerRequestType → Text → SpeedType → SpeedType
speed_after speed message s = get_speed_type message
speed_after status message s = s
speed_after crash message s = s
speed_after start message s = s
speed_after recovery message s = s
speed_after print_log message s = s
speed_after entry message s = s

-- A RECOVERY of the controller.
abbrev pub wakes : Rpc → Bool
wakes (controller_request r) = is_recovery r.request
wakes _ = false

-- The speed after a message: that of a SPEED, and otherwise the same.
abbrev pub speed_heard : Rpc → SpeedType → SpeedType
speed_heard (controller_request r) s = speed_after r.request r.message s
speed_heard _ s = s

-- What a server of that speed that sleeps through the messages to come is like when a RECOVERY
-- wakes it: its speed, and the messages to come; none, if no RECOVERY comes.
abbrev pub woken :
    SpeedType → List (Option RpcResponse) → Option (SpeedType × List (Option RpcResponse))
woken s [] = none
woken s (none ∷ ms) = woken s ms
woken s (some m ∷ ms) = elim (wakes m.rpc) [
  | true ↦ some (s, ms)
  | false ↦ woken (speed_heard m.rpc s) ms
]

-- The server that wakes up: nothing else of it has changed.
abbrev pub awake : Cycle → SpeedType → RpcRecieverReinjecter → Cycle
awake c s r = record c { node = record c.node { rpc_reciever = r; crash = false; clock = s } }

abbrev pub Sleeps : Cycle → Option (SpeedType × List (Option RpcResponse)) → Outcome Cycle → Type 0
Sleeps c none m = m ≡ fault waiting
Sleeps c (some (s, rest)) m =
    (r : RpcRecieverReinjecter) × (m ≡ ok (awake c s r)) × (upcoming r ≡ rest)

-- The state of a server that sleeps.
abbrev asleep : Cycle → SpeedType → RpcRecieverReinjecter → Cycle
asleep c s r = record c { node = record c.node { rpc_reciever = r; crash = true; clock = s } }

module _ (c : Cycle) (loop : Cycle → Outcome Cycle) (bound : ℕ)
    (ends : (s : SpeedType) (r : RpcRecieverReinjecter)
      → pending r < bound
      → loop (awake c s r) ≡ ok (awake c s r))
    (ih : (s : SpeedType) (r : RpcRecieverReinjecter)
      → pending r < bound
      → Sleeps c (woken s (upcoming r)) (loop (asleep c s r))) where
  request-Sleeps :
      (q : ControllerRequestType) (x : ControllerRequest) (s : SpeedType)
      (r : RpcRecieverReinjecter)
      → pending r < bound
      → Sleeps c
          (elim (is_recovery q) [
            | true ↦ some (s, upcoming r)
            | false ↦ woken (speed_after q x.message s) (upcoming r)
          ])
          (do (_, d) ← handle_request loop q x (asleep c s r); loop d)
  unfolding handle_request
  request-Sleeps recovery x s r h = (r, ends s r h, refl)
  request-Sleeps speed x s r h = ih (get_speed_type x.message) r h
  request-Sleeps status x s r h = ih s r h
  request-Sleeps crash x s r h = ih s r h
  request-Sleeps start x s r h = ih s r h
  request-Sleeps print_log x s r h = ih s r h
  request-Sleeps entry x s r h = ih s r h

  message-Sleeps :
      (m : RpcResponse) (rpc : Rpc) (s : SpeedType) (r : RpcRecieverReinjecter)
      → pending r < bound
      → Sleeps c
          (elim (wakes rpc) [
            | true ↦ some (s, upcoming r)
            | false ↦ woken (speed_heard rpc s) (upcoming r)
          ])
          (crash_message loop rpc (asleep c s r))
  unfolding crash_message
  message-Sleeps m (controller_request x) s r h = request-Sleeps x.request x s r h
  message-Sleeps m _ s r h = ih s r h

  round-Sleeps :
      (arrived : Option (RpcResponse × RpcRecieverReinjecter)) (s : SpeedType)
      (r : RpcRecieverReinjecter)
      → Next (woken s) (λ ms. refl) (upcoming r) arrived
      → ((m : RpcResponse) (r' : RpcRecieverReinjecter)
          → arrived ≡ some (m, r')
          → pending r' < bound)
      → Sleeps c (woken s (upcoming r)) (crash_round loop true arrived (asleep c s r))
  unfolding crash_round
  round-Sleeps none s r next less = rw next refl
  round-Sleeps (some (m, r')) s r next less = rw next (message-Sleeps m m.rpc s r' (less m r' refl))

crash_loop-ends :
    (c : Cycle) (fuel : ℕ)
    → (s : SpeedType) (r : RpcRecieverReinjecter) → pending r < fuel
    → crash_loop fuel (awake c s r) ≡ ok (awake c s r)
unfolding crash_loop crash_round
crash_loop-ends c zero s r h = elim h [ ]
crash_loop-ends c (suc fuel) s r h = refl

pub crash_loop-Sleeps :
    (c : Cycle) (fuel : ℕ)
    → (s : SpeedType) (r : RpcRecieverReinjecter) → pending r < fuel
    → Sleeps c (woken s (upcoming r)) (crash_loop fuel (asleep c s r))
unfolding crash_loop
crash_loop-Sleeps c zero s r h = elim h [ ]
crash_loop-Sleeps c (suc fuel) s r h =
    round-Sleeps c (crash_loop fuel) fuel (crash_loop-ends c fuel) (crash_loop-Sleeps c fuel)
      (get_rpc_blocking r) s r (get_rpc_blocking-Next (woken s) (λ ms. refl) r)
      (λ m r' e. omega (arith, get_rpc_blocking-pending r m r' e))
