-- ===== src/Client/Intake.antt =====
-- The commands that a client takes from the controller before a receive times out.
use raft_algorep.Base.{
  ℕ, zero, suc, ◌+◌, ◌<◌, Bool-cases, List, [], ◌∷◌, ◌++◌, append-nil, append_assoc, Option, none,
  some, Outcome, Ends-mono, Returns, ◌≡◌, refl, sym, ap, ◌∙◌, inl, inr, arith, subst, Text,
}
use raft_algorep.Rpc.{
  Rpc, controller_request, RpcResponse, ControllerRequestType, status, crash, speed, start,
  recovery, print_log, entry,
}
use raft_algorep.Reciever.{RpcRecieverReinjecter, get_rpc_timeout, pending}
use raft_algorep.Reciever.Queue.{get_rpc_timeout-pending}
use raft_algorep.Reciever.Arrivals.{arrivals, drained, Received, get_rpc_timeout-Received}
use raft_algorep.Client.{
  Client, apply_request, handle_arrival, after_receive, requests_loop, handle_requests, add_request,
  handle_controller_request,
}

-- The command that a message of the controller enters.
abbrev entry_of : ControllerRequestType → Text → List Text
entry_of entry message = message ∷ []
entry_of status message = []
entry_of crash message = []
entry_of start message = []
entry_of speed message = []
entry_of recovery message = []
entry_of print_log message = []

abbrev command_of : Rpc → List Text
command_of (controller_request r) = entry_of r.request r.message
command_of _ = []

-- The commands among the messages, in order.
abbrev pub entered : List RpcResponse → List Text
entered [] = []
entered (m ∷ ms) = command_of m.rpc ++ entered ms

-- A step that takes commands and sends nothing.
abbrev pub Takes : List Text → Client → Client → Type 0
Takes ts c d = (d.request ≡ c.request ++ ts) × (d.sent ≡ c.sent) × (d.leader_id ≡ c.leader_id)

apply_request-Takes :
    (q : ControllerRequestType) (message : Text) (c : Client)
    → Takes (entry_of q message) c (apply_request q message c)
      × ((apply_request q message c).rpc_reciever ≡ c.rpc_reciever)
unfolding apply_request add_request
apply_request-Takes entry message c = ((refl, refl, refl), refl)
apply_request-Takes status message c = ((sym (append-nil c.request), refl, refl), refl)
apply_request-Takes crash message c = elim (Bool-cases c.run) [
  | inl e ↦ rw e ((sym (append-nil c.request), refl, refl), refl)
  | inr e ↦ rw e ((sym (append-nil c.request), refl, refl), refl)
]
apply_request-Takes start message c = elim (Bool-cases c.run) [
  | inl e ↦ rw e ((sym (append-nil c.request), refl, refl), refl)
  | inr e ↦ rw e ((sym (append-nil c.request), refl, refl), refl)
]
apply_request-Takes speed message c = ((sym (append-nil c.request), refl, refl), refl)
apply_request-Takes recovery message c = ((sym (append-nil c.request), refl, refl), refl)
apply_request-Takes print_log message c = ((sym (append-nil c.request), refl, refl), refl)

handle_arrival-Takes :
    (rpc : Rpc) (c : Client)
    → Takes (command_of rpc) c (handle_arrival rpc c)
      × ((handle_arrival rpc c).rpc_reciever ≡ c.rpc_reciever)
unfolding handle_arrival handle_controller_request
handle_arrival-Takes (controller_request r) c = apply_request-Takes r.request r.message c
handle_arrival-Takes _ c = ((sym (append-nil c.request), refl, refl), refl)

Takes-trans :
    (ts us : List Text) (c d e : Client) → Takes ts c d → Takes us d e → Takes (ts ++ us) c e
Takes-trans ts us c d e (r, s, l) (r', s', l') =
    (r' ∙ ap (λ x. x ++ us) r ∙ append_assoc c.request ts us, s' ∙ s, l' ∙ l)

-- All commands that arrive are taken, and nothing is left to read.
abbrev pub Drained : Client → Client → Type 0
Drained c d =
    Takes (entered (arrivals c.rpc_reciever)) c d × (d.rpc_reciever ≡ drained c.rpc_reciever)

module _ (loop : Client → Outcome Client) (fuel : ℕ)
    (ih : (c : Client) → pending c.rpc_reciever < fuel → Returns (Drained c) (loop c)) where
  taken-Drained :
      (m : RpcResponse) (c d : Client) (r : RpcRecieverReinjecter)
      → Received c.rpc_reciever (some m, r)
      → Takes (command_of m.rpc) c d × (d.rpc_reciever ≡ r)
      → pending r < fuel
      → Returns (Drained c) (loop d)
  taken-Drained m c d r (first, left) (t, same) lt =
      Ends-mono _ (Drained d) (Drained c) (loop d) (ih d (rw same lt)) λ e (u, done). (
        rw first (
            Takes-trans (command_of m.rpc) (entered (arrivals r)) c d e t
              (subst (λ q. Takes (entered (arrivals q)) d e) same u)),
        done ∙ ap drained same ∙ left,
      )

  after_receive-Drained :
      (arrived : Option RpcResponse) (c : Client) (r : RpcRecieverReinjecter)
      → Received c.rpc_reciever (arrived, r)
      → ((m : RpcResponse) → arrived ≡ some m → pending r < fuel)
      → Returns (Drained c) (after_receive loop arrived (record c { rpc_reciever = r }))
  unfolding after_receive
  after_receive-Drained none c r (nothing, left) lt =
      (rw nothing (sym (append-nil c.request), refl, refl), left)
  after_receive-Drained (some m) c r h lt =
      taken-Drained m c (handle_arrival m.rpc (record c { rpc_reciever = r })) r h
        (handle_arrival-Takes m.rpc (record c { rpc_reciever = r })) (lt m refl)

requests_loop-Drained :
    (fuel : ℕ) (c : Client)
    → pending c.rpc_reciever < fuel
    → Returns (Drained c) (requests_loop fuel c)
unfolding requests_loop
requests_loop-Drained zero c h = elim h [ ]
requests_loop-Drained (suc fuel) c h =
    after_receive-Drained (requests_loop fuel) fuel (requests_loop-Drained fuel)
      (get_rpc_timeout c.rpc_reciever).0 c (get_rpc_timeout c.rpc_reciever).1
      (get_rpc_timeout-Received c.rpc_reciever)
      (λ m e. omega (arith, get_rpc_timeout-pending c.rpc_reciever m e))

pub handle_requests-Drained : (c : Client) → Returns (Drained c) (handle_requests c)
unfolding handle_requests
handle_requests-Drained c = requests_loop-Drained (pending c.rpc_reciever + 1) c (omega arith)
