-- ===== src/Reciever/Fifo.antt =====
-- The messages that a process reads, in order.
use raft_algorep.Base.{
  All, length, drop, Bool, false, ◌+◌, sym, arith, ℕ, zero, suc, List, [], ◌∷◌, ◌++◌, map, Option,
  none, some, ◌≡◌, refl, ap, ◌∙◌,
}
use raft_algorep.Rpc.{RpcResponse}
use raft_algorep.Reciever.{
  first_arrival, get_blocking_from, get_rpc_blocking, RpcRecieverReinjecter, reinject_rpc, get_from,
  get_now, get_rpc, get_rpc_timeout, pending,
}

-- What the calls to come return: the messages put back, the oldest first, then the network's.
abbrev pub upcoming : RpcRecieverReinjecter → List (Option RpcResponse)
upcoming r = map some r.reinjected_messages ++ r.network

-- The results of the next calls; nothing more arrives when the schedule is over.
abbrev pub first_results : ℕ → List (Option RpcResponse) → List (Option RpcResponse)
first_results zero ms = []
first_results (suc n) [] = none ∷ first_results n []
first_results (suc n) (m ∷ ms) = m ∷ first_results n ms

-- As many calls of get_rpc_timeout, one after the other.
abbrev pub reads : ℕ → RpcRecieverReinjecter → List (Option RpcResponse)
reads zero r = []
reads (suc n) r = let (m, r') = get_rpc_timeout r in m ∷ reads n r'

reads-upcoming :
    (n : ℕ) (queue : List RpcResponse) (net : List (Option RpcResponse))
    → reads n (record { reinjected_messages = queue; network = net })
      ≡ first_results n (map some queue ++ net)
unfolding get_rpc_timeout get_from
reads-upcoming zero queue net = refl
reads-upcoming (suc n) [] [] = ap (◌∷◌ none) (reads-upcoming n [] [])
reads-upcoming (suc n) [] (m ∷ net) = ap (◌∷◌ m) (reads-upcoming n [] net)
reads-upcoming (suc n) (m ∷ queue) net = ap (◌∷◌ (some m)) (reads-upcoming n queue net)

upcoming-append :
    (queue : List RpcResponse) (m : RpcResponse) (net : List (Option RpcResponse))
    → map some (queue ++ m ∷ []) ++ net ≡ map some queue ++ some m ∷ net
upcoming-append [] m net = refl
upcoming-append (x ∷ queue) m net = ap (◌∷◌ (some x)) (upcoming-append queue m net)

-- What each of the three readers does: they take `first` and leave `rest`, whatever MPI has.
abbrev pub AllTake : RpcRecieverReinjecter → RpcResponse → RpcRecieverReinjecter → Type 0
AllTake r first rest =
    ((waits : Bool) → get_rpc waits r ≡ (some first, rest))
    × (get_rpc_timeout r ≡ (some first, rest))
    × (get_rpc_blocking r ≡ some (first, rest))

takes_front :
    (queue : List RpcResponse) (m : RpcResponse) (net : List (Option RpcResponse))
    → (first : RpcResponse) × (rest : RpcRecieverReinjecter) × AllTake
        (record { reinjected_messages = queue ++ m ∷ []; network = net })
        first
        rest
      × (upcoming rest ≡ drop 1 (map some queue ++ some m ∷ net))
unfolding get_rpc get_rpc_timeout get_rpc_blocking get_now get_from get_blocking_from
takes_front [] m net =
    (m, record { reinjected_messages = []; network = net }, ((λ w. refl), refl, refl), refl)
takes_front (x ∷ queue) m net = (
  x,
  record { reinjected_messages = queue ++ m ∷ []; network = net },
  ((λ w. refl), refl, refl),
  upcoming-append queue m net,
)

nothing_now : (r : RpcRecieverReinjecter) → r.reinjected_messages ≡ [] → get_rpc false r ≡ (none, r)
unfolding get_rpc get_now
nothing_now r e = rw e refl

-- A message that is put back is read after those put back before it and before all that arrives
-- on the network: any number of calls of get_rpc_timeout return the messages in that order. As
-- long as a message is put back, get_rpc, get_rpc_timeout and get_rpc_blocking take the same one,
-- the oldest, whether or not MPI has a message waiting; and get_rpc, with none put back and none
-- waiting, returns null and leaves what is to come.
pub reinject_rpc-reads :
    (n : ℕ) (m : RpcResponse) (r : RpcRecieverReinjecter)
    → (reads n (reinject_rpc m r)
        ≡ first_results n (map some r.reinjected_messages ++ some m ∷ r.network))
      × (reads n r ≡ first_results n (upcoming r))
      × ((first : RpcResponse) × (rest : RpcRecieverReinjecter) × AllTake
            (reinject_rpc m r)
            first
            rest
          × (upcoming rest ≡ drop 1 (map some r.reinjected_messages ++ some m ∷ r.network)))
      × (r.reinjected_messages ≡ [] → get_rpc false r ≡ (none, r))
unfolding reinject_rpc
reinject_rpc-reads n m r = (
  reads-upcoming n (r.reinjected_messages ++ m ∷ []) r.network
      ∙ ap (first_results n) (upcoming-append r.reinjected_messages m r.network),
  reads-upcoming n r.reinjected_messages r.network,
  takes_front r.reinjected_messages m r.network,
  nothing_now r,
)

read_parts :
    (queue : List RpcResponse) (net : List (Option RpcResponse)) (m : Option RpcResponse)
    (rest : List (Option RpcResponse))
    → map some queue ++ net ≡ m ∷ rest
    → (r : RpcRecieverReinjecter) × (get_from queue net ≡ (m, r)) × (upcoming r ≡ rest)
unfolding get_from
read_parts [] [] m rest e = cc
read_parts [] (x ∷ net) m rest e =
    let x_m : x ≡ m = cc in
    let r : RpcRecieverReinjecter = record { reinjected_messages = []; network = net } in
    (r, ap (λ y. (y, r)) x_m, cc)
read_parts (x ∷ queue) net m rest e =
    let x_m : some x ≡ m = cc in
    let r : RpcRecieverReinjecter = record { reinjected_messages = queue; network = net } in
    (r, ap (λ y. (y, r)) x_m, cc)

-- A read takes off the first message to come.
pub read-upcoming :
    (r : RpcRecieverReinjecter) (m : Option RpcResponse) (rest : List (Option RpcResponse))
    → upcoming r ≡ m ∷ rest
    → (r' : RpcRecieverReinjecter) × (get_rpc_timeout r ≡ (m, r')) × (upcoming r' ≡ rest)
unfolding get_rpc_timeout
read-upcoming r m rest e = read_parts r.reinjected_messages r.network m rest e

length-upcoming :
    (queue : List RpcResponse) (net : List (Option RpcResponse))
    → length (map some queue ++ net) ≡ length queue + length net
length-upcoming [] net = omega arith
length-upcoming (x ∷ queue) net = omega (arith, length-upcoming queue net)

pub pending-upcoming : (r : RpcRecieverReinjecter) → pending r ≡ length (upcoming r)
pending-upcoming r = sym (length-upcoming r.reinjected_messages r.network)

-- What holds of all messages to come holds of those that are read and of the rest.
module _ (Q : Option RpcResponse → Type 0) where
  abbrev pub ToCome : RpcRecieverReinjecter → Type 0
  ToCome r = All Q (upcoming r)

  get_from-ToCome :
      (queue : List RpcResponse) (net : List (Option RpcResponse))
      → Q none
      → All Q (map some queue ++ net)
      → Q (get_from queue net).0 × ToCome (get_from queue net).1
  unfolding get_from
  get_from-ToCome [] [] q h = (q, tt)
  get_from-ToCome [] (m ∷ net) q h = (h.0, h.1)
  get_from-ToCome (m ∷ queue) net q h = (h.0, h.1)

  pub get-ToCome :
      (r : RpcRecieverReinjecter)
      → Q none
      → ToCome r
      → Q (get_rpc_timeout r).0 × ToCome (get_rpc_timeout r).1
  unfolding get_rpc_timeout
  get-ToCome r q h = get_from-ToCome r.reinjected_messages r.network q h

  pub reinject-ToCome :
      (m : RpcResponse) (r : RpcRecieverReinjecter)
      → Q (some m)
      → ToCome r
      → ToCome (reinject_rpc m r)
  unfolding reinject_rpc
  reinject-ToCome m r q h =
      rw (upcoming-append r.reinjected_messages m r.network) (insert r.reinjected_messages h)
    where
      insert :
          (queue : List RpcResponse)
          → All Q (map some queue ++ r.network)
          → All Q (map some queue ++ some m ∷ r.network)
      insert [] k = (q, k)
      insert (x ∷ queue) k = (k.0, insert queue k.1)

  first_arrival-ToCome :
      (net : List (Option RpcResponse)) (m : RpcResponse) (r : RpcRecieverReinjecter)
      → All Q net
      → first_arrival net ≡ some (m, r)
      → Q (some m) × ToCome r
  unfolding first_arrival
  first_arrival-ToCome [] m r h e = cc
  first_arrival-ToCome (none ∷ net) m r h e = first_arrival-ToCome net m r h.1 e
  first_arrival-ToCome (some x ∷ net) m r h e =
      let x_m : x ≡ m = cc in
      let rest : record { reinjected_messages = []; network = net } ≡ r = cc in
      (rw (← x_m) h.0, rw (← rest) h.1)

  blocking_from-ToCome :
      (queue : List RpcResponse) (net : List (Option RpcResponse)) (m : RpcResponse)
      (r : RpcRecieverReinjecter)
      → All Q (map some queue ++ net)
      → get_blocking_from queue net ≡ some (m, r)
      → Q (some m) × ToCome r
  unfolding get_blocking_from
  blocking_from-ToCome [] net m r h e = first_arrival-ToCome net m r h e
  blocking_from-ToCome (x ∷ queue) net m r h e =
      let x_m : x ≡ m = cc in
      let rest : record { reinjected_messages = queue; network = net } ≡ r = cc in
      (rw (← x_m) h.0, rw (← rest) h.1)

  pub blocking-ToCome :
      (r : RpcRecieverReinjecter) (m : RpcResponse) (r' : RpcRecieverReinjecter)
      → ToCome r
      → get_rpc_blocking r ≡ some (m, r')
      → Q (some m) × ToCome r'
  unfolding get_rpc_blocking
  blocking-ToCome r m r' h e = blocking_from-ToCome r.reinjected_messages r.network m r' h e
