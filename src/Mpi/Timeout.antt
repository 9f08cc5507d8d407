-- ===== src/Mpi/Timeout.antt =====
-- The loop of MPI::Recv_Rpc_Timeout.
use raft_algorep.Base.{
  ℤ, pos, ◌≤ℤ◌, ◌<ℤ◌, Bool, true, false, List, [], ◌∷◌, ◌++◌, Option, none, some, Outcome, ok,
  fault, ◌>>=◌, ltb_ℤ, All, ◌⊎◌, inl, inr, ◌≡◌, ◌≢◌, refl, ap, arith,
}
use raft_algorep.Rpc.{RpcResponse}
use raft_algorep.Json.{JsonLib}
use raft_algorep.Mpi.{Poll, next_round, recv_rpc, recv_rpc_timeout}

module _ (L : JsonLib) (timeout : ℤ) where
  -- A round after which the loop goes on.
  abbrev pub IsQuiet : Poll → Type 0
  IsQuiet p = (recv_rpc L p.incoming ≡ ok none) × (pos p.count_time ≤ℤ timeout)

  abbrev pub IsLate : Poll → Type 0
  IsLate p = timeout <ℤ pos p.count_time

  -- The call's last round: what it received, if anything, is the result, also when it is late;
  -- without a message it is late.
  abbrev pub IsLast : Poll → Outcome (Option RpcResponse) → Type 0
  IsLast p r = (recv_rpc L p.incoming ≡ r) × ((r ≢ ok none) ⊎ IsLate p)

  abbrev pub HasLate : List Poll → Type 0
  HasLate [] = ⊥
  HasLate (p ∷ ps) = IsLate p ⊎ HasLate ps

  -- The schedule splits at the last round of a call, whose result is `r`.
  Split : List Poll → Outcome (Option RpcResponse) → Type 0
  Split ps r =
      (quiet : List Poll) × (p : Poll) × (rest : List Poll) × (ps ≡ quiet ++ p ∷ rest)
      × All IsQuiet quiet
      × IsLast p r

  split_later :
      (p : Poll) (ps : List Poll) (r : Outcome (Option RpcResponse))
      → IsQuiet p
      → Split ps r
      → Split (p ∷ ps) r
  unfolding Split
  split_later p ps r h (quiet, last, rest, e, quiet_IsQuiet, last_IsLast) =
      (p ∷ quiet, last, rest, ap (◌∷◌ p) e, (h, quiet_IsQuiet), last_IsLast)

  split_here :
      (p : Poll) (ps : List Poll) (r : Outcome (Option RpcResponse)) → IsLast p r → Split (p ∷ ps) r
  unfolding Split
  split_here p ps r h = ([], p, ps, refl, tt, h)

  split_round :
      (p : Poll) (ps : List Poll) (r : Outcome (Option RpcResponse)) (late : Bool)
      (rest : Outcome (Option RpcResponse))
      → recv_rpc L p.incoming ≡ r
      → ltb_ℤ timeout (pos p.count_time) ≡ late
      → (late ≡ false → Split ps rest)
      → Split (p ∷ ps) (r >>= λ m. next_round m late rest)
  split_round p ps (fault e) late rest h l later = split_here p ps (fault e) (h, inl (λ same. cc))
  split_round p ps (ok (some m)) late rest h l later =
      split_here p ps (ok (some m)) (h, inl (λ same. cc))
  split_round p ps (ok none) true rest h l later =
      split_here p ps (ok none) (h, inr (ground (arith, l)))
  split_round p ps (ok none) false rest h l later =
      split_later p ps rest (h, ground (arith, l)) (later refl)

  -- If a round of the schedule is later than the time-out, then the call ends: the rounds before
  -- its last one received nothing and were not late, and it ends as the receive of its last round
  -- does, which gave a message or a fault, or was late.
  pub recv_rpc_timeout_ends :
      (ps : List Poll)
      → HasLate ps
      → (quiet : List Poll) × (p : Poll) × (rest : List Poll) × (ps ≡ quiet ++ p ∷ rest)
        × All IsQuiet quiet
        × IsLast p (recv_rpc_timeout L timeout ps)
  unfolding recv_rpc_timeout Split
  recv_rpc_timeout_ends [] h = elim h [ ]
  recv_rpc_timeout_ends (p ∷ ps) h =
      split_round p ps (recv_rpc L p.incoming) (ltb_ℤ timeout (pos p.count_time))
        (recv_rpc_timeout L timeout ps) refl refl
        (λ early. recv_rpc_timeout_ends ps (later_one h early))
    where
      later_one : HasLate (p ∷ ps) → ltb_ℤ timeout (pos p.count_time) ≡ false → HasLate ps
      later_one (inl late) early = absurd (ground (arith, early, late))
      later_one (inr rest) early = rest
