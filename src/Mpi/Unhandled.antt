-- ===== src/Mpi/Unhandled.antt =====
-- What MPI::Recv_Rpc does with the number of a type that its switch has no case for.
use raft_algorep.Base.{
  ℕ, zero, suc, ℤ, pos, negsuc, ◌<ℤ◌, ◌≤ℤ◌, List, [], ◌∷◌, none, some, ok, fault, unhandled, Text,
  get_elem?, get_at?, length, ◌≤◌, ◌⊎◌, ◌≡◌, ◌≢◌, refl, arith,
}
use raft_algorep.Clock.{codes}
use raft_algorep.Json.{JsonLib}
use raft_algorep.Rpc.Codec.{message_types, type_names, get_type_name}
use raft_algorep.Mpi.{any_message_waiting, c_string, received, recv_rpc}

get_elem?-none {ℓ} : {A : Type ℓ} (xs : List A) (i : ℕ) → length xs ≤ i → get_elem? xs i ≡ none
get_elem?-none [] i h = refl
get_elem?-none (x ∷ xs) zero h = elim h [ ]
get_elem?-none (x ∷ xs) (suc i) h = get_elem?-none xs i (omega arith)

get_at?-none {ℓ} :
    {A : Type ℓ} (xs : List A) (n : ℤ) → (n <ℤ pos 0) ⊎ (pos (length xs) ≤ℤ n) → get_at? xs n ≡ none
get_at?-none xs (negsuc i) h = refl
get_at?-none xs (pos i) h = get_elem?-none xs i (ground arith)

module _ (L : JsonLib) where
  received-unhandled :
      (bytes : Text) (j field : L.Json) (n : ℤ)
      → L.parse (c_string bytes) ≡ ok j
      → L.member j (codes "type") ≡ ok field
      → L.get_enum field ≡ ok n
      → (n <ℤ pos 0) ⊎ (pos 9 ≤ℤ n)
      → received L bytes ≡ fault (unhandled (codes "Unhandled message type: Unkown Name"))
  unfolding received get_type_name
  received-unhandled bytes j field n parsed found read unknown =
      rw
        (
          parsed,
          found,
          read,
          get_at?-none message_types n unknown,
          get_at?-none type_names n unknown,
        )
        refl

  -- If bytes are JSON whose "type" is a number that is none of the nine types', then receiving them
  -- throws the std::runtime_error "Unhandled message type: Unkown Name".
  pub recv_rpc-unhandled :
      (source : ℕ) (bytes : Text) (j field : L.Json) (n : ℤ)
      → bytes ≢ []
      → L.parse (c_string bytes) ≡ ok j
      → L.member j (codes "type") ≡ ok field
      → L.get_enum field ≡ ok n
      → (n <ℤ pos 0) ⊎ (pos 9 ≤ℤ n)
      → recv_rpc L (some (record { source = source; bytes = bytes }))
        ≡ fault (unhandled (codes "Unhandled message type: Unkown Name"))
  unfolding recv_rpc any_message_waiting
  recv_rpc-unhandled source [] j field n not_empty parsed found read unknown =
      absurd (not_empty refl)
  recv_rpc-unhandled source (c ∷ cs) j field n not_empty parsed found read unknown =
      rw (received-unhandled (c ∷ cs) j field n parsed found read unknown) refl
