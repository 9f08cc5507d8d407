-- ===== src/Election/Quorum.antt =====
-- Two majorities of the nodes have a node in common.
use raft_algorep.Base.{
  ℕ, suc, ◌+◌, ◌/◌, ◌<◌, ◌≤◌, Bool, true, false, List, [], ◌∷◌, some, length, get_elem?, ◌≡◌, refl,
  arith,
}
use raft_algorep.Candidate.Tally.{count_true}

-- A slot that is marked in both lists.
abbrev pub Common : List Bool → List Bool → Type 0
Common xs ys = (i : ℕ) × (get_elem? xs i ≡ some true) × (get_elem? ys i ≡ some true)

later_slot : (x y : Bool) (xs ys : List Bool) → Common xs ys → Common (x ∷ xs) (y ∷ ys)
later_slot x y xs ys (i, p, q) = (suc i, p, q)

count_true-le : (xs : List Bool) → count_true xs ≤ length xs
count_true-le [] = omega arith
count_true-le (true ∷ xs) = omega (arith, count_true-le xs)
count_true-le (false ∷ xs) = omega (arith, count_true-le xs)

overlap :
    (xs ys : List Bool)
    → length xs ≡ length ys
    → length xs < count_true xs + count_true ys
    → Common xs ys
overlap [] [] same h = absurd (omega arith)
overlap [] (y ∷ ys) same h = absurd (omega arith)
overlap (x ∷ xs) [] same h = absurd (omega arith)
overlap (true ∷ xs) (true ∷ ys) same h = (0, refl, refl)
overlap (true ∷ xs) (false ∷ ys) same h =
    later_slot true false xs ys (overlap xs ys (omega arith) (omega arith))
overlap (false ∷ xs) (y ∷ ys) same h =
    later_slot false y xs ys (overlap xs ys (omega arith) (fewer y h))
  where
    fewer :
        (b : Bool)
        → suc (length xs) < count_true xs + count_true (b ∷ ys)
        → length xs < count_true xs + count_true ys
    fewer true k = omega arith
    fewer false k = omega arith

pub majorities_overlap :
    (n : ℕ) (xs ys : List Bool)
    → length xs ≡ n
    → length ys ≡ n
    → n / 2 < count_true xs
    → n / 2 < count_true ys
    → Common xs ys
majorities_overlap n xs ys xs_length ys_length p q = overlap xs ys (omega arith) (omega arith)
