-- ===== src/Leader/Bounded.antt =====
-- A leader whose followers are known to hold no more than its own log is ready for the commit loop.
use raft_algorep.Base.{
  ℕ, zero, suc, ◌+◌, ◌-◌, ◌≤◌, ◌<◌, ℤ, pos, ◌+ℤ◌, ◌<ℤ◌, ◌==◌, ==_iff, Bool-cases, List, [], ◌∷◌,
  Option, none, some, if◌then◌else◌, length, get_elem?, All, All-get, ◌≡◌, refl, arith, leb, leb→le,
  inl, inr,
}
use raft_algorep.Config.{GlobalConfig, ranks_from, node_ranks, nb_node}
use raft_algorep.Node.{Node}
use raft_algorep.Leader.Commit.{holders, holds, HasSlots, Majority, Ready}

-- No match index reaches the length of the log.
abbrev pub Bounded : Node → Type 0
Bounded n = All (λ m. m <ℤ pos (length n.logs)) n.match_index

-- A leader that has committed `a` entries.
pub record Leading (g : GlobalConfig) (n : Node) (a : ℕ) : Type 0 where
  pub others : 2 ≤ nb_node g
  pub committed : n.commit_index +ℤ pos 1 ≡ pos a
  pub in_log : a ≤ length n.logs
  pub match_slots : length n.match_index ≡ nb_node g
  pub next_slots : length n.next_index ≡ nb_node g
  pub bounded : Bounded n

module _ (g : GlobalConfig) where
  slots_from :
      (count first : ℕ) (matched : List ℤ)
      → (first - g.nb_node_min) + count ≤ length matched
      → g.nb_node_min ≤ first
      → HasSlots g matched (ranks_from count first)
  unfolding ranks_from
  slots_from zero first matched h k = tt
  slots_from (suc count) first matched h k =
      (omega arith, slots_from count (first + 1) matched (omega arith) (omega arith))

  Leading-HasSlots : (n : Node) (a : ℕ) → Leading g n a → HasSlots g n.match_index (node_ranks g)
  unfolding node_ranks
  Leading-HasSlots n a l =
      slots_from (nb_node g) g.nb_node_min n.match_index (omega (arith, l.match_slots))
        (omega arith)

  -- How often this process is among the ranks.
  own_count : List ℕ → ℕ
  own_count [] = 0
  own_count (r ∷ ranks) = (if r == g.rank then 1 else 0) + own_count ranks

  own_count-later : (count first : ℕ) → g.rank < first → own_count (ranks_from count first) ≡ 0
  unfolding own_count ranks_from
  own_count-later zero first h = refl
  own_count-later (suc count) first h =
      ground (arith, own_count-later count (first + 1) (omega arith))

  own_count-le_one : (count first : ℕ) → own_count (ranks_from count first) ≤ 1
  unfolding own_count ranks_from
  own_count-le_one zero first = omega arith
  own_count-le_one (suc count) first = elim (Bool-cases (first == g.rank)) [
    | inl own ↦
        let later =
          own_count-later count (first + 1) (omega (arith, (==_iff first g.rank).0 own)) in
        rw own (omega (arith, later))
    | inr other ↦ rw other (omega (arith, own_count-le_one count (first + 1)))
  ]

  holds-beyond :
      (i l : ℕ) (o : Option ℤ) → ((m : ℤ) → o ≡ some m → m <ℤ pos l) → l ≤ i → holds (pos i) o ≡ 0
  holds-beyond i l none b h = refl
  holds-beyond i l (some m) b h = let lt = b m refl in ground arith

  -- Nobody else holds an entry beyond the log.
  holders-beyond :
      (ranks : List ℕ) (matched : List ℤ) (i l : ℕ)
      → All (λ m. m <ℤ pos l) matched
      → l ≤ i
      → holders g ranks matched (pos i) ≤ own_count ranks
  unfolding holders own_count
  holders-beyond [] matched i l b h = omega arith
  holders-beyond (r ∷ ranks) matched i l b h = ground (
    arith,
    holders-beyond ranks matched i l b h,
    holds-beyond i l (get_elem? matched (r - g.nb_node_min))
        (λ m e. All-get (λ m. m <ℤ pos l) matched (r - g.nb_node_min) m b e) h,
  )

  no_further :
      (n : Node) (a : ℕ) → Leading g n a → (i : ℕ) → Majority g n.match_index i → i < length n.logs
  unfolding node_ranks
  no_further n a l i m = elim (Bool-cases (leb (length n.logs) i)) [
    | inl out ↦ absurd (
        omega (
          arith,
          l.others,
          m,
          holders-beyond (ranks_from (nb_node g) g.nb_node_min) n.match_index i (length n.logs)
              l.bounded (leb→le _ _ out),
          own_count-le_one (nb_node g) g.nb_node_min,
        ))
    | inr inside ↦ ground arith
  ]

  pub Leading-Ready : (n : Node) (a : ℕ) → Leading g n a → Ready g n a
  Leading-Ready n a l = record {
    committed = l.committed;
    in_log = l.in_log;
    slots = Leading-HasSlots n a l;
    no_further = no_further n a l;
  }
