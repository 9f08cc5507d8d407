-- ===== src/Follower/Again.antt =====
-- A leader that has committed less than its follower: FollowerCycle::handle_append_entries moves
-- the commit index back to the leader's.
use raft_algorep.Base.{
  ℕ, ◌-◌, ◌<◌, ◌≤◌, pos_part, neg_part, ◌<ℤ◌, int_laws, Bool-cases, List, ◌++◌, append-nil, ok, ◌≡◌,
  refl, sym, ap, ◌∙◌, arith, inl, inr,
}
use raft_algorep.Rpc.{Entry, AppendEntries}
use raft_algorep.Node.{Node}
use raft_algorep.Follower.{is_empty, handle_append_entries}
use raft_algorep.Follower.Append.{save_slice}
use raft_algorep.Follower.Accept.{Acceptable, updated, replied, handle_append_entries-accepts}

-- The follower after it has accepted a message.
abbrev pub accepted : ℕ → AppendEntries → Node → ℕ → ℕ → ℕ → Node
accepted sender m n k a b = replied sender m (updated sender m n k a b)

replied-same :
    (sender : ℕ) (m : AppendEntries) (n : Node)
    → ((replied sender m n).commit_index ≡ n.commit_index)
      × ((replied sender m n).saved ≡ n.saved)
      × ((replied sender m n).logs ≡ n.logs)
replied-same sender m n = elim (Bool-cases (is_empty m.entries)) [
  | inl e ↦ rw e (refl, refl, refl)
  | inr e ↦ rw e (refl, refl, refl)
]

-- What a follower has saved is not saved again for a leader that has committed less.
save_slice-none :
    (a b : ℕ) (saved logs : List Entry) → b ≤ a → saved ++ save_slice (b - a) a logs ≡ saved
save_slice-none a b saved logs h = let e : b - a ≡ 0 = omega arith in rw e (append-nil saved)

-- A follower that has committed a entries and accepts a message of a leader that has committed
-- fewer, b, moves its commit index back and writes nothing to its file; when it then accepts a
-- message that commits b' entries, it appends to the file the entries from b, not from a, up to b'.
pub handle_append_entries-saves_again :
    (sender sender' : ℕ) (m m' : AppendEntries) (n : Node) (k k' a b b' : ℕ)
    → Acceptable m n k a b
    → b < a
    → Acceptable m' (accepted sender m n k a b) k' b b'
    → (n₁ : Node) × (n₂ : Node) × (handle_append_entries sender m n ≡ ok n₁)
      × (handle_append_entries sender' m' n₁ ≡ ok n₂)
      × (n₁.commit_index <ℤ n.commit_index)
      × (n₂.saved ≡ n.saved ++ save_slice (b' - b) b n₂.logs)
handle_append_entries-saves_again sender sender' m m' n k k' a b b' h lt h' = (
  n₁,
  accepted sender' m' n₁ k' b b',
  handle_append_entries-accepts sender m n k a b h,
  handle_append_entries-accepts sender' m' n₁ k' b b' h',
  falls,
  second.1
      ∙ ap (λ l. n₁.saved ++ save_slice (b' - b) b l) (sym second.2)
      ∙ ap (λ s. s ++ save_slice (b' - b) b (accepted sender' m' n₁ k' b b').logs) nothing_saved,
)
  where
    n₁ : Node
    n₁ = accepted sender m n k a b

    first :
        (n₁.commit_index ≡ m.leader_commit)
        × (n₁.saved ≡ (updated sender m n k a b).saved)
        × (n₁.logs ≡ (updated sender m n k a b).logs)
    first = replied-same sender m (updated sender m n k a b)

    falls : n₁.commit_index <ℤ n.commit_index
    falls = rw first.0 (
        omega (
          int_laws,
          ap pos_part h.leader_commit,
          ap neg_part h.leader_commit,
          ap pos_part h.own_commit,
          ap neg_part h.own_commit,
          lt,
        ))

    nothing_saved : n₁.saved ≡ n.saved
    nothing_saved = first.1 ∙ save_slice-none a b n.saved _ (omega arith)

    second :
        ((accepted sender' m' n₁ k' b b').commit_index ≡ m'.leader_commit)
        × ((accepted sender' m' n₁ k' b b').saved ≡ (updated sender' m' n₁ k' b b').saved)
        × ((accepted sender' m' n₁ k' b b').logs ≡ (updated sender' m' n₁ k' b b').logs)
    second = replied-same sender' m' (updated sender' m' n₁ k' b b')
