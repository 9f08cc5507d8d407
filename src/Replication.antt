-- ===== src/Replication.antt =====
-- The leader and a follower together: LeaderCycle::send_update_to_follower produces what
-- FollowerCycle::handle_append_entries accepts.
use raft_algorep.Base.{
  ℕ, zero, suc, ◌+◌, ◌-◌, ◌≤◌, ◌<◌, pos, ◌+ℤ◌, ◌-ℤ◌, ◌≤ℤ◌, int_laws, add-sub_one, Bool-cases, List,
  [], ◌∷◌, ◌++◌, some, ok, length, take, drop, get_elem?, get_at?, length-take, length-drop,
  take-append-drop, get_elem?-lt, ◌≡◌, refl, sym, ap, ◌∙◌, arith, subst, inl, inr,
}
use raft_algorep.Config.{GlobalConfig}
use raft_algorep.Rpc.{Entry, AppendEntries}
use raft_algorep.Node.{Node}
use raft_algorep.Follower.{is_empty, handle_append_entries}
use raft_algorep.Follower.Append.{IsIndexedFrom, save_slice}
use raft_algorep.Follower.Accept.{
  HasPrev, Acceptable, updated, success_reply, replied, handle_append_entries-accepts,
}
use raft_algorep.Leader.{entries_from, prev_term, update_message}

IsIndexedFrom-drop :
    (k i : ℕ) (l : List Entry) → IsIndexedFrom i l → IsIndexedFrom (i + k) (drop k l)
IsIndexedFrom-drop zero i l h = subst (λ j. IsIndexedFrom j l) (omega arith) h
IsIndexedFrom-drop (suc k) i [] h = tt
IsIndexedFrom-drop (suc k) i (e ∷ l) h =
    subst (λ j. IsIndexedFrom j (drop k l)) (omega arith) (IsIndexedFrom-drop k (suc i) l h.1)

get_elem?-take : (k j : ℕ) (l : List Entry) → j < k → get_elem? (take k l) j ≡ get_elem? l j
get_elem?-take zero j l h = elim h [ ]
get_elem?-take (suc k) j [] h = refl
get_elem?-take (suc k) zero (e ∷ l) h = refl
get_elem?-take (suc k) (suc j) (e ∷ l) h = get_elem?-take k j l (omega arith)

module _ (g : GlobalConfig) (dst : ℕ) (l : Node) (k : ℕ) where
  -- The update for a node whose `nextIndex` is k.
  abbrev pub update_from : AppendEntries
  update_from = record {
    term = l.term;
    leader_id = g.rank;
    prev_log_index = pos k -ℤ pos 1;
    prev_log_term = prev_term (get_at? l.logs (pos k -ℤ pos 1));
    leader_commit = l.commit_index;
    entries = drop k l.logs;
  }

  update_message_lem :
      get_elem? l.next_index (dst - g.nb_node_min) ≡ some (pos k)
      → update_message g dst l ≡ ok update_from
  unfolding update_message entries_from
  update_message_lem e = rw (e, add-sub_one (pos k)) refl

  -- What is known of a leader and of a follower that agree on the first k entries.
  pub record InStep (f : Node) (a b : ℕ) : Type 0 where
    pub next : get_elem? l.next_index (dst - g.nb_node_min) ≡ some (pos k)
    pub known : k ≤ length l.logs
    pub indexed : IsIndexedFrom 0 l.logs
    pub leader_commit : l.commit_index +ℤ pos 1 ≡ pos b
    pub committed : b ≤ length l.logs
    pub not_newer : f.term ≤ℤ l.term
    pub agree : take k f.logs ≡ take k l.logs
    pub own_commit : f.commit_index +ℤ pos 1 ≡ pos a

same_entry :
    (l f : Node) (j : ℕ) (x : Entry)
    → take (suc j) f.logs ≡ take (suc j) l.logs
    → get_elem? l.logs j ≡ some x
    → get_elem? f.logs j ≡ some x
same_entry l f j x e at =
    sym (get_elem?-take (suc j) j f.logs (omega arith))
    ∙ ap (λ xs. get_elem? xs j) e
    ∙ get_elem?-take (suc j) j l.logs (omega arith)
    ∙ at

prev_term_lem :
    (l : Node) (j : ℕ) (x : Entry)
    → get_elem? l.logs j ≡ some x
    → x.term ≡ prev_term (get_at? l.logs (pos (suc j) -ℤ pos 1))
unfolding prev_term
prev_term_lem l j x at = let e : pos (suc j) -ℤ pos 1 ≡ pos j = omega int_laws in rw (e, at) refl

has_prev :
    (g : GlobalConfig) (dst : ℕ) (l f : Node) (k : ℕ)
    → k ≤ length l.logs
    → take k f.logs ≡ take k l.logs
    → HasPrev k (update_from g dst l k) f.logs
has_prev g dst l f zero h e = tt
has_prev g dst l f (suc j) h e =
    let (x, at) = get_elem?-lt l.logs j h in (x, same_entry l f j x e at, prev_term_lem l j x at)

InStep-Acceptable :
    (g : GlobalConfig) (dst : ℕ) (l : Node) (k : ℕ) (f : Node) (a b : ℕ)
    → InStep g dst l k f a b
    → Acceptable (update_from g dst l k) f k a b
InStep-Acceptable g dst l k f a b s = record {
  current = s.not_newer;
  starts = add-sub_one (pos k);
  fits =
      omega (
        arith,
        ap (length {0}) s.agree,
        length-take {0} k f.logs,
        length-take {0} k l.logs,
        s.known,
      );
  has_prev = has_prev g dst l f k s.known s.agree;
  indexed =
      subst (λ j. IsIndexedFrom j (drop k l.logs)) (omega arith)
        (IsIndexedFrom-drop k 0 l.logs s.indexed);
  own_commit = s.own_commit;
  leader_commit = s.leader_commit;
  in_log = omega (arith, length-drop {0} k l.logs, s.committed);
}

whole_log : (k : ℕ) (l f : List Entry) → take k f ≡ take k l → take k f ++ drop k l ≡ l
whole_log k l f e = ap (λ xs. xs ++ drop k l) e ∙ take-append-drop k l

replied_cases :
    (P : Node → Type 0) (sender : ℕ) (m : AppendEntries) (n : Node)
    → P n
    → P (record n { sent = n.sent ++ success_reply sender n ∷ [] })
    → P (replied sender m n)
replied_cases P sender m n silent answered = elim (Bool-cases (is_empty m.entries)) [
  | inl e ↦ rw e silent
  | inr e ↦ rw e answered
]

abbrev AfterUpdate : Node → Node → ℕ → ℕ → Node → Type 0
AfterUpdate l f a b f' =
    (f'.logs ≡ l.logs)
    × (f'.commit_index ≡ l.commit_index)
    × (f'.saved ≡ f.saved ++ save_slice (b - a) a l.logs)
    × (f'.term ≡ f.term)
    × (f'.voted_for ≡ f.voted_for)

-- If a leader with a well-indexed log and a follower of no later term have the same first k
-- entries, where k is the leader's nextIndex for the follower, then the update that the leader
-- sends is handled by the follower without a fault: afterwards the follower has the leader's whole
-- log and commit index, it has appended to its file exactly the entries between the two commit
-- indices, and it still has its term and vote.
pub update-replicates :
    (g : GlobalConfig) (dst : ℕ) (l : Node) (k : ℕ) (f : Node) (a b : ℕ)
    → InStep g dst l k f a b
    → (m : AppendEntries) × (f' : Node) × (update_message g dst l ≡ ok m)
      × (handle_append_entries g.rank m f ≡ ok f')
      × (f'.logs ≡ l.logs)
      × (f'.commit_index ≡ l.commit_index)
      × (f'.saved ≡ f.saved ++ save_slice (b - a) a l.logs)
      × (f'.term ≡ f.term)
      × (f'.voted_for ≡ f.voted_for)
update-replicates g dst l k f a b s = (
  m,
  replied g.rank m f₁,
  update_message_lem g dst l k s.next,
  handle_append_entries-accepts g.rank m f k a b (InStep-Acceptable g dst l k f a b s),
  after.0,
  after.1,
  after.2,
  after.3,
  after.4,
)
  where
    m : AppendEntries
    m = update_from g dst l k

    f₁ : Node
    f₁ = updated g.rank m f k a b

    whole : f₁.logs ≡ l.logs
    whole = whole_log k l.logs f.logs s.agree

    file : f₁.saved ≡ f.saved ++ save_slice (b - a) a l.logs
    file = ap (λ xs. f.saved ++ save_slice (b - a) a xs) whole

    after : AfterUpdate l f a b (replied g.rank m f₁)
    after =
        replied_cases (AfterUpdate l f a b) g.rank m f₁ (whole, refl, file, refl, refl)
          (whole, refl, file, refl, refl)
