-- ===== src/Leader/Commit.antt =====
-- The commit loop of a leader: it stops, and commits exactly what a majority holds.
use raft_algorep.Base.{
  ℕ, zero, suc, ◌+◌, ◌-◌, ◌/◌, ◌≤◌, ◌<◌, ℤ, pos, pos_part, neg_part, ◌+ℤ◌, ◌-ℤ◌, ◌<ℤ◌, leb_ℤ,
  int_laws, lt→ltb, ltb→lt, not_ltb→le, ltb, ◌==◌, ==_iff, true, false, Bool-cases, List, [], ◌∷◌,
  ◌++◌, map, append-nil, append_assoc, Option, none, some, Outcome, ok, if◌then◌else◌, length,
  get_elem?, get_elem?-lt, All, ◌≡◌, refl, sym, ap, ◌∙◌, arith, subst, inl, inr,
}
use raft_algorep.Config.{GlobalConfig, node_ranks, nb_node}
use raft_algorep.Rpc.{Entry, request_client_response, Packet}
use raft_algorep.Node.{Node, send_rpc, save_commit}
use raft_algorep.Follower.Append.{save_slice, drop-get}
use raft_algorep.Leader.{count_holders, update_commit_index, commit_entry, commit_loop}

-- Whether an entry of `matchIndex` is at least `index`.
abbrev pub holds : ℤ → Option ℤ → ℕ
holds index none = 0
holds index (some m) = if leb_ℤ index m then 1 else 0

module _ (g : GlobalConfig) where
  -- How many of the ranks hold the entry at `index`: this process, and those whose match index is
  -- at least that.
  unfoldable pub holders : List ℕ → List ℤ → ℤ → ℕ
  holders [] matched index = 0
  holders (r ∷ ranks) matched index =
      (if r == g.rank then 1 else holds index (get_elem? matched (r - g.nb_node_min)))
      + holders ranks matched index

  -- Each rank has a slot.
  abbrev pub HasSlots : List ℤ → List ℕ → Type 0
  HasSlots matched ranks = All (λ r. r - g.nb_node_min < length matched) ranks

  count_holders_lem :
      (ranks : List ℕ) (index : ℤ) (n : Node)
      → HasSlots n.match_index ranks
      → count_holders g ranks index n ≡ ok (holders ranks n.match_index index)
  unfolding count_holders holders
  count_holders_lem [] index n h = refl
  count_holders_lem (r ∷ ranks) index n h =
      let (m, at) = get_elem?-lt n.match_index (r - g.nb_node_min) h.0 in
      rw (count_holders_lem ranks index n h.1) (ground arith)

  -- More than half of the nodes hold the entry at `i`.
  abbrev pub Majority : List ℤ → ℕ → Type 0
  Majority matched i = nb_node g / 2 < holders (node_ranks g) matched (pos i)

  abbrev answer : Entry → Packet
  answer e = record { rpc = request_client_response true; dest = e.client_id }

  -- The node after it has committed the entries from `a` up to `b`.
  abbrev pub commits : Node → ℕ → ℕ → Node
  commits n a b = record n {
    commit_index = pos b -ℤ pos 1;
    sent = n.sent ++ map answer (save_slice (b - a) a n.logs);
    saved = n.saved ++ save_slice (b - a) a n.logs;
  }

  -- A leader that has committed `a` entries, and whose followers hold no more than its log has.
  pub record Ready (n : Node) (a : ℕ) : Type 0 where
    pub committed : n.commit_index +ℤ pos 1 ≡ pos a
    pub in_log : a ≤ length n.logs
    pub slots : HasSlots n.match_index (node_ranks g)
    pub no_further : (i : ℕ) → Majority n.match_index i → i < length n.logs

  update_commit_lem :
      (n : Node) (a : ℕ)
      → Ready n a
      → update_commit_index g n
        ≡ ok (
            if ltb (nb_node g / 2) (holders (node_ranks g) n.match_index (pos a))
            then (true, record n { commit_index = pos a })
            else (false, n))
  unfolding update_commit_index
  update_commit_lem n a r =
      rw (r.committed, lt→ltb _ _ below, count_holders_lem (node_ranks g) (pos a) n r.slots) refl
    where
      below : n.commit_index <ℤ pos (length n.logs)
      below = omega (int_laws, ap pos_part r.committed, ap neg_part r.committed, r.in_log)

  nothing :
      {A : Type 0} (f : List Entry → List A)
      → f [] ≡ []
      → (a : ℕ) (logs : List Entry) (xs : List A) → xs ≡ xs ++ f (save_slice (a - a) a logs)
  nothing f e a logs xs = let z : a - a ≡ 0 = omega arith in rw (z, e) (sym (append-nil xs))

  stopped : (n : Node) (a : ℕ) → n.commit_index +ℤ pos 1 ≡ pos a → n ≡ commits n a a
  stopped n a e = λ i. record n {
    commit_index = same i;
    sent = nothing (map answer) refl a n.logs n.sent i;
    saved = nothing (λ l. l) refl a n.logs n.saved i;
  }
    where
      same : n.commit_index ≡ pos a -ℤ pos 1
      same = omega (int_laws, ap pos_part e, ap neg_part e)

  -- The node after one round.
  next : Node → ℕ → Entry → Node
  next n a e = record n {
    commit_index = pos a;
    sent = n.sent ++ answer e ∷ [];
    saved = n.saved ++ e ∷ [];
  }

  commit_entry_lem :
      (n : Node) (a : ℕ) (e : Entry)
      → get_elem? n.logs a ≡ some e
      → commit_entry g (record n { commit_index = pos a }) ≡ ok (next n a e)
  unfolding commit_entry next send_rpc save_commit
  commit_entry_lem n a e at = rw at refl

  slice-cons :
      (a b : ℕ) (logs : List Entry) (e : Entry)
      → suc a ≤ b
      → get_elem? logs a ≡ some e
      → save_slice (b - a) a logs ≡ e ∷ save_slice (b - suc a) (suc a) logs
  slice-cons a b logs e h at =
      let z : b - a ≡ suc (b - suc a) = omega arith in rw (z, drop-get a logs e at) refl

  commits-next :
      (n : Node) (a b : ℕ) (e : Entry)
      → suc a ≤ b
      → get_elem? n.logs a ≡ some e
      → commits (next n a e) (suc a) b ≡ commits n a b
  unfolding next
  commits-next n a b e h at = λ i. record n {
    commit_index = pos b -ℤ pos 1;
    sent =
        (append_assoc n.sent (answer e ∷ []) (map answer (save_slice (b - suc a) (suc a) n.logs))
            ∙ ap (λ l. n.sent ++ map answer l) (sym (slice-cons a b n.logs e h at)))
          i;
    saved =
        (append_assoc n.saved (e ∷ []) (save_slice (b - suc a) (suc a) n.logs)
            ∙ ap (λ l. n.saved ++ l) (sym (slice-cons a b n.logs e h at)))
          i;
  }

  next-Ready :
      (n : Node) (a : ℕ) (e : Entry)
      → Ready n a
      → Majority n.match_index a
      → Ready (next n a e) (suc a)
  unfolding next
  next-Ready n a e r m = record {
    committed = omega int_laws;
    in_log = r.no_further a m;
    slots = r.slots;
    no_further = r.no_further;
  }

  -- The entries from `a` up to `b`, and no more, are committed.
  abbrev pub Committed : Node → ℕ → ℕ → Outcome Node → Type 0
  Committed n a b result =
      (result ≡ ok (commits n a b))
      × (a ≤ b)
      × (b ≤ length n.logs)
      × ((i : ℕ) → a ≤ i → i < b → Majority n.match_index i)
      × (¬ Majority n.match_index b)

  loop_stops :
      (fuel : ℕ) (n : Node) (a : ℕ)
      → Ready n a
      → ltb (nb_node g / 2) (holders (node_ranks g) n.match_index (pos a)) ≡ false
      → Committed n a a (commit_loop g (suc fuel) n)
  unfolding commit_loop
  loop_stops fuel n a r no_more = (
    rw (update_commit_lem n a r, no_more) (ap ok (stopped n a r.committed)),
    omega arith,
    r.in_log,
    (λ i lo hi. absurd (omega arith)),
    (λ m. absurd (omega (arith, not_ltb→le _ _ no_more))),
  )

  loop_round :
      (fuel : ℕ) (n : Node) (a : ℕ) (e : Entry)
      → Ready n a
      → ltb (nb_node g / 2) (holders (node_ranks g) n.match_index (pos a)) ≡ true
      → get_elem? n.logs a ≡ some e
      → commit_loop g (suc fuel) n ≡ commit_loop g fuel (next n a e)
  unfolding commit_loop
  loop_round fuel n a e r more at =
      rw (update_commit_lem n a r, more) (rw (commit_entry_lem n a e at) refl)

  loop_goes_on :
      (result : Outcome Node) (n : Node) (a b : ℕ) (e : Entry)
      → Majority n.match_index a
      → get_elem? n.logs a ≡ some e
      → Committed (next n a e) (suc a) b result
      → Committed n a b result
  unfolding next
  loop_goes_on result n a b e m at (r, lo, hi, all, no_more) = (
    r ∙ ap ok (commits-next n a b e lo at),
    omega arith,
    hi,
    (λ i x y. elim (Bool-cases (a == i)) [
      | inl first ↦ subst (Majority n.match_index) ((==_iff a i).0 first) m
      | inr later ↦ all i (ground arith) y
    ]),
    no_more,
  )

  -- The commit loop of a leader whose followers hold no more than its log always stops within the
  -- fuel: some number b of entries is committed afterwards, from the number a before. Each entry
  -- from a up to b is held by a majority of the nodes and the entry at b is not; the committed
  -- entries were appended to the file in order, and each one's client was answered, in order.
  pub commit_loop-Committed :
      (fuel : ℕ) (n : Node) (a : ℕ)
      → Ready n a
      → length n.logs - a < fuel
      → (b : ℕ) × Committed n a b (commit_loop g fuel n)
  unfolding next
  commit_loop-Committed zero n a r h = absurd (omega arith)
  commit_loop-Committed (suc fuel) n a r h =
      elim (Bool-cases (ltb (nb_node g / 2) (holders (node_ranks g) n.match_index (pos a)))) [
        | inr no_more ↦ (a, loop_stops fuel n a r no_more)
        | inl more ↦
            let m : Majority n.match_index a = ltb→lt _ _ more in
            let (e, at) = get_elem?-lt n.logs a (r.no_further a m) in
            let (b, done) =
              commit_loop-Committed fuel (next n a e) (suc a) (next-Ready n a e r m)
                (omega (arith, r.no_further a m)) in
            (b, rw (loop_round fuel n a e r more at) (loop_goes_on _ n a b e m at done))
      ]
