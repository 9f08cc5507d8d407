-- ===== src/Follower/Append.antt =====
-- What an accepted AppendEntries does to a follower.
use raft_algorep.Base.{
  ℕ, zero, suc, ◌+◌, ◌-◌, ◌≤◌, ℤ, pos, ◌+ℤ◌, eq_ℤ_iff, int_laws, List, [], ◌∷◌, ◌++◌, append-nil,
  append_assoc, some, ok, length, take, drop, get_elem?, length-append, length-take, get_elem?-lt,
  ◌≡◌, sym, ap, ◌∙◌, arith, subst,
}
use raft_algorep.Rpc.{Entry, AppendEntries}
use raft_algorep.Node.{Node, save_commit}
use raft_algorep.Follower.{resize, push_entries, append_log, save_range}

-- The entries carry the indices `i`, `i + 1`, ...
abbrev pub IsIndexedFrom : ℕ → List Entry → Type 0
IsIndexedFrom i [] = Unit
IsIndexedFrom i (e ∷ es) = (e.index ≡ pos i) × IsIndexedFrom (suc i) es

pub push_entries_lem :
    (es logs : List Entry) → IsIndexedFrom (length logs) es → push_entries es logs ≡ ok (logs ++ es)
unfolding push_entries
push_entries_lem [] logs h = ap ok (sym (append-nil logs))
push_entries_lem (e ∷ es) logs h = rw ((eq_ℤ_iff e.index (pos (length logs))).1 h.0) (
    push_entries_lem es (logs ++ e ∷ [])
      (subst (λ k. IsIndexedFrom k es) (omega (arith, length-append {0} logs (e ∷ []))) h.1)
    ∙ ap ok (append_assoc logs (e ∷ []) es))

-- A resize that does not grow the log.
pub resize_lem :
    (k : ℕ) (logs : List Entry) → k ≤ length logs → resize (pos k) logs ≡ ok (take k logs)
unfolding resize
resize_lem k logs h =
    let e : k - length logs ≡ 0 = omega arith in rw e (ap ok (append-nil (take k logs)))

-- With `k` entries before the new ones, the log becomes those and the new ones.
pub append_log_lem :
    (k : ℕ) (m : AppendEntries) (logs : List Entry)
    → m.prev_log_index +ℤ pos 1 ≡ pos k
    → k ≤ length logs
    → IsIndexedFrom k m.entries
    → append_log m logs ≡ ok (take k logs ++ m.entries)
unfolding append_log
append_log_lem k m logs e h x =
    rw (e, resize_lem k logs h)
      (push_entries_lem m.entries (take k logs)
        (subst (λ j. IsIndexedFrom j m.entries) (omega (arith, length-take {0} k logs)) x))

-- The entries of a log from index `i` on, as many as `rounds`.
abbrev pub save_slice : ℕ → ℕ → List Entry → List Entry
save_slice rounds i logs = take rounds (drop i logs)

pub drop-get :
    (i : ℕ) (logs : List Entry) (e : Entry)
    → get_elem? logs i ≡ some e
    → drop i logs ≡ e ∷ drop (suc i) logs
drop-get i [] e h = cc
drop-get zero (x ∷ logs) e h = cc
drop-get (suc i) (x ∷ logs) e h = drop-get i logs e h

-- One round of the save loop.
save_range_step :
    (rounds i : ℕ) (n : Node) (e : Entry)
    → get_elem? n.logs i ≡ some e
    → save_range (suc rounds) (pos i) n ≡ save_range rounds (pos (suc i)) (save_commit e n)
unfolding save_range
save_range_step rounds i n e q =
    rw q (ap (λ (j : ℤ). save_range rounds j (save_commit e n)) (omega int_laws))

-- The save loop writes the entries of its range in order, and nothing else.
pub save_range_lem :
    (rounds i : ℕ) (n : Node)
    → i + rounds ≤ length n.logs
    → save_range rounds (pos i) n ≡ ok (record n { saved = n.saved ++ save_slice rounds i n.logs })
unfolding save_range save_commit
save_range_lem zero i n h =
    ap (λ (s : List Entry). ok (record n { saved = s })) (sym (append-nil n.saved))
save_range_lem (suc rounds) i n h =
    let (e, q) = get_elem?-lt n.logs i (omega arith) in
    save_range_step rounds i n e q
    ∙ save_range_lem rounds (suc i) (save_commit e n) (omega arith)
    ∙ ap (λ (s : List Entry). ok (record n { saved = s }))
        (append_assoc n.saved (e ∷ []) (save_slice rounds (suc i) n.logs)
          ∙ ap (λ l. n.saved ++ take (suc rounds) l) (sym (drop-get i n.logs e q)))
