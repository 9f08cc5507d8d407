-- ===== src/Follower/Logged.antt =====
-- A follower's log keeps its shape, whatever the leader sends.
use raft_algorep.Base.{
  ℕ, zero, suc, ◌≤◌, ℤ, pos, negsuc, minus_one, pos_part, ◌+ℤ◌, ◌-ℤ◌, ltb_ℤ, leb_ℤ, eq_ℤ, eq_ℤ_iff,
  int_laws, Bool, true, false, Bool-cases, List, [], ◌∷◌, ◌++◌, Option, none, Outcome, ◌>>=◌, subst,
  some, ok, assertion, inconsistent_index, commit_beyond_log, or_fault, out_of_range, undefined,
  IfReturns, IfReturns-bind, IfReturns-if, IfReturns-require, IfReturns-mono, Ends-ok,
  if◌then◌else◌, length, take, get_at?, lt-get_elem?, ltb→lt, ◌≡◌, refl, ap, ◌∙◌, inl, inr, arith,
}
use raft_algorep.Config.{GlobalConfig}
use raft_algorep.Rpc.{Entry, AppendEntries}
use raft_algorep.Node.{Node, save_commit, send_rpc}
use raft_algorep.Node.Logged.{WellLogged, IsIndexed-append, IsIndexed-take}
use raft_algorep.Follower.{
  check_entry_consistency, push_entries, append_log, save_range, reply_append, is_empty,
  accept_entries, handle_append_entries,
}
use raft_algorep.Follower.Append.{IsIndexedFrom, resize_lem}

push_entries-Indexed :
    (es logs : List Entry)
    → IsIndexedFrom 0 logs
    → IfReturns (IsIndexedFrom 0) (push_entries es logs)
unfolding push_entries
push_entries-Indexed [] logs h = h
push_entries-Indexed (e ∷ es) logs h =
    IfReturns-require (IsIndexedFrom 0) (eq_ℤ e.index (pos (length logs)))
      (assertion inconsistent_index) (push_entries es (logs ++ e ∷ []))
      (λ is. push_entries-Indexed es (logs ++ e ∷ []) (
        IsIndexed-append 0 logs (e ∷ []) h (
          subst (λ j. e.index ≡ pos j) (omega arith) ((eq_ℤ_iff e.index (pos (length logs))).0 is),
          tt,
        )))

-- Where a consistent message starts: inside the log, or just behind it.
abbrev pub Starts : AppendEntries → List Entry → Type 0
Starts m logs = (k : ℕ) × (m.prev_log_index +ℤ pos 1 ≡ pos k) × (k ≤ length logs)

read_some :
    (o : Option Entry) (f : Entry → Outcome Bool) {b : Bool}
    → (or_fault o out_of_range >>= f) ≡ ok b
    → (e : Entry) × (o ≡ some e)
read_some none f h = cc
read_some (some e) f h = (e, refl)

behind_entry :
    (m : AppendEntries) (logs : List Entry) (p : ℤ) (e : Entry)
    → m.prev_log_index ≡ p
    → get_at? logs p ≡ some e
    → Starts m logs
behind_entry m logs (pos j) e q h = (suc j, rw q (omega int_laws), lt-get_elem? logs j e h)
behind_entry m logs (negsuc j) e q h = cc

-- The three branches of the check.
last_branch :
    (first beyond : Bool) (read : Outcome Bool)
    → (if first then ok true else if beyond then ok false else read) ≡ ok true
    → first ≡ false
    → read ≡ ok true
last_branch true beyond read h e = cc
last_branch false true read h e = cc
last_branch false false read h e = h

pub consistent-Starts :
    (m : AppendEntries) (logs : List Entry)
    → check_entry_consistency m logs ≡ ok true
    → Starts m logs
unfolding check_entry_consistency
consistent-Starts m logs h = elim (Bool-cases (eq_ℤ m.prev_log_index minus_one)) [
  | inl first ↦
      let e = (eq_ℤ_iff m.prev_log_index minus_one).0 first in
      (0, rw e (omega int_laws), omega arith)
  | inr later ↦
      let (e, at) =
        read_some (get_at? logs m.prev_log_index) (λ e. ok (eq_ℤ e.term m.prev_log_term))
          (last_branch (eq_ℤ m.prev_log_index minus_one)
            (leb_ℤ (pos (length logs)) m.prev_log_index) _ h later) in
      behind_entry m logs m.prev_log_index e refl at
]

append_log-Indexed :
    (m : AppendEntries) (logs : List Entry)
    → Starts m logs
    → IsIndexedFrom 0 logs
    → IfReturns (IsIndexedFrom 0) (append_log m logs)
unfolding append_log
append_log-Indexed m logs (k, e, h) x =
    rw (e, resize_lem k logs h)
      (push_entries-Indexed m.entries (take k logs) (IsIndexed-take k 0 logs x))

-- The save loop writes the file only.
abbrev OnlySaves : Node → Node → Type 0
OnlySaves n n' = n' ≡ record n { saved = n'.saved }

save_range-OnlySaves :
    (rounds : ℕ) (i : ℤ) (n : Node) → IfReturns (OnlySaves n) (save_range rounds i n)
unfolding save_range save_commit
save_range-OnlySaves zero i n = refl
save_range-OnlySaves (suc rounds) i n =
    IfReturns-bind (OnlySaves n) (or_fault (get_at? n.logs i) undefined) _ λ e _.
      IfReturns-mono (OnlySaves (save_commit e n)) (OnlySaves n)
        (save_range rounds (i +ℤ pos 1) (save_commit e n))
        (save_range-OnlySaves rounds (i +ℤ pos 1) (save_commit e n)) (λ n' q. ground arith)

module _ (g : GlobalConfig) where
  accepted-Logged :
      (sender : ℕ) (m : AppendEntries) (n : Node)
      → WellLogged g n
      → WellLogged g (if is_empty m.entries then n else reply_append sender true n)
  unfolding reply_append send_rpc
  accepted-Logged sender m n w = elim (Bool-cases (is_empty m.entries)) [
    | inl e ↦ rw e w
    | inr e ↦ rw e w
  ]

  accept_entries-Logged :
      (sender : ℕ) (m : AppendEntries) (n : Node)
      → Starts m n.logs
      → WellLogged g n
      → IfReturns (WellLogged g) (accept_entries sender m n)
  unfolding accept_entries
  accept_entries-Logged sender m n s w =
      IfReturns-bind (WellLogged g) (append_log m n.logs) _ λ logs e.
        IfReturns-require (WellLogged g) (ltb_ℤ m.leader_commit (pos (length logs)))
          (assertion commit_beyond_log) _
          λ lt.
            IfReturns-bind (WellLogged g)
              (save_range (pos_part (m.leader_commit -ℤ n.commit_index)) (n.commit_index +ℤ pos 1)
                (record n { logs = logs }))
              _
              λ n' e'.
                accepted-Logged sender m (record n' { commit_index = m.leader_commit })
                  (updated logs n'
                    (Ends-ok _ (IsIndexedFrom 0) _ (append_log-Indexed m n.logs s w.indexed) e) lt
                    (Ends-ok _ (OnlySaves (record n { logs = logs })) _
                      (save_range-OnlySaves _ _ (record n { logs = logs })) e'))
    where
      updated :
          (logs : List Entry) (n' : Node)
          → IsIndexedFrom 0 logs
          → ltb_ℤ m.leader_commit (pos (length logs)) ≡ true
          → OnlySaves (record n { logs = logs }) n'
          → WellLogged g (record n' { commit_index = m.leader_commit })
      updated logs n' x lt q = rw q (record {
        indexed = x;
        in_log = ltb→lt _ _ lt;
        match_slots = w.match_slots;
        next_slots = w.next_slots;
      })

  pub handle_append_entries-Logged :
      (sender : ℕ) (m : AppendEntries) (n : Node)
      → WellLogged g n
      → IfReturns (WellLogged g) (handle_append_entries sender m n)
  unfolding handle_append_entries reply_append send_rpc
  handle_append_entries-Logged sender m n w =
      IfReturns-if (WellLogged g) (ltb_ℤ m.term n.term) _ _ (λ _. w)
        λ _. IfReturns-bind (WellLogged g) (check_entry_consistency m n.logs) _ λ b e.
          IfReturns-if (WellLogged g) b
            (accept_entries sender m (record n { leader_id = some sender })) _
            (λ yes_b.
              accept_entries-Logged sender m (record n { leader_id = some sender })
                (consistent-Starts m n.logs (e ∙ ap ok yes_b)) w)
            (λ _. w)
