-- ===== src/Tests/Followers.antt =====
-- The follower at concrete inputs.
use raft_algorep.Base.{
  ℤ, pos, minus_one, ◌+ℤ◌, ◌<ℤ◌, ◌++◌, Bool, true, [], ◌∷◌, ok, ◌≡◌, ◌↔◌, refl, arith,
}
use raft_algorep.Rpc.{RequestVote, AppendEntries}
use raft_algorep.Node.{Node}
use raft_algorep.Follower.{handle_append_entries, handle_request_vote}
use raft_algorep.Follower.Accept.{Acceptable, replied, updated, handle_append_entries-accepts}
use raft_algorep.Follower.Append.{save_slice}
use raft_algorep.Follower.Again.{accepted, handle_append_entries-saves_again}
use raft_algorep.Follower.Grant.{answered, Deserves, handle_request_vote-Answers}
use raft_algorep.Tests.{e₀, e₁, node, behind}

abbrev update_rest : AppendEntries
update_rest = record {
  term = pos 1;
  leader_id = 2;
  prev_log_index = pos 0;
  prev_log_term = pos 1;
  leader_commit = pos 0;
  entries = e₁ ∷ [];
}

behind-Acceptable : Acceptable update_rest behind 1 0 1
unfolding ◌+ℤ◌
behind-Acceptable = record {
  current = omega arith;
  starts = refl;
  fits = omega arith;
  has_prev = (e₀, refl, refl);
  indexed = (refl, tt);
  own_commit = refl;
  leader_commit = refl;
  in_log = omega arith;
}

handle_append_entries-accepts_example :
    handle_append_entries 2 update_rest behind
    ≡ ok (replied 2 update_rest (updated 2 update_rest behind 1 0 1))
handle_append_entries-accepts_example =
    handle_append_entries-accepts 2 update_rest behind 1 0 1 behind-Acceptable

-- Two empty messages to a follower that has committed e₀: the second has it saved again.
abbrev heartbeat : ℤ → AppendEntries
heartbeat commit = record {
  term = pos 1;
  leader_id = 2;
  prev_log_index = pos 1;
  prev_log_term = pos 1;
  leader_commit = commit;
  entries = [];
}

heartbeat-Acceptable : Acceptable (heartbeat minus_one) node 2 1 0
unfolding ◌+ℤ◌
heartbeat-Acceptable = record {
  current = omega arith;
  starts = refl;
  fits = omega arith;
  has_prev = (e₁, refl, refl);
  indexed = tt;
  own_commit = refl;
  leader_commit = refl;
  in_log = omega arith;
}

next-Acceptable : Acceptable (heartbeat (pos 0)) (accepted 2 (heartbeat minus_one) node 2 1 0) 2 0 1
unfolding ◌+ℤ◌
next-Acceptable = record {
  current = omega arith;
  starts = refl;
  fits = omega arith;
  has_prev = (e₁, refl, refl);
  indexed = tt;
  own_commit = refl;
  leader_commit = refl;
  in_log = omega arith;
}

handle_append_entries-saves_again_example :
    (n₁ : Node) × (n₂ : Node) × (handle_append_entries 2 (heartbeat minus_one) node ≡ ok n₁)
    × (handle_append_entries 2 (heartbeat (pos 0)) n₁ ≡ ok n₂)
    × (n₁.commit_index <ℤ node.commit_index)
    × (n₂.saved ≡ e₀ ∷ [] ++ save_slice 1 0 n₂.logs)
handle_append_entries-saves_again_example =
    handle_append_entries-saves_again 2 2 (heartbeat minus_one) (heartbeat (pos 0)) node 2 2 1 0 1
      heartbeat-Acceptable (omega arith) next-Acceptable

abbrev ask : RequestVote
ask = record { term = pos 1; candidate_id = 2; last_log_index = pos 1; last_log_term = pos 1 }

handle_request_vote-Answers_example :
    (granted : Bool) × (handle_request_vote 2 ask node ≡ answered 2 granted node)
    × ((granted ≡ true) ↔ Deserves 2 ask node)
handle_request_vote-Answers_example = handle_request_vote-Answers 2 ask node
