-- ===== src/Tests/Votes.antt =====
-- Votes of a node of the test cluster (internal/raft/election.go).
use raftra.Common.{
  ◌≤◌, ◌<◌, ◌≡◌, ◌≢◌, refl, ◌⊎◌, ◌↔◌, true, false, arith, string_eq, nat_eq, eq_iff,
}
use raftra.Proto.{RequestVoteRequest}
use raftra.Raft.Node.{RaftNode, leader}
use raftra.Raft.Steps.Advance.{term_monotone}
use raftra.Raft.Steps.{Reach, here, next, request_vote}
use raftra.Raft.Durable.{IsDurable}
use raftra.Raft.Vote.Restart.{one_vote_across_restart}
use raftra.Raft.Vote.Once.{Grants, one_vote_per_term}
use raftra.Raft.Vote.Rule.{IsUpToDate, pre_vote_rule, vote_rule}
use raftra.Raft.Vote.{handle_request_vote}
use raftra.Kvstore.{new_kv_store}
use raftra.Storage.Memory.Laws.{memory_backend-IsLawful}
use raftra.Storage.Memory.{MemoryStore, memory_backend}
use raftra.Tests.Fixtures.{
  memory-IsWritable, methods, test_codec, env1, config1, node1, vote_request, restarted,
  new_raft_node-restarted,
}

abbrev voted : RaftNode MemoryStore
voted = (handle_request_vote env1 (vote_request "n2" 3) node1).0

first_grant : Grants env1 (vote_request "n2" 3) node1
unfolding methods
first_grant = (refl, refl)

-- The same candidate may ask again; another may not.
second_grant : Grants env1 (vote_request "n2" 3) voted
unfolding methods
second_grant = (refl, refl)

other_refused : (handle_request_vote env1 (vote_request "n3" 3) voted).1.vote_granted ≡ false
unfolding methods
other_refused = refl

one_vote_per_term_example : (vote_request "n2" 3).candidate_id ≡ (vote_request "n2" 3).candidate_id
one_vote_per_term_example =
    one_vote_per_term env1 env1 (vote_request "n2" 3) (vote_request "n2" 3) node1 voted first_grant
      here second_grant refl named
  where
    named : (vote_request "n2" 3).candidate_id ≢ ""
    named = ground (arith, eq_iff "n2" "")

one_step : Reach node1 voted
one_step = next here (omega arith) (request_vote env1 (vote_request "n2" 3))

term_monotone_example : node1.persistent.current_term ≤ voted.persistent.current_term
term_monotone_example = term_monotone one_step

vote_rule_example :
    ((handle_request_vote env1 (vote_request "n2" 3) node1).1.vote_granted ≡ true) ↔ (
      ((2 < 3)
        ⊎ (node1.persistent.current_term ≡ 3)
          × ((node1.persistent.voted_for ≡ "") ⊎ (node1.persistent.voted_for ≡ "n2")))
      × IsUpToDate memory_backend-IsLawful (vote_request "n2" 3) node1.storage.entries)
vote_rule_example =
    vote_rule memory_backend-IsLawful env1 (vote_request "n2" 3) node1 (omega arith) (omega arith)
      refl

abbrev pre_request : RequestVoteRequest
pre_request = record (vote_request "n2" 3) { pre_vote = true }

pre_vote_rule_example :
    ((handle_request_vote env1 pre_request node1).0 ≡ node1)
    × (((handle_request_vote env1 pre_request node1).1.vote_granted ≡ true) ↔ (
        (2 < 3)
        × (node1.role ≢ leader)
        × (150 ≤ 1000)
        × IsUpToDate memory_backend-IsLawful pre_request node1.storage.entries))
pre_vote_rule_example =
    pre_vote_rule memory_backend-IsLawful env1 pre_request node1 (omega arith) (omega arith) refl

node1-IsDurable : IsDurable memory_backend-IsLawful node1
node1-IsDurable = (refl, refl)

third_grant : Grants env1 (vote_request "n2" 3) (restarted voted)
unfolding methods
third_grant = (refl, refl)

one_vote_across_restart_example :
    (vote_request "n2" 3).candidate_id ≡ (vote_request "n2" 3).candidate_id
one_vote_across_restart_example =
    one_vote_across_restart memory_backend-IsLawful memory-IsWritable env1 env1
      (vote_request "n2" 3) (vote_request "n2" 3) config1 new_kv_store node1 voted (restarted voted)
      (restarted voted) node1-IsDurable first_grant here (new_raft_node-restarted voted) here
      third_grant refl named
  where
    named : (vote_request "n2" 3).candidate_id ≢ ""
    named = ground (arith, eq_iff "n2" "")
