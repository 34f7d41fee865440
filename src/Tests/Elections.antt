-- ===== src/Tests/Elections.antt =====
-- A candidate of the test cluster that wins its election (internal/raft/election.go).
use raftra.Common.{ℕ, [], length, ◌≡◌, ◌≢◌, refl, true, false, some, arith, string_eq, nat_eq}
use mathlib.Core.List.{Mem}
use raftra.GoMap
use raftra.Raft.Term.Aborts.{check_term-aborts}
use raftra.Raft.Term.{check_term}
use raftra.Storage.{not_leader}
use raftra.Proto.{RequestVoteResponse}
use raftra.Raft.Election.{on_vote_response}
use raftra.Raft.Election.Majority.{IsDecisive, on_vote_response-leads}
use raftra.Raft.Node.{RaftNode, Ballot, Channel, candidate, leader, role_eq}
use raftra.Storage.Memory.{MemoryStore, memory_backend}
use raftra.Tests.Fixtures.{methods, test_codec, env1, node1, leader1}

abbrev candidate1 : RaftNode MemoryStore
candidate1 = record node1 { role = candidate }

abbrev ballot1 : Ballot
ballot1 = record { term = 2; votes = 1; majority = 2; started = 0; campaigned = false }

abbrev granted : RequestVoteResponse
granted = record { term = 2; vote_granted = true }

not_leading : candidate1.role ≢ leader
not_leading e = ground (arith, e)

wins : (on_vote_response env1 ballot1 (some granted) candidate1).1.role ≡ leader
unfolding methods
wins = refl

on_vote_response-leads_example : IsDecisive ballot1 granted candidate1
on_vote_response-leads_example =
    on_vote_response-leads env1 ballot1 granted candidate1 not_leading wins

check_term-aborts_example :
    ((idx : ℕ) (ch : Channel)
      → GoMap.lookup leader1.pending_commits idx ≡ some ch
      → Mem (ch, some not_leader) (check_term 2 leader1).0.sent)
    × (length (check_term 2 leader1).0.sent ≡ 2)
    × ((check_term 2 leader1).0.pending_commits ≡ [])
check_term-aborts_example = check_term-aborts 2 leader1 (omega arith)
