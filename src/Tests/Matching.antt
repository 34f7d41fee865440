-- ===== src/Tests/Matching.antt =====
-- Three nodes with empty logs that elect a leader, whose no-op reaches a follower (internal/raft).
use raftra.Common.{◌≡◌, refl, inr, false, some, [], ◌∷◌, arith, string_eq, nat_eq, eq_iff, length}
use raftra.Cluster.Logs.Matched.{IsFresh}
use raftra.Cluster.Logs.Matching.{log_matching}
use raftra.Cluster.Logs.{IsFaithful, IsSpacious}
use raftra.Cluster.{
  Cluster, Round, Run, here, next, acts, serves, delivers, launch, serve, deliver, opened, put,
}
use raftra.Proto.{AppendEntriesRequest}
use raftra.Raft.Append.Agreement.{LogMatching}
use raftra.Raft.Append.{handle_append_entries}
use raftra.Raft.Election.{on_pre_vote_response}
use raftra.Raft.Node.{role_eq}
use raftra.Raft.Office.{polls}
use raftra.Raft.Send.{append_request}
use raftra.Raft.Steps.{pre_vote_response, append_entries}
use raftra.Storage.Memory.Laws.{memory_backend-IsLawful}
use raftra.Storage.Memory.{MemoryStore, memory_backend}
use raftra.Storage.{sentinel}
use raftra.Tests.Clusters.{members1, cluster_of, cluster_of-IsStart, ready, granted}
use raftra.Tests.Fixtures.{methods, memory-IsWritable, test_codec, env1, vote_request}

abbrev fresh : Cluster MemoryStore
fresh = cluster_of (sentinel ∷ [])

abbrev campaigning : Cluster MemoryStore
campaigning =
    launch "n1" (on_pre_vote_response env1 ready (some (granted 2)) (fresh.node "n1")).1 fresh

abbrev round3 : Round
round3 = record {
  owner = "n1";
  ballot = record { term = 3; votes = 1; majority = 2; started = 1000; campaigned = false };
  waiting = "n2" ∷ "n3" ∷ [];
  req = record (vote_request "n1" 3) { last_log_index = 0; last_log_term = 0 };
}

abbrev voted : Cluster MemoryStore
voted = serve env1 "n2" round3.req campaigning

abbrev elected : Cluster MemoryStore
elected = deliver env1 "n2" (some (granted 3)) [] round3 [] voted

-- What `n1` sends to a follower that wants the entries from index 1 on.
abbrev request1 : AppendEntriesRequest
request1 = append_request (elected.node "n1") 1

abbrev replicated : Cluster MemoryStore
replicated = launch "n2" (handle_append_entries env1 request1 (elected.node "n2")).0 elected

replicated-Run : Run members1 fresh replicated
unfolding methods polls launch serve deliver opened put
replicated-Run =
    next
      (next
        (next
          (next here
            (acts "n1" refl (omega arith) (pre_vote_response env1 ready (some (granted 2))) tt))
          (serves env1 "n2" 0 round3 refl refl))
        (delivers env1 "n2" (some (granted 3)) [] round3 [] refl refl (0, refl)))
      (acts "n2" refl (omega arith) (append_entries env1 request1) tt)

fresh-IsFresh : IsFresh memory_backend-IsLawful memory-IsWritable members1 refl fresh
fresh-IsFresh = record {
  is_start = cluster_of-IsStart (sentinel ∷ []);
  stored = λ m. refl;
  in_memory = λ m. refl;
}

replicated-IsFaithful : IsFaithful memory_backend-IsLawful replicated-Run
unfolding replicated-Run methods polls launch serve deliver opened put
replicated-IsFaithful =
    ((tt, tt), inr ("n1", 0, ground (arith, eq_iff "n1" "n2"), refl, omega arith, refl))

replicated-IsSpacious : IsSpacious memory_backend-IsLawful replicated-Run
unfolding replicated-Run methods polls launch serve deliver opened put
replicated-IsSpacious = (
  (((λ m. omega arith, λ m. ground arith), λ m. ground arith), λ m. ground arith),
  λ m. ground arith,
)

-- Both hold the no-op of term 3.
both_logs : length (replicated.node "n2").storage.entries ≡ 2
unfolding methods launch serve deliver put
both_logs = refl

log_matching_example :
    LogMatching (replicated.node "n1").storage.entries (replicated.node "n2").storage.entries
log_matching_example =
    log_matching memory_backend-IsLawful memory-IsWritable members1 refl replicated-Run "n1" "n2"
      fresh-IsFresh replicated-IsFaithful replicated-IsSpacious
