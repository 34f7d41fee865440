-- ===== src/Tests/Logs.antt =====
-- AppendEntries on a node of the test cluster (internal/raft/election.go).
use raftra.Common.{zero, suc, ◌≤◌, ◌≡◌, refl, true, [], ◌∷◌, arith, string_eq, nat_eq, take}
use raftra.Proto.{AppendEntriesRequest}
use raftra.Raft.Append.Agreement.{LogMatching, IsSliceOf, handle_append_entries-agrees}
use raftra.Raft.Append.Replicates.{
  IsMirrored, HasPrevious, handle_append_entries-merges, handle_append_entries-late,
}
use raftra.Raft.Append.Spec.{merge_log}
use raftra.Raft.Append.{handle_append_entries}
use raftra.Raft.Node.{RaftNode}
use raftra.Storage.Memory.Laws.{memory_backend-IsLawful}
use raftra.Storage.Memory.{MemoryStore, memory_backend}
use raftra.Tests.Fixtures.{
  methods, test_codec, env1, node1, entry, log1, leader_log3, append_request3,
}

node1-IsMirrored : IsMirrored memory_backend-IsLawful node1
node1-IsMirrored = record { mirrored = refl; has_sentinel = omega arith }

abbrev after3 : RaftNode MemoryStore
after3 = (handle_append_entries env1 append_request3 node1).0

-- The entry of term 1 at index 2 gives way to the leader's, and the entry at index 1 is applied.
replaced_log :
    (after3.storage.entries ≡ leader_log3)
    × (after3.persistent.current_term ≡ 3)
    × (after3.volatile.last_applied ≡ 1)
    × (after3.kv_store.table ≡ ("x", "1") ∷ [])
unfolding methods
replaced_log = (refl, refl, refl, refl)

succeeds : (handle_append_entries env1 append_request3 node1).1.success ≡ true
unfolding methods
succeeds = refl

slice3 : IsSliceOf leader_log3 append_request3
slice3 = record {
  previous = entry 1 1 (1 ∷ []);
  rest = [];
  at_previous = refl;
  previous_term = refl;
  slice = refl;
}

matching3 : LogMatching log1 leader_log3
matching3 zero x y hx hy t = refl
matching3 (suc zero) x y hx hy t = refl
matching3 (suc (suc zero)) x y hx hy t = ground arith
matching3 (suc (suc (suc k))) x y hx hy t = cc

handle_append_entries-agrees_example :
    (take 3 (memory_backend-IsLawful.log after3.storage) ≡ take 3 leader_log3)
    × LogMatching (memory_backend-IsLawful.log after3.storage) leader_log3
handle_append_entries-agrees_example =
    handle_append_entries-agrees memory_backend-IsLawful env1 append_request3 node1 leader_log3
      node1-IsMirrored (omega arith) (omega arith) slice3 matching3 refl succeeds

handle_append_entries-merges_example :
    (2 ≤ 3)
    × HasPrevious append_request3 log1
    × (after3.storage.entries ≡ merge_log 2 (entry 2 3 [] ∷ []) log1)
handle_append_entries-merges_example =
    handle_append_entries-merges memory_backend-IsLawful env1 append_request3 node1 node1-IsMirrored
      (omega arith) (omega arith) succeeds

-- A late request with the entry at index 1 only.
abbrev late_request : AppendEntriesRequest
late_request = record append_request3 {
  term = 2;
  prev_log_index = 0;
  prev_log_term = 0;
  entries = entry 1 1 (1 ∷ []) ∷ [];
}

late_succeeds : (handle_append_entries env1 late_request node1).1.success ≡ true
unfolding methods
late_succeeds = refl

handle_append_entries-late_example :
    (handle_append_entries env1 late_request node1).0.storage.entries ≡ log1
handle_append_entries-late_example =
    handle_append_entries-late memory_backend-IsLawful env1 late_request node1 node1-IsMirrored
      (omega arith) (omega arith) ((entry 1 1 (1 ∷ []), refl, refl), tt) late_succeeds
