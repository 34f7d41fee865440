-- ===== src/Tests/Restarts.antt =====
-- A node of the test cluster that takes entries from a leader and is started again (internal/raft).
use raftra.Common.{◌≡◌, refl, arith, string_eq, nat_eq}
use raftra.Kvstore.{new_kv_store}
use raftra.Raft.Append.{handle_append_entries}
use raftra.Raft.Node.{RaftNode}
use raftra.Raft.Records.{Numbered}
use raftra.Raft.Steps.Records.{AllNumbered, restart_keeps_log}
use raftra.Raft.Steps.{Reach, here, next, append_entries}
use raftra.Storage.Memory.Laws.{memory_backend-IsLawful}
use raftra.Storage.Memory.{MemoryStore, memory_backend}
use raftra.Tests.Fixtures.{
  methods, test_codec, env1, config1, node1, append_request3, leader_log3, restarted,
  new_raft_node-restarted,
}

abbrev joined : RaftNode MemoryStore
joined = (handle_append_entries env1 append_request3 (restarted node1)).0

joining : Reach (restarted node1) joined
joining = next here (omega arith) (append_entries env1 append_request3)

joining-AllNumbered : AllNumbered memory_backend-IsLawful joining
unfolding joining
joining-AllNumbered = (tt, omega arith, (omega arith, (refl, tt)))

-- The conflicting entry at index 2 is replaced, on storage too.
joined_entries : joined.storage.entries ≡ leader_log3
unfolding methods
joined_entries = refl

restart_keeps_log_example :
    Numbered joined.storage.entries × ((restarted joined).persistent.log ≡ joined.persistent.log)
restart_keeps_log_example =
    restart_keeps_log memory_backend-IsLawful config1 config1 node1.storage new_kv_store
      new_kv_store joining (omega arith, (refl, (refl, (refl, tt)))) joining-AllNumbered
      (new_raft_node-restarted node1) (new_raft_node-restarted joined)
