-- ===== src/Tests/Runs.antt =====
-- Commits and their effects on nodes of the test cluster (internal/raft/replication.go).
use raftra.Common.{◌≡◌, refl, none, [], ◌∷◌, ◌++◌, arith, string_eq, nat_eq}
use raftra.Kvstore.Spec.{apply_all}
use raftra.Raft.Apply.Replay.{
  commands, messages, apply_committed-replays, apply_committed-notifies, replicas_agree,
}
use raftra.Raft.Apply.{apply_committed_entries_locked}
use raftra.Raft.Commit.Rule.{IsCommitFrom, commit_rule}
use raftra.Raft.Commit.{check_and_update_commit_index_locked}
use raftra.Raft.Node.{RaftNode}
use raftra.Storage.Memory.Laws.{memory_backend-IsLawful}
use raftra.Storage.Memory.{MemoryStore, memory_backend}
use raftra.Tests.Fixtures.{methods, test_codec, node1, leader1, leader_state1}

abbrev committed : RaftNode MemoryStore
committed = check_and_update_commit_index_locked leader1

-- Both entries are on two of three nodes: they are committed and applied, and the clients are told.
commits_both :
    (committed.volatile.commit_index ≡ 2)
    × (committed.volatile.last_applied ≡ 2)
    × (committed.kv_store.table ≡ [])
    × (committed.sent ≡ (0, none) ∷ (1, none) ∷ [])
    × (committed.pending_commits ≡ [])
unfolding methods
commits_both = (refl, refl, refl, refl, refl)

commit_rule_example :
    IsCommitFrom memory_backend-IsLawful leader_state1 leader1 1 2 0 committed.volatile.commit_index
commit_rule_example =
    commit_rule memory_backend-IsLawful leader_state1 leader1 refl refl (omega arith) (omega arith)

abbrev ready : RaftNode MemoryStore
ready = record leader1 { volatile = record { commit_index = 2; last_applied = 0 } }

apply_committed-replays_example :
    ((apply_committed_entries_locked ready).kv_store
      ≡ apply_all ready.kv_store (commands ready.storage 1 2))
    × ((apply_committed_entries_locked ready).volatile.last_applied ≡ 2)
apply_committed-replays_example = apply_committed-replays ready (omega arith)

apply_committed-notifies_example :
    (apply_committed_entries_locked ready).sent
    ≡ [] ++ messages ready.pending_commits ready.storage 1 2
apply_committed-notifies_example = apply_committed-notifies ready (omega arith)

abbrev replica : RaftNode MemoryStore
replica = record node1 { volatile = record { commit_index = 2; last_applied = 0 } }

replicas_agree_example :
    (apply_committed_entries_locked ready).kv_store
    ≡ (apply_committed_entries_locked replica).kv_store
replicas_agree_example =
    replicas_agree memory_backend-IsLawful ready replica refl (omega arith) (omega arith) refl refl
