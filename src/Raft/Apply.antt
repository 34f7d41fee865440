-- ===== src/Raft/Apply.antt =====
-- `applyCommittedEntriesLocked` of internal/raft/replication.go.
pub mod Proceeds
pub mod Frame
pub mod Replay
use raftra.Common.{
  ℕ, zero, suc, ◌+◌, ◌-◌, Option, none, some, [], ◌∷◌, ◌++◌, ltb, if◌then◌else◌, nat_eq,
}
use raftra.GoMap
use raftra.Kvstore
use raftra.Kvstore.{Codec, Command, Bytes}
use raftra.Metrics.{set_last_applied}
use raftra.Raft.Node.{RaftNode, Channel}
use raftra.Storage.{StorageBackend, checked}

module _ {S : Type 0} where
  -- `ch <- nil` and the `delete`, if a client waits for the entry.
  wake : ℕ → Option Channel → RaftNode S → RaftNode S
  wake index none rn = rn
  wake index (some ch) rn = record rn {
    sent = rn.sent ++ (ch, none) ∷ [];
    pending_commits = GoMap.delete rn.pending_commits index;
  }

  apply_command : ℕ → Command → RaftNode S → RaftNode S
  unfolding wake
  apply_command index cmd rn = wake index (GoMap.lookup rn.pending_commits index) (record rn {
    kv_store = Kvstore.apply rn.kv_store cmd;
    metrics = set_last_applied index rn.metrics;
  })

module _ {S : Type 0} ⦃b : StorageBackend S⦄ ⦃codec : Codec⦄ where
  -- The command of an entry: `none` for each of the two `continue`s, an entry that is missing or
  -- empty, and one that does not decode.
  unfoldable pub command_at : ℕ → S → Option Command
  command_at index storage = elim (checked (b.get_entry index storage)) [
    | none ↦ none
    | some entry ↦ elim entry.command [
      | [] ↦ none
      | byte ∷ bytes ↦ codec.decode_command (byte ∷ bytes)
    ]
  ]

  -- The body of the loop.
  pub apply_next : RaftNode S → RaftNode S
  unfolding apply_command command_at
  apply_next rn =
      let index = rn.volatile.last_applied + 1 in
      let rn' : RaftNode S = record rn { volatile = record rn.volatile { last_applied = index } } in
      elim (command_at index rn.storage) [ none ↦ rn' | some cmd ↦ apply_command index cmd rn' ]

  -- The loop; the first argument bounds its rounds.
  pub apply_loop : ℕ → RaftNode S → RaftNode S
  unfolding apply_next
  apply_loop zero rn = rn
  apply_loop (suc fuel) rn =
      let rest = apply_loop fuel (apply_next rn) in
      if ltb rn.volatile.last_applied rn.volatile.commit_index then rest else rn

  unfoldable pub apply_committed_entries_locked : RaftNode S → RaftNode S
  unfolding apply_loop
  apply_committed_entries_locked rn =
      apply_loop (rn.volatile.commit_index - rn.volatile.last_applied) rn
