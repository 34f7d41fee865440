-- ===== src/Raft/Append.antt =====
-- `HandleAppendEntries` of internal/raft/election.go.
pub mod Proceeds
pub mod Tenure
pub mod Records
pub mod Office
pub mod Advance
pub mod Durable
pub mod Spec
pub mod Merge
pub mod Replicates
pub mod Agreement
use raftra.Common.{
  ℕ, suc, ◌+◌, Bool, true, false, none, some, List, [], ◌∷◌, ◌++◌, ltb, ◌==◌, ◌&&◌, if◌then◌else◌,
  nat_eq, length, take, u64,
}
use raftra.Kvstore.{Codec}
use raftra.Proto.{LogEntry, AppendEntriesRequest, AppendEntriesResponse}
use raftra.Raft.Apply.{apply_committed_entries_locked}
use raftra.Raft.Node.{RaftNode, follower, candidate, role_eq}
use raftra.Raft.Term.{check_term}
use raftra.Raft.Timer.{Env, reset_election_timer}
use raftra.Storage.{StorageBackend, checked}

-- The log twice: on storage and in memory (`rn.persistent.Log`).
pub record Logs (S : Type 0) : Type 0 where
  pub storage : S
  pub memory : List LogEntry

module _ {S : Type 0} ⦃b : StorageBackend S⦄ where
  -- The result is false where the handler answers with a failure.
  unfoldable pub append_rest : List LogEntry → Logs S → Logs S × Bool
  append_rest to_append l =
      let (storage', err) = b.append_entries to_append l.storage in
      elim err [
        | some e ↦ (record l { storage = storage' }, false)
        | none ↦ (record { storage = storage'; memory = l.memory ++ to_append }, true)
      ]

  -- The logs after the truncation, which left `storage'`.
  unfoldable pub cut_at : ℕ → S → Logs S → Logs S
  cut_at index storage' l = record {
    storage = storage';
    memory = if ltb index (length l.memory) then take index l.memory else l.memory;
  }

  unfoldable pub replace_from : ℕ → List LogEntry → Logs S → Logs S × Bool
  replace_from index to_append l =
      let (storage', err) = b.truncate_from index l.storage in
      elim err [
        | some e ↦ (record l { storage = storage' }, false)
        | none ↦ append_rest to_append (cut_at index storage' l)
      ]

  -- Step 4: for i, newEntry := range req.Entries, at round `i`.
  unfoldable pub merge_entries : ℕ → ℕ → List LogEntry → Logs S → Logs S × Bool
  merge_entries prev i [] l = (l, true)
  merge_entries prev i (new_entry ∷ rest) l =
      let existing_index = u64 (prev + 1 + i) in
      let go_on = merge_entries prev (suc i) rest l in
      elim (checked (b.get_entry existing_index l.storage)) [
        | none ↦ append_rest (new_entry ∷ rest) l
        | some existing ↦
            if existing.term == new_entry.term
            then go_on
            else replace_from existing_index (new_entry ∷ rest) l
      ]

  -- Step 3: the entry before the new ones is there, with the leader's term.
  unfoldable pub is_consistent : AppendEntriesRequest → S → Bool
  is_consistent req storage =
      if ltb 0 req.prev_log_index
      then elim (checked (b.get_entry req.prev_log_index storage)) [
        | none ↦ false
        | some entry ↦ entry.term == req.prev_log_term
      ]
      else true

  -- Steps 2 and "record the current leader": the node follows the sender.
  follow : Env → AppendEntriesRequest → RaftNode S → RaftNode S
  follow env req rn =
      let rn1 = (check_term req.term rn).0 in
      let rn2 : RaftNode S =
        if rn1.role == candidate && req.term == rn1.persistent.current_term
        then record rn1 { role = follower }
        else rn1 in
      reset_election_timer env
        (record rn2 { leader_id = req.leader_id; last_leader_contact = env.now })

  with_logs : Logs S → RaftNode S → RaftNode S
  with_logs l rn = record rn {
    storage = l.storage;
    persistent = record rn.persistent { log = l.memory };
  }

module _ {S : Type 0} ⦃b : StorageBackend S⦄ ⦃codec : Codec⦄ where
  -- Step 5; `last_new` is PrevLogIndex + len(Entries).
  unfoldable pub follow_commit : ℕ → ℕ → RaftNode S → RaftNode S
  follow_commit leader_commit last_new rn =
      let new_commit = if ltb last_new leader_commit then last_new else leader_commit in
      if ltb rn.volatile.commit_index leader_commit
      then (if ltb rn.volatile.commit_index new_commit
          then apply_committed_entries_locked
              (record rn { volatile = record rn.volatile { commit_index = new_commit } })
          else rn)
      else rn

  reply : RaftNode S → Bool → AppendEntriesResponse
  reply rn success = record { term = rn.persistent.current_term; success = success }

  -- Steps 3 to 6, once the node follows the sender.
  accept : AppendEntriesRequest → RaftNode S → RaftNode S × AppendEntriesResponse
  unfolding with_logs reply
  accept req rn =
      if is_consistent req rn.storage
      then (let (l, merged) =
            merge_entries req.prev_log_index 0 req.entries
              (record { storage = rn.storage; memory = rn.persistent.log }) in
          let rn' = with_logs l rn in
          if merged
          then (let rn'' =
                follow_commit req.leader_commit (u64 (req.prev_log_index + length req.entries))
                  rn' in
              (rn'', reply rn'' true))
          else (rn', reply rn' false))
      else (rn, reply rn false)

  unfoldable pub handle_append_entries :
      Env → AppendEntriesRequest → RaftNode S → RaftNode S × AppendEntriesResponse
  unfolding follow accept
  handle_append_entries env req rn =
      if ltb req.term rn.persistent.current_term
      then (rn, reply rn false)
      else accept req (follow env req rn)
