-- ===== src/Raft/Propose.antt =====
-- `ProposeCommand` and the answers to AppendEntries RPCs, of internal/raft/replication.go.
pub mod Proceeds
pub mod Tenure
pub mod Records
pub mod Office
pub mod Advance
pub mod Durable
pub mod Waits
pub mod Single
use raftra.Common.{
  ℕ, suc, ◌+◌, ◌-◌, ◌^◌, String, Bool, true, false, Option, none, some, [], ◌∷◌, ◌++◌, ltb, ◌==◌,
  not, ◌||◌, if◌then◌else◌, nat_eq, string_eq, length, u64,
}
use raftra.GoMap
use raftra.GoMap.{GoMap}
use raftra.Kvstore.{Codec, Bytes}
use raftra.Metrics.{set_log_entries_total, inc_append_entries_total}
use raftra.Proto.{LogEntry, AppendEntriesRequest, AppendEntriesResponse}
use raftra.Raft.Apply.{apply_committed_entries_locked}
use raftra.Raft.Commit.{check_and_update_commit_index_locked}
use raftra.Raft.Node.{RaftNode, LeaderState, Channel, leader, role_eq}
use raftra.Raft.Send.{at, broadcast_append_entries_locked, send_append_entries_to_peer_locked}
use raftra.Raft.Term.{check_term}
use raftra.Raft.Timer.{Env, reset_election_timer}
use raftra.Storage.{StorageBackend, Err, not_leader, commit_timeout, node_stopped}

-- What the first half of `ProposeCommand` comes to: a result, or a client that waits on a channel
-- for the entry at an index.
pub data Proposal : Type 0 where
  returned : ℕ → Err → Proposal
  waiting : (index : ℕ) → Channel → Proposal

-- What ends the wait, the three cases of the `select`.
pub data Event : Type 0 where
  received : Err → Event
  timed_out : Event
  stopping : Event

-- if n > m[peer] { m[peer] = n }
raise : GoMap String ℕ → String → ℕ → GoMap String ℕ
raise m peer n = if ltb (at m peer) n then GoMap.insert m peer n else m

module _ {S : Type 0} ⦃b : StorageBackend S⦄ ⦃codec : Codec⦄ where
  register : ℕ → RaftNode S → RaftNode S × Proposal
  register index rn = (
    broadcast_append_entries_locked (record rn {
      pending_commits = GoMap.insert rn.pending_commits index rn.next_channel;
      next_channel = suc rn.next_channel;
    }),
    waiting index rn.next_channel,
  )

  replicate : LogEntry → RaftNode S → RaftNode S × Proposal
  unfolding register
  replicate entry rn =
      let (storage', err) = b.append_entries (entry ∷ []) rn.storage in
      elim err [
        | some e ↦ (record rn { storage = storage' }, returned 0 (some e))
        | none ↦
            let rn' : RaftNode S = record rn {
              storage = storage';
              persistent = record rn.persistent { log = rn.persistent.log ++ entry ∷ [] };
            } in
            if length rn'.peers == 0
            then (
              apply_committed_entries_locked
                  (record rn' { volatile = record rn'.volatile { commit_index = entry.index } }),
              returned entry.index none,
            )
            else register entry.index rn'
      ]

  -- Up to the `select`.
  unfoldable pub propose_command : Bytes → RaftNode S → RaftNode S × Proposal
  unfolding replicate
  propose_command cmd rn =
      if rn.role == leader
      then replicate
          (record {
            index = u64 ((b.last_index rn.storage).0 + 1);
            term = rn.persistent.current_term;
            command = cmd;
          })
          rn
      else (rn, returned 0 (some not_leader))

  -- The `select` and what follows it.
  unfoldable pub finish_proposal : ℕ → Event → RaftNode S → RaftNode S × (ℕ × Err)
  finish_proposal index (received none) rn =
      (record rn { metrics = set_log_entries_total index rn.metrics }, (index, none))
  finish_proposal index (received (some e)) rn = (rn, (index, some e))
  finish_proposal index timed_out rn = (
    record rn { pending_commits = GoMap.delete rn.pending_commits index },
    (0, some commit_timeout),
  )
  finish_proposal index stopping rn = (rn, (0, some node_stopped))

  -- The answer of a follower while the node still leads, in the term of the request.
  record_answer : String → AppendEntriesRequest → Bool → LeaderState → RaftNode S → RaftNode S
  unfolding raise
  record_answer peer r true ls rn =
      let new_next = u64 (r.prev_log_index + length r.entries + 1) in
      check_and_update_commit_index_locked (record rn {
        leader_state = some (record {
          next_index = raise ls.next_index peer new_next;
          match_index = raise ls.match_index peer (u64 (new_next + (2 ^ 64 - 1)));
        });
      })
  record_answer peer r false ls rn =
      if ltb 1 (at ls.next_index peer)
      then send_append_entries_to_peer_locked peer (record rn {
        leader_state = some (record ls {
          next_index = GoMap.insert ls.next_index peer (at ls.next_index peer - 1);
        });
      })
      else rn

  -- `none` is the panic of a nil `rn.leader`.
  answer_append :
      Env → String → AppendEntriesRequest → AppendEntriesResponse → RaftNode S → Option (RaftNode S)
  unfolding record_answer
  answer_append env peer r resp rn =
      let (rn', newer) = check_term resp.term rn in
      if newer
      then some (reset_election_timer env rn')
      else if not (rn'.role == leader) || not (rn'.persistent.current_term == r.term)
      then some rn'
      else elim rn'.leader_state [
        | none ↦ none
        | some ls ↦ some (record_answer peer r resp.success ls rn')
      ]

  -- The goroutine of one AppendEntries RPC; no response is a failed RPC.
  unfoldable pub on_append_response :
      Env
      → String
      → AppendEntriesRequest
      → Option AppendEntriesResponse
      → RaftNode S
      → Option (RaftNode S)
  unfolding answer_append
  on_append_response env peer r resp rn =
      let rn' : RaftNode S = record rn { metrics = inc_append_entries_total rn.metrics } in
      elim resp [ none ↦ some rn' | some a ↦ answer_append env peer r a rn' ]
