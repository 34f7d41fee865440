-- ===== src/Raft/Propose/Durable.antt =====
-- Proposals and the answers of followers (internal/raft/replication.go) keep the term and the vote on
-- stable storage.
use raftra.Common.{ℕ, String, ◌≡◌, Bool, true, false, Option, none, some, arith, string_eq, nat_eq}
use raftra.Kvstore.{Codec, Bytes}
use raftra.Proto.{AppendEntriesRequest, AppendEntriesResponse}
use raftra.Raft.Apply.Frame.{apply_committed-IsApplied}
use raftra.Raft.Commit.Frame.{check_and_update-IsCommitted}
use raftra.Raft.Durable.{IsWritable, IsDurable, IsDurable-kept, check_term-IsDurable}
use raftra.Raft.Election.Durable.{reset_election_timer-IsDurable}
use raftra.Raft.Node.{RaftNode, LeaderState, role_eq}
use raftra.Raft.Propose.{
  propose_command, finish_proposal, record_answer, answer_append, on_append_response, Event,
}
use raftra.Raft.Send.Frame.{send-IsSent, broadcast-IsSent}
use raftra.Raft.Timer.{Env}
use raftra.Storage.{StorageBackend, IsLawful}

module _ {S : Type 0} ⦃b : StorageBackend S⦄ ⦃codec : Codec⦄ (law : IsLawful b) where
  pub propose_command-IsDurable :
      (cmd : Bytes) (rn : RaftNode S) → IsDurable law rn → IsDurable law (propose_command cmd rn).0
  unfolding propose_command
  propose_command-IsDurable cmd rn h = grind (
    arith,
    apply_committed-IsApplied,
    broadcast-IsSent,
    law.term-append_entries rn.storage,
    law.voted_for-append_entries rn.storage,
  )

  pub finish_proposal-IsDurable :
      (index : ℕ) (event : Event) (rn : RaftNode S)
      → IsDurable law rn
      → IsDurable law (finish_proposal index event rn).0
  unfolding finish_proposal
  finish_proposal-IsDurable index event rn h = ground arith

  record_answer-IsDurable :
      (peer : String) (r : AppendEntriesRequest) (success : Bool) (ls : LeaderState)
      (rn : RaftNode S)
      → IsDurable law rn
      → IsDurable law (record_answer peer r success ls rn)
  unfolding record_answer
  record_answer-IsDurable peer r true ls rn h =
      IsDurable-kept law (check_and_update-IsCommitted _).kept h
  record_answer-IsDurable peer r false ls rn h = grind (arith, send-IsSent)

  answer_append-IsDurable :
      (ok : IsWritable b) (env : Env) (peer : String) (r : AppendEntriesRequest)
      (resp : AppendEntriesResponse) (rn rn' : RaftNode S)
      → answer_append env peer r resp rn ≡ some rn'
      → IsDurable law rn
      → IsDurable law rn'
  unfolding answer_append
  answer_append-IsDurable ok env peer r resp rn rn' e h = grind (
    arith,
    check_term-IsDurable law ok resp.term rn h,
    reset_election_timer-IsDurable law,
    record_answer-IsDurable,
  )

  pub on_append_response-IsDurable :
      (ok : IsWritable b) (env : Env) (peer : String) (r : AppendEntriesRequest)
      (resp : Option AppendEntriesResponse) (rn rn' : RaftNode S)
      → on_append_response env peer r resp rn ≡ some rn'
      → IsDurable law rn
      → IsDurable law rn'
  unfolding on_append_response
  on_append_response-IsDurable ok env peer r none rn rn' e h = ground arith
  on_append_response-IsDurable ok env peer r (some resp) rn rn' e h =
      answer_append-IsDurable ok env peer r resp _ rn' e h
