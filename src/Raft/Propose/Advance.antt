-- ===== src/Raft/Propose/Advance.antt =====
-- Proposals and the answers of followers (internal/raft/replication.go) advance the term and the vote.
use raftra.Common.{ℕ, String, ◌≡◌, Bool, true, false, Option, none, some, arith, string_eq, nat_eq}
use raftra.Kvstore.{Codec, Bytes}
use raftra.Proto.{AppendEntriesRequest, AppendEntriesResponse}
use raftra.Raft.Advance.{Advances, check_term-Advances, persistent-reset_election_timer}
use raftra.Raft.Apply.Frame.{apply_committed-IsApplied}
use raftra.Raft.Commit.Frame.{check_and_update-IsCommitted}
use raftra.Raft.Node.{RaftNode, LeaderState}
use raftra.Raft.Propose.{
  propose_command, finish_proposal, record_answer, answer_append, on_append_response, Event,
}
use raftra.Raft.Send.Frame.{send-IsSent, broadcast-IsSent}
use raftra.Raft.Timer.{Env}
use raftra.Storage.{StorageBackend}

module _ {S : Type 0} ⦃b : StorageBackend S⦄ ⦃codec : Codec⦄ where
  pub propose_command-Advances :
      (cmd : Bytes) (rn : RaftNode S) → Advances rn.persistent (propose_command cmd rn).0.persistent
  unfolding propose_command
  propose_command-Advances cmd rn = grind (arith, apply_committed-IsApplied, broadcast-IsSent)

  pub finish_proposal-Advances :
      (index : ℕ) (event : Event) (rn : RaftNode S)
      → Advances rn.persistent (finish_proposal index event rn).0.persistent
  unfolding finish_proposal
  finish_proposal-Advances index event rn = ground arith

  persistent-record_answer :
      (peer : String) (r : AppendEntriesRequest) (success : Bool) (ls : LeaderState)
      (rn : RaftNode S)
      → (record_answer peer r success ls rn).persistent ≡ rn.persistent
  unfolding record_answer
  persistent-record_answer peer r true ls rn = (check_and_update-IsCommitted _).kept.persistent
  persistent-record_answer peer r false ls rn = grind (arith, send-IsSent)

  answer_append-Advances :
      (env : Env) (peer : String) (r : AppendEntriesRequest) (resp : AppendEntriesResponse)
      (rn rn' : RaftNode S)
      → answer_append env peer r resp rn ≡ some rn'
      → Advances rn.persistent rn'.persistent
  unfolding answer_append
  answer_append-Advances env peer r resp rn rn' h = grind (
    arith,
    check_term-Advances resp.term rn,
    persistent-reset_election_timer,
    persistent-record_answer,
  )

  pub on_append_response-Advances :
      (env : Env) (peer : String) (r : AppendEntriesRequest) (resp : Option AppendEntriesResponse)
      (rn rn' : RaftNode S)
      → on_append_response env peer r resp rn ≡ some rn'
      → Advances rn.persistent rn'.persistent
  unfolding on_append_response
  on_append_response-Advances env peer r none rn rn' h = ground arith
  on_append_response-Advances env peer r (some resp) rn rn' h =
      answer_append-Advances env peer r resp _ rn' h
