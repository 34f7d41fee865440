-- ===== src/Raft/Propose/Office.antt =====
-- Proposals and the answers of followers (internal/raft/replication.go) give no office.
use raftra.Common.{ℕ, String, ◌≡◌, Bool, true, false, Option, none, some, arith, string_eq, nat_eq}
use raftra.Kvstore.{Codec, Bytes}
use raftra.Proto.{AppendEntriesRequest, AppendEntriesResponse}
use raftra.Raft.Node.{RaftNode, LeaderState, role_eq}
use raftra.Raft.Office.{Stays}
use raftra.Raft.Propose.{
  propose_command, finish_proposal, record_answer, answer_append, on_append_response, Event,
}
use raftra.Raft.Timer.{Env}
use raftra.Raft.Office.Serves.{
  check_term-Stays, reset_election_timer-Stays, apply_committed-Stays, check_and_update-Stays,
}
use raftra.Raft.Send.Office.{send-Stays, broadcast-Stays}
use raftra.Storage.{StorageBackend}

module _ {S : Type 0} ⦃b : StorageBackend S⦄ ⦃codec : Codec⦄ where
  pub propose_command-Stays : (cmd : Bytes) (rn : RaftNode S) → Stays rn (propose_command cmd rn).0
  unfolding propose_command
  propose_command-Stays cmd rn = grind (arith, apply_committed-Stays, broadcast-Stays)

  pub finish_proposal-Stays :
      (index : ℕ) (event : Event) (rn : RaftNode S) → Stays rn (finish_proposal index event rn).0
  unfolding finish_proposal
  finish_proposal-Stays index event rn = ground arith

  record_answer-Stays :
      (peer : String) (r : AppendEntriesRequest) (success : Bool) (ls : LeaderState)
      (rn : RaftNode S)
      → Stays rn (record_answer peer r success ls rn)
  unfolding record_answer
  record_answer-Stays peer r true ls rn =
      let k = check_and_update-Stays _ in
      record { config = k.config; peers = k.peers; polls = k.polls; led = k.led; term = k.term }
  record_answer-Stays peer r false ls rn = grind (arith, send-Stays)

  answer_append-Stays :
      (env : Env) (peer : String) (r : AppendEntriesRequest) (resp : AppendEntriesResponse)
      (rn rn' : RaftNode S)
      → answer_append env peer r resp rn ≡ some rn'
      → Stays rn rn'
  unfolding answer_append
  answer_append-Stays env peer r resp rn rn' h =
      grind (arith, check_term-Stays resp.term rn, reset_election_timer-Stays, record_answer-Stays)

  pub on_append_response-Stays :
      (env : Env) (peer : String) (r : AppendEntriesRequest) (resp : Option AppendEntriesResponse)
      (rn rn' : RaftNode S)
      → on_append_response env peer r resp rn ≡ some rn'
      → Stays rn rn'
  unfolding on_append_response
  on_append_response-Stays env peer r none rn rn' h = ground arith
  on_append_response-Stays env peer r (some resp) rn rn' h =
      ground (arith, answer_append-Stays env peer r resp _ rn' h)
