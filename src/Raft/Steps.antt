-- ===== src/Raft/Steps.antt =====
-- Everything that can happen to a Raft node (internal/raft), as one step relation: the RPCs that it
-- serves, the timers, the answers to its own RPCs, and the calls of clients and of the program.
pub mod Proceeds
pub mod Tenure
pub mod Records
pub mod Office
pub mod Advance
pub mod Durable
use raftra.Common.{ℕ, String, ◌≡◌, ◌+◌, ◌<◌, ◌^◌, Option, some}
use raftra.Kvstore.{Codec, Bytes}
use raftra.Metrics.{Metrics}
use raftra.Proto.{
  RequestVoteRequest, RequestVoteResponse, AppendEntriesRequest, AppendEntriesResponse,
}
use raftra.Raft.Append.{handle_append_entries}
use raftra.Raft.Election.{on_pre_vote_response, on_vote_response}
use raftra.Raft.Node.{RaftNode, Ballot}
use raftra.Raft.Propose.{propose_command, finish_proposal, on_append_response, Event}
use raftra.Raft.Run.{on_election_timer, on_heartbeat_timer, set_metrics, stop}
use raftra.Raft.Timer.{Env, start}
use raftra.Raft.Vote.{handle_request_vote}
use raftra.Storage.{StorageBackend}

module _ {S : Type 0} ⦃b : StorageBackend S⦄ ⦃codec : Codec⦄ where
  pub data Step (rn : RaftNode S) : RaftNode S → Type 0 where
    request_vote :
        (env : Env) (req : RequestVoteRequest) → Step rn (handle_request_vote env req rn).0
    append_entries :
        (env : Env) (req : AppendEntriesRequest) → Step rn (handle_append_entries env req rn).0
    election_timer : (env : Env) → Step rn (on_election_timer env rn)
    heartbeat_timer : (env : Env) → Step rn (on_heartbeat_timer env rn)
    pre_vote_response :
        (env : Env) (ballot : Ballot) (res : Option RequestVoteResponse)
        → Step rn (on_pre_vote_response env ballot res rn).1
    vote_response :
        (env : Env) (ballot : Ballot) (res : Option RequestVoteResponse)
        → Step rn (on_vote_response env ballot res rn).1
    append_response :
        (env : Env) (peer : String) (r : AppendEntriesRequest) (resp : Option AppendEntriesResponse)
        {rn' : RaftNode S}
        → on_append_response env peer r resp rn ≡ some rn'
        → Step rn rn'
    propose : (cmd : Bytes) → Step rn (propose_command cmd rn).0
    finish : (index : ℕ) (event : Event) → Step rn (finish_proposal index event rn).0
    started : (env : Env) → Step rn (start env rn)
    stopped : Step rn (stop rn)
    metrics : (m : Option Metrics) → Step rn (set_metrics m rn)

  -- A run of steps, while the term has not come to the end of uint64.
  pub data Reach (rn : RaftNode S) : RaftNode S → Type 0 where
    here : Reach rn rn
    next :
        {s t : RaftNode S}
        → Reach rn s
        → s.persistent.current_term + 1 < 2 ^ 64
        → Step s t
        → Reach rn t

  -- What holds of the AppendEntries request that a step serves, if it serves one.
  abbrev pub Takes : (AppendEntriesRequest → Type 0) → {rn rn' : RaftNode S} → Step rn rn' → Type 0
  Takes P (request_vote env req) = Unit
  Takes P (append_entries env req) = P req
  Takes P (election_timer env) = Unit
  Takes P (heartbeat_timer env) = Unit
  Takes P (pre_vote_response env ballot res) = Unit
  Takes P (vote_response env ballot res) = Unit
  Takes P (append_response env peer r resp e) = Unit
  Takes P (propose cmd) = Unit
  Takes P (finish index event) = Unit
  Takes P (started env) = Unit
  Takes P stopped = Unit
  Takes P (metrics m) = Unit

  pub Takes-mono :
      (P Q : AppendEntriesRequest → Type 0)
      → ((req : AppendEntriesRequest) → P req → Q req)
      → {rn rn' : RaftNode S} (st : Step rn rn') → Takes P st
      → Takes Q st
  Takes-mono P Q f (request_vote env req) h = tt
  Takes-mono P Q f (append_entries env req) h = f req h
  Takes-mono P Q f (election_timer env) h = tt
  Takes-mono P Q f (heartbeat_timer env) h = tt
  Takes-mono P Q f (pre_vote_response env ballot res) h = tt
  Takes-mono P Q f (vote_response env ballot res) h = tt
  Takes-mono P Q f (append_response env peer r resp e) h = tt
  Takes-mono P Q f (propose cmd) h = tt
  Takes-mono P Q f (finish index event) h = tt
  Takes-mono P Q f (started env) h = tt
  Takes-mono P Q f stopped h = tt
  Takes-mono P Q f (metrics m) h = tt
