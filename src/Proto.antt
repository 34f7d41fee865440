-- ===== src/Proto.antt =====
-- proto/raft.proto: the messages of the Raft service. The Go code under proto/ is generated from it.
use raftra.Common.{ℕ, String, Bool, List}
use raftra.Kvstore.{Bytes}

pub record LogEntry : Type 0 where
  pub index : ℕ
  pub term : ℕ
  pub command : Bytes

pub record RequestVoteRequest : Type 0 where
  pub term : ℕ
  pub candidate_id : String
  pub last_log_index : ℕ
  pub last_log_term : ℕ
  pub pre_vote : Bool

pub record RequestVoteResponse : Type 0 where
  pub term : ℕ
  pub vote_granted : Bool

pub record AppendEntriesRequest : Type 0 where
  pub term : ℕ
  pub leader_id : String
  pub prev_log_index : ℕ
  pub prev_log_term : ℕ
  pub entries : List LogEntry
  pub leader_commit : ℕ

pub record AppendEntriesResponse : Type 0 where
  pub term : ℕ
  pub success : Bool
