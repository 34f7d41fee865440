-- ===== src/Raft/Office/Serves.antt =====
-- The inner methods of a node that neither campaign nor count a vote, and the vote handler
-- (internal/raft/election.go, replication.go): whoever leads after them led before, in the same term.
use raftra.Common.{ℕ, ap, arith, string_eq, nat_eq}
use raftra.Kvstore.{Codec}
use raftra.Proto.{RequestVoteRequest}
use raftra.Raft.Apply.Frame.{apply_committed-IsApplied}
use raftra.Raft.Apply.{apply_committed_entries_locked}
use raftra.Raft.Commit.Frame.{check_and_update-IsCommitted}
use raftra.Raft.Commit.{check_and_update_commit_index_locked}
use raftra.Raft.Node.{RaftNode, role_eq}
use raftra.Raft.Office.{polls, Stays, Stays-kept}
use raftra.Raft.Run.{stop}
use raftra.Raft.Term.{check_term}
use raftra.Raft.Timer.{Env, reset_election_timer, reset_heartbeat_timer}
use raftra.Raft.Vote.{handle_request_vote}
use raftra.Storage.{StorageBackend}

module _ {S : Type 0} where
  pub reset_election_timer-Stays :
      (env : Env) (rn : RaftNode S) → Stays rn (reset_election_timer env rn)
  unfolding reset_election_timer
  reset_election_timer-Stays env rn = ground arith

  pub reset_heartbeat_timer-Stays :
      (env : Env) (rn : RaftNode S) → Stays rn (reset_heartbeat_timer env rn)
  unfolding reset_heartbeat_timer
  reset_heartbeat_timer-Stays env rn = ground arith

  pub stop-Stays : (rn : RaftNode S) → Stays rn (stop rn)
  unfolding stop
  stop-Stays rn = ground arith

module _ {S : Type 0} ⦃b : StorageBackend S⦄ where
  pub check_term-Stays : (t : ℕ) (rn : RaftNode S) → Stays rn (check_term t rn).0
  unfolding check_term
  check_term-Stays t rn = ground arith

  pub handle_request_vote-Stays :
      (env : Env) (req : RequestVoteRequest) (rn : RaftNode S)
      → Stays rn (handle_request_vote env req rn).0
  unfolding handle_request_vote check_term reset_election_timer
  handle_request_vote-Stays env req rn = ground arith

module _ {S : Type 0} ⦃b : StorageBackend S⦄ ⦃codec : Codec⦄ where
  pub apply_committed-Stays : (rn : RaftNode S) → Stays rn (apply_committed_entries_locked rn)
  apply_committed-Stays rn =
      let a = apply_committed-IsApplied rn in Stays-kept a.kept (ap polls a.spawned)

  pub check_and_update-Stays :
      (rn : RaftNode S) → Stays rn (check_and_update_commit_index_locked rn)
  check_and_update-Stays rn =
      let c = check_and_update-IsCommitted rn in Stays-kept c.kept (ap polls c.spawned)
