-- ===== src/Raft/Vote/Restart.antt =====
-- One vote in a term, also for a node that stops and is started again from its storage
-- (internal/raft/election.go, state.go).
use raftra.Common.{◌≡◌, ◌≢◌, arith, string_eq, nat_eq}
use raftra.Kvstore.{Codec, KvStore}
use raftra.Proto.{RequestVoteRequest}
use raftra.Raft.Durable.{IsWritable, IsDurable}
use raftra.Raft.Node.{RaftNode, Config, created, new_raft_node}
use raftra.Raft.Steps.{Reach}
use raftra.Raft.Steps.Advance.{Reach-Advances}
use raftra.Raft.Steps.Durable.{restart-SameVote}
use raftra.Raft.Timer.{Env}
use raftra.Raft.Vote.Durable.{handle_request_vote-IsDurable}
use raftra.Raft.Vote.Once.{Grants, granted_vote}
use raftra.Raft.Vote.{handle_request_vote}
use raftra.Storage.{StorageBackend, IsLawful}

module _ {S : Type 0} ⦃b : StorageBackend S⦄ ⦃codec : Codec⦄ (law : IsLawful b)
    (ok : IsWritable b) where
  -- A node whose storage holds its term and vote, and takes every write of the two, grants its vote to
  -- a candidate with a name, runs on, stops, and is started again from its storage. If it then, after
  -- any run of steps, grants a vote in the same term, it grants it to the same candidate.
  pub one_vote_across_restart :
      (env env' : Env) (req req' : RequestVoteRequest) (config : Config) (kv : KvStore)
      (rn last again rn' : RaftNode S)
      → IsDurable law rn
      → Grants env req rn
      → Reach (handle_request_vote env req rn).0 last
      → new_raft_node config last.storage kv ≡ created again
      → Reach again rn'
      → Grants env' req' rn'
      → req.term ≡ req'.term
      → req.candidate_id ≢ ""
      → req.candidate_id ≡ req'.candidate_id
  one_vote_across_restart env env' req req' config kv rn last again rn' d g r e r' g' same named =
      let durable = handle_request_vote-IsDurable law ok env req rn d in
      let kept = restart-SameVote law ok config kv _ last again durable r e in
      ground (
        arith,
        granted_vote env req rn g,
        Reach-Advances r,
        kept,
        Reach-Advances r',
        granted_vote env' req' rn' g',
      )
