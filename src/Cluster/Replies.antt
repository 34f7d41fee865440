-- ===== src/Cluster/Replies.antt =====
-- An answer that grants a vote comes from a member that cast it (internal/raft/election.go,
-- `HandleRequestVote`).
use raftra.Common.{All-mono, All, String, ◌≡◌, inl, true, false, List, [], string_eq, nat_eq}
use raftra.Cluster.Setup.{put_self}
use raftra.Cluster.Votes.{Holds, Voted, Holds-Voted}
use raftra.Cluster.{
  Cluster, Reply, Move, acts, serves, delivers, restarts, Run, here, next, launch, serve, deliver,
}
use raftra.Kvstore.{Codec}
use raftra.Proto.{RequestVoteRequest}
use raftra.Raft.Timer.{Env}
use raftra.Raft.Vote.Once.{granted_vote}
use raftra.Raft.Vote.{handle_request_vote}
use raftra.Storage.{StorageBackend}

module _ {S : Type 0} ⦃b : StorageBackend S⦄ ⦃codec : Codec⦄ where
  abbrev pub IsHonest :
      {members : List String} {first cl : Cluster S} → Run members first cl → Reply → Type 0
  IsHonest r reply =
      reply.req.pre_vote ≡ false
      → reply.res.vote_granted ≡ true
      → Voted r reply.voter reply.req.term reply.req.candidate_id

  serve-Holds :
      (env : Env) (v : String) (req : RequestVoteRequest) (cl : Cluster S)
      → req.pre_vote ≡ false
      → (handle_request_vote env req (cl.node v)).1.vote_granted ≡ true
      → Holds (serve env v req cl) v req.term req.candidate_id
  unfolding serve launch
  serve-Holds env v req cl real granted =
      rw (put_self cl.node v _)
        (let g = granted_vote env req (cl.node v) (real, granted) in (g.0, g.1))

  later-IsHonest :
      {members : List String} {first cl cl' : Cluster S} (r : Run members first cl)
      (mv : Move members cl cl')
      → All (IsHonest r) cl.replies
      → All (IsHonest (next r mv)) cl.replies
  later-IsHonest {cl} r mv h =
      All-mono (IsHonest r) (IsHonest (next r mv)) cl.replies (λ reply k real yea. inl (k real yea))
        h

  pub replies-IsHonest :
      {members : List String} {first cl : Cluster S} (r : Run members first cl)
      → first.replies ≡ []
      → All (IsHonest r) cl.replies
  unfolding launch serve deliver
  replies-IsHonest here e = rw e tt
  replies-IsHonest (next r (acts i inside small st l)) e =
      later-IsHonest r (acts i inside small st l) (replies-IsHonest r e)
  replies-IsHonest (next r (delivers env peer res before round after p w a)) e =
      later-IsHonest r (delivers env peer res before round after p w a) (replies-IsHonest r e)
  replies-IsHonest (next r (restarts i config kv rn inside p name peers)) e =
      later-IsHonest r (restarts i config kv rn inside p name peers) (replies-IsHonest r e)
  replies-IsHonest (next {cl} r (serves env v k round inside p)) e = (
    λ real granted.
        Holds-Voted (next r (serves env v k round inside p))
          (serve-Holds env v round.req cl real granted),
    later-IsHonest r (serves env v k round inside p) (replies-IsHonest r e),
  )
