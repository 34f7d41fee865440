-- ===== src/Cluster/Counted.antt =====
-- Every round of votes in a cluster is sound, after any run (internal/raft/election.go).
use raftra.Common.{
  All-split, All-append, All-mono, All, String, ◌≡◌, ◌≢◌, ◌∙◌, inl, true, List, [], ◌∷◌, ◌++◌,
  arith, string_eq, nat_eq,
}
use mathlib.Core.Path.{subst}
use raftra.Cluster.Replies.{IsHonest, replies-IsHonest}
use raftra.Cluster.Rounds.{
  IsCounted, IsCounted-later, opened-IsCounted, answered-IsCounted, hang_up-All,
}
use raftra.Cluster.Setup.{AllMembers, Run-AllMembers, put_self}
use raftra.Cluster.{
  without, KvStore, polls, new_raft_node, contains, Cluster, Round, Move, acts, serves, delivers,
  restarts, Run, here, next, launch, serve, deliver, hang_up, opened,
}
use raftra.Kvstore.{Codec}
use raftra.Raft.Durable.{IsWritable}
use raftra.Raft.Election.Office.{Moves}
use raftra.Raft.Election.Tally.{on_vote_response-IsTallied}
use raftra.Raft.Election.{on_vote_response}
use raftra.Raft.Office.{polls}
use raftra.Raft.Node.{new_raft_node, Config, created, RaftNode, leader, role_eq}
use raftra.Raft.Office.Serves.{handle_request_vote-Stays}
use raftra.Raft.Steps.Office.{Step-Moves}
use raftra.Raft.Vote.{handle_request_vote}
use raftra.Storage.{StorageBackend, IsLawful}

module _ {S : Type 0} ⦃b : StorageBackend S⦄ ⦃codec : Codec⦄ (law : IsLawful b) (ok : IsWritable b)
    (members : List String) where
  -- A cluster at its start: each member has its name, the other members for peers and its term and vote
  -- on storage; no member leads, and no vote request or answer is on its way.
  pub record IsStart (cl : Cluster S) : Type 0 where
    pub members_ready : AllMembers law ok members cl
    pub none_leads : (m : String) → (cl.node m).role ≢ leader
    pub no_rounds : cl.rounds ≡ []
    pub no_replies : cl.replies ≡ []

  persistent-launch :
      (i : String) (rn : RaftNode S) (cl : Cluster S)
      → ((launch i rn cl).node i).persistent ≡ rn.persistent
  unfolding launch
  persistent-launch i rn cl = rw (put_self cl.node i (record rn { spawned = [] }))

  rounds-later :
      {first cl cl' : Cluster S} (r : Run members first cl) (mv : Move members cl cl')
      (rounds : List Round)
      → All (IsCounted members r) rounds
      → All (IsCounted members (next r mv)) rounds
  rounds-later r mv rounds h =
      All-mono (IsCounted members r) (IsCounted members (next r mv)) rounds
        (IsCounted-later members r mv) h

  pub new_raft_node-fresh :
      (config : Config) (s : S) (kv : KvStore) (rn : RaftNode S)
      → new_raft_node config s kv ≡ created rn
      → (rn.role ≢ leader) × (opened config.node_id (polls rn.spawned) ≡ [])
  unfolding new_raft_node polls opened
  new_raft_node-fresh config s kv rn e = (ground (arith, e), ground (arith, e))

  -- The rounds that a node opens as it takes part in a move.
  Move-opened :
      {first cl' : Cluster S} (r : Run members first cl') (cl : Cluster S) (i : String)
      (rn : RaftNode S)
      → AllMembers law ok members cl
      → contains members i ≡ true
      → Moves (cl.node i) rn
      → (cl'.node i).persistent ≡ rn.persistent
      → All (IsCounted members r) (opened i (polls rn.spawned))
  Move-opened r cl i rn all inside moves now =
      let m = all i inside in
      opened-IsCounted members r i (cl.node i) rn inside m.set_up m.idle moves now

  Move-rounds :
      {first cl cl' : Cluster S} (r : Run members first cl) (mv : Move members cl cl')
      → AllMembers law ok members cl
      → All (IsHonest r) cl.replies
      → All (IsCounted members r) cl.rounds
      → All (IsCounted members (next r mv)) cl'.rounds
  unfolding launch serve deliver opened
  Move-rounds {cl} r (acts i {rn} inside small st l) all honest h =
      let r' = next r (acts i {rn = rn} inside small st l) in
      All-append (IsCounted members r') cl.rounds _ (rounds-later r _ cl.rounds h)
        (Move-opened r' cl i rn all inside (Step-Moves st l) (persistent-launch i rn cl))
  Move-rounds {cl} r (serves env v k round inside e) all honest h =
      let r' = next r (serves env v k round inside e) in
      let rn = (handle_request_vote env round.req (cl.node v)).0 in
      All-append (IsCounted members r') cl.rounds _ (rounds-later r _ cl.rounds h) (
        Move-opened r' cl v rn all inside
          (inl (handle_request_vote-Stays env round.req (cl.node v))) (persistent-launch v rn cl))
  Move-rounds {cl} r (delivers env peer res before round after e w a) all honest h =
      let r' = next r (delivers env peer res before round after e w a) in
      let i = round.owner in
      let t = on_vote_response-IsTallied env round.ballot res (cl.node i) in
      let (front, (this, back)) =
        All-split (IsCounted members r) before (round ∷ after)
          (subst (All (IsCounted members r)) e h) in
      let this' = answered-IsCounted members r peer round res _ honest a w t.tally this in
      let round' : Round = record round {
        ballot = (on_vote_response env round.ballot res (cl.node i)).0;
        waiting = without peer round.waiting;
      } in
      All-append (IsCounted members r') (before ++ round' ∷ after) _
        (All-append (IsCounted members r') before (round' ∷ after) (rounds-later r _ before front)
          (IsCounted-later members r _ round' this', rounds-later r _ after back))
        (rw (t.polls ∙ (all i this.owner).idle) tt)
  Move-rounds {cl} r (restarts i config kv rn inside e name peers) all honest h =
      let r' = next r (restarts i config kv rn inside e name peers) in
      All-append (IsCounted members r') (hang_up i cl.rounds) _
        (rounds-later r _ (hang_up i cl.rounds) (hang_up-All (IsCounted members r) i cl.rounds h))
        (rw (← name) (rw (new_raft_node-fresh config (cl.node i).storage kv rn e).1 tt))

  pub rounds-IsCounted :
      {first cl : Cluster S} (r : Run members first cl)
      → IsStart first
      → All (IsCounted members r) cl.rounds
  rounds-IsCounted here start = rw start.no_rounds tt
  rounds-IsCounted (next r mv) start =
      Move-rounds r mv (Run-AllMembers law ok members r start.members_ready)
        (replies-IsHonest r start.no_replies) (rounds-IsCounted r start)
