-- ===== src/Cluster/Setup.antt =====
-- What never changes about the members of a cluster (internal/raft): their names and their peers. With
-- it go the term and the vote on stable storage, and that both only advance, also across a restart.
use raftra.Common.{
  Within, Distinct, ◌+◌, String, ◌≡◌, refl, ap, ◌∙◌, inl, inr, true, false, List, [], arith, ◌==◌,
  string_eq, nat_eq, length, Bool-cases,
}
use mathlib.Core.Path.{subst}
use raftra.Cluster.{
  contains, KvStore, Cluster, Move, acts, serves, delivers, restarts, Run, here, next, put, launch,
  serve, deliver,
}
use raftra.Kvstore.{Codec}
use raftra.Raft.Advance.{Advances, Advances-refl}
use raftra.Raft.Durable.{IsWritable, IsDurable}
use raftra.Raft.Election.Advance.{on_vote_response-Advances}
use raftra.Raft.Election.Durable.{on_vote_response-IsDurable}
use raftra.Raft.Election.Office.{Moves}
use raftra.Raft.Election.Tally.{on_vote_response-IsTallied}
use raftra.Raft.Election.{peer_ids, on_vote_response}
use raftra.Raft.Node.{RaftNode, Config, created, new_raft_node}
use raftra.Raft.Office.Serves.{handle_request_vote-Stays}
use raftra.Raft.Office.{polls}
use raftra.Raft.Steps.Advance.{Step-Advances}
use raftra.Raft.Steps.Durable.{Step-IsDurable, new_raft_node-loads}
use raftra.Raft.Steps.Office.{Step-Moves}
use raftra.Raft.Vote.{handle_request_vote}
use raftra.Raft.Vote.Advance.{handle_request_vote-Advances}
use raftra.Raft.Vote.Durable.{handle_request_vote-IsDurable}
use raftra.Storage.{StorageBackend, IsLawful}

-- A node has the name of its member, and the other members for peers.
pub record IsSetUp {S : Type 0} (members : List String) (m : String) (rn : RaftNode S)
    : Type 0 where
  pub node_id : rn.config.node_id ≡ m
  pub distinct : Distinct (peer_ids rn.peers)
  pub within : Within members (peer_ids rn.peers)
  pub apart : contains (peer_ids rn.peers) m ≡ false
  pub count : length rn.peers + 1 ≡ length members

module _ {S : Type 0} where
  pub IsSetUp-same :
      {members : List String} {m : String} (rn rn' : RaftNode S)
      → rn'.config ≡ rn.config
      → rn'.peers ≡ rn.peers
      → IsSetUp members m rn
      → IsSetUp members m rn'
  IsSetUp-same rn rn' c p h = record {
    node_id = rw c h.node_id;
    distinct = rw p h.distinct;
    within = rw p h.within;
    apart = rw p h.apart;
    count = rw p h.count;
  }

  -- What holds of the node that is put, and of the others as they were, holds of all.
  pub put-all {κ} :
      (P : String → RaftNode S → Type κ) (node : String → RaftNode S) (i : String) (rn : RaftNode S)
      (j : String)
      → P i rn
      → P j (node j)
      → P j (put node i rn j)
  unfolding put
  put-all P node i rn j new old = elim (Bool-cases (i == j)) [
    | inl same ↦ rw same (subst (λ k. P k rn) ((string_eq.equal_iff i j).0 same) new)
    | inr other ↦ rw other old
  ]

  pub put_self : (node : String → RaftNode S) (i : String) (rn : RaftNode S) → put node i rn i ≡ rn
  unfolding put
  put_self node i rn = rw ((string_eq.equal_iff i i).1 refl)

module _ {S : Type 0} ⦃b : StorageBackend S⦄ ⦃codec : Codec⦄ (law : IsLawful b) (ok : IsWritable b)
    (members : List String) where
  -- A member between two moves.
  pub record IsMember (m : String) (rn : RaftNode S) : Type 0 where
    pub set_up : IsSetUp members m rn
    pub idle : polls rn.spawned ≡ []
    pub durable : IsDurable law rn

  IsMember-launched :
      (i : String) (rn rn' : RaftNode S)
      → rn'.config ≡ rn.config
      → rn'.peers ≡ rn.peers
      → IsDurable law rn'
      → IsMember i rn
      → IsMember i (record rn' { spawned = [] })
  unfolding polls
  IsMember-launched i rn rn' c p d h = record {
    set_up = IsSetUp-same rn _ c p h.set_up;
    idle = refl;
    durable = d;
  }

  abbrev pub AllMembers : Cluster S → Type 0
  AllMembers cl = (m : String) → contains members m ≡ true → IsMember m (cl.node m)

  new_raft_node-config :
      (config : Config) (s : S) (kv : KvStore) (rn : RaftNode S)
      → new_raft_node config s kv ≡ created rn
      → rn.config ≡ config
  unfolding new_raft_node
  new_raft_node-config config s kv rn e = ground (arith, e)

  -- What a move does to one node.
  record Succeeds (m : String) (rn rn' : RaftNode S) : Type 0 where
    pub member : contains members m ≡ true → IsMember m rn'
    pub advances : Advances rn.persistent rn'.persistent

  Succeeds-put :
      (cl : Cluster S) (i : String) (rn : RaftNode S)
      → AllMembers cl
      → Succeeds i (cl.node i) (record rn { spawned = [] })
      → (m : String) → Succeeds m (cl.node m) (put cl.node i (record rn { spawned = [] }) m)
  Succeeds-put cl i rn all s m =
      put-all (λ j r. Succeeds j (cl.node j) r) cl.node i _ m s
        (record { member = all m; advances = Advances-refl (cl.node m).persistent })

  -- A node that acts, serves or hears an answer.
  acted :
      (i : String) (rn rn' : RaftNode S)
      → rn'.config ≡ rn.config
      → rn'.peers ≡ rn.peers
      → (IsDurable law rn → IsDurable law rn')
      → Advances rn.persistent rn'.persistent
      → (contains members i ≡ true → IsMember i rn)
      → Succeeds i rn (record rn' { spawned = [] })
  acted i rn rn' c p d a h = record {
    member = λ m. IsMember-launched i rn rn' c p (d (h m).durable) (h m);
    advances = a;
  }

  config-Moves : {rn rn' : RaftNode S} → Moves rn rn' → rn'.config ≡ rn.config
  config-Moves (inl s) = s.config
  config-Moves (inr c) = c.config

  peers-Moves : {rn rn' : RaftNode S} → Moves rn rn' → rn'.peers ≡ rn.peers
  peers-Moves (inl s) = s.peers
  peers-Moves (inr c) = c.peers

  restarted :
      (i : String) (config : Config) (kv : KvStore) (rn rn' : RaftNode S)
      → new_raft_node config rn.storage kv ≡ created rn'
      → config.node_id ≡ i
      → rn'.peers ≡ rn.peers
      → IsMember i rn
      → Succeeds i rn (record rn' { spawned = [] })
  unfolding polls
  restarted i config kv rn rn' e name peers h =
      let loads = new_raft_node-loads law config rn.storage kv rn' e in
      record {
        member = λ m. record {
          set_up = record {
            node_id = ap (λ c. c.node_id) (new_raft_node-config config rn.storage kv rn' e) ∙ name;
            distinct = rw peers h.set_up.distinct;
            within = rw peers h.set_up.within;
            apart = rw peers h.set_up.apart;
            count = rw peers h.set_up.count;
          };
          idle = refl;
          durable = ground (arith, loads);
        };
        advances = ground (arith, loads, h.durable);
      }

  Move-Succeeds :
      {cl cl' : Cluster S}
      → Move members cl cl'
      → AllMembers cl
      → (m : String) → Succeeds m (cl.node m) (cl'.node m)
  unfolding launch serve deliver
  Move-Succeeds {cl} (acts i {rn} inside small st l) all =
      let moves = Step-Moves st l in
      Succeeds-put cl i rn all (
        acted i (cl.node i) rn (config-Moves moves) (peers-Moves moves) (Step-IsDurable law ok st)
          (Step-Advances st small) (all i))
  Move-Succeeds {cl} (serves env v k round inside e) all =
      let s = handle_request_vote-Stays env round.req (cl.node v) in
      let rn = (handle_request_vote env round.req (cl.node v)).0 in
      Succeeds-put cl v rn all (
        acted v (cl.node v) rn s.config s.peers
          (handle_request_vote-IsDurable law ok env round.req (cl.node v))
          (handle_request_vote-Advances env round.req (cl.node v)) (all v))
  Move-Succeeds {cl} (delivers env peer res before round after e w a) all =
      let i = round.owner in
      let t = on_vote_response-IsTallied env round.ballot res (cl.node i) in
      let rn = (on_vote_response env round.ballot res (cl.node i)).1 in
      Succeeds-put cl i rn all (
        acted i (cl.node i) rn t.config t.peers
          (on_vote_response-IsDurable law ok env round.ballot res (cl.node i))
          (on_vote_response-Advances env round.ballot res (cl.node i)) (all i))
  Move-Succeeds {cl} (restarts i config kv rn inside e name peers) all =
      Succeeds-put cl i rn all (restarted i config kv (cl.node i) rn e name peers (all i inside))

  pub Move-AllMembers : {cl cl' : Cluster S} → Move members cl cl' → AllMembers cl → AllMembers cl'
  Move-AllMembers mv all m inside = (Move-Succeeds mv all m).member inside

  pub Move-Advances :
      {cl cl' : Cluster S}
      → Move members cl cl'
      → AllMembers cl
      → (m : String) → Advances (cl.node m).persistent (cl'.node m).persistent
  Move-Advances mv all m = (Move-Succeeds mv all m).advances

  pub Run-AllMembers :
      {first cl : Cluster S} → Run members first cl → AllMembers first → AllMembers cl
  Run-AllMembers here all = all
  Run-AllMembers (next r mv) all = Move-AllMembers mv (Run-AllMembers r all)
