-- ===== src/Cluster.antt =====
-- A cluster of nodes (internal/raft) and the vote requests between them. Any node may take any step at
-- any time; AppendEntries and pre-votes may bring whatever they like. The vote requests and their
-- answers are followed: a request may reach any member, late or more than once, an answer comes from
-- a member that served that very request, and each goroutine of a round takes one answer or an error.
pub mod Setup
pub mod Votes
pub mod Replies
pub mod Rounds
pub mod Counted
pub mod Safety
pub mod Logs
use raftra.Common.{
  contains, without, ℕ, zero, suc, ◌+◌, ◌-◌, ◌≤◌, ◌<◌, ◌^◌, String, ◌≡◌, ◌≢◌, refl, sym, ap, ◌∙◌,
  ◌⊎◌, ◌↔◌, inl, inr, Bool, true, false, not, ◌&&◌, ◌||◌, Option, none, some, List, [], ◌∷◌, ◌++◌,
  min, arith, ◌==◌, string_eq, nat_eq, u64, u64-eq_of_lt, eq_iff, ltb, leb, if◌then◌else◌, length,
  take, drop, get_elem?, last_or, Bool-cases, Option-cases,
}
use raftra.Kvstore.{Codec, KvStore}
use raftra.Proto.{RequestVoteRequest, RequestVoteResponse}
use raftra.Raft.Election.{on_vote_response}
use raftra.Raft.Node.{RaftNode, Config, Ballot, created, new_raft_node}
use raftra.Raft.Office.{Poll, polls}
use raftra.Raft.Steps.Office.{IsLocal}
use raftra.Raft.Steps.{Step}
use raftra.Raft.Timer.{Env}
use raftra.Raft.Vote.{handle_request_vote}
use raftra.Storage.{StorageBackend}

-- The goroutines of one campaign: their owner, the variables that they share, and the peers whose
-- answer has not come.
pub record Round : Type 0 where
  pub owner : String
  pub ballot : Ballot
  pub waiting : List String
  pub req : RequestVoteRequest

pub record Reply : Type 0 where
  pub voter : String
  pub req : RequestVoteRequest
  pub res : RequestVoteResponse

-- The replies are those that were ever sent.
pub record Cluster (S : Type 0) : Type 0 where
  pub node : String → RaftNode S
  pub rounds : List Round
  pub replies : List Reply

unfoldable pub opened : String → List Poll → List Round
opened i [] = []
opened i (p ∷ ps) =
    record { owner = i; ballot = p.ballot; waiting = p.peers; req = p.req } ∷ opened i ps

-- The goroutines of a process end with it.
unfoldable pub hang_up : String → List Round → List Round
hang_up i [] = []
hang_up i (round ∷ rounds) =
    let rest = hang_up i rounds in if i == round.owner then rest else round ∷ rest

abbrev pub Arrived : List Reply → String → RequestVoteRequest → Option RequestVoteResponse → Type 0
Arrived replies peer req none = Unit
Arrived replies peer req (some r) =
    (k : ℕ) × (get_elem? replies k ≡ some (record { voter = peer; req = req; res = r }))

module _ {S : Type 0} where
  unfoldable pub put : (String → RaftNode S) → String → RaftNode S → String → RaftNode S
  put node i rn j = if i == j then rn else node j

  -- A node after a method, whose goroutines the cluster takes over.
  unfoldable pub launch : String → RaftNode S → Cluster S → Cluster S
  unfolding put
  launch i rn cl = record cl {
    node = put cl.node i (record rn { spawned = [] });
    rounds = cl.rounds ++ opened i (polls rn.spawned);
  }

module _ {S : Type 0} ⦃b : StorageBackend S⦄ ⦃codec : Codec⦄ where
  -- A member answers the request of a round.
  unfoldable pub serve : Env → String → RequestVoteRequest → Cluster S → Cluster S
  unfolding launch
  serve env v req cl =
      let (rn, res) = handle_request_vote env req (cl.node v) in
      record (launch v rn cl) { replies = record { voter = v; req = req; res = res } ∷ cl.replies }

  -- The goroutine of a round for one peer has its answer, and ends.
  unfoldable pub deliver :
      Env
      → String
      → Option RequestVoteResponse
      → List Round
      → Round
      → List Round
      → Cluster S
      → Cluster S
  unfolding launch
  deliver env peer res before round after cl =
      let (ballot, rn) = on_vote_response env round.ballot res (cl.node round.owner) in
      launch round.owner rn (record cl {
        rounds =
            before
            ++ (record round { ballot = ballot; waiting = without peer round.waiting }) ∷ after;
      })

  pub data Move (members : List String) (cl : Cluster S) : Cluster S → Type 0 where
    acts :
        (i : String) {rn : RaftNode S}
        → contains members i ≡ true
        → (cl.node i).persistent.current_term + 1 < 2 ^ 64
        → (st : Step (cl.node i) rn) → IsLocal st
        → Move members cl (launch i rn cl)
    serves :
        (env : Env) (v : String) (k : ℕ) (round : Round)
        → contains members v ≡ true
        → get_elem? cl.rounds k ≡ some round
        → Move members cl (serve env v round.req cl)
    delivers :
        (env : Env) (peer : String) (res : Option RequestVoteResponse) (before : List Round)
        (round : Round) (after : List Round)
        → cl.rounds ≡ before ++ round ∷ after
        → contains round.waiting peer ≡ true
        → Arrived cl.replies peer round.req res
        → Move members cl (deliver env peer res before round after cl)
    restarts :
        (i : String) (config : Config) (kv : KvStore) (rn : RaftNode S)
        → contains members i ≡ true
        → new_raft_node config (cl.node i).storage kv ≡ created rn
        → config.node_id ≡ i
        → rn.peers ≡ (cl.node i).peers
        → Move members cl (launch i rn (record cl { rounds = hang_up i cl.rounds }))

  pub data Run (members : List String) (first : Cluster S) : Cluster S → Type 0 where
    here : Run members first first
    next : {cl cl' : Cluster S} → Run members first cl → Move members cl cl' → Run members first cl'
