-- ===== src/Raft/Node.antt =====
-- The state of a Raft node: internal/raft/state.go, config.go and the struct of raft.go.
use raftra.Common.{
  ℕ, String, ◌≡◌, ◌↔◌, Bool, true, false, Option, none, some, List, [], ◌∷◌, arith, Comparable,
  string_eq,
}
use raftra.GoMap
use raftra.GoMap.{GoMap}
use raftra.Kvstore.{KvStore}
use raftra.Metrics.{Metrics}
use raftra.Proto.{LogEntry, RequestVoteRequest, AppendEntriesRequest}
use raftra.Storage.{StorageBackend, Err}

pub data NodeRole : Type 0 where
  follower candidate leader : NodeRole

abbrev role_beq : NodeRole → NodeRole → Bool
role_beq follower follower = true
role_beq candidate candidate = true
role_beq leader leader = true
role_beq _ _ = false

pub role_beq_iff : (a b : NodeRole) → (role_beq a b ≡ true) ↔ (a ≡ b)
role_beq_iff a b = ground arith

instance abbrev pub role_eq : Comparable NodeRole
role_eq = record { equal = role_beq; equal_iff = role_beq_iff }

pub record PeerConfig : Type 0 where
  pub id : String
  pub address : String

-- A `time.Duration` is a number of nanoseconds; the durations of a configuration are not negative.
pub record Config : Type 0 where
  pub node_id : String
  pub peers : List PeerConfig
  pub election_timeout_min : ℕ
  pub election_timeout_max : ℕ
  pub heartbeat_interval : ℕ
  pub data_dir : String

pub record PersistentState : Type 0 where
  pub current_term : ℕ
  pub voted_for : String
  pub log : List LogEntry

pub record VolatileState : Type 0 where
  pub commit_index : ℕ
  pub last_applied : ℕ

pub record LeaderState : Type 0 where
  pub next_index : GoMap String ℕ
  pub match_index : GoMap String ℕ

-- A channel made by `make(chan error, 1)` is known by its number.
abbrev pub Channel : Type 0
Channel = ℕ

-- The variables that the goroutines of one round of votes share. `started` serves pre-votes only.
pub record Ballot : Type 0 where
  pub term : ℕ
  pub votes : ℕ
  pub majority : ℕ
  pub started : ℕ
  pub campaigned : Bool

-- The goroutines that a method starts, with what they capture: one for each peer of a round of
-- votes, or one for an AppendEntries RPC.
pub data Spawned : Type 0 where
  pre_vote : Ballot → List String → RequestVoteRequest → Spawned
  vote : Ballot → List String → RequestVoteRequest → Spawned
  append : String → AppendEntriesRequest → Spawned

-- A time is a number of nanoseconds since the zero `time.Time`.
pub data Timer : Type 0 where
  nil : Timer
  idle : Timer  -- stopped
  due : (at : ℕ) → Timer

pub record RaftNode (S : Type 0) : Type 0 where
  pub config : Config
  pub role : NodeRole
  pub peers : GoMap String PeerConfig
  pub persistent : PersistentState
  pub volatile : VolatileState
  pub leader_state : Option LeaderState  -- `leader` in the source
  pub leader_id : String
  pub last_leader_contact : ℕ
  pub kv_store : KvStore
  pub storage : S
  pub metrics : Option Metrics
  pub stopped : Bool  -- `stopCh` is closed
  pub election_timer : Timer
  pub heartbeat_timer : Timer
  pub election_deadline : ℕ
  pub pending_commits : GoMap ℕ Channel
  pub next_channel : ℕ  -- the number of the next channel that is made
  pub sent : List (Channel × Err)  -- what was sent on channels, oldest first
  pub spawned : List Spawned  -- the goroutines started, oldest first

add_peers : List PeerConfig → GoMap String PeerConfig → GoMap String PeerConfig
add_peers [] m = m
add_peers (p ∷ ps) m = add_peers ps (GoMap.insert m p.id p)

-- An error of the storage, or a node.
pub data Created (S : Type 0) : Type 0 where
  failed : Err → Created S
  created : RaftNode S → Created S

module _ {S : Type 0} ⦃b : StorageBackend S⦄ where
  assemble : Config → S → KvStore → ℕ → String → List LogEntry → RaftNode S
  unfolding add_peers
  assemble config storage kv term voted_for entries = record {
    config = config;
    role = follower;
    peers = add_peers config.peers [];
    persistent = record { current_term = term; voted_for = voted_for; log = entries };
    volatile = record { commit_index = 0; last_applied = 0 };
    leader_state = none;
    leader_id = "";
    last_leader_contact = 0;
    kv_store = kv;
    storage = storage;
    metrics = none;
    stopped = false;
    election_timer = nil;
    heartbeat_timer = nil;
    election_deadline = 0;
    pending_commits = [];
    next_channel = 0;
    sent = [];
    spawned = [];
  }

  -- The three loads in turn, each with its early return.
  unfoldable pub new_raft_node : Config → S → KvStore → Created S
  unfolding assemble
  new_raft_node config storage kv =
      let (term, err) = b.load_term storage in
      elim err [
        | some e ↦ failed (some e)
        | none ↦
            let (voted_for, err') = b.load_voted_for storage in
            elim err' [
              | some e ↦ failed (some e)
              | none ↦
                  let (entries, err'') = b.load_all_entries storage in
                  elim err'' [
                    | some e ↦ failed (some e)
                    | none ↦ created (assemble config storage kv term voted_for entries)
                  ]
            ]
      ]
