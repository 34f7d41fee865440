-- ===== src/Raft/Timer.antt =====
-- The clock of a node (internal/raft/raft.go): the timers and the randomised election timeout.
use raftra.Common.{ℕ, ◌+◌, ◌-◌, ◌≤◌, ◌<◌, Bool, true, false, arith, leb, if◌then◌else◌}
use raftra.Raft.Node.{Config, RaftNode, Timer, nil, due}

-- What a method reads from outside: the clock, once in each method, and `rand.Int63n`.
pub record Env : Type 0 where
  pub now : ℕ
  pub int63n : ℕ → ℕ

-- `rand.Int63n(n)` lies in [0, n) for a positive n.
pub record IsRandom (env : Env) : Type 0 where
  pub int63n-lt : (n : ℕ) → 0 < n → env.int63n n < n

unfoldable pub randomized_election_timeout : Env → Config → ℕ
randomized_election_timeout env config =
    if leb config.election_timeout_max config.election_timeout_min
    then config.election_timeout_min
    else config.election_timeout_min
      + env.int63n (config.election_timeout_max - config.election_timeout_min)

abbrev is_set : Timer → Bool
is_set nil = false
is_set _ = true

module _ {S : Type 0} where
  -- `Start`, without the event loop that it starts.
  unfoldable pub start : Env → RaftNode S → RaftNode S
  start env rn =
      let timeout = randomized_election_timeout env rn.config in
      record rn {
        election_deadline = env.now + timeout;
        election_timer = due (env.now + timeout);
        heartbeat_timer = due (env.now + rn.config.heartbeat_interval);
      }

  unfoldable pub reset_election_timer : Env → RaftNode S → RaftNode S
  reset_election_timer env rn =
      if is_set rn.election_timer
      then (let timeout = randomized_election_timeout env rn.config in
          record rn {
            election_deadline = env.now + timeout;
            election_timer = due (env.now + timeout);
          })
      else rn

  unfoldable pub reset_heartbeat_timer : Env → RaftNode S → RaftNode S
  reset_heartbeat_timer env rn =
      if is_set rn.heartbeat_timer
      then record rn { heartbeat_timer = due (env.now + rn.config.heartbeat_interval) }
      else rn

-- The timeout lies between the bounds of the configuration, and below the upper one unless the
-- bounds leave no room.
pub randomized_election_timeout_bounds :
    (env : Env) (config : Config)
    → IsRandom env
    → config.election_timeout_min < config.election_timeout_max
    → (config.election_timeout_min ≤ randomized_election_timeout env config)
      × (randomized_election_timeout env config < config.election_timeout_max)
unfolding randomized_election_timeout
randomized_election_timeout_bounds env config r h =
    ground (arith, r.int63n-lt (config.election_timeout_max - config.election_timeout_min))
