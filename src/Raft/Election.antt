-- ===== src/Raft/Election.antt =====
-- Elections of internal/raft/election.go: the pre-vote, the campaign and the step to leader. Each
-- answer to a goroutine is a method of its own; `none` is a failed RPC.
pub mod Proceeds
pub mod Tenure
pub mod Records
pub mod Office
pub mod Tally
pub mod Advance
pub mod Durable
pub mod Majority
use raftra.Common.{
  ℕ, ◌+◌, String, Bool, true, false, Option, none, some, List, [], ◌∷◌, ◌++◌, ltb, leb, ◌==◌, not,
  ◌||◌, if◌then◌else◌, nat_eq, string_eq, length, u64,
}
use raftra.GoMap
use raftra.GoMap.{GoMap}
use raftra.Kvstore.{Codec}
use raftra.Metrics.{set_current_term, set_node_role, inc_leader_elections, inc_request_vote_total}
use raftra.Proto.{LogEntry, RequestVoteRequest, RequestVoteResponse}
use raftra.Raft.Commit.{majority, check_and_update_commit_index_locked}
use raftra.Raft.Node.{
  RaftNode, PeerConfig, LeaderState, Ballot, candidate, leader, role_eq, pre_vote, vote,
}
use raftra.Raft.Send.{broadcast_append_entries_locked}
use raftra.Raft.Term.{check_term, persist_term, persist_vote}
use raftra.Raft.Timer.{Env, reset_election_timer, reset_heartbeat_timer}
use raftra.Storage.{StorageBackend}

unfoldable pub peer_ids : GoMap String PeerConfig → List String
peer_ids [] = []
peer_ids ((peer, p) ∷ m) = peer ∷ peer_ids m

-- make(map[string]uint64), with one value for every peer
unfoldable pub fill : ℕ → List String → GoMap String ℕ → GoMap String ℕ
fill n [] m = m
fill n (peer ∷ peers) m = fill n peers (GoMap.insert m peer n)

module _ {S : Type 0} ⦃b : StorageBackend S⦄ where
  initial_leader_state : RaftNode S → LeaderState
  unfolding peer_ids fill
  initial_leader_state rn = record {
    next_index = fill (u64 ((b.last_index rn.storage).0 + 1)) (peer_ids rn.peers) [];
    match_index = fill 0 (peer_ids rn.peers) [];
  }

  take_office : RaftNode S → RaftNode S
  unfolding initial_leader_state
  take_office rn = record rn {
    role = leader;
    metrics = set_node_role 2 rn.metrics;
    leader_state = some (initial_leader_state rn);
  }

  -- The no-op of a new leader: the log in memory grows only if the storage took the entry.
  append_noop : RaftNode S → RaftNode S
  append_noop rn =
      let noop : LogEntry = record {
        index = u64 ((b.last_index rn.storage).0 + 1);
        term = rn.persistent.current_term;
        command = [];
      } in
      let (storage', err) = b.append_entries (noop ∷ []) rn.storage in
      elim err [
        | some e ↦ record rn { storage = storage' }
        | none ↦ record rn {
          storage = storage';
          persistent = record rn.persistent { log = rn.persistent.log ++ noop ∷ [] };
        }
      ]

  request_of : RaftNode S → ℕ → Bool → RequestVoteRequest
  request_of rn term pre = record {
    term = term;
    candidate_id = rn.config.node_id;
    last_log_index = (b.last_index rn.storage).0;
    last_log_term = (b.last_term rn.storage).0;
    pre_vote = pre;
  }

  ballot_of : Env → RaftNode S → Ballot
  ballot_of env rn = record {
    term = rn.persistent.current_term;
    votes = 1;
    majority = majority rn;
    started = env.now;
    campaigned = false;
  }

  -- Steps 1 and 2 of a campaign: the new term, the vote for itself, and the election timer.
  stand : Env → RaftNode S → RaftNode S
  stand env rn =
      let term = u64 (rn.persistent.current_term + 1) in
      reset_election_timer env (
        persist_vote rn.config.node_id (
          persist_term term (record rn {
            persistent = record rn.persistent {
              current_term = term;
              voted_for = rn.config.node_id;
            };
            role = candidate;
            leader_state = none;
            metrics = inc_leader_elections (set_current_term term (set_node_role 1 rn.metrics));
          })))

module _ {S : Type 0} ⦃b : StorageBackend S⦄ ⦃codec : Codec⦄ where
  lead : Env → RaftNode S → RaftNode S
  unfolding take_office append_noop
  lead env rn = reset_heartbeat_timer env (
      broadcast_append_entries_locked
        (check_and_update_commit_index_locked (append_noop (take_office rn))))

  unfoldable pub become_leader : Env → RaftNode S → RaftNode S
  unfolding lead
  become_leader env rn = if rn.role == candidate then lead env rn else rn

  unfoldable pub campaign_locked : Env → RaftNode S → RaftNode S
  unfolding stand request_of ballot_of
  campaign_locked env rn =
      let rn' = stand env rn in
      if leb (majority rn') 1 then become_leader env rn' else record rn' {
        spawned =
            rn'.spawned
            ++ vote (ballot_of env rn') (peer_ids rn'.peers)
                (request_of rn' rn'.persistent.current_term false)
              ∷ [];
      }

  unfoldable pub start_election : Env → RaftNode S → RaftNode S
  unfolding request_of ballot_of
  start_election env rn =
      if ltb env.now rn.election_deadline || rn.role == leader
      then rn
      else let rn' = reset_election_timer env rn in
        if length rn'.peers == 0 then campaign_locked env rn' else record rn' {
          spawned =
              rn'.spawned
              ++ pre_vote (ballot_of env rn') (peer_ids rn'.peers)
                  (request_of rn' (u64 (rn'.persistent.current_term + 1)) true)
                ∷ [];
        }

  -- A yes to a pre-vote: at a majority the one campaign of the round starts.
  count_pre_vote : Env → Ballot → RaftNode S → Ballot × RaftNode S
  count_pre_vote env ballot rn =
      if leb ballot.majority (ballot.votes + 1)
      then (record ballot { votes = ballot.votes + 1; campaigned = true }, campaign_locked env rn)
      else (record ballot { votes = ballot.votes + 1 }, rn)

  answer_pre_vote : Env → Ballot → RequestVoteResponse → RaftNode S → Ballot × RaftNode S
  unfolding count_pre_vote
  answer_pre_vote env ballot res rn =
      let (rn', newer) = check_term res.term rn in
      if newer
      then (ballot, reset_election_timer env rn')
      else if ballot.campaigned
          || rn'.role == leader
          || not (rn'.persistent.current_term == ballot.term)
          || ltb ballot.started rn'.last_leader_contact
      then (ballot, rn')
      else if res.vote_granted
      then count_pre_vote env ballot rn'
      else (ballot, rn')

  unfoldable pub on_pre_vote_response :
      Env → Ballot → Option RequestVoteResponse → RaftNode S → Ballot × RaftNode S
  unfolding answer_pre_vote
  on_pre_vote_response env ballot res rn =
      let rn' : RaftNode S = record rn { metrics = inc_request_vote_total rn.metrics } in
      elim res [ none ↦ (ballot, rn') | some r ↦ answer_pre_vote env ballot r rn' ]

  count_vote : Env → Ballot → RaftNode S → Ballot × RaftNode S
  count_vote env ballot rn = (
    record ballot { votes = ballot.votes + 1 },
    (if leb ballot.majority (ballot.votes + 1) then become_leader env rn else rn),
  )

  answer_vote : Env → Ballot → RequestVoteResponse → RaftNode S → Ballot × RaftNode S
  unfolding count_vote
  answer_vote env ballot res rn =
      let (rn', newer) = check_term res.term rn in
      if newer
      then (ballot, reset_election_timer env rn')
      else if not (rn'.role == candidate) || not (rn'.persistent.current_term == ballot.term)
      then (ballot, rn')
      else if res.vote_granted
      then count_vote env ballot rn'
      else (ballot, rn')

  unfoldable pub on_vote_response :
      Env → Ballot → Option RequestVoteResponse → RaftNode S → Ballot × RaftNode S
  unfolding answer_vote
  on_vote_response env ballot res rn =
      let rn' : RaftNode S = record rn { metrics = inc_request_vote_total rn.metrics } in
      elim res [ none ↦ (ballot, rn') | some r ↦ answer_vote env ballot r rn' ]
