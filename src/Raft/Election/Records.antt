-- ===== src/Raft/Election/Records.antt =====
-- A campaign, and a counted vote, append at most the no-op of the new leader to the two logs
-- (internal/raft/election.go).
use raftra.Common.{
  ap, sym, ℕ, ◌≡◌, refl, ◌∙◌, ◌⊎◌, inl, inr, ◌||◌, Option, none, some, [], ◌∷◌, ◌++◌, arith, ◌==◌,
  string_eq, nat_eq, ltb, leb, length, Bool-cases,
}
use raftra.Kvstore.{Codec}
use raftra.Metrics.{inc_request_vote_total}
use raftra.Proto.{RequestVoteResponse}
use raftra.Raft.Commit.Frame.{check_and_update-IsCommitted}
use raftra.Raft.Commit.{check_and_update_commit_index_locked}
use raftra.Raft.Election.{
  reset_heartbeat_timer, stand, lead, take_office, append_noop, become_leader, campaign_locked,
  start_election, count_pre_vote, answer_pre_vote, on_pre_vote_response, count_vote, answer_vote,
  on_vote_response,
}
use raftra.Raft.Commit.{majority}
use raftra.Raft.Node.{RaftNode, Ballot, candidate, leader, role_eq}
use raftra.Raft.Records.{
  Numbered, SameLog, Records, HasSpace, SameLog-Records, Records-after, Records-before,
  check_term-SameLog, reset_election_timer-SameLog, own_entry, own_entry-IsIndexed,
}
use raftra.Raft.Send.Frame.{broadcast-IsSent}
use raftra.Raft.Send.{broadcast_append_entries_locked}
use raftra.Raft.Term.{check_term, persist_term, persist_vote}
use raftra.Raft.Timer.{Env, reset_election_timer, reset_heartbeat_timer}
use raftra.Storage.{StorageBackend, IsLawful}

module _ {S : Type 0} ⦃b : StorageBackend S⦄ ⦃codec : Codec⦄ (law : IsLawful b) where
  append_noop-cases :
      (rn : RaftNode S)
      → Numbered (law.log rn.storage)
      → HasSpace law rn
      → SameLog law rn (append_noop (take_office rn))
        ⊎ (law.log (append_noop (take_office rn)).storage
            ≡ law.log rn.storage ++ own_entry law [] rn ∷ [])
          × ((append_noop (take_office rn)).persistent.log
              ≡ rn.persistent.log ++ own_entry law [] rn ∷ [])
  unfolding append_noop take_office
  append_noop-cases rn h space =
      let es = own_entry law [] rn ∷ [] in
      ground (
        arith,
        law.append_entries-none rn.storage es (own_entry-IsIndexed law [] rn h space),
        law.append_entries-failed rn.storage es,
      )

  append_noop-leads :
      (rn : RaftNode S)
      → ((append_noop (take_office rn)).role ≡ leader)
        × ((append_noop (take_office rn)).persistent.current_term ≡ rn.persistent.current_term)
  unfolding append_noop take_office
  append_noop-leads rn = ground arith

  append_noop-Records :
      (rn : RaftNode S)
      → Numbered (law.log rn.storage)
      → HasSpace law rn
      → Records law rn (append_noop (take_office rn))
  append_noop-Records rn h space = elim (append_noop-cases rn h space) [
    | inl same ↦ SameLog-Records law rn (append_noop (take_office rn)) same
    | inr grown ↦ (
      own_entry law [] rn ∷ [],
      own_entry-IsIndexed law [] rn h space,
      grown.0,
      grown.1,
      inr ((append_noop-leads rn).0, ((sym (append_noop-leads rn).1), tt)),
    )
  ]

  heartbeat_due :
      (env : Env) (rn : RaftNode S)
      → ((reset_heartbeat_timer env rn).storage ≡ rn.storage)
        × ((reset_heartbeat_timer env rn).persistent ≡ rn.persistent)
        × ((reset_heartbeat_timer env rn).role ≡ rn.role)
  unfolding reset_heartbeat_timer
  heartbeat_due env rn = ground arith

  -- What follows the no-op leaves the logs, the role and the term alone.
  lead-SameLog :
      (env : Env) (rn : RaftNode S)
      → SameLog law (append_noop (take_office rn)) (lead env rn)
        × ((lead env rn).role ≡ (append_noop (take_office rn)).role)
        × ((lead env rn).persistent.current_term
            ≡ (append_noop (take_office rn)).persistent.current_term)
  unfolding lead
  lead-SameLog env rn =
      let noop = append_noop (take_office rn) in
      let k = (check_and_update-IsCommitted noop).kept in
      let k' = (broadcast-IsSent (check_and_update_commit_index_locked noop)).kept in
      ground (
        arith,
        ap law.log (k'.storage ∙ k.storage),
        k'.persistent ∙ k.persistent,
        k'.role ∙ k.role,
        heartbeat_due env
            (broadcast_append_entries_locked (check_and_update_commit_index_locked noop)),
      )

  pub become_leader-Records :
      (env : Env) (rn : RaftNode S)
      → Numbered (law.log rn.storage)
      → HasSpace law rn
      → Records law rn (become_leader env rn)
  unfolding become_leader
  become_leader-Records env rn h space = elim (Bool-cases (rn.role == candidate)) [
    | inl stood ↦ rw stood (
        Records-before law rn (append_noop (take_office rn)) (lead env rn)
          (append_noop-Records rn h space) (lead-SameLog env rn).0 (lead-SameLog env rn).1
          (lead-SameLog env rn).2)
    | inr other ↦ rw other (SameLog-Records law rn rn (refl, refl))
  ]

  stand-SameLog : (env : Env) (rn : RaftNode S) → SameLog law rn (stand env rn)
  unfolding stand persist_term persist_vote reset_election_timer
  stand-SameLog env rn = grind (arith, law.log-save_term, law.log-save_voted_for)

  pub campaign_locked-Records :
      (env : Env) (rn : RaftNode S)
      → Numbered (law.log rn.storage)
      → HasSpace law rn
      → Records law rn (campaign_locked env rn)
  campaign_locked-Records env rn h space =
      let same = stand-SameLog env rn in
      elim (Bool-cases (leb (majority (stand env rn)) 1)) [
        | inl alone ↦
            unfold campaign_locked in
            rw alone (
              Records-after law rn (stand env rn) (become_leader env (stand env rn)) same
                (become_leader-Records env (stand env rn) (rw same.0 h) (rw same.0 space)))
        | inr asks ↦
            SameLog-Records law rn (campaign_locked env rn) (unfold campaign_locked in rw asks same)
      ]

  pub start_election-Records :
      (env : Env) (rn : RaftNode S)
      → Numbered (law.log rn.storage)
      → HasSpace law rn
      → Records law rn (start_election env rn)
  start_election-Records env rn h space =
      let timed = reset_election_timer env rn in
      let same = reset_election_timer-SameLog law env rn in
      elim (Bool-cases (ltb env.now rn.election_deadline || rn.role == leader)) [
        | inl stale ↦ unfold start_election in rw stale (SameLog-Records law rn rn (refl, refl))
        | inr due ↦ elim (Bool-cases (length timed.peers == 0)) [
          | inl alone ↦
              unfold start_election in
              rw due (
                rw alone (
                  Records-after law rn timed (campaign_locked env timed) same
                    (campaign_locked-Records env timed (rw same.0 h) (rw same.0 space))))
          | inr many ↦
              SameLog-Records law rn (start_election env rn)
                (unfold start_election in rw due (rw many same))
        ]
      ]

  checked_timed :
      (env : Env) (t : ℕ) (rn : RaftNode S)
      → SameLog law rn (reset_election_timer env (check_term t rn).0)
  checked_timed env t rn =
      let (d, m) = check_term-SameLog law t rn in
      let (d', m') = reset_election_timer-SameLog law env (check_term t rn).0 in (d' ∙ d, m' ∙ m)

  -- What an answer leads to, where it is counted, goes on from the node after checkTerm.
  answer_pre_vote-cases :
      (env : Env) (ballot : Ballot) (res : RequestVoteResponse) (rn : RaftNode S)
      → SameLog law rn (answer_pre_vote env ballot res rn).1
        ⊎ ((answer_pre_vote env ballot res rn).1 ≡ campaign_locked env (check_term res.term rn).0)
  unfolding answer_pre_vote count_pre_vote
  answer_pre_vote-cases env ballot res rn =
      ground (arith, check_term-SameLog law res.term rn, checked_timed env res.term rn)

  answer_vote-cases :
      (env : Env) (ballot : Ballot) (res : RequestVoteResponse) (rn : RaftNode S)
      → SameLog law rn (answer_vote env ballot res rn).1
        ⊎ ((answer_vote env ballot res rn).1 ≡ become_leader env (check_term res.term rn).0)
  unfolding answer_vote count_vote
  answer_vote-cases env ballot res rn =
      ground (arith, check_term-SameLog law res.term rn, checked_timed env res.term rn)

  pub on_pre_vote_response-Records :
      (env : Env) (ballot : Ballot) (res : Option RequestVoteResponse) (rn : RaftNode S)
      → Numbered (law.log rn.storage)
      → HasSpace law rn
      → Records law rn (on_pre_vote_response env ballot res rn).1
  unfolding on_pre_vote_response
  on_pre_vote_response-Records env ballot none rn h space = SameLog-Records law rn rn (refl, refl)
  on_pre_vote_response-Records env ballot (some res) rn h space =
      let heard : RaftNode S = record rn { metrics = inc_request_vote_total rn.metrics } in
      let rn' = (check_term res.term heard).0 in
      let same = check_term-SameLog law res.term heard in
      elim (answer_pre_vote-cases env ballot res heard) [
        | inl kept ↦ SameLog-Records law rn (answer_pre_vote env ballot res heard).1 kept
        | inr campaigned ↦ rw campaigned (
            Records-after law rn rn' (campaign_locked env rn') same
              (campaign_locked-Records env rn' (rw same.0 h) (rw same.0 space)))
      ]

  pub on_vote_response-Records :
      (env : Env) (ballot : Ballot) (res : Option RequestVoteResponse) (rn : RaftNode S)
      → Numbered (law.log rn.storage)
      → HasSpace law rn
      → Records law rn (on_vote_response env ballot res rn).1
  unfolding on_vote_response
  on_vote_response-Records env ballot none rn h space = SameLog-Records law rn rn (refl, refl)
  on_vote_response-Records env ballot (some res) rn h space =
      let heard : RaftNode S = record rn { metrics = inc_request_vote_total rn.metrics } in
      let rn' = (check_term res.term heard).0 in
      let same = check_term-SameLog law res.term heard in
      elim (answer_vote-cases env ballot res heard) [
        | inl kept ↦ SameLog-Records law rn (answer_vote env ballot res heard).1 kept
        | inr won ↦ rw won (
            Records-after law rn rn' (become_leader env rn') same
              (become_leader-Records env rn' (rw same.0 h) (rw same.0 space)))
      ]
