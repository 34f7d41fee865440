-- ===== src/Raft/Election/Office.antt =====
-- Campaigns and counted votes (internal/raft/election.go): the two ways into office.
use raftra.Common.{
  ◌+◌, ◌≤◌, String, ◌≡◌, refl, ap, ◌∙◌, ◌⊎◌, inl, inr, true, false, not, ◌||◌, Option, none, some,
  List, [], ◌∷◌, ◌++◌, arith, ◌==◌, string_eq, nat_eq, ltb, leb, length, Bool-cases,
}
use mathlib.Core.List.{append-nil}
use raftra.Kvstore.{Codec}
use raftra.Proto.{RequestVoteRequest, RequestVoteResponse}
use raftra.Raft.Commit.{majority}
use raftra.Raft.Election.{
  stand, lead, take_office, append_noop, become_leader, campaign_locked, start_election, ballot_of,
  request_of, peer_ids, count_pre_vote, answer_pre_vote, on_pre_vote_response,
}
use raftra.Raft.Election.Advance.{become_leader-SameVote}
use raftra.Raft.Node.{RaftNode, Ballot, candidate, leader, role_eq, pre_vote}
use raftra.Raft.Office.{
  Poll, polls, polls-append, Stays, Stays-refl, Stays-trans, Campaigns, Campaigns-after,
}
use raftra.Raft.Office.Serves.{
  check_term-Stays, reset_election_timer-Stays, reset_heartbeat_timer-Stays, check_and_update-Stays,
}
use raftra.Raft.Send.Office.{broadcast-Stays}
use raftra.Raft.Term.{check_term, persist_term, persist_vote}
use raftra.Raft.Timer.{Env, reset_election_timer}
use raftra.Storage.{StorageBackend}

-- A step to leader opens no round of votes.
pub record Takes {S : Type 0} (rn rn' : RaftNode S) : Type 0 where
  pub config : rn'.config ≡ rn.config
  pub peers : rn'.peers ≡ rn.peers
  pub polls : polls rn'.spawned ≡ polls rn.spawned

module _ {S : Type 0} ⦃b : StorageBackend S⦄ ⦃codec : Codec⦄ where
  take_office-Takes : (rn : RaftNode S) → Takes rn (append_noop (take_office rn))
  unfolding append_noop take_office
  take_office-Takes rn = ground arith

  lead-Takes : (env : Env) (rn : RaftNode S) → Takes rn (lead env rn)
  unfolding lead
  lead-Takes env rn =
      let t = take_office-Takes rn in
      let k =
        Stays-trans (check_and_update-Stays (append_noop (take_office rn)))
          (Stays-trans (broadcast-Stays _) (reset_heartbeat_timer-Stays env _)) in
      record { config = k.config ∙ t.config; peers = k.peers ∙ t.peers; polls = k.polls ∙ t.polls }

  pub become_leader-Takes : (env : Env) (rn : RaftNode S) → Takes rn (become_leader env rn)
  unfolding become_leader
  become_leader-Takes env rn = ground (arith, lead-Takes env rn)

  stand-Takes :
      (env : Env) (rn : RaftNode S)
      → ((stand env rn).config ≡ rn.config)
        × ((stand env rn).peers ≡ rn.peers)
        × (polls (stand env rn).spawned ≡ polls rn.spawned)
        × ((stand env rn).persistent.voted_for ≡ rn.config.node_id)
        × ((stand env rn).role ≡ candidate)
  unfolding stand persist_term persist_vote reset_election_timer
  stand-Takes env rn = ground arith

  majority-le_one :
      (env : Env) (rn : RaftNode S) → leb (majority (stand env rn)) 1 ≡ true → majority rn ≤ 1
  unfolding majority
  majority-le_one env rn h = ground (arith, ap length (stand-Takes env rn).1)

  -- What the election timer and the answer to a pre-vote do: nothing to the offices, or a campaign.
  abbrev pub Moves : RaftNode S → RaftNode S → Type 0
  Moves rn rn' = Stays rn rn' ⊎ Campaigns rn rn'

  pub Moves-after : {r s t : RaftNode S} → Stays r s → Moves s t → Moves r t
  Moves-after h (inl k) = inl (Stays-trans h k)
  Moves-after h (inr k) = inr (Campaigns-after h k)

  abbrev poll_of : Env → RaftNode S → Poll
  poll_of env rn = record {
    ballot = ballot_of env (stand env rn);
    peers = peer_ids (stand env rn).peers;
    req = request_of (stand env rn) (stand env rn).persistent.current_term false;
  }

  pub campaign_locked-Campaigns :
      (env : Env) (rn : RaftNode S) → Campaigns rn (campaign_locked env rn)
  unfolding campaign_locked ballot_of request_of polls
  campaign_locked-Campaigns env rn = elim (Bool-cases (leb (majority (stand env rn)) 1)) [
    | inl alone ↦ rw alone (
        let s = stand-Takes env rn in
        let t = become_leader-Takes env (stand env rn) in
        record {
          config = t.config ∙ s.0;
          peers = t.peers ∙ s.1;
          voted = (become_leader-SameVote env (stand env rn)).1 ∙ s.3;
          outcome = inl (majority-le_one env rn alone, t.polls ∙ s.2);
        })
    | inr asks ↦ rw asks (
        let s = stand-Takes env rn in
        record {
          config = s.0;
          peers = s.1;
          voted = s.3;
          outcome = inr (
            ground (arith, s.4),
            (
              poll_of env rn,
              polls-append (stand env rn).spawned _ ∙ ap (λ ps. ps ++ poll_of env rn ∷ []) s.2,
              record {
                term = refl;
                votes = refl;
                majority = unfold majority in refl;
                peers = refl;
                req_term = refl;
                req_candidate = refl;
                req_real = refl;
              },
            ),
          );
        })
  ]

  -- The goroutines of a pre-vote open no round of votes.
  ask-Stays :
      (ballot : Ballot) (peers : List String) (req : RequestVoteRequest) (rn : RaftNode S)
      → Stays rn (record rn { spawned = rn.spawned ++ pre_vote ballot peers req ∷ [] })
  unfolding polls
  ask-Stays ballot peers req rn = record {
    config = refl;
    peers = refl;
    polls = polls-append rn.spawned _ ∙ append-nil _;
    led = λ e. e;
    term = λ e. refl;
  }

  pub start_election-Moves : (env : Env) (rn : RaftNode S) → Moves rn (start_election env rn)
  unfolding start_election
  start_election-Moves env rn =
      elim (Bool-cases (ltb env.now rn.election_deadline || rn.role == leader)) [
        | inl stale ↦ rw stale (inl (Stays-refl rn))
        | inr due ↦ rw due (
            let timed = reset_election_timer-Stays env rn in
            elim (Bool-cases (length (reset_election_timer env rn).peers == 0)) [
              | inl alone ↦ rw alone (
                  inr (
                    Campaigns-after timed
                      (campaign_locked-Campaigns env (reset_election_timer env rn))))
              | inr many ↦
                  rw many (inl (Stays-trans timed (ask-Stays _ _ _ (reset_election_timer env rn))))
            ])
      ]

  count_pre_vote-Moves :
      (env : Env) (ballot : Ballot) (rn : RaftNode S) → Moves rn (count_pre_vote env ballot rn).1
  unfolding count_pre_vote
  count_pre_vote-Moves env ballot rn = elim (Bool-cases (leb ballot.majority (ballot.votes + 1))) [
    | inl enough ↦ rw enough (inr (campaign_locked-Campaigns env rn))
    | inr few ↦ rw few (inl (Stays-refl rn))
  ]

  answer_pre_vote-Moves :
      (env : Env) (ballot : Ballot) (res : RequestVoteResponse) (rn : RaftNode S)
      → Moves rn (answer_pre_vote env ballot res rn).1
  unfolding answer_pre_vote
  answer_pre_vote-Moves env ballot res rn =
      let rn' = (check_term res.term rn).0 in
      let checked = check_term-Stays res.term rn in
      elim (Bool-cases (check_term res.term rn).1) [
        | inl newer ↦ rw newer (inl (Stays-trans checked (reset_election_timer-Stays env rn')))
        | inr older ↦
            rw older
              (elim (Bool-cases (
                ballot.campaigned
                || rn'.role == leader
                || not (rn'.persistent.current_term == ballot.term)
                || ltb ballot.started rn'.last_leader_contact)) [
                  | inl stale ↦ rw stale (inl checked)
                  | inr current ↦ rw current (elim (Bool-cases res.vote_granted) [
                    | inl yea ↦ rw yea (Moves-after checked (count_pre_vote-Moves env ballot rn'))
                    | inr nay ↦ rw nay (inl checked)
                  ])
                ])
      ]

  pub on_pre_vote_response-Moves :
      (env : Env) (ballot : Ballot) (res : Option RequestVoteResponse) (rn : RaftNode S)
      → Moves rn (on_pre_vote_response env ballot res rn).1
  unfolding on_pre_vote_response
  on_pre_vote_response-Moves env ballot none rn = inl (ground arith)
  on_pre_vote_response-Moves env ballot (some res) rn =
      Moves-after (ground arith) (answer_pre_vote-Moves env ballot res _)
