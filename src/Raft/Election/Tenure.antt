-- ===== src/Raft/Election/Tenure.antt =====
-- A campaign begins a new term, and a counted vote lets a candidate lead, with its no-op at the end of
-- the log (internal/raft/election.go).
use raftra.Common.{
  ℕ, ◌+◌, ◌<◌, ◌^◌, ◌≡◌, refl, ap, ◌⊎◌, inl, inr, not, ◌||◌, Option, none, some, [], ◌∷◌, ◌++◌,
  arith, ◌==◌, string_eq, nat_eq, u64, u64-eq_of_lt, ltb, leb, Bool-cases,
}
use raftra.Kvstore.{Codec}
use raftra.Proto.{RequestVoteResponse}
use raftra.Raft.Advance.{persistent-reset_election_timer}
use raftra.Raft.Election.Advance.{become_leader-SameVote}
use raftra.Raft.Election.{
  stand, lead, take_office, append_noop, become_leader, campaign_locked, start_election,
  count_pre_vote, answer_pre_vote, on_pre_vote_response, count_vote, answer_vote, on_vote_response,
}
use raftra.Raft.Node.{RaftNode, Ballot, candidate, leader, role_eq}
use raftra.Raft.Proceeds.{check_term-older}
use raftra.Raft.Tenure.{
  Extends, Tenure, Extends-refl, Rests-trans, Rests-Tenure, Tenure-refl, Tenure-trans,
  reset_election_timer-Rests, reset_heartbeat_timer-Rests, check_term-Rests, broadcast-Rests,
  check_and_update-Rests,
}
use raftra.Raft.Advance.{Advances-eq, check_term-Advances}
use raftra.Raft.Term.{check_term, persist_term, persist_vote}
use raftra.Raft.Timer.{Env, reset_election_timer}
use raftra.Storage.{StorageBackend}

module _ {S : Type 0} ⦃b : StorageBackend S⦄ ⦃codec : Codec⦄ where
  append_noop-cases :
      (rn : RaftNode S)
      → ((append_noop rn).persistent.log ≡ rn.persistent.log)
        ⊎ ((append_noop rn).persistent.log
            ≡ rn.persistent.log
              ++ record {
                index = u64 ((b.last_index rn.storage).0 + 1);
                term = rn.persistent.current_term;
                command = [];
              }
                ∷ [])
  unfolding append_noop
  append_noop-cases rn = ground arith

  append_noop-Extends :
      (rn : RaftNode S)
      → Extends rn.persistent.current_term rn.persistent.log (append_noop rn).persistent.log
  append_noop-Extends rn = elim (append_noop-cases rn) [
    | inl failed ↦ rw failed (Extends-refl _ _)
    | inr done ↦ (_, done, (refl, tt))
  ]

  lead-Extends :
      (env : Env) (rn : RaftNode S)
      → Extends rn.persistent.current_term rn.persistent.log (lead env rn).persistent.log
  unfolding lead take_office
  lead-Extends env rn =
      let after =
        Rests-trans (check_and_update-Rests (append_noop (take_office rn)))
          (Rests-trans (broadcast-Rests _) (reset_heartbeat_timer-Rests env _)) in
      rw after.log (append_noop-Extends (take_office rn))

  become_leader-Tenure : (env : Env) (rn : RaftNode S) → Tenure rn (become_leader env rn)
  become_leader-Tenure env rn = elim (Bool-cases (rn.role == candidate)) [
    | inl stood ↦ inr (
      (become_leader-SameVote env rn).0,
      λ office. (ground (arith, stood), unfold become_leader in rw stood (lead-Extends env rn)),
    )
    | inr other ↦ unfold become_leader in rw other (Tenure-refl rn)
  ]

  campaign_locked-later :
      (env : Env) (rn : RaftNode S)
      → rn.persistent.current_term + 1 < 2 ^ 64
      → rn.persistent.current_term < (campaign_locked env rn).persistent.current_term
  unfolding campaign_locked stand persist_term persist_vote reset_election_timer
  campaign_locked-later env rn h = ground (
    arith,
    become_leader-SameVote env (stand env rn),
    u64-eq_of_lt (rn.persistent.current_term + 1) h,
  )

  start_election-outcome :
      (env : Env) (rn : RaftNode S)
      → rn.persistent.current_term + 1 < 2 ^ 64
      → (rn.persistent.current_term < (start_election env rn).persistent.current_term)
        ⊎ ((start_election env rn).persistent ≡ rn.persistent)
          × ((start_election env rn).role ≡ rn.role)
  unfolding start_election reset_election_timer
  start_election-outcome env rn h =
      ground (arith, campaign_locked-later env (reset_election_timer env rn))

  pub start_election-Tenure :
      (env : Env) (rn : RaftNode S)
      → rn.persistent.current_term + 1 < 2 ^ 64
      → Tenure rn (start_election env rn)
  start_election-Tenure env rn h = elim (start_election-outcome env rn h) [
    | inl later ↦ inl later
    | inr (same, role) ↦
        Rests-Tenure rn (start_election env rn) (Advances-eq rn.persistent _ same)
          (record { role = inl role; log = ap (λ p. p.log) same })
  ]

  timed-Tenure : (env : Env) (rn : RaftNode S) → Tenure rn (reset_election_timer env rn)
  timed-Tenure env rn =
      Rests-Tenure rn (reset_election_timer env rn)
        (Advances-eq rn.persistent _ (persistent-reset_election_timer env rn))
        (reset_election_timer-Rests env rn)

  checked-Tenure : (t : ℕ) (rn : RaftNode S) → Tenure rn (check_term t rn).0
  checked-Tenure t rn =
      Rests-Tenure rn (check_term t rn).0 (check_term-Advances t rn) (check_term-Rests t rn)

  count_pre_vote-Tenure :
      (env : Env) (ballot : Ballot) (rn : RaftNode S)
      → rn.persistent.current_term + 1 < 2 ^ 64
      → Tenure rn (count_pre_vote env ballot rn).1
  unfolding count_pre_vote
  count_pre_vote-Tenure env ballot rn h =
      elim (Bool-cases (leb ballot.majority (ballot.votes + 1))) [
        | inl enough ↦ rw enough (inl (campaign_locked-later env rn h))
        | inr few ↦ rw few (Tenure-refl rn)
      ]

  answer_pre_vote-Tenure :
      (env : Env) (ballot : Ballot) (res : RequestVoteResponse) (rn : RaftNode S)
      → rn.persistent.current_term + 1 < 2 ^ 64
      → Tenure rn (answer_pre_vote env ballot res rn).1
  unfolding answer_pre_vote
  answer_pre_vote-Tenure env ballot res rn h =
      let rn' = (check_term res.term rn).0 in
      let checked = checked-Tenure res.term rn in
      elim (Bool-cases (check_term res.term rn).1) [
        | inl newer ↦
            rw newer
              (Tenure-trans rn rn' (reset_election_timer env rn') checked (timed-Tenure env rn'))
        | inr older ↦
            rw older
              (elim (Bool-cases (
                ballot.campaigned
                || rn'.role == leader
                || not (rn'.persistent.current_term == ballot.term)
                || ltb ballot.started rn'.last_leader_contact)) [
                  | inl stale ↦ rw stale checked
                  | inr current ↦ rw current (elim (Bool-cases res.vote_granted) [
                    | inl yea ↦ rw yea (
                        rw (check_term-older res.term rn older)
                          (count_pre_vote-Tenure env ballot rn h))
                    | inr nay ↦ rw nay checked
                  ])
                ])
      ]

  pub on_pre_vote_response-Tenure :
      (env : Env) (ballot : Ballot) (res : Option RequestVoteResponse) (rn : RaftNode S)
      → rn.persistent.current_term + 1 < 2 ^ 64
      → Tenure rn (on_pre_vote_response env ballot res rn).1
  unfolding on_pre_vote_response
  on_pre_vote_response-Tenure env ballot none rn h = Tenure-refl rn
  on_pre_vote_response-Tenure env ballot (some res) rn h = answer_pre_vote-Tenure env ballot res _ h

  count_vote-Tenure :
      (env : Env) (ballot : Ballot) (rn : RaftNode S) → Tenure rn (count_vote env ballot rn).1
  unfolding count_vote
  count_vote-Tenure env ballot rn = elim (Bool-cases (leb ballot.majority (ballot.votes + 1))) [
    | inl enough ↦ rw enough (become_leader-Tenure env rn)
    | inr few ↦ rw few (Tenure-refl rn)
  ]

  answer_vote-Tenure :
      (env : Env) (ballot : Ballot) (res : RequestVoteResponse) (rn : RaftNode S)
      → Tenure rn (answer_vote env ballot res rn).1
  unfolding answer_vote
  answer_vote-Tenure env ballot res rn =
      let rn' = (check_term res.term rn).0 in
      let checked = checked-Tenure res.term rn in
      elim (Bool-cases (check_term res.term rn).1) [
        | inl newer ↦
            rw newer
              (Tenure-trans rn rn' (reset_election_timer env rn') checked (timed-Tenure env rn'))
        | inr older ↦
            rw older
              (elim (Bool-cases
                (not (rn'.role == candidate) || not (rn'.persistent.current_term == ballot.term))) [
                  | inl stale ↦ rw stale checked
                  | inr current ↦ rw current (elim (Bool-cases res.vote_granted) [
                    | inl yea ↦ rw yea (
                        Tenure-trans rn rn' (count_vote env ballot rn').1 checked
                          (count_vote-Tenure env ballot rn'))
                    | inr nay ↦ rw nay checked
                  ])
                ])
      ]

  pub on_vote_response-Tenure :
      (env : Env) (ballot : Ballot) (res : Option RequestVoteResponse) (rn : RaftNode S)
      → Tenure rn (on_vote_response env ballot res rn).1
  unfolding on_vote_response
  on_vote_response-Tenure env ballot none rn = Tenure-refl rn
  on_vote_response-Tenure env ballot (some res) rn = answer_vote-Tenure env ballot res _
