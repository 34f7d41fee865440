-- ===== src/Raft/Election/Proceeds.antt =====
-- Elections (internal/raft/election.go) leave the indices alone, and give a leader its state.
use raftra.Common.{
  ℕ, ◌+◌, ◌<◌, ◌^◌, ◌≡◌, ◌∙◌, inl, inr, not, ◌||◌, Option, none, some, List, arith, ◌==◌, string_eq,
  nat_eq, ltb, leb, length, Bool-cases,
}
use mathlib.Core.Path.{subst}
use raftra.Kvstore.{Codec}
use raftra.Proto.{RequestVoteResponse}
use raftra.Metrics.{Metrics}
use raftra.Raft.Commit.Frame.{check_and_update-IsCommitted}
use raftra.Raft.Commit.Proceeds.{HasRoom, check_and_update-Proceeds}
use raftra.Raft.Commit.{majority}
use raftra.Raft.Election.{
  stand, lead, take_office, append_noop, become_leader, campaign_locked, start_election,
  count_pre_vote, answer_pre_vote, on_pre_vote_response, count_vote, answer_vote, on_vote_response,
}
use raftra.Raft.Node.{Spawned, RaftNode, Ballot, candidate, leader, role_eq}
use raftra.Raft.Proceeds.{
  Proceeds, Proceeds-refl, Proceeds-trans, check_term-Proceeds, reset_election_timer-Proceeds,
  reset_heartbeat_timer-Proceeds,
}
use raftra.Raft.Send.Frame.{broadcast-IsSent}
use raftra.Raft.Send.Proceeds.{broadcast-Proceeds}
use raftra.Raft.Term.{check_term, persist_term, persist_vote}
use raftra.Raft.Timer.{Env, reset_election_timer, reset_heartbeat_timer}
use raftra.Storage.{StorageBackend}

module _ {S : Type 0} ⦃b : StorageBackend S⦄ ⦃codec : Codec⦄ where
  -- The log of a node has room at its end.
  abbrev pub LogFits : RaftNode S → Type 0
  LogFits rn = (b.last_index rn.storage).0 + 1 < 2 ^ 64

  abbrev pub CommitFits : RaftNode S → Type 0
  CommitFits rn = rn.volatile.commit_index + 1 < 2 ^ 64

  -- The node proceeds if the log that it then has fits.
  abbrev pub Grows : RaftNode S → RaftNode S → Type 0
  Grows rn rn' = LogFits rn' → Proceeds rn rn'

  Grows-after : {r s t : RaftNode S} → Proceeds r s → Grows s t → Grows r t
  Grows-after p g l = Proceeds-trans p (g l)

  take_office-Proceeds : (rn : RaftNode S) → Proceeds rn (append_noop (take_office rn))
  unfolding append_noop take_office
  take_office-Proceeds rn = ground arith

  take_office-commit :
      (rn : RaftNode S)
      → (append_noop (take_office rn)).volatile.commit_index ≡ rn.volatile.commit_index
  unfolding append_noop take_office
  take_office-commit rn = ground arith

  storage-reset_heartbeat_timer :
      (env : Env) (rn : RaftNode S) → (reset_heartbeat_timer env rn).storage ≡ rn.storage
  unfolding reset_heartbeat_timer
  storage-reset_heartbeat_timer env rn = ground arith

  storage-lead :
      (env : Env) (rn : RaftNode S) → (lead env rn).storage ≡ (append_noop (take_office rn)).storage
  unfolding lead
  storage-lead env rn =
      storage-reset_heartbeat_timer env _
      ∙ (broadcast-IsSent _).kept.storage
      ∙ (check_and_update-IsCommitted (append_noop (take_office rn))).kept.storage

  lead-Proceeds :
      (env : Env) (rn : RaftNode S)
      → CommitFits rn
      → LogFits (lead env rn)
      → Proceeds rn (lead env rn)
  lead-Proceeds env rn c l =
      let room : HasRoom (append_noop (take_office rn)) = (
        omega (arith, take_office-commit rn),
        subst (λ s. (b.last_index s).0 + 1 < 2 ^ 64) (storage-lead env rn) l,
      ) in
      unfold lead in
      Proceeds-trans (take_office-Proceeds rn) (
        Proceeds-trans (check_and_update-Proceeds _ room)
          (Proceeds-trans (broadcast-Proceeds _) (reset_heartbeat_timer-Proceeds env _)))

  become_leader-Grows :
      (env : Env) (rn : RaftNode S) → CommitFits rn → Grows rn (become_leader env rn)
  unfolding become_leader
  become_leader-Grows env rn c = elim (Bool-cases (rn.role == candidate)) [
    | inl stands ↦ rw stands (lead-Proceeds env rn c)
    | inr other ↦ rw other (λ l. Proceeds-refl rn)
  ]

  stand-Proceeds :
      (env : Env) (rn : RaftNode S)
      → Proceeds rn (stand env rn)
        × ((stand env rn).volatile.commit_index ≡ rn.volatile.commit_index)
  unfolding stand persist_term persist_vote reset_election_timer
  stand-Proceeds env rn = ground arith

  -- Goroutines are started, and nothing else happens.
  starts-Proceeds :
      (rn : RaftNode S) (calls : List Spawned) → Proceeds rn (record rn { spawned = calls })
  starts-Proceeds rn calls = ground arith

  campaign_locked-Grows :
      (env : Env) (rn : RaftNode S) → CommitFits rn → Grows rn (campaign_locked env rn)
  unfolding campaign_locked
  campaign_locked-Grows env rn c =
      let s = stand-Proceeds env rn in
      elim (Bool-cases (leb (majority (stand env rn)) 1)) [
        | inl alone ↦
            rw alone (Grows-after s.0 (become_leader-Grows env (stand env rn) (omega (arith, s.1))))
        | inr asks ↦ rw asks (λ l. Proceeds-trans s.0 (starts-Proceeds (stand env rn) _))
      ]

  commit-reset_election_timer :
      (env : Env) (rn : RaftNode S)
      → (reset_election_timer env rn).volatile.commit_index ≡ rn.volatile.commit_index
  unfolding reset_election_timer
  commit-reset_election_timer env rn = ground arith

  pub start_election-Grows :
      (env : Env) (rn : RaftNode S) → CommitFits rn → Grows rn (start_election env rn)
  unfolding start_election
  start_election-Grows env rn c =
      elim (Bool-cases (ltb env.now rn.election_deadline || rn.role == leader)) [
        | inl stale ↦ rw stale (λ l. Proceeds-refl rn)
        | inr due ↦ rw due (
            let timed = reset_election_timer-Proceeds env rn in
            elim (Bool-cases (length (reset_election_timer env rn).peers == 0)) [
              | inl alone ↦ rw alone (
                  Grows-after timed (
                    campaign_locked-Grows env (reset_election_timer env rn)
                      (omega (arith, commit-reset_election_timer env rn))))
              | inr many ↦
                  rw many
                    (λ l. Proceeds-trans timed (starts-Proceeds (reset_election_timer env rn) _))
            ])
      ]

  count_pre_vote-Grows :
      (env : Env) (ballot : Ballot) (rn : RaftNode S)
      → CommitFits rn
      → Grows rn (count_pre_vote env ballot rn).1
  unfolding count_pre_vote
  count_pre_vote-Grows env ballot rn c =
      elim (Bool-cases (leb ballot.majority (ballot.votes + 1))) [
        | inl enough ↦ rw enough (campaign_locked-Grows env rn c)
        | inr few ↦ rw few (λ l. Proceeds-refl rn)
      ]

  commit-check_term :
      (t : ℕ) (rn : RaftNode S)
      → (check_term t rn).0.volatile.commit_index ≡ rn.volatile.commit_index
  unfolding check_term
  commit-check_term t rn = ground arith

  answer_pre_vote-Grows :
      (env : Env) (ballot : Ballot) (res : RequestVoteResponse) (rn : RaftNode S)
      → CommitFits rn
      → Grows rn (answer_pre_vote env ballot res rn).1
  unfolding answer_pre_vote
  answer_pre_vote-Grows env ballot res rn c =
      let rn' = (check_term res.term rn).0 in
      let checked = check_term-Proceeds res.term rn in
      elim (Bool-cases (check_term res.term rn).1) [
        | inl newer ↦ rw newer (λ l. Proceeds-trans checked (reset_election_timer-Proceeds env rn'))
        | inr older ↦
            rw older
              (elim (Bool-cases (
                ballot.campaigned
                || rn'.role == leader
                || not (rn'.persistent.current_term == ballot.term)
                || ltb ballot.started rn'.last_leader_contact)) [
                  | inl stale ↦ rw stale (λ l. checked)
                  | inr current ↦ rw current (elim (Bool-cases res.vote_granted) [
                    | inl yea ↦ rw yea (
                        Grows-after checked (
                          count_pre_vote-Grows env ballot rn'
                            (omega (arith, commit-check_term res.term rn))))
                    | inr nay ↦ rw nay (λ l. checked)
                  ])
                ])
      ]

  count_vote-Grows :
      (env : Env) (ballot : Ballot) (rn : RaftNode S)
      → CommitFits rn
      → Grows rn (count_vote env ballot rn).1
  unfolding count_vote
  count_vote-Grows env ballot rn c = elim (Bool-cases (leb ballot.majority (ballot.votes + 1))) [
    | inl enough ↦ rw enough (become_leader-Grows env rn c)
    | inr few ↦ rw few (λ l. Proceeds-refl rn)
  ]

  answer_vote-Grows :
      (env : Env) (ballot : Ballot) (res : RequestVoteResponse) (rn : RaftNode S)
      → CommitFits rn
      → Grows rn (answer_vote env ballot res rn).1
  unfolding answer_vote
  answer_vote-Grows env ballot res rn c =
      let rn' = (check_term res.term rn).0 in
      let checked = check_term-Proceeds res.term rn in
      elim (Bool-cases (check_term res.term rn).1) [
        | inl newer ↦ rw newer (λ l. Proceeds-trans checked (reset_election_timer-Proceeds env rn'))
        | inr older ↦
            rw older
              (elim (Bool-cases
                (not (rn'.role == candidate) || not (rn'.persistent.current_term == ballot.term))) [
                  | inl stale ↦ rw stale (λ l. checked)
                  | inr current ↦ rw current (elim (Bool-cases res.vote_granted) [
                    | inl yea ↦ rw yea (
                        Grows-after checked (
                          count_vote-Grows env ballot rn'
                            (omega (arith, commit-check_term res.term rn))))
                    | inr nay ↦ rw nay (λ l. checked)
                  ])
                ])
      ]

  counted-Proceeds :
      (rn : RaftNode S) (m : Option Metrics) → Proceeds rn (record rn { metrics = m })
  counted-Proceeds rn m = ground arith

  pub on_pre_vote_response-Grows :
      (env : Env) (ballot : Ballot) (res : Option RequestVoteResponse) (rn : RaftNode S)
      → CommitFits rn
      → Grows rn (on_pre_vote_response env ballot res rn).1
  unfolding on_pre_vote_response
  on_pre_vote_response-Grows env ballot none rn c = λ l. counted-Proceeds rn _
  on_pre_vote_response-Grows env ballot (some res) rn c =
      Grows-after (counted-Proceeds rn _) (answer_pre_vote-Grows env ballot res _ c)

  pub on_vote_response-Grows :
      (env : Env) (ballot : Ballot) (res : Option RequestVoteResponse) (rn : RaftNode S)
      → CommitFits rn
      → Grows rn (on_vote_response env ballot res rn).1
  unfolding on_vote_response
  on_vote_response-Grows env ballot none rn c = λ l. counted-Proceeds rn _
  on_vote_response-Grows env ballot (some res) rn c =
      Grows-after (counted-Proceeds rn _) (answer_vote-Grows env ballot res _ c)
