-- ===== src/Raft/Election/Tally.antt =====
-- The answer to a vote request (internal/raft/election.go, the goroutines of `campaignLocked`): what it
-- does to the ballot of its round, and when it makes the node lead.
use raftra.Common.{
  ◌+◌, ◌≤◌, ◌≡◌, refl, ◌∙◌, ◌⊎◌, inl, inr, Bool, true, false, not, ◌||◌, Option, none, some, arith,
  ◌==◌, string_eq, nat_eq, leb, Bool-cases,
}
use raftra.Kvstore.{Codec}
use raftra.Proto.{RequestVoteResponse}
use raftra.Raft.Election.Advance.{become_leader-SameVote}
use raftra.Raft.Election.Office.{become_leader-Takes}
use raftra.Raft.Election.{count_vote, answer_vote, on_vote_response}
use raftra.Raft.Node.{RaftNode, Ballot, candidate, leader, role_eq}
use raftra.Raft.Office.Serves.{check_term-Stays, reset_election_timer-Stays}
use raftra.Raft.Office.{polls, Stays, Stays-trans}
use raftra.Raft.Term.{check_term}
use raftra.Raft.Timer.{Env}
use raftra.Storage.{StorageBackend}

-- The answer granted the vote, and the ballot has it.
abbrev pub Adds : Ballot → Bool → Ballot → Type 0
Adds ballot granted ballot' =
    (granted ≡ true) × (ballot' ≡ record ballot { votes = ballot.votes + 1 })

-- A node leads after an answer only if it led before, in the same term, or by this vote: the ballot is
-- of the node's term, and has its majority now.
pub record IsTallied {S : Type 0} (ballot : Ballot) (granted : Bool) (rn : RaftNode S)
    (ballot' : Ballot) (rn' : RaftNode S) : Type 0 where
  pub config : rn'.config ≡ rn.config
  pub peers : rn'.peers ≡ rn.peers
  pub polls : polls rn'.spawned ≡ polls rn.spawned
  pub tally : (ballot' ≡ ballot) ⊎ Adds ballot granted ballot'
  pub leads :
      rn'.role ≡ leader
      → (rn.role ≡ leader) × (rn'.persistent.current_term ≡ rn.persistent.current_term)
        ⊎ (rn'.persistent.current_term ≡ ballot.term)
          × (ballot.majority ≤ ballot.votes + 1)
          × Adds ballot granted ballot'

abbrev pub granted_by : Option RequestVoteResponse → Bool
granted_by none = false
granted_by (some r) = r.vote_granted

module _ {S : Type 0} ⦃b : StorageBackend S⦄ ⦃codec : Codec⦄ where
  Stays-IsTallied :
      (ballot : Ballot) (granted : Bool) (rn rn' : RaftNode S)
      → Stays rn rn'
      → IsTallied ballot granted rn ballot rn'
  Stays-IsTallied ballot granted rn rn' s = record {
    config = s.config;
    peers = s.peers;
    polls = s.polls;
    tally = inl refl;
    leads = λ l. inl (s.led l, s.term l);
  }

  IsTallied-after :
      (ballot : Ballot) {granted : Bool} (rn rn' : RaftNode S) (ballot' : Ballot)
      (rn'' : RaftNode S)
      → Stays rn rn'
      → IsTallied ballot granted rn' ballot' rn''
      → IsTallied ballot granted rn ballot' rn''
  IsTallied-after ballot rn rn' ballot' rn'' s t = record {
    config = t.config ∙ s.config;
    peers = t.peers ∙ s.peers;
    polls = t.polls ∙ s.polls;
    tally = t.tally;
    leads = λ l. elim (t.leads l) [
      | inl (led, same) ↦ inl (s.led led, same ∙ s.term led)
      | inr won ↦ inr won
    ];
  }

  -- A counted vote, for a candidate in the term of the ballot.
  count_vote-IsTallied :
      (env : Env) (ballot : Ballot) (rn : RaftNode S)
      → rn.role ≡ candidate
      → rn.persistent.current_term ≡ ballot.term
      → IsTallied ballot true rn (count_vote env ballot rn).0 (count_vote env ballot rn).1
  unfolding count_vote
  count_vote-IsTallied env ballot rn c e =
      elim (Bool-cases (leb ballot.majority (ballot.votes + 1))) [
        | inl enough ↦ rw enough (
            let t = become_leader-Takes env rn in
            record {
              config = t.config;
              peers = t.peers;
              polls = t.polls;
              tally = inr (refl, refl);
              leads = λ l.
                  inr ((become_leader-SameVote env rn).0 ∙ e, ground (arith, enough), (refl, refl));
            })
        | inr few ↦ rw few (record {
          config = refl;
          peers = refl;
          polls = refl;
          tally = inr (refl, refl);
          leads = λ l. inl (l, refl);
        })
      ]

  answer_vote-IsTallied :
      (env : Env) (ballot : Ballot) (res : RequestVoteResponse) (rn : RaftNode S)
      → IsTallied ballot res.vote_granted rn
          (answer_vote env ballot res rn).0
          (answer_vote env ballot res rn).1
  unfolding answer_vote
  answer_vote-IsTallied env ballot res rn =
      let rn' = (check_term res.term rn).0 in
      let checked = check_term-Stays res.term rn in
      elim (Bool-cases (check_term res.term rn).1) [
        | inl newer ↦ rw newer (
            Stays-IsTallied ballot res.vote_granted rn _
              (Stays-trans checked (reset_election_timer-Stays env rn')))
        | inr older ↦
            rw older
              (elim (Bool-cases
                (not (rn'.role == candidate) || not (rn'.persistent.current_term == ballot.term))) [
                  | inl stale ↦ rw stale (Stays-IsTallied ballot res.vote_granted rn rn' checked)
                  | inr current ↦ rw current (elim (Bool-cases res.vote_granted) [
                    | inl yea ↦ rw yea (
                        IsTallied-after ballot rn rn' _ _ checked
                          (count_vote-IsTallied env ballot rn' (ground arith) (ground arith)))
                    | inr nay ↦ rw nay (Stays-IsTallied ballot false rn rn' checked)
                  ])
                ])
      ]

  pub on_vote_response-IsTallied :
      (env : Env) (ballot : Ballot) (res : Option RequestVoteResponse) (rn : RaftNode S)
      → IsTallied ballot
          (granted_by res)
          rn
          (on_vote_response env ballot res rn).0
          (on_vote_response env ballot res rn).1
  unfolding on_vote_response
  on_vote_response-IsTallied env ballot none rn = Stays-IsTallied ballot false rn _ (ground arith)
  on_vote_response-IsTallied env ballot (some res) rn =
      IsTallied-after ballot rn _ _ _ (ground arith) (answer_vote-IsTallied env ballot res _)
