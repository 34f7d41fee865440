-- ===== src/Raft/Election/Majority.antt =====
-- How a candidate comes to lead (internal/raft/election.go, `campaignLocked` and `becomeLeader`).
use raftra.Common.{
  ℕ, ◌+◌, ◌≤◌, ◌≡◌, ◌≢◌, sym, ap, ◌∙◌, ◌⊎◌, inl, inr, true, false, some, arith, ◌==◌, string_eq,
  nat_eq, Bool-cases,
}
use raftra.Kvstore.{Codec}
use raftra.Proto.{RequestVoteResponse}
use raftra.Raft.Election.{become_leader, answer_vote, on_vote_response}
use raftra.Raft.Node.{RaftNode, Ballot, candidate, leader, role_eq}
use raftra.Raft.Term.{check_term}
use raftra.Raft.Timer.{Env, reset_election_timer}
use raftra.Storage.{StorageBackend}

-- The answer that makes a candidate lead: a grant, in the term of the ballot, at which the votes
-- reach the majority, and no newer term than the node's.
pub record IsDecisive {S : Type 0} (ballot : Ballot) (res : RequestVoteResponse) (rn : RaftNode S)
    : Type 0 where
  pub role : rn.role ≡ candidate
  pub granted : res.vote_granted ≡ true
  pub term : rn.persistent.current_term ≡ ballot.term
  pub majority : ballot.majority ≤ ballot.votes + 1
  pub not_newer : res.term ≤ rn.persistent.current_term

module _ {S : Type 0} ⦃b : StorageBackend S⦄ ⦃codec : Codec⦄ where
  become_leader-other :
      (env : Env) (rn : RaftNode S) → (rn.role == candidate) ≡ false → become_leader env rn ≡ rn
  become_leader-other env rn e = unfold become_leader in rw e

  become_leader-candidate :
      (env : Env) (rn : RaftNode S)
      → rn.role ≢ leader
      → (become_leader env rn).role ≡ leader
      → rn.role ≡ candidate
  become_leader-candidate env rn ne h = elim (Bool-cases (rn.role == candidate)) [
    | inl e ↦ (role_eq.equal_iff rn.role candidate).0 e
    | inr e ↦ absurd (ne (sym (ap (λ r. r.role) (become_leader-other env rn e)) ∙ h))
  ]

  role-check_term :
      (t : ℕ) (rn : RaftNode S)
      → ((check_term t rn).1 ≡ true) × ((check_term t rn).0.role ≢ leader)
        ⊎ ((check_term t rn).1 ≡ false)
          × ((check_term t rn).0 ≡ rn)
          × (t ≤ rn.persistent.current_term)
  unfolding check_term
  role-check_term t rn = ground arith

  answer_vote-leads :
      (env : Env) (ballot : Ballot) (res : RequestVoteResponse) (rn : RaftNode S)
      → rn.role ≢ leader
      → (answer_vote env ballot res rn).1.role ≡ leader
      → IsDecisive ballot res rn
  unfolding answer_vote reset_election_timer
  answer_vote-leads env ballot res rn ne h = elim (role-check_term res.term rn) [
    | inl newer ↦ absurd (ground (arith, newer, h))
    | inr older ↦ ground (arith, older, h, become_leader-candidate env (check_term res.term rn).0)
  ]

  -- A node that does not lead comes to lead by an answer to a vote request only if it is a candidate
  -- in the term of the ballot, the answer grants the vote and has no newer term, and with this vote the
  -- ballot reaches its majority.
  pub on_vote_response-leads :
      (env : Env) (ballot : Ballot) (res : RequestVoteResponse) (rn : RaftNode S)
      → rn.role ≢ leader
      → (on_vote_response env ballot (some res) rn).1.role ≡ leader
      → IsDecisive ballot res rn
  unfolding on_vote_response
  on_vote_response-leads env ballot res rn ne h =
      let d = answer_vote-leads env ballot res _ ne h in
      record {
        role = d.role;
        granted = d.granted;
        term = d.term;
        majority = d.majority;
        not_newer = d.not_newer;
      }
