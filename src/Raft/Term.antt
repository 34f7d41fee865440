-- ===== src/Raft/Term.antt =====
-- `checkTerm` of internal/raft/election.go.
pub mod Aborts
use raftra.Common.{
  ℕ, String, Bool, true, false, none, some, List, [], ◌∷◌, ◌++◌, ltb, if◌then◌else◌, nat_eq,
}
use raftra.GoMap
use raftra.GoMap.{GoMap}
use raftra.Metrics.{set_current_term, set_node_role}
use raftra.Raft.Node.{RaftNode, follower, Channel}
use raftra.Storage.{StorageBackend, Err, not_leader}

-- for idx, ch := range pendingCommits { ch <- ErrNotLeader; delete(pendingCommits, idx) }: the
-- messages, and the map that is left.
unfoldable pub abort_sends : GoMap ℕ Channel → List (Channel × Err)
abort_sends [] = []
abort_sends ((idx, ch) ∷ m) = (ch, some not_leader) ∷ abort_sends m

unfoldable pub abort_deletes : GoMap ℕ Channel → GoMap ℕ Channel → GoMap ℕ Channel
abort_deletes [] pending = pending
abort_deletes ((idx, ch) ∷ m) pending = abort_deletes m (GoMap.delete pending idx)

module _ {S : Type 0} ⦃b : StorageBackend S⦄ where
  -- `_ = rn.storage.SaveTerm(term)`, its error dropped
  unfoldable pub persist_term : ℕ → RaftNode S → RaftNode S
  persist_term term rn = record rn { storage = (b.save_term term rn.storage).0 }

  -- `_ = rn.storage.SaveVotedFor(candidateID)`, its error dropped
  unfoldable pub persist_vote : String → RaftNode S → RaftNode S
  persist_vote candidate_id rn = record rn {
    storage = (b.save_voted_for candidate_id rn.storage).0;
  }

  step_down : ℕ → RaftNode S → RaftNode S
  unfolding persist_term persist_vote abort_sends abort_deletes
  step_down incoming_term rn = persist_vote "" (
      persist_term incoming_term (record rn {
        persistent = record rn.persistent { current_term = incoming_term; voted_for = "" };
        role = follower;
        leader_state = none;
        metrics = set_current_term incoming_term (set_node_role 0 rn.metrics);
        sent = rn.sent ++ abort_sends rn.pending_commits;
        pending_commits = abort_deletes rn.pending_commits rn.pending_commits;
      }))

  unfoldable pub check_term : ℕ → RaftNode S → RaftNode S × Bool
  unfolding step_down
  check_term incoming_term rn =
      if ltb rn.persistent.current_term incoming_term
      then (step_down incoming_term rn, true)
      else (rn, false)
