-- ===== src/Raft/Steps/Tenure.antt =====
-- The log of a leader over any run of steps (internal/raft).
use raftra.Common.{
  All, ◌+◌, ◌<◌, ◌^◌, ◌≡◌, ◌≢◌, sym, inl, inr, List, ◌++◌, arith, ◌==◌, string_eq, nat_eq,
  Bool-cases,
}
use mathlib.Core.Path.{subst}
use raftra.Kvstore.{Codec}
use raftra.Proto.{LogEntry}
use raftra.Raft.Append.Tenure.{Disturbs, handle_append_entries-Tenure}
use raftra.Raft.Election.Tenure.{
  start_election-Tenure, on_pre_vote_response-Tenure, on_vote_response-Tenure,
}
use raftra.Raft.Node.{RaftNode, leader, follower, role_eq}
use raftra.Raft.Propose.Tenure.{
  propose_command-Tenure, finish_proposal-Tenure, on_append_response-Rests,
}
use raftra.Raft.Run.{on_election_timer, on_heartbeat_timer, set_metrics}
use raftra.Raft.Steps.{
  Takes, Step, request_vote, append_entries, election_timer, heartbeat_timer, pre_vote_response,
  vote_response, append_response, propose, finish, started, stopped, metrics, Reach, here, next,
}
use raftra.Raft.Steps.Advance.{Step-Advances}
use raftra.Raft.Tenure.{
  Extends, Tenure, Rests, Tenure-refl, Tenure-trans, Rests-Tenure, handle_request_vote-Rests,
  stop-Rests, broadcast-Rests, reset_election_timer-Rests, reset_heartbeat_timer-Rests,
}
use raftra.Raft.Timer.{Env, start}
use raftra.Storage.{StorageBackend}

module _ {S : Type 0} ⦃b : StorageBackend S⦄ ⦃codec : Codec⦄ where
  on_heartbeat_timer-Rests : (env : Env) (rn : RaftNode S) → Rests rn (on_heartbeat_timer env rn)
  unfolding on_heartbeat_timer
  on_heartbeat_timer-Rests env rn = grind (arith, broadcast-Rests, reset_heartbeat_timer-Rests)

  on_election_timer-Tenure :
      (env : Env) (rn : RaftNode S)
      → rn.persistent.current_term + 1 < 2 ^ 64
      → Tenure rn (on_election_timer env rn)
  on_election_timer-Tenure env rn h = elim (Bool-cases (rn.role == leader)) [
    | inl led ↦
        Rests-Tenure rn (on_election_timer env rn) (Step-Advances (election_timer env) h)
          (unfold on_election_timer in rw led (reset_election_timer-Rests env rn))
    | inr other ↦ unfold on_election_timer in rw other (start_election-Tenure env rn h)
  ]

  -- An AppendEntries request does not come to a leader from its own term.
  abbrev pub IsQuiet : {rn rn' : RaftNode S} → Step rn rn' → Type 0
  IsQuiet {rn} st = Takes (λ req. ¬ Disturbs req rn) st

  abbrev pub AllQuiet : {rn rn' : RaftNode S} → Reach rn rn' → Type 0
  AllQuiet here = Unit
  AllQuiet (next r small st) = AllQuiet r × IsQuiet st

  rested :
      {rn rn' : RaftNode S}
      → Step rn rn'
      → rn.persistent.current_term + 1 < 2 ^ 64
      → Rests rn rn'
      → Tenure rn rn'
  rested {rn} {rn'} st h r = Rests-Tenure rn rn' (Step-Advances st h) r

  pub Step-Tenure :
      {rn rn' : RaftNode S} (st : Step rn rn')
      → rn.persistent.current_term + 1 < 2 ^ 64
      → IsQuiet st
      → Tenure rn rn'
  unfolding start set_metrics
  Step-Tenure {rn} (request_vote env req) h q =
      rested (request_vote env req) h (handle_request_vote-Rests env req rn)
  Step-Tenure {rn} (append_entries env req) h q = handle_append_entries-Tenure env req rn q
  Step-Tenure {rn} (election_timer env) h q = on_election_timer-Tenure env rn h
  Step-Tenure {rn} (heartbeat_timer env) h q =
      rested (heartbeat_timer env) h (on_heartbeat_timer-Rests env rn)
  Step-Tenure {rn} (pre_vote_response env ballot res) h q =
      on_pre_vote_response-Tenure env ballot res rn h
  Step-Tenure {rn} (vote_response env ballot res) h q = on_vote_response-Tenure env ballot res rn
  Step-Tenure {rn} {rn'} (append_response env peer r resp e) h q =
      rested (append_response env peer r resp e) h
        (on_append_response-Rests env peer r resp rn rn' e)
  Step-Tenure {rn} (propose cmd) h q = propose_command-Tenure cmd rn
  Step-Tenure {rn} (finish index event) h q = finish_proposal-Tenure index event rn
  Step-Tenure {rn} (started env) h q = Tenure-refl rn
  Step-Tenure {rn} stopped h q = rested stopped h (stop-Rests rn)
  Step-Tenure {rn} (metrics m) h q = Tenure-refl rn

  Reach-Tenure : {rn rn' : RaftNode S} (r : Reach rn rn') → AllQuiet r → Tenure rn rn'
  Reach-Tenure {rn} here q = Tenure-refl rn
  Reach-Tenure {rn} {rn'} (next {s} r h st) q =
      Tenure-trans rn s rn' (Reach-Tenure r q.0) (Step-Tenure st h q.1)

  -- A node runs any steps, while the term fits uint64 and no AppendEntries request reaches it from its
  -- own term while it leads. If it leads at the end, in the term that it began with, then it was no
  -- follower at the start, and its log is the old one with entries of this term after it.
  pub leader_append_only :
      {rn rn' : RaftNode S} (r : Reach rn rn')
      → AllQuiet r
      → rn'.role ≡ leader
      → rn'.persistent.current_term ≡ rn.persistent.current_term
      → (rn.role ≢ follower)
        × ((added : List LogEntry) × (rn'.persistent.log ≡ rn.persistent.log ++ added)
            × All (λ e. e.term ≡ rn'.persistent.current_term) added)
  leader_append_only {rn} {rn'} r quiet led same = elim (Reach-Tenure r quiet) [
    | inl later ↦ absurd (omega (arith, later, same))
    | inr (_, holds) ↦
        let (office, extends) = holds (ground (arith, led)) in
        (office, subst (λ t. Extends t rn.persistent.log rn'.persistent.log) (sym same) extends)
  ]
