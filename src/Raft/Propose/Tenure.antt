-- ===== src/Raft/Propose/Tenure.antt =====
-- A proposal appends one entry of the term to the log of a leader, and the answers of followers leave
-- the log alone (internal/raft/replication.go).
use raftra.Common.{
  ℕ, ◌+◌, String, ◌≡◌, refl, ◌∙◌, ◌⊎◌, inl, inr, Bool, true, false, Option, none, some, [], ◌∷◌,
  ◌++◌, arith, string_eq, nat_eq, u64,
}
use raftra.Kvstore.{Codec, Bytes}
use raftra.Proto.{AppendEntriesRequest, AppendEntriesResponse}
use raftra.Raft.Node.{RaftNode, LeaderState, role_eq}
use raftra.Raft.Propose.{
  received, propose_command, finish_proposal, received, timed_out, stopping, record_answer,
  answer_append, on_append_response, Event,
}
use raftra.Raft.Timer.{Env}
use raftra.Raft.Apply.Frame.{apply_committed-IsApplied}
use raftra.Raft.Send.Frame.{broadcast-IsSent}
use raftra.Raft.Tenure.{
  Tenure, Rests, Extends-refl, Tenure-refl, reset_election_timer-Rests, check_term-Rests,
  send-Rests, check_and_update-Rests,
}
use raftra.Storage.{StorageBackend}

module _ {S : Type 0} ⦃b : StorageBackend S⦄ ⦃codec : Codec⦄ where
  -- The log of a leader grows by the command, or not at all.
  propose_command-cases :
      (cmd : Bytes) (rn : RaftNode S)
      → ((propose_command cmd rn).0.persistent.current_term ≡ rn.persistent.current_term)
        × ((propose_command cmd rn).0.role ≡ rn.role)
        × (((propose_command cmd rn).0.persistent.log ≡ rn.persistent.log)
            ⊎ ((propose_command cmd rn).0.persistent.log
                ≡ rn.persistent.log
                  ++ record {
                    index = u64 ((b.last_index rn.storage).0 + 1);
                    term = rn.persistent.current_term;
                    command = cmd;
                  }
                    ∷ []))
  unfolding propose_command
  propose_command-cases cmd rn = grind (arith, apply_committed-IsApplied, broadcast-IsSent)

  pub propose_command-Tenure :
      (cmd : Bytes) (rn : RaftNode S) → Tenure rn (propose_command cmd rn).0
  propose_command-Tenure cmd rn =
      let (term, role, log) = propose_command-cases cmd rn in
      inr (
        term,
        λ office. (
          λ e. office (role ∙ e),
          elim log [ inl same ↦ rw same (Extends-refl _ _) | inr grown ↦ (_, grown, (refl, tt)) ],
        ),
      )

  pub finish_proposal-Tenure :
      (index : ℕ) (event : Event) (rn : RaftNode S) → Tenure rn (finish_proposal index event rn).0
  unfolding finish_proposal
  finish_proposal-Tenure index (received none) rn = Tenure-refl rn
  finish_proposal-Tenure index (received (some e)) rn = Tenure-refl rn
  finish_proposal-Tenure index timed_out rn = Tenure-refl rn
  finish_proposal-Tenure index stopping rn = Tenure-refl rn

  record_answer-Rests :
      (peer : String) (r : AppendEntriesRequest) (success : Bool) (ls : LeaderState)
      (rn : RaftNode S)
      → Rests rn (record_answer peer r success ls rn)
  unfolding record_answer
  record_answer-Rests peer r true ls rn =
      let k = check_and_update-Rests _ in record { role = k.role; log = k.log }
  record_answer-Rests peer r false ls rn = grind (arith, send-Rests)

  answer_append-Rests :
      (env : Env) (peer : String) (r : AppendEntriesRequest) (resp : AppendEntriesResponse)
      (rn rn' : RaftNode S)
      → answer_append env peer r resp rn ≡ some rn'
      → Rests rn rn'
  unfolding answer_append
  answer_append-Rests env peer r resp rn rn' h =
      grind (arith, check_term-Rests resp.term rn, reset_election_timer-Rests, record_answer-Rests)

  pub on_append_response-Rests :
      (env : Env) (peer : String) (r : AppendEntriesRequest) (resp : Option AppendEntriesResponse)
      (rn rn' : RaftNode S)
      → on_append_response env peer r resp rn ≡ some rn'
      → Rests rn rn'
  unfolding on_append_response
  on_append_response-Rests env peer r none rn rn' h = ground arith
  on_append_response-Rests env peer r (some resp) rn rn' h =
      ground (arith, answer_append-Rests env peer r resp _ rn' h)
