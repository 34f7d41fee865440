-- ===== src/Raft/Propose/Records.antt =====
-- A proposal appends its entry to both logs, or to none if the write fails; the answers of followers
-- leave the logs alone (internal/raft/replication.go).
use raftra.Common.{
  sym, ℕ, String, ◌≡◌, ◌⊎◌, inl, inr, Bool, true, false, Option, none, some, [], ◌∷◌, ◌++◌, arith,
  string_eq, nat_eq,
}
use raftra.Kvstore.{Codec, Bytes}
use raftra.Proto.{AppendEntriesRequest, AppendEntriesResponse}
use raftra.Raft.Node.{leader, RaftNode, LeaderState, role_eq}
use raftra.Raft.Propose.{
  propose_command, finish_proposal, record_answer, answer_append, on_append_response, Event,
}
use raftra.Raft.Timer.{Env}
use raftra.Raft.Commit.Frame.{check_and_update-IsCommitted}
use raftra.Raft.Apply.Frame.{apply_committed-IsApplied}
use raftra.Raft.Send.Frame.{send-IsSent, broadcast-IsSent}
use raftra.Raft.Records.{
  Numbered, SameLog, Records, HasSpace, SameLog-Records, SameLog-kept, check_term-SameLog,
  reset_election_timer-SameLog, own_entry, own_entry-IsIndexed,
}
use raftra.Storage.{StorageBackend, IsLawful}

module _ {S : Type 0} ⦃b : StorageBackend S⦄ ⦃codec : Codec⦄ (law : IsLawful b) where
  propose_command-cases :
      (cmd : Bytes) (rn : RaftNode S)
      → Numbered (law.log rn.storage)
      → HasSpace law rn
      → SameLog law rn (propose_command cmd rn).0
        ⊎ (law.log (propose_command cmd rn).0.storage
            ≡ law.log rn.storage ++ own_entry law cmd rn ∷ [])
          × ((propose_command cmd rn).0.persistent.log
              ≡ rn.persistent.log ++ own_entry law cmd rn ∷ [])
          × ((propose_command cmd rn).0.role ≡ leader)
          × ((propose_command cmd rn).0.persistent.current_term ≡ rn.persistent.current_term)
  unfolding propose_command
  propose_command-cases cmd rn h space =
      let es = own_entry law cmd rn ∷ [] in
      grind (
        arith,
        law.append_entries-none rn.storage es (own_entry-IsIndexed law cmd rn h space),
        law.append_entries-failed rn.storage es,
        apply_committed-IsApplied,
        broadcast-IsSent,
      )

  pub propose_command-Records :
      (cmd : Bytes) (rn : RaftNode S)
      → Numbered (law.log rn.storage)
      → HasSpace law rn
      → Records law rn (propose_command cmd rn).0
  propose_command-Records cmd rn h space = elim (propose_command-cases cmd rn h space) [
    | inl same ↦ SameLog-Records law rn (propose_command cmd rn).0 same
    | inr (disk, memory, led, term) ↦ (
      own_entry law cmd rn ∷ [],
      own_entry-IsIndexed law cmd rn h space,
      disk,
      memory,
      inr (led, (sym term, tt)),
    )
  ]

  pub finish_proposal-SameLog :
      (index : ℕ) (event : Event) (rn : RaftNode S)
      → SameLog law rn (finish_proposal index event rn).0
  unfolding finish_proposal
  finish_proposal-SameLog index event rn = ground arith

  record_answer-SameLog :
      (peer : String) (r : AppendEntriesRequest) (success : Bool) (ls : LeaderState)
      (rn : RaftNode S)
      → SameLog law rn (record_answer peer r success ls rn)
  unfolding record_answer
  record_answer-SameLog peer r true ls rn = SameLog-kept law (check_and_update-IsCommitted _).kept
  record_answer-SameLog peer r false ls rn = grind (arith, send-IsSent)

  answer_append-SameLog :
      (env : Env) (peer : String) (r : AppendEntriesRequest) (resp : AppendEntriesResponse)
      (rn rn' : RaftNode S)
      → answer_append env peer r resp rn ≡ some rn'
      → SameLog law rn rn'
  unfolding answer_append
  answer_append-SameLog env peer r resp rn rn' h = grind (
    arith,
    check_term-SameLog law resp.term rn,
    reset_election_timer-SameLog law,
    record_answer-SameLog,
  )

  pub on_append_response-SameLog :
      (env : Env) (peer : String) (r : AppendEntriesRequest) (resp : Option AppendEntriesResponse)
      (rn rn' : RaftNode S)
      → on_append_response env peer r resp rn ≡ some rn'
      → SameLog law rn rn'
  unfolding on_append_response
  on_append_response-SameLog env peer r none rn rn' h = ground arith
  on_append_response-SameLog env peer r (some resp) rn rn' h =
      ground (arith, answer_append-SameLog env peer r resp _ rn' h)
