-- ===== src/Raft/Propose/Proceeds.antt =====
-- Proposals and the answers of followers (internal/raft/replication.go) move the commit index up.
use raftra.Common.{
  ℕ, String, ◌≡◌, ◌≢◌, inl, inr, Bool, true, false, Option, none, some, [], ◌∷◌, ◌++◌, arith, ◌==◌,
  string_eq, nat_eq, ltb, length, Bool-cases,
}
use raftra.Kvstore.{Codec, Bytes}
use raftra.Proto.{LogEntry, AppendEntriesRequest, AppendEntriesResponse}
use raftra.Raft.Commit.Proceeds.{HasRoom, check_and_update-Proceeds}
use raftra.Raft.Node.{RaftNode, LeaderState, leader, role_eq}
use raftra.Raft.Proceeds.{
  check_term-older, IsEquipped, Proceeds, Proceeds-refl, Proceeds-trans, check_term-Proceeds,
  reset_election_timer-Proceeds,
}
use raftra.Raft.Propose.{
  propose_command, finish_proposal, register, replicate, record_answer, answer_append,
  on_append_response, Event,
}
use raftra.Raft.Send.{at}
use raftra.Raft.Send.Proceeds.{send-Proceeds, broadcast-Proceeds}
use raftra.Raft.Term.{check_term}
use raftra.Raft.Timer.{Env}
use raftra.Storage.{StorageBackend}

module _ {S : Type 0} ⦃b : StorageBackend S⦄ ⦃codec : Codec⦄ where
  register-Proceeds : (index : ℕ) (rn : RaftNode S) → Proceeds rn (register index rn).0
  unfolding register
  register-Proceeds index rn =
      let k = broadcast-Proceeds _ in
      record { commit = k.commit; applied = k.applied; ordered = k.ordered; equipped = k.equipped }

  -- A node with peers leaves the commit index to the answers.
  replicate-Proceeds :
      (entry : LogEntry) (rn : RaftNode S)
      → length rn.peers ≢ 0
      → Proceeds rn (replicate entry rn).0
  unfolding replicate
  replicate-Proceeds entry rn many = ground (
    arith,
    register-Proceeds entry.index (record rn {
      storage = (b.append_entries (entry ∷ []) rn.storage).0;
      persistent = record rn.persistent { log = rn.persistent.log ++ entry ∷ [] };
    }),
    Proceeds-refl rn,
  )

  pub propose_command-Proceeds :
      (cmd : Bytes) (rn : RaftNode S) → length rn.peers ≢ 0 → Proceeds rn (propose_command cmd rn).0
  unfolding propose_command
  propose_command-Proceeds cmd rn many = elim (Bool-cases (rn.role == leader)) [
    | inr other ↦ rw other (Proceeds-refl rn)
    | inl leads ↦ rw leads (replicate-Proceeds _ rn many)
  ]

  pub finish_proposal-Proceeds :
      (index : ℕ) (event : Event) (rn : RaftNode S) → Proceeds rn (finish_proposal index event rn).0
  unfolding finish_proposal
  finish_proposal-Proceeds index event rn = ground arith

  record_answer-Proceeds :
      (peer : String) (r : AppendEntriesRequest) (success : Bool) (ls : LeaderState)
      (rn : RaftNode S)
      → HasRoom rn
      → Proceeds rn (record_answer peer r success ls rn)
  unfolding record_answer
  record_answer-Proceeds peer r true ls rn h =
      let k = check_and_update-Proceeds _ h in
      record {
        commit = k.commit;
        applied = k.applied;
        ordered = k.ordered;
        equipped = λ e. k.equipped (λ l n. ground (arith, n));
      }
  record_answer-Proceeds peer r false ls rn h = elim (Bool-cases (ltb 1 (at ls.next_index peer))) [
    | inr first ↦ rw first (Proceeds-refl rn)
    | inl back ↦ rw back (
        let k = send-Proceeds peer _ in
        record {
          commit = k.commit;
          applied = k.applied;
          ordered = k.ordered;
          equipped = λ e. k.equipped (λ l n. ground (arith, n));
        })
  ]

  answer_append-Proceeds :
      (env : Env) (peer : String) (r : AppendEntriesRequest) (resp : AppendEntriesResponse)
      (rn rn' : RaftNode S)
      → HasRoom rn
      → answer_append env peer r resp rn ≡ some rn'
      → Proceeds rn rn'
  unfolding answer_append
  answer_append-Proceeds env peer r resp rn rn' h e =
      elim (Bool-cases (check_term resp.term rn).1) [
        | inl newer ↦
            let k =
              Proceeds-trans (check_term-Proceeds resp.term rn)
                (reset_election_timer-Proceeds env (check_term resp.term rn).0) in
            ground (arith, newer, e, k)
        | inr older ↦
            let same = check_term-older resp.term rn older in
            grind
              (arith, older, same, e, Proceeds-refl rn, record_answer-Proceeds peer r resp.success)
      ]

  pub on_append_response-Proceeds :
      (env : Env) (peer : String) (r : AppendEntriesRequest) (resp : Option AppendEntriesResponse)
      (rn rn' : RaftNode S)
      → HasRoom rn
      → on_append_response env peer r resp rn ≡ some rn'
      → Proceeds rn rn'
  unfolding on_append_response
  on_append_response-Proceeds env peer r none rn rn' h e = ground (arith, e)
  on_append_response-Proceeds env peer r (some resp) rn rn' h e =
      let k = answer_append-Proceeds env peer r resp _ rn' h e in
      record { commit = k.commit; applied = k.applied; ordered = k.ordered; equipped = k.equipped }

  -- The goroutine of an AppendEntries RPC finds the leader's state where it looks for it.
  answer_append-ne-none :
      (env : Env) (peer : String) (r : AppendEntriesRequest) (resp : AppendEntriesResponse)
      (rn : RaftNode S)
      → IsEquipped rn
      → answer_append env peer r resp rn ≢ none
  unfolding answer_append
  answer_append-ne-none env peer r resp rn h e = elim (Bool-cases (check_term resp.term rn).1) [
    | inl newer ↦ ground (arith, newer, e)
    | inr older ↦ ground (arith, older, check_term-older resp.term rn older, e, h)
  ]

  pub on_append_response-ne-none :
      (env : Env) (peer : String) (r : AppendEntriesRequest) (resp : Option AppendEntriesResponse)
      (rn : RaftNode S)
      → IsEquipped rn
      → on_append_response env peer r resp rn ≢ none
  unfolding on_append_response
  on_append_response-ne-none env peer r none rn h e = ground (arith, e)
  on_append_response-ne-none env peer r (some resp) rn h e =
      answer_append-ne-none env peer r resp _ h e
