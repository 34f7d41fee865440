-- ===== src/Raft/Steps/Records.antt =====
-- The log on storage over any run of steps (internal/raft), and after a restart.
use raftra.Common.{
  ◌⊎◌, inl, inr, refl, suc, ◌+◌, ◌<◌, ◌^◌, ◌≡◌, sym, ◌∙◌, inl, inr, arith, ◌==◌, string_eq, nat_eq,
  length, Bool-cases,
}
use raftra.Kvstore.{Codec, KvStore}
use raftra.Proto.{AppendEntriesRequest}
use raftra.Raft.Append.Records.{
  IsServed, handle_append_entries-IsServed, handle_append_entries-IsRecorded,
}
use raftra.Raft.Election.Records.{
  start_election-Records, on_pre_vote_response-Records, on_vote_response-Records,
}
use raftra.Raft.Node.{RaftNode, Config, created, new_raft_node, leader, role_eq}
use raftra.Raft.Propose.Records.{
  propose_command-Records, finish_proposal-SameLog, on_append_response-SameLog,
}
use raftra.Raft.Records.{
  Numbered, IsRecorded, SameLog, Records, HasSpace, SameLog-Records, Records-IsRecorded,
  reset_election_timer-SameLog, reset_heartbeat_timer-SameLog, stop-SameLog,
  handle_request_vote-SameLog,
}
use raftra.Raft.Run.{on_election_timer, on_heartbeat_timer, set_metrics}
use raftra.Raft.Send.Frame.{broadcast-IsSent}
use raftra.Raft.Steps.Durable.{new_raft_node-loads}
use raftra.Raft.Steps.{
  Takes, Takes-mono, Step, request_vote, append_entries, election_timer, heartbeat_timer,
  pre_vote_response, vote_response, append_response, propose, finish, started, stopped, metrics,
  Reach, here, next,
}
use raftra.Raft.Timer.{Env, start}
use raftra.Storage.{StorageBackend, IsLawful, AreIndexedFrom}

-- The entries of a request carry the indices at which they belong, and those fit uint64.
abbrev pub IsNumbered : AppendEntriesRequest → Type 0
IsNumbered req =
    (req.prev_log_index + 1 + length req.entries < 2 ^ 64)
    × AreIndexedFrom (suc req.prev_log_index) req.entries

module _ {S : Type 0} ⦃b : StorageBackend S⦄ ⦃codec : Codec⦄ (law : IsLawful b) where
  on_heartbeat_timer-SameLog :
      (env : Env) (rn : RaftNode S) → SameLog law rn (on_heartbeat_timer env rn)
  unfolding on_heartbeat_timer
  on_heartbeat_timer-SameLog env rn =
      grind (arith, broadcast-IsSent rn, reset_heartbeat_timer-SameLog law)

  on_election_timer-Records :
      (env : Env) (rn : RaftNode S)
      → Numbered (law.log rn.storage)
      → HasSpace law rn
      → Records law rn (on_election_timer env rn)
  on_election_timer-Records env rn h space = elim (Bool-cases (rn.role == leader)) [
    | inl led ↦
        SameLog-Records law rn (on_election_timer env rn)
          (unfold on_election_timer in rw led (reset_election_timer-SameLog law env rn))
    | inr other ↦ unfold on_election_timer in rw other (start_election-Records law env rn h space)
  ]

  -- All requests of the run are numbered, and before each step the log has room for an entry.
  abbrev pub AllNumbered : {rn rn' : RaftNode S} → Reach rn rn' → Type 0
  AllNumbered here = Unit
  AllNumbered (next {s} r small st) = AllNumbered r × HasSpace law s × Takes IsNumbered st

  -- A step adds to both logs, or serves a request.
  abbrev pub Effect : (AppendEntriesRequest → Type 0) → RaftNode S → RaftNode S → Type 0
  Effect P rn rn' =
      Records law rn rn'
      ⊎ ((req : AppendEntriesRequest) × P req
          × IsServed req (law.log rn.storage) (law.log rn'.storage)
          × IsRecorded law rn')

  pub Step-Effect :
      (P : AppendEntriesRequest → Type 0) {rn rn' : RaftNode S} (st : Step rn rn')
      → HasSpace law rn
      → Takes (λ req. P req × IsNumbered req) st
      → IsRecorded law rn
      → Effect P rn rn'
  unfolding start set_metrics
  Step-Effect P {rn} {rn'} (request_vote env req) space n h =
      inl (SameLog-Records law rn rn' (handle_request_vote-SameLog law env req rn))
  Step-Effect P {rn} (append_entries env req) space n h = inr (
    req,
    n.0,
    handle_append_entries-IsServed law env req rn h n.1.0 n.1.1,
    handle_append_entries-IsRecorded law env req rn h n.1.0 n.1.1,
  )
  Step-Effect P {rn} (election_timer env) space n h =
      inl (on_election_timer-Records env rn h.1 space)
  Step-Effect P {rn} {rn'} (heartbeat_timer env) space n h =
      inl (SameLog-Records law rn rn' (on_heartbeat_timer-SameLog env rn))
  Step-Effect P {rn} (pre_vote_response env ballot res) space n h =
      inl (on_pre_vote_response-Records law env ballot res rn h.1 space)
  Step-Effect P {rn} (vote_response env ballot res) space n h =
      inl (on_vote_response-Records law env ballot res rn h.1 space)
  Step-Effect P {rn} {rn'} (append_response env peer r resp e) space n h =
      inl (SameLog-Records law rn rn' (on_append_response-SameLog law env peer r resp rn rn' e))
  Step-Effect P {rn} (propose cmd) space n h = inl (propose_command-Records law cmd rn h.1 space)
  Step-Effect P {rn} {rn'} (finish index event) space n h =
      inl (SameLog-Records law rn rn' (finish_proposal-SameLog law index event rn))
  Step-Effect P {rn} {rn'} (started env) space n h = inl (SameLog-Records law rn rn' (refl, refl))
  Step-Effect P {rn} {rn'} stopped space n h =
      inl (SameLog-Records law rn rn' (stop-SameLog law rn))
  Step-Effect P {rn} {rn'} (metrics m) space n h = inl (SameLog-Records law rn rn' (refl, refl))

  pub Effect-IsRecorded :
      (P : AppendEntriesRequest → Type 0) (rn rn' : RaftNode S)
      → Effect P rn rn'
      → IsRecorded law rn
      → IsRecorded law rn'
  Effect-IsRecorded P rn rn' (inl records) h = Records-IsRecorded law rn rn' records h
  Effect-IsRecorded P rn rn' (inr (_, _, _, recorded)) h = recorded

  Reach-IsRecorded :
      {rn rn' : RaftNode S} (r : Reach rn rn')
      → AllNumbered r
      → IsRecorded law rn
      → IsRecorded law rn'
  Reach-IsRecorded here n h = h
  Reach-IsRecorded {rn} {rn'} (next {s} r small st) n h =
      let before = Reach-IsRecorded r n.0 h in
      let takes = Takes-mono IsNumbered (λ req. Unit × IsNumbered req) (λ req k. (tt, k)) st n.2 in
      Effect-IsRecorded (λ req. Unit) s rn' (Step-Effect (λ req. Unit) st n.1 takes before) before

  -- A node is started from a storage whose log is numbered from its sentinel on, takes any steps, in
  -- which writes of the log may fail, and is started again from the storage that it leaves. If the
  -- requests carry entries at the indices at which they belong and the log and the term do not outgrow
  -- uint64, the log on storage is numbered without gaps, and the second start has the log that the node
  -- had.
  pub restart_keeps_log :
      (config config' : Config) (s : S) (kv kv' : KvStore) {first last again : RaftNode S}
      (r : Reach first last)
      → Numbered (law.log s)
      → AllNumbered r
      → new_raft_node config s kv ≡ created first
      → new_raft_node config' last.storage kv' ≡ created again
      → Numbered (law.log last.storage) × (again.persistent.log ≡ last.persistent.log)
  restart_keeps_log config config' s kv kv' {first} {last} {again} r numbered n e e' =
      let (_, _, read, kept) = new_raft_node-loads law config s kv first e in
      let recorded : IsRecorded law first = (rw kept read, rw kept numbered) in
      let (mirrored, still) = Reach-IsRecorded r n recorded in
      let loaded = new_raft_node-loads law config' last.storage kv' again e' in
      (still, loaded.2 ∙ sym mirrored)
