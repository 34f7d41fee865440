-- ===== src/Cluster/Logs.antt =====
-- The logs of a cluster (internal/raft/replication.go): which AppendEntries requests travel, and what
-- leaders have written. A leader may send, at any time, to any other member, the request that
-- `sendAppendEntriesToPeerLocked` builds for any next index; a member may get it late or more than once.
pub mod Slices
pub mod Recorded
pub mod Written
pub mod Traced
pub mod Matched
pub mod Matching
use raftra.Common.{
  length-append, length-drop, drop_all, length-le_of_none, ℕ, zero, suc, ◌+◌, ◌-◌, ◌≤◌, ◌<◌, ◌^◌,
  String, ◌≡◌, ◌≢◌, refl, sym, ap, ◌∙◌, ◌⊎◌, ◌↔◌, inl, inr, Bool, true, false, not, ◌&&◌, ◌||◌,
  Option, none, some, List, [], ◌∷◌, ◌++◌, min, arith, ◌==◌, string_eq, nat_eq, u64, u64-eq_of_lt,
  eq_iff, ltb, leb, if◌then◌else◌, length, take, drop, get_elem?, last_or, Bool-cases, Option-cases,
}
use raftra.Cluster.Setup.{put-all}
use raftra.Cluster.{
  Cluster, Move, acts, serves, delivers, restarts, Run, here, next, put, launch, serve, deliver,
}
use raftra.Kvstore.{Codec}
use raftra.Proto.{LogEntry, AppendEntriesRequest}
use raftra.Raft.Append.Agreement.{IsSliceOf}
use raftra.Raft.Election.Records.{on_vote_response-Records}
use raftra.Raft.Election.{on_vote_response}
use raftra.Raft.Node.{RaftNode, leader, role_eq, new_raft_node}
use raftra.Raft.Records.{
  Numbered, IsRecorded, HasSpace, SameLog-Records, handle_request_vote-SameLog, Records-IsRecorded,
}
use raftra.Raft.Vote.{handle_request_vote}
use raftra.Raft.Send.{append_request, capped}
use raftra.Raft.Steps.Durable.{new_raft_node-loads}
use raftra.Raft.Steps.Records.{IsNumbered, Effect, Step-Effect, Effect-IsRecorded}
use raftra.Raft.Steps.{Step, Takes, Takes-mono}
use mathlib.Core.List.{append-nil}
use native.Mathlib.Nat.{zero-add}
use raftra.Storage.{StorageBackend, IsLawful, AreIndexedFrom}

-- The entries are none, or a slice of the sender's log.
abbrev pub Slices : List LogEntry → AppendEntriesRequest → Type 0
Slices l req = (req.entries ≡ []) ⊎ IsSliceOf l req

module _ {S : Type 0} ⦃b : StorageBackend S⦄ (law : IsLawful b) where
  -- The node leads in the term, and its log on storage is `l`.
  abbrev pub Leads : Cluster S → String → ℕ → List LogEntry → Type 0
  Leads cl m t l =
      ((cl.node m).role ≡ leader)
      × ((cl.node m).persistent.current_term ≡ t)
      × (law.log (cl.node m).storage ≡ l)

  -- Another member leads, and the request is what it sends for some next index, a uint64.
  abbrev pub Sends : Cluster S → String → AppendEntriesRequest → Type 0
  Sends cl i req =
      (m : String) × (n : ℕ) × (m ≢ i)
      × ((cl.node m).role ≡ leader)
      × (n + 1 < 2 ^ 64)
      × (req ≡ append_request (cl.node m) (suc n))

  abbrev pub AllSpace : Cluster S → Type 0
  AllSpace cl = (m : String) → HasSpace law (cl.node m)

module _ {S : Type 0} ⦃b : StorageBackend S⦄ ⦃codec : Codec⦄ (law : IsLawful b)
    {members : List String} where
  -- At some point of the run the member led in term `t` with the log `l`.
  abbrev pub Wrote :
      {first cl : Cluster S} → Run members first cl → String → ℕ → List LogEntry → Type 0
  Wrote {cl} here m t l = Leads law cl m t l
  Wrote {cl} (next r mv) m t l = Wrote r m t l ⊎ Leads law cl m t l

  abbrev pub Sent :
      {first cl : Cluster S} → Run members first cl → String → AppendEntriesRequest → Type 0
  Sent {cl} here i req = Sends law cl i req
  Sent {cl} (next r mv) i req = Sent r i req ⊎ Sends law cl i req

  -- An AppendEntries request that the member serves was sent to it.
  abbrev pub Carries :
      {first cl : Cluster S} {rn rn' : RaftNode S}
      → Run members first cl
      → String
      → Step rn rn'
      → Type 0
  Carries r i st = Takes (Sent r i) st

  abbrev pub IsFaithful : {first cl : Cluster S} → Run members first cl → Type 0
  IsFaithful here = Unit
  IsFaithful (next r (acts i inside small st l)) = IsFaithful r × Carries r i st
  IsFaithful (next r (serves env v k round inside e)) = IsFaithful r
  IsFaithful (next r (delivers env peer res before round after e w a)) = IsFaithful r
  IsFaithful (next r (restarts i config kv rn inside e name peers)) = IsFaithful r

  -- No log outgrows uint64.
  abbrev pub IsSpacious : {first cl : Cluster S} → Run members first cl → Type 0
  IsSpacious {cl} here = AllSpace law cl
  IsSpacious {cl} (next r mv) = IsSpacious r × AllSpace law cl

  pub IsSpacious-last :
      {first cl : Cluster S} (r : Run members first cl) → IsSpacious r → AllSpace law cl
  IsSpacious-last here h = h
  IsSpacious-last (next r mv) h = h.1

  -- A request that was sent is a slice of what its leader, another member, had written in its term.
  abbrev pub Known :
      {first cl : Cluster S} → Run members first cl → String → AppendEntriesRequest → Type 0
  Known r i req =
      (m : String) × (l : List LogEntry) × (m ≢ i)
      × Wrote r m req.term l
      × IsNumbered req
      × Slices l req

  pub faithful_before :
      {first cl cl' : Cluster S} (r : Run members first cl) (mv : Move members cl cl')
      → IsFaithful (next r mv)
      → IsFaithful r
  faithful_before r (acts i inside small st l) f = f.0
  faithful_before r (serves env v k round inside e) f = f
  faithful_before r (delivers env peer res before round after e w a) f = f
  faithful_before r (restarts i config kv rn inside e name peers) f = f
