-- ===== src/Cluster/Logs/Recorded.antt =====
-- The two logs of each member over a run of a cluster, and what is known of each request that was sent
-- (internal/raft).
use raftra.Common.{ℕ, String, ◌≡◌, ◌≢◌, refl, inl, inr, List, [], string_eq, nat_eq}
use raftra.Cluster.Setup.{put-all}
use raftra.Cluster.{
  Cluster, Move, acts, serves, delivers, restarts, Run, here, next, launch, serve, deliver,
}
use raftra.Kvstore.{Codec}
use raftra.Proto.{LogEntry, AppendEntriesRequest}
use raftra.Raft.Election.Records.{on_vote_response-Records}
use raftra.Raft.Election.{on_vote_response}
use raftra.Raft.Node.{RaftNode, role_eq}
use raftra.Raft.Records.{
  IsRecorded, HasSpace, SameLog-Records, handle_request_vote-SameLog, Records-IsRecorded,
}
use raftra.Raft.Vote.{handle_request_vote}
use raftra.Raft.Send.{append_request}
use raftra.Raft.Steps.Durable.{new_raft_node-loads}
use raftra.Raft.Steps.Records.{IsNumbered, Effect, Step-Effect, Effect-IsRecorded}
use raftra.Raft.Steps.{Step, Takes-mono}
use raftra.Storage.{StorageBackend, IsLawful}
use raftra.Cluster.Logs.Slices.{append_request-Slices}
use raftra.Cluster.Logs.{
  Slices, Leads, Sends, AllSpace, Sent, Carries, IsFaithful, IsSpacious, IsSpacious-last, Known,
  faithful_before,
}

module _ {S : Type 0} ⦃b : StorageBackend S⦄ (law : IsLawful b) where
  term-append_request :
      (rn : RaftNode S) (n : ℕ) → (append_request rn n).term ≡ rn.persistent.current_term
  unfolding append_request
  term-append_request rn n = refl

  Sends-Known :
      (cl : Cluster S) (i : String) (req : AppendEntriesRequest)
      → ((m : String) → IsRecorded law (cl.node m))
      → AllSpace law cl
      → Sends law cl i req
      → (m : String) × (l : List LogEntry) × (m ≢ i)
        × Leads law cl m req.term l
        × IsNumbered req
        × Slices l req
  Sends-Known cl i req recorded space (m, n, other, led, small, e) =
      let (numbered, slices) =
        append_request-Slices law (cl.node m) n (recorded m).1 (space m) small in
      (
        m,
        law.log (cl.node m).storage,
        other,
        (led, rw (e, term-append_request) refl, refl),
        rw e numbered,
        rw e slices,
      )

module _ {S : Type 0} ⦃b : StorageBackend S⦄ ⦃codec : Codec⦄ (law : IsLawful b)
    {members : List String} where
  pub record IsGood {first cl : Cluster S} (r : Run members first cl) : Type 0 where
    pub recorded : (m : String) → IsRecorded law (cl.node m)
    pub known : (i : String) (req : AppendEntriesRequest) → Sent law r i req → Known law r i req

  -- What is known of the request that a step serves.
  abbrev pub Serves :
      {first cl : Cluster S} → Run members first cl → String → AppendEntriesRequest → Type 0
  Serves r i req = Sent law r i req × Known law r i req

  pub Carries-Effect :
      {first cl : Cluster S} {rn rn' : RaftNode S} (r : Run members first cl) (i : String)
      (st : Step rn rn')
      → IsGood r
      → HasSpace law rn
      → IsRecorded law rn
      → Carries law r i st
      → Effect law (Serves r i) rn rn'
  Carries-Effect r i st good space h carries =
      Step-Effect law (Serves r i) st space
        (Takes-mono (Sent law r i) (λ req. Serves r i req × IsNumbered req)
          (λ req sent.
            let known = good.known i req sent in
            let (_, _, _, _, numbered, _) = known in ((sent, known), numbered))
          st carries)
        h

  -- The members keep the two logs alike over a move.
  Move-IsRecorded :
      {first cl cl' : Cluster S} (r : Run members first cl) (mv : Move members cl cl')
      → IsGood r
      → AllSpace law cl
      → IsFaithful law (next r mv)
      → (m : String) → IsRecorded law (cl'.node m)
  unfolding launch serve deliver
  Move-IsRecorded {cl} r (acts i {rn} inside small st l) good space f m =
      put-all (λ j n. IsRecorded law n) cl.node i (record rn { spawned = [] }) m
        (Effect-IsRecorded law (Serves r i) (cl.node i) rn
          (Carries-Effect r i st good (space i) (good.recorded i) f.1) (good.recorded i))
        (good.recorded m)
  Move-IsRecorded {cl} r (serves env v k round inside e) good space f m =
      let rn = (handle_request_vote env round.req (cl.node v)).0 in
      put-all (λ j n. IsRecorded law n) cl.node v (record rn { spawned = [] }) m
        (Records-IsRecorded law (cl.node v) rn
          (SameLog-Records law (cl.node v) rn
            (handle_request_vote-SameLog law env round.req (cl.node v)))
          (good.recorded v))
        (good.recorded m)
  Move-IsRecorded {cl} r (delivers env peer res before round after e w a) good space f m =
      let i = round.owner in
      let rn = (on_vote_response env round.ballot res (cl.node i)).1 in
      put-all (λ j n. IsRecorded law n) cl.node i (record rn { spawned = [] }) m
        (Records-IsRecorded law (cl.node i) rn
          (on_vote_response-Records law env round.ballot res (cl.node i) (good.recorded i).1
            (space i))
          (good.recorded i))
        (good.recorded m)
  Move-IsRecorded {cl} r (restarts i config kv rn inside e name peers) good space f m =
      let (_, _, log, kept) = new_raft_node-loads law config (cl.node i).storage kv rn e in
      put-all (λ j n. IsRecorded law n) cl.node i (record rn { spawned = [] }) m
        (rw kept log, rw kept (good.recorded i).1) (good.recorded m)

  pub Run-IsGood :
      {first cl : Cluster S} (r : Run members first cl)
      → ((m : String) → IsRecorded law (first.node m))
      → IsFaithful law r
      → IsSpacious law r
      → IsGood r
  Run-IsGood {cl} here start f space = record {
    recorded = start;
    known = λ i req sent. Sends-Known law cl i req start space sent;
  }
  Run-IsGood {first} {cl} (next r mv) start f space =
      let good = Run-IsGood r start (faithful_before law r mv f) space.0 in
      let recorded : (m : String) → IsRecorded law (cl.node m) =
        Move-IsRecorded r mv good (IsSpacious-last law r space.0) f in
      record {
        recorded = recorded;
        known = λ i req sent. elim sent [
          | inl old ↦
              let (m, l, other, wrote, numbered, slices) = good.known i req old in
              (m, l, other, inl wrote, numbered, slices)
          | inr new ↦
              let (m, l, other, leads, numbered, slices) =
                Sends-Known law cl i req recorded space.1 new in
              (m, l, other, inr leads, numbered, slices)
        ];
      }
