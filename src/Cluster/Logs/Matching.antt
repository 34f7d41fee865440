-- ===== src/Cluster/Logs/Matching.antt =====
-- Log Matching between the members of a cluster (internal/raft).
use raftra.Common.{
  ℕ, zero, suc, String, ◌≡◌, refl, sym, inl, inr, false, Option, some, List, [], ◌∷◌, arith,
  string_eq, nat_eq, get_elem?,
}
use mathlib.Core.Path.{subst}
use raftra.Cluster.Logs.{Leads, IsFaithful, IsSpacious, IsSpacious-last, faithful_before}
use raftra.Cluster.Logs.Recorded.{IsGood, Run-IsGood, Carries-Effect}
use raftra.Cluster.Logs.Traced.{IsTraced, IsTraced-later}
use raftra.Cluster.Setup.{put-all, put_self}
use raftra.Cluster.{
  contains, hang_up, Round, Env, RequestVoteResponse, Cluster, Move, acts, serves, delivers,
  restarts, Run, here, next, launch, serve, deliver,
}
use raftra.Kvstore.{Codec}
use raftra.Proto.{LogEntry}
use raftra.Raft.Append.Agreement.{LogMatching}
use raftra.Raft.Durable.{IsWritable}
use raftra.Raft.Election.Records.{on_vote_response-Records}
use raftra.Raft.Election.{on_vote_response}
use raftra.Raft.Node.{RaftNode, leader, role_eq}
use raftra.Raft.Records.{handle_request_vote-SameLog}
use raftra.Raft.Steps.Durable.{new_raft_node-loads}
use raftra.Raft.Vote.{handle_request_vote}
use raftra.Storage.{StorageBackend, IsLawful, sentinel}
use raftra.Cluster.Logs.Matched.{
  IsFresh, AllTraced, fresh-IsRecorded, matched, recorded-IsTraced, served-IsTraced,
}

module _ {S : Type 0} ⦃b : StorageBackend S⦄ ⦃codec : Codec⦄ (law : IsLawful b) (ok : IsWritable b)
    (members : List String) (named : contains members "" ≡ false) where
  Leads-launched :
      (i : String) (rn : RaftNode S) (cl : Cluster S)
      → rn.role ≡ leader
      → Leads law (launch i rn cl) i rn.persistent.current_term (law.log rn.storage)
  unfolding launch
  Leads-launched i rn cl led =
      rw (put_self cl.node i (record rn { spawned = [] })) (led, refl, refl)

  Leads-delivered :
      (env : Env) (peer : String) (res : Option RequestVoteResponse) (before : List Round)
      (round : Round) (after : List Round) (cl : Cluster S)
      → (on_vote_response env round.ballot res (cl.node round.owner)).1.role ≡ leader
      → Leads law
          (deliver env peer res before round after cl)
          round.owner
          (on_vote_response env round.ballot res (cl.node round.owner)).1.persistent.current_term
          (law.log (on_vote_response env round.ballot res (cl.node round.owner)).1.storage)
  unfolding deliver launch
  Leads-delivered env peer res before round after cl led =
      let rn = (on_vote_response env round.ballot res (cl.node round.owner)).1 in
      rw (put_self cl.node round.owner (record rn { spawned = [] })) (led, refl, refl)

  Move-IsTraced :
      {first cl cl' : Cluster S} (r : Run members first cl) (mv : Move members cl cl')
      → IsFresh law ok members named first
      → IsFaithful law (next r mv)
      → IsSpacious law r
      → IsGood law r
      → AllTraced law ok members named r
      → (m : String) → IsTraced law (next r mv) (law.log (cl'.node m).storage)
  Move-IsTraced {first} {cl} r (acts i {rn} inside small st l) fresh f space good all m =
      let mv : Move members cl (launch i rn cl) = acts i {rn = rn} inside small st l in
      unfold launch in
      put-all (λ j n. IsTraced law (next r mv) (law.log n.storage)) cl.node i
        (record rn { spawned = [] }) m
        (elim (Carries-Effect law r i st good (IsSpacious-last law r space i) (good.recorded i)
          f.1) [
            | inl records ↦
                recorded-IsTraced law ok members named r mv i (cl.node i) rn (all.logs i)
                  (Leads-launched i rn cl) records
            | inr (req, served, outcome, _) ↦ IsTraced-later law r mv (law.log rn.storage) (
                served-IsTraced law ok members named r i (law.log (cl.node i).storage)
                  (law.log rn.storage) req fresh f.0 space all (all.logs i) served outcome)
          ])
        (IsTraced-later law r mv (law.log (cl.node m).storage) (all.logs m))
  Move-IsTraced {first} {cl} r (serves env v k round inside e) fresh f space good all m =
      let mv : Move members cl (serve env v round.req cl) = serves env v k round inside e in
      let rn = (handle_request_vote env round.req (cl.node v)).0 in
      unfold serve launch in
      put-all (λ j n. IsTraced law (next r mv) (law.log n.storage)) cl.node v
        (record rn { spawned = [] }) m
        (rw ((handle_request_vote-SameLog law env round.req (cl.node v)).0)
          (IsTraced-later law r mv (law.log (cl.node v).storage) (all.logs v)))
        (IsTraced-later law r mv (law.log (cl.node m).storage) (all.logs m))
  Move-IsTraced {first} {cl} r (delivers env peer res before round after e w a) fresh f space good
        all m =
      let mv : Move members cl (deliver env peer res before round after cl) =
        delivers env peer res before round after e w a in
      let i = round.owner in
      let rn = (on_vote_response env round.ballot res (cl.node i)).1 in
      unfold deliver launch in
      put-all (λ j n. IsTraced law (next r mv) (law.log n.storage)) cl.node i
        (record rn { spawned = [] }) m
        (recorded-IsTraced law ok members named r mv i (cl.node i) rn (all.logs i)
          (Leads-delivered env peer res before round after cl)
          (on_vote_response-Records law env round.ballot res (cl.node i) (good.recorded i).1
            (IsSpacious-last law r space i)))
        (IsTraced-later law r mv (law.log (cl.node m).storage) (all.logs m))
  Move-IsTraced {first} {cl} r (restarts i config kv rn inside e name peers) fresh f space good all
        m =
      let mv : Move members cl (launch i rn (record cl { rounds = hang_up i cl.rounds })) =
        restarts i config kv rn inside e name peers in
      let kept = (new_raft_node-loads law config (cl.node i).storage kv rn e).3 in
      unfold launch in
      put-all (λ j n. IsTraced law (next r mv) (law.log n.storage)) cl.node i
        (record rn { spawned = [] }) m
        (subst (λ s. IsTraced law (next r mv) (law.log s)) (sym kept)
          (IsTraced-later law r mv (law.log (cl.node i).storage) (all.logs i)))
        (IsTraced-later law r mv (law.log (cl.node m).storage) (all.logs m))

  traced_from_logs :
      {first cl : Cluster S} (r : Run members first cl) (m : String) (t : ℕ) (l : List LogEntry)
      → ((j : String) → IsTraced law r (law.log (cl.node j).storage))
      → Leads law cl m t l
      → IsTraced law r l
  traced_from_logs r m t l h (led, term, log) = rw (← log) (h m)

  alone-IsTraced :
      {first cl : Cluster S} (r : Run members first cl) → IsTraced law r (sentinel ∷ [])
  alone-IsTraced r = (refl, λ k x there. inl (sentinel_only k x there))
    where
      sentinel_only : (k : ℕ) (x : LogEntry) → get_elem? (sentinel ∷ []) k ≡ some x → k ≡ 0
      sentinel_only zero x there = refl
      sentinel_only (suc k) x there = absurd (ground (arith, there))

  Run-AllTraced :
      {first cl : Cluster S} (r : Run members first cl)
      → IsFresh law ok members named first
      → IsFaithful law r
      → IsSpacious law r
      → AllTraced law ok members named r
  Run-AllTraced {first} here fresh f space =
      let r : Run members first first = here in
      let logs : (m : String) → IsTraced law r (law.log (first.node m).storage) =
        λ m. rw (fresh.stored m) (alone-IsTraced r) in
      record { logs = logs; written = λ m t l h. traced_from_logs r m t l logs h }
  Run-AllTraced {first} {cl} (next r mv) fresh f space =
      let before = faithful_before law r mv f in
      let all = Run-AllTraced r fresh before space.0 in
      let good =
        Run-IsGood law r (fresh-IsRecorded law ok members named first fresh) before space.0 in
      let logs : (m : String) → IsTraced law (next r mv) (law.log (cl.node m).storage) =
        Move-IsTraced r mv fresh f space.0 good all in
      record {
        logs = logs;
        written = λ m t l wrote. elim wrote [
          | inl old ↦ IsTraced-later law r mv l (all.written m t l old)
          | inr new ↦ traced_from_logs (next r mv) m t l logs new
        ];
      }

  -- Log Matching. A cluster, whose members have names and whose storage takes the writes of term and
  -- vote, starts with empty logs. Its members take any steps in any order, over a network that delays,
  -- repeats and loses what it carries; they stop and start again from their storage, and writes of the
  -- log may fail. The AppendEntries requests that they serve are such as a leader built for them, and
  -- neither terms nor logs outgrow uint64. Then at every point, where the stored logs of two members have
  -- entries of one term at one index, they are equal up to that index.
  pub log_matching :
      {first cl : Cluster S} (r : Run members first cl) (i j : String)
      → IsFresh law ok members named first
      → IsFaithful law r
      → IsSpacious law r
      → LogMatching (law.log (cl.node i).storage) (law.log (cl.node j).storage)
  log_matching {first} {cl} r i j fresh f space =
      let all = Run-AllTraced r fresh f space in
      matched law ok members named r (law.log (cl.node i).storage) (law.log (cl.node j).storage)
        fresh f space (all.logs i) (all.logs j)
