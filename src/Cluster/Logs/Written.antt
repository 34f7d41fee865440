-- ===== src/Cluster/Logs/Written.antt =====
-- What leaders have written over a run of a cluster (internal/raft).
use raftra.Common.{
  ℕ, ◌<◌, String, ◌≡◌, ◌≢◌, refl, sym, ap, ◌∙◌, ◌⊎◌, inl, inr, true, false, List, [], ◌++◌, arith,
  string_eq, nat_eq,
}
use mathlib.Core.List.{append-nil, append_assoc}
use raftra.Cluster.Counted.{IsStart}
use raftra.Cluster.Logs.{Leads, Wrote, Sent, Carries, IsFaithful, IsSpacious, faithful_before}
use raftra.Cluster.Logs.Recorded.{IsGood, Run-IsGood}
use raftra.Cluster.Safety.{Elected, Elected-later, Elected-unique, Run-LeadsRightly}
use raftra.Cluster.Setup.{Run-AllMembers, put-all}
use raftra.Cluster.{
  contains, Cluster, Move, acts, serves, delivers, restarts, Run, here, next, launch, serve,
  deliver,
}
use raftra.Kvstore.{Codec, KvStore}
use raftra.Proto.{LogEntry}
use raftra.Raft.Durable.{IsWritable}
use raftra.Raft.Election.Tenure.{on_vote_response-Tenure}
use raftra.Raft.Election.{on_vote_response}
use raftra.Raft.Node.{RaftNode, Config, leader, follower, role_eq, created, new_raft_node}
use raftra.Raft.Records.{IsRecorded}
use raftra.Raft.Steps.Durable.{new_raft_node-loads}
use raftra.Raft.Steps.Tenure.{IsQuiet, Step-Tenure}
use raftra.Raft.Steps.{Step, Takes-mono}
use raftra.Raft.Append.Tenure.{Disturbs}
use raftra.Raft.Tenure.{Tenure, Tenure-refl, Rests-Tenure, handle_request_vote-Rests}
use raftra.Raft.Vote.Advance.{handle_request_vote-Advances}
use raftra.Raft.Vote.{handle_request_vote}
use raftra.Storage.{StorageBackend, IsLawful}

abbrev pub Prefix : List LogEntry → List LogEntry → Type 0
Prefix l l' = (rest : List LogEntry) × (l' ≡ l ++ rest)

module _ {S : Type 0} ⦃b : StorageBackend S⦄ ⦃codec : Codec⦄ (law : IsLawful b) (ok : IsWritable b)
    (members : List String) (named : contains members "" ≡ false) where
  pub Leads-Wrote :
      {first cl : Cluster S} (r : Run members first cl) (m : String) (t : ℕ) (l : List LogEntry)
      → Leads law cl m t l
      → Wrote law r m t l
  Leads-Wrote here m t l h = h
  Leads-Wrote (next r mv) m t l h = inr h

  Wrote-Elected :
      {first cl : Cluster S} (r : Run members first cl) (m : String) (t : ℕ) (l : List LogEntry)
      → IsStart law ok members first
      → Wrote law r m t l
      → Elected law ok members r t m
  Wrote-Elected here m t l start (led, _, _) = absurd (start.none_leads m led)
  Wrote-Elected (next r mv) m t l start (inl old) =
      Elected-later law ok members r mv (Wrote-Elected r m t l start old)
  Wrote-Elected (next r mv) m t l start (inr (led, term, _)) =
      rw (← term) (Run-LeadsRightly law ok members (next r mv) start m led)

  member_named : (m : String) → contains members m ≡ true → m ≢ ""
  member_named m inside e = cc (named, rw e at inside)

  -- One member writes in a term.
  pub Wrote-unique :
      {first cl : Cluster S} (r : Run members first cl) (t : ℕ) (m m' : String)
      (l l' : List LogEntry)
      → IsStart law ok members first
      → Wrote law r m t l
      → Wrote law r m' t l'
      → m ≡ m'
  Wrote-unique r t m m' l l' start h h' =
      let e = Wrote-Elected r m t l start h in
      let e' = Wrote-Elected r m' t l' start h' in
      Elected-unique law ok members r t m m' start (member_named m e.inside)
        (member_named m' e'.inside) e e'

  -- A request that a leader gets is not from its own term.
  carried-IsQuiet :
      {first cl : Cluster S} {rn rn' : RaftNode S} (r : Run members first cl) (i : String)
      (st : Step rn rn')
      → IsStart law ok members first
      → ((t : ℕ)
          → rn.role ≡ leader
          → rn.persistent.current_term ≡ t
          → Wrote law r i t (law.log rn.storage))
      → IsGood law r
      → Carries law r i st
      → IsQuiet st
  carried-IsQuiet {first} {cl} {rn} r i st start now good carries =
      Takes-mono (Sent law r i) (λ req. ¬ Disturbs req rn)
        (λ req sent disturbed.
          let (m, l, other, wrote, _, _) = good.known i req sent in
          other (
            Wrote-unique r req.term m i l (law.log rn.storage) start wrote
              (now req.term disturbed.0 (sym disturbed.1))))
        st carries

  role-new_raft_node :
      (config : Config) (s : S) (kv : KvStore) (rn : RaftNode S)
      → new_raft_node config s kv ≡ created rn
      → rn.role ≡ follower
  unfolding new_raft_node
  role-new_raft_node config s kv rn e = ground (arith, e)

  Move-Tenure :
      {first cl cl' : Cluster S} (r : Run members first cl) (mv : Move members cl cl')
      → IsStart law ok members first
      → IsGood law r
      → IsFaithful law (next r mv)
      → (m : String) → Tenure (cl.node m) (cl'.node m)
  unfolding launch serve deliver
  Move-Tenure {first} {cl} r (acts i {rn} inside small st l) start good f m =
      put-all (λ j n. Tenure (cl.node j) n) cl.node i (record rn { spawned = [] }) m
        (Step-Tenure st small (
          carried-IsQuiet r i st start (λ t led same. Leads-Wrote r i t _ (led, same, refl)) good
            f.1))
        (Tenure-refl (cl.node m))
  Move-Tenure {first} {cl} r (serves env v k round inside e) start good f m =
      let rn = (handle_request_vote env round.req (cl.node v)).0 in
      put-all (λ j n. Tenure (cl.node j) n) cl.node v (record rn { spawned = [] }) m
        (Rests-Tenure (cl.node v) rn (handle_request_vote-Advances env round.req (cl.node v))
          (handle_request_vote-Rests env round.req (cl.node v)))
        (Tenure-refl (cl.node m))
  Move-Tenure {first} {cl} r (delivers env peer res before round after e w a) start good f m =
      let i = round.owner in
      let rn = (on_vote_response env round.ballot res (cl.node i)).1 in
      put-all (λ j n. Tenure (cl.node j) n) cl.node i (record rn { spawned = [] }) m
        (on_vote_response-Tenure env round.ballot res (cl.node i)) (Tenure-refl (cl.node m))
  Move-Tenure {first} {cl} r (restarts i config kv rn inside e name peers) start good f m =
      let loads = new_raft_node-loads law config (cl.node i).storage kv rn e in
      let durable = (Run-AllMembers law ok members r start.members_ready i inside).durable in
      put-all (λ j n. Tenure (cl.node j) n) cl.node i (record rn { spawned = [] }) m
        (inr (
          loads.0 ∙ durable.0,
          λ office. absurd (office (role-new_raft_node config (cl.node i).storage kv rn e)),
        ))
        (Tenure-refl (cl.node m))

  -- What a member wrote is in its log as long as it is in office in the term.
  Stands : Cluster S → String → ℕ → List LogEntry → Type 0
  Stands cl m t l =
      (t < (cl.node m).persistent.current_term)
      ⊎ ((cl.node m).persistent.current_term ≡ t)
        × ((cl.node m).role ≢ follower → Prefix l (law.log (cl.node m).storage))

  Leads-Stands :
      (cl : Cluster S) (m : String) (t : ℕ) (l : List LogEntry)
      → Leads law cl m t l
      → Stands cl m t l
  unfolding Stands
  Leads-Stands cl m t l (led, term, log) = inr (term, λ office. ([], log ∙ sym (append-nil l)))

  Stands-later :
      (cl cl' : Cluster S) (m : String) (t : ℕ) (l : List LogEntry)
      → (cl.node m).persistent.log ≡ law.log (cl.node m).storage
      → (cl'.node m).persistent.log ≡ law.log (cl'.node m).storage
      → Tenure (cl.node m) (cl'.node m)
      → Stands cl m t l
      → Stands cl' m t l
  unfolding Stands
  Stands-later cl cl' m t l old new (inl later) (inl h) = inl (omega (arith, later, h))
  Stands-later cl cl' m t l old new (inl later) (inr (term, _)) = inl (omega (arith, later, term))
  Stands-later cl cl' m t l old new (inr (same, _)) (inl h) = inl (omega (arith, same, h))
  Stands-later cl cl' m t l old new (inr (same, holds)) (inr (term, kept)) = inr (
    same ∙ term,
    λ office.
        let (was, (added, grown, _)) = holds office in
        let (rest, prefix) = kept was in
        (
          rest ++ added,
          sym new ∙ grown ∙ ap (λ k. k ++ added) (old ∙ prefix) ∙ append_assoc l rest added,
        ),
  )

  Wrote-Stands :
      {first cl : Cluster S} (r : Run members first cl) (m : String) (t : ℕ) (l : List LogEntry)
      → IsStart law ok members first
      → ((j : String) → IsRecorded law (first.node j))
      → IsFaithful law r
      → IsSpacious law r
      → Wrote law r m t l
      → Stands cl m t l
  Wrote-Stands here m t l start fresh f space h = Leads-Stands _ m t l h
  Wrote-Stands {first} {cl} (next r mv) m t l start fresh f space (inr h) = Leads-Stands cl m t l h
  Wrote-Stands {first} {cl} (next {cl = c} r mv) m t l start fresh f space (inl h) =
      let before = faithful_before law r mv f in
      let good = Run-IsGood law r fresh before space.0 in
      let good' = Run-IsGood law (next r mv) fresh f space in
      Stands-later c cl m t l (good.recorded m).0 (good'.recorded m).0
        (Move-Tenure r mv start good f m) (Wrote-Stands r m t l start fresh before space.0 h)

  stood :
      (cl : Cluster S) (m : String) (t : ℕ) (l l' : List LogEntry)
      → Stands cl m t l
      → Leads law cl m t l'
      → Prefix l l'
  unfolding Stands
  stood cl m t l l' (inl later) (led, term, log) = absurd (omega (arith, later, term))
  stood cl m t l l' (inr (_, kept)) (led, term, log) =
      let (rest, prefix) = kept (ground (arith, led)) in (rest, sym log ∙ prefix)

  -- Of two logs that a member has written in a term, one is a prefix of the other.
  pub Wrote-comparable :
      {first cl : Cluster S} (r : Run members first cl) (m : String) (t : ℕ) (l l' : List LogEntry)
      → IsStart law ok members first
      → ((j : String) → IsRecorded law (first.node j))
      → IsFaithful law r
      → IsSpacious law r
      → Wrote law r m t l
      → Wrote law r m t l'
      → Prefix l l' ⊎ Prefix l' l
  unfolding Stands
  Wrote-comparable here m t l l' start fresh f space (led, _, _) h' =
      absurd (start.none_leads m led)
  Wrote-comparable {first} {cl} (next r mv) m t l l' start fresh f space (inl h) (inl h') =
      Wrote-comparable r m t l l' start fresh (faithful_before law r mv f) space.0 h h'
  Wrote-comparable {first} {cl} (next r mv) m t l l' start fresh f space (inl h) (inr h') =
      inl (stood cl m t l l' (Wrote-Stands (next r mv) m t l start fresh f space (inl h)) h')
  Wrote-comparable {first} {cl} (next r mv) m t l l' start fresh f space (inr h) (inl h') =
      inr (stood cl m t l' l (Wrote-Stands (next r mv) m t l' start fresh f space (inl h')) h)
  Wrote-comparable {first} {cl} (next r mv) m t l l' start fresh f space (inr h) (inr h') =
      inl ([], sym h'.2 ∙ h.2 ∙ sym (append-nil l))
