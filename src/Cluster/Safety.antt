-- ===== src/Cluster/Safety.antt =====
-- Election safety (internal/raft): at most one leader in a term.
use raftra.Common.{
  All, All-split, contains-All, ◌*◌, share, ℕ, ◌≤◌, ◌<◌, String, ◌≡◌, ◌≢◌, refl, sym, ap, ◌∙◌, inl,
  inr, true, Option, List, [], ◌∷◌, ◌++◌, arith, string_eq, nat_eq, length,
}
use mathlib.Core.Path.{subst}
use raftra.Cluster.Counted.{IsStart, rounds-IsCounted, new_raft_node-fresh}
use raftra.Cluster.Replies.{replies-IsHonest}
use raftra.Cluster.Rounds.{Backed, Backed-later, IsCounted, answered-IsCounted}
use raftra.Cluster.Setup.{IsMember, Run-AllMembers, put-all, put_self}
use raftra.Cluster.Votes.{Voted, Voted-unique}
use raftra.Cluster.{
  without, Arrived, RequestVoteResponse, Env, contains, Cluster, Round, Move, acts, serves,
  delivers, restarts, Run, here, next, launch, serve, deliver,
}
use raftra.Kvstore.{Codec}
use raftra.Raft.Commit.{majority}
use raftra.Raft.Durable.{IsWritable}
use raftra.Raft.Election.Office.{Moves}
use raftra.Raft.Election.Tally.{on_vote_response-IsTallied}
use raftra.Raft.Election.{on_vote_response}
use raftra.Raft.Node.{RaftNode, leader, role_eq}
use raftra.Raft.Office.Serves.{handle_request_vote-Stays}
use raftra.Raft.Office.{Stays}
use raftra.Raft.Steps.Office.{Step-Moves}
use raftra.Raft.Vote.{handle_request_vote}
use raftra.Storage.{StorageBackend, IsLawful}

module _ {S : Type 0} ⦃b : StorageBackend S⦄ ⦃codec : Codec⦄ (law : IsLawful b) (ok : IsWritable b)
    (members : List String) where
  -- More than half of the members voted for the candidate in the term.
  pub record Elected {first cl : Cluster S} (r : Run members first cl) (t : ℕ) (c : String)
      : Type 0 where
    pub inside : contains members c ≡ true
    pub backed : Backed members r t c
    pub enough : length members < 2 * length backed.voters

  -- If the node leads, it was elected in its term.
  abbrev pub LeadsRightly :
      {first cl : Cluster S} → Run members first cl → String → RaftNode S → Type 0
  LeadsRightly r m rn = rn.role ≡ leader → Elected r rn.persistent.current_term m

  pub Elected-later :
      {first cl cl' : Cluster S} (r : Run members first cl) (mv : Move members cl cl') {t : ℕ}
      {c : String}
      → Elected r t c
      → Elected (next r mv) t c
  unfolding Backed-later
  Elected-later r mv h = record {
    inside = h.inside;
    backed = Backed-later members r mv h.backed;
    enough = h.enough;
  }

  -- A node that led before, in the same term.
  Stays-LeadsRightly :
      {first cl cl' : Cluster S} (r : Run members first cl) (mv : Move members cl cl') (m : String)
      (rn rn' : RaftNode S)
      → Stays rn rn'
      → LeadsRightly r m rn
      → LeadsRightly (next r mv) m rn'
  Stays-LeadsRightly r mv m rn rn' s h l = rw (s.term l) (Elected-later r mv (h (s.led l)))

  -- A candidate that needs no other vote.
  alone-Elected :
      {first cl : Cluster S} (r : Run members first cl) (m : String) (rn : RaftNode S) (t : ℕ)
      → contains members m ≡ true
      → IsMember law ok members m rn
      → majority rn ≤ 1
      → Voted r m t m
      → Elected r t m
  unfolding majority
  alone-Elected r m rn t inside h few own = record {
    inside = inside;
    backed = record {
      voters = m ∷ [];
      distinct = (refl, tt);
      within = (inside, tt);
      cast = (own, tt);
    };
    enough = omega (arith, h.set_up.count);
  }

  Moves-LeadsRightly :
      {first cl cl' : Cluster S} (r : Run members first cl) (mv : Move members cl cl') (m : String)
      (rn rn' : RaftNode S)
      → contains members m ≡ true
      → IsMember law ok members m rn
      → (cl'.node m).persistent ≡ rn'.persistent
      → Moves rn rn'
      → LeadsRightly r m rn
      → LeadsRightly (next r mv) m rn'
  Moves-LeadsRightly r mv m rn rn' inside h now (inl s) old l =
      Stays-LeadsRightly r mv m rn rn' s old l
  Moves-LeadsRightly r mv m rn rn' inside h now (inr c) old l = elim c.outcome [
    | inl alone ↦
        alone-Elected (next r mv) m rn rn'.persistent.current_term inside h alone.0 (
          inr
            (ap (λ q. q.current_term) now, ap (λ q. q.voted_for) now ∙ c.voted ∙ h.set_up.node_id))
    | inr other ↦ absurd (other.0 l)
  ]

  -- The winner of a round.
  won-Elected :
      {first cl : Cluster S} (r : Run members first cl) (round : Round)
      → round.ballot.majority ≤ round.ballot.votes
      → IsCounted members r round
      → Elected r round.ballot.term round.owner
  won-Elected r round enough h = record {
    inside = h.owner;
    backed = h.backed;
    enough = omega (arith, h.majority, h.votes);
  }

  delivered-Elected :
      {first cl : Cluster S} (r : Run members first cl) (env : Env) (peer : String)
      (res : Option RequestVoteResponse) (before : List Round) (round : Round) (after : List Round)
      → IsStart law ok members first
      → cl.rounds ≡ before ++ round ∷ after
      → contains round.waiting peer ≡ true
      → Arrived cl.replies peer round.req res
      → LeadsRightly r round.owner (cl.node round.owner)
      → LeadsRightly r round.owner (on_vote_response env round.ballot res (cl.node round.owner)).1
  delivered-Elected {cl} r env peer res before round after start e w a h led =
      let t = on_vote_response-IsTallied env round.ballot res (cl.node round.owner) in
      let ballot' = (on_vote_response env round.ballot res (cl.node round.owner)).0 in
      let counted =
        (All-split (IsCounted members r) before (round ∷ after)
          (subst (All (IsCounted members r)) e (rounds-IsCounted law ok members r start))).1.0 in
      elim (t.leads led) [
        | inl (led0, same) ↦ rw same (h led0)
        | inr (term, enough, adds) ↦
            let won =
              won-Elected r
                (record round { ballot = ballot'; waiting = without peer round.waiting })
                (ground (arith, adds.1))
                (answered-IsCounted members r peer round res ballot'
                  (replies-IsHonest r start.no_replies) a w (inr adds) counted) in
            rw (term ∙ sym (ap (λ x. x.term) adds.1)) won
      ]

  Move-LeadsRightly :
      {first cl cl' : Cluster S} (r : Run members first cl) (mv : Move members cl cl')
      → IsStart law ok members first
      → ((m : String) → LeadsRightly r m (cl.node m))
      → (m : String) → LeadsRightly (next r mv) m (cl'.node m)
  unfolding launch serve deliver
  Move-LeadsRightly {cl} r (acts i {rn} inside small st l) start h m =
      let mv = acts i {rn = rn} inside small st l in
      let member = Run-AllMembers law ok members r start.members_ready i inside in
      put-all (LeadsRightly (next r mv)) cl.node i (record rn { spawned = [] }) m
        (Moves-LeadsRightly r mv i (cl.node i) rn inside member
          (ap (λ n. n.persistent) (put_self cl.node i _)) (Step-Moves st l) (h i))
        (λ led. Elected-later r mv (h m led))
  Move-LeadsRightly {cl} r (serves env v k round inside e) start h m =
      let mv = serves env v k round inside e in
      let rn = (handle_request_vote env round.req (cl.node v)).0 in
      put-all (LeadsRightly (next r mv)) cl.node v (record rn { spawned = [] }) m
        (Stays-LeadsRightly r mv v (cl.node v) rn
          (handle_request_vote-Stays env round.req (cl.node v)) (h v))
        (λ led. Elected-later r mv (h m led))
  Move-LeadsRightly {cl} r (delivers env peer res before round after e w a) start h m =
      let mv = delivers env peer res before round after e w a in
      let rn = (on_vote_response env round.ballot res (cl.node round.owner)).1 in
      put-all (LeadsRightly (next r mv)) cl.node round.owner (record rn { spawned = [] }) m
        (λ led.
          Elected-later r mv
            (delivered-Elected r env peer res before round after start e w a (h round.owner) led))
        (λ led. Elected-later r mv (h m led))
  Move-LeadsRightly {cl} r (restarts i config kv rn inside e name peers) start h m =
      let mv = restarts i config kv rn inside e name peers in
      put-all (LeadsRightly (next r mv)) cl.node i (record rn { spawned = [] }) m
        (λ led.
          absurd ((new_raft_node-fresh law ok members config (cl.node i).storage kv rn e).0 led))
        (λ led. Elected-later r mv (h m led))

  pub Run-LeadsRightly :
      {first cl : Cluster S} (r : Run members first cl)
      → IsStart law ok members first
      → (m : String) → LeadsRightly r m (cl.node m)
  Run-LeadsRightly here start m led = absurd (start.none_leads m led)
  Run-LeadsRightly (next r mv) start m led =
      Move-LeadsRightly r mv start (Run-LeadsRightly r start) m led

  pub Elected-unique :
      {first cl : Cluster S} (r : Run members first cl) (t : ℕ) (i j : String)
      → IsStart law ok members first
      → i ≢ ""
      → j ≢ ""
      → Elected r t i
      → Elected r t j
      → i ≡ j
  Elected-unique r t i j start hi hj a c =
      let (v, va, vc) =
        share members a.backed.voters c.backed.voters a.backed.distinct c.backed.distinct
          a.backed.within c.backed.within (omega (arith, a.enough, c.enough)) in
      Voted-unique law ok members r v t i j start.members_ready hi hj
        (contains-All (λ w. Voted r w t i) a.backed.voters v a.backed.cast va)
        (contains-All (λ w. Voted r w t j) c.backed.voters v c.backed.cast vc)

  -- In a cluster whose storage takes the writes of term and vote, whatever its members do while the term
  -- fits uint64, in any order, over a network that delays, repeats and loses what it carries, and with
  -- members that stop and start again from their storage: two members with names that lead in the same
  -- term are the same.
  pub election_safety :
      {first cl : Cluster S} (r : Run members first cl) (i j : String)
      → IsStart law ok members first
      → i ≢ ""
      → j ≢ ""
      → (cl.node i).role ≡ leader
      → (cl.node j).role ≡ leader
      → (cl.node i).persistent.current_term ≡ (cl.node j).persistent.current_term
      → i ≡ j
  election_safety {cl} r i j start hi hj li lj e =
      Elected-unique r (cl.node i).persistent.current_term i j start hi hj
        (Run-LeadsRightly r start i li) (rw e (Run-LeadsRightly r start j lj))
