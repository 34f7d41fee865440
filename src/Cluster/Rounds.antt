-- ===== src/Cluster/Rounds.antt =====
-- A round of votes counts distinct members that cast their vote (internal/raft/election.go,
-- `campaignLocked` and its goroutines).
use raftra.Common.{
  contains-All, Apart-absent, without-Within, Apart, Apart-without, contains-without, All-get_elem?,
  All, ◌*◌, Within, Distinct, All-mono, ℕ, ◌<◌, String, ◌≡◌, refl, sym, ap, ◌∙◌, ◌⊎◌, inl, inr,
  true, false, Option, none, some, List, [], ◌∷◌, ◌++◌, arith, ◌==◌, string_eq, nat_eq, length,
  Bool-cases,
}
use raftra.Cluster.Replies.{IsHonest}
use raftra.Cluster.Setup.{IsSetUp}
use raftra.Cluster.Votes.{Voted, Holds-Voted}
use raftra.Cluster.{without, contains, Cluster, Round, Move, Run, next, opened, hang_up, Arrived}
use raftra.Kvstore.{Codec}
use raftra.Proto.{RequestVoteResponse}
use raftra.Raft.Commit.{majority}
use raftra.Raft.Election.Office.{Moves}
use raftra.Raft.Election.Tally.{Adds, granted_by}
use raftra.Raft.Node.{RaftNode, Ballot}
use raftra.Raft.Office.{Poll, polls, IsFresh}
use raftra.Storage.{StorageBackend}

pub hang_up-All {κ} :
    (P : Round → Type κ) (i : String) (rounds : List Round)
    → All P rounds
    → All P (hang_up i rounds)
unfolding hang_up
hang_up-All P i [] h = tt
hang_up-All P i (round ∷ rounds) h = elim (Bool-cases (i == round.owner)) [
  | inl gone ↦ rw gone (hang_up-All P i rounds h.1)
  | inr kept ↦ rw kept (h.0, hang_up-All P i rounds h.1)
]

module _ {S : Type 0} ⦃b : StorageBackend S⦄ ⦃codec : Codec⦄ (members : List String) where
  -- Different members that voted for the candidate in the term.
  pub record Backed {first cl : Cluster S} (r : Run members first cl) (t : ℕ) (c : String)
      : Type 0 where
    pub voters : List String
    pub distinct : Distinct voters
    pub within : Within members voters
    pub cast : All (λ v. Voted r v t c) voters

  pub record IsCounted {first cl : Cluster S} (r : Run members first cl) (round : Round)
      : Type 0 where
    pub owner : contains members round.owner ≡ true
    pub waiting : Within members round.waiting
    pub term : round.req.term ≡ round.ballot.term
    pub candidate : round.req.candidate_id ≡ round.owner
    pub real : round.req.pre_vote ≡ false
    pub majority : length members < 2 * round.ballot.majority
    pub backed : Backed r round.ballot.term round.owner
    pub votes : length backed.voters ≡ round.ballot.votes
    pub apart : Apart round.waiting backed.voters

  unfoldable pub Backed-later :
      {first cl cl' : Cluster S} (r : Run members first cl) (mv : Move members cl cl') {t : ℕ}
      {c : String}
      → Backed r t c
      → Backed (next r mv) t c
  Backed-later r mv {t} {c} h = record {
    voters = h.voters;
    distinct = h.distinct;
    within = h.within;
    cast =
        All-mono (λ v. Voted r v t c) (λ v. Voted (next r mv) v t c) h.voters (λ v k. inl k) h.cast;
  }

  pub IsCounted-later :
      {first cl cl' : Cluster S} (r : Run members first cl) (mv : Move members cl cl')
      (round : Round)
      → IsCounted r round
      → IsCounted (next r mv) round
  unfolding Backed-later
  IsCounted-later r mv round h = record {
    owner = h.owner;
    waiting = h.waiting;
    term = h.term;
    candidate = h.candidate;
    real = h.real;
    majority = h.majority;
    backed = Backed-later r mv h.backed;
    votes = h.votes;
    apart = h.apart;
  }

  -- The round that a campaign opens has the vote of its candidate.
  fresh-IsCounted :
      {first cl : Cluster S} (r : Run members first cl) (i : String) (rn rn' : RaftNode S)
      (p : Poll)
      → contains members i ≡ true
      → IsSetUp members i rn
      → rn'.config ≡ rn.config
      → rn'.peers ≡ rn.peers
      → IsFresh rn' p
      → Voted r i rn'.persistent.current_term i
      → IsCounted r (record { owner = i; ballot = p.ballot; waiting = p.peers; req = p.req })
  unfolding majority
  fresh-IsCounted r i rn rn' p inside up config peers f own = record {
    owner = inside;
    waiting = rw (f.peers, peers) up.within;
    term = f.req_term ∙ sym f.term;
    candidate = f.req_candidate ∙ ap (λ c. c.node_id) config ∙ up.node_id;
    real = f.req_real;
    majority = omega (arith, f.majority, ap length peers, up.count);
    backed = record {
      voters = i ∷ [];
      distinct = (refl, tt);
      within = (inside, tt);
      cast = (rw f.term own, tt);
    };
    votes = sym f.votes;
    apart = (rw (f.peers, peers) up.apart, tt);
  }

  -- All rounds that a node opens by an action.
  pub opened-IsCounted :
      {first cl : Cluster S} (r : Run members first cl) (i : String) (rn rn' : RaftNode S)
      → contains members i ≡ true
      → IsSetUp members i rn
      → polls rn.spawned ≡ []
      → Moves rn rn'
      → (cl.node i).persistent ≡ rn'.persistent
      → All (IsCounted r) (opened i (polls rn'.spawned))
  unfolding opened
  opened-IsCounted r i rn rn' inside up idle (inl s) now = rw (s.polls ∙ idle) tt
  opened-IsCounted r i rn rn' inside up idle (inr c) now = elim c.outcome [
    | inl alone ↦ rw (alone.1 ∙ idle) tt
    | inr (other, (p, e, fresh)) ↦
        let own : Voted r i rn'.persistent.current_term i =
          Holds-Voted r
            (ap (λ q. q.current_term) now, ap (λ q. q.voted_for) now ∙ c.voted ∙ up.node_id) in
        rw (e ∙ ap (λ ps. ps ++ p ∷ []) idle)
          (fresh-IsCounted r i rn rn' p inside up c.config c.peers fresh own, tt)
  ]

  -- An answer that arrived and grants the vote: the peer cast it.
  Arrived-Voted :
      {first cl : Cluster S} (r : Run members first cl) (peer : String) (round : Round)
      (res : Option RequestVoteResponse)
      → All (IsHonest r) cl.replies
      → Arrived cl.replies peer round.req res
      → granted_by res ≡ true
      → IsCounted r round
      → Voted r peer round.ballot.term round.owner
  Arrived-Voted r peer round none honest a yea h = cc
  Arrived-Voted {cl} r peer round (some res) honest (k, e) yea h =
      let v = All-get_elem? (IsHonest r) cl.replies k honest e h.real yea in
      rw (← h.term) (rw (← h.candidate) v)

  -- The round after an answer, counted or not.
  pub answered-IsCounted :
      {first cl : Cluster S} (r : Run members first cl) (peer : String) (round : Round)
      (res : Option RequestVoteResponse) (ballot : Ballot)
      → All (IsHonest r) cl.replies
      → Arrived cl.replies peer round.req res
      → contains round.waiting peer ≡ true
      → (ballot ≡ round.ballot) ⊎ Adds round.ballot (granted_by res) ballot
      → IsCounted r round
      → IsCounted r (record round { ballot = ballot; waiting = without peer round.waiting })
  answered-IsCounted r peer round res ballot honest a w tally h =
      let kept : All (λ v. contains (without peer round.waiting) v ≡ false) h.backed.voters =
        Apart-without round.waiting peer h.backed.voters h.apart in
      elim tally [
        | inl e ↦ rw e (record {
          owner = h.owner;
          waiting = without-Within members peer round.waiting h.waiting;
          term = h.term;
          candidate = h.candidate;
          real = h.real;
          majority = h.majority;
          backed = h.backed;
          votes = h.votes;
          apart = kept;
        })
        | inr (yea, e) ↦ rw e (record {
          owner = h.owner;
          waiting = without-Within members peer round.waiting h.waiting;
          term = h.term;
          candidate = h.candidate;
          real = h.real;
          majority = h.majority;
          backed = record {
            voters = peer ∷ h.backed.voters;
            distinct =
                (Apart-absent round.waiting peer h.backed.voters w h.apart, h.backed.distinct);
            within = (
              contains-All (λ v. contains members v ≡ true) round.waiting peer h.waiting w,
              h.backed.within,
            );
            cast = (Arrived-Voted r peer round res honest a yea h, h.backed.cast);
          };
          votes = omega (arith, h.votes);
          apart = (
            rw (contains-without peer peer round.waiting)
                (rw ((string_eq.equal_iff peer peer).1 refl)),
            kept,
          );
        })
      ]
