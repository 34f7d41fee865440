-- ===== src/Raft/Office.antt =====
-- Who leads, and the rounds of votes that are open (internal/raft/election.go): what each method of a
-- node does to the two. All but a campaign and a counted vote leave them alone, or step down.
pub mod Serves
use raftra.Common.{
  ℕ, zero, suc, ◌+◌, ◌-◌, ◌≤◌, ◌<◌, ◌^◌, String, ◌≡◌, ◌≢◌, refl, sym, ap, ◌∙◌, ◌⊎◌, ◌↔◌, inl, inr,
  Bool, true, false, not, ◌&&◌, ◌||◌, Option, none, some, List, [], ◌∷◌, ◌++◌, min, arith, ◌==◌,
  string_eq, nat_eq, u64, u64-eq_of_lt, eq_iff, ltb, leb, if◌then◌else◌, length, take, drop,
  get_elem?, last_or, Bool-cases, Option-cases,
}
use raftra.GoMap
use raftra.GoMap.{GoMap}
use raftra.Proto.{RequestVoteRequest}
use raftra.Raft.Commit.{majority}
use raftra.Raft.Election.{peer_ids}
use raftra.Raft.Kept.{IsKept}
use raftra.Raft.Node.{
  RaftNode, PeerConfig, Ballot, Spawned, pre_vote, vote, append, candidate, leader,
}

-- A round of votes as it starts: the goroutines of one campaign.
pub record Poll : Type 0 where
  pub ballot : Ballot
  pub peers : List String
  pub req : RequestVoteRequest

unfoldable pub polls : List Spawned → List Poll
polls [] = []
polls (pre_vote b ps r ∷ xs) = polls xs
polls (vote b ps r ∷ xs) = record { ballot = b; peers = ps; req = r } ∷ polls xs
polls (append p r ∷ xs) = polls xs

pub polls-append : (xs ys : List Spawned) → polls (xs ++ ys) ≡ polls xs ++ polls ys
unfolding polls
polls-append [] ys = refl
polls-append (pre_vote b ps r ∷ xs) ys = polls-append xs ys
polls-append (vote b ps r ∷ xs) ys =
    ap (λ t. record { ballot = b; peers = ps; req = r } ∷ t) (polls-append xs ys)
polls-append (append p r ∷ xs) ys = polls-append xs ys

-- No office is taken: a node that leads afterwards led before, in the same term.
pub record Stays {S : Type 0} (rn rn' : RaftNode S) : Type 0 where
  pub config : rn'.config ≡ rn.config
  pub peers : rn'.peers ≡ rn.peers
  pub polls : polls rn'.spawned ≡ polls rn.spawned
  pub led : rn'.role ≡ leader → rn.role ≡ leader
  pub term : rn'.role ≡ leader → rn'.persistent.current_term ≡ rn.persistent.current_term

-- The round that a campaign of `rn` opens, in the term that the node has then.
pub record IsFresh {S : Type 0} (rn : RaftNode S) (p : Poll) : Type 0 where
  pub term : p.ballot.term ≡ rn.persistent.current_term
  pub votes : p.ballot.votes ≡ 1
  pub majority : p.ballot.majority ≡ majority rn
  pub peers : p.peers ≡ peer_ids rn.peers
  pub req_term : p.req.term ≡ rn.persistent.current_term
  pub req_candidate : p.req.candidate_id ≡ rn.config.node_id
  pub req_real : p.req.pre_vote ≡ false

-- A campaign votes for itself and opens a round, or leads at once where it needs no other vote.
pub record Campaigns {S : Type 0} (rn rn' : RaftNode S) : Type 0 where
  pub config : rn'.config ≡ rn.config
  pub peers : rn'.peers ≡ rn.peers
  pub voted : rn'.persistent.voted_for ≡ rn.config.node_id
  pub outcome :
      (majority rn ≤ 1) × (polls rn'.spawned ≡ polls rn.spawned)
      ⊎ (rn'.role ≢ leader)
        × ((p : Poll) × (polls rn'.spawned ≡ polls rn.spawned ++ p ∷ []) × IsFresh rn' p)

module _ {S : Type 0} where
  pub Stays-refl : (rn : RaftNode S) → Stays rn rn
  Stays-refl rn = ground arith

  pub Stays-trans : {r s t : RaftNode S} → Stays r s → Stays s t → Stays r t
  Stays-trans h k = record {
    config = k.config ∙ h.config;
    peers = k.peers ∙ h.peers;
    polls = k.polls ∙ h.polls;
    led = λ e. h.led (k.led e);
    term = λ e. k.term e ∙ h.term (k.led e);
  }

  pub Stays-kept : {r s : RaftNode S} → IsKept r s → polls s.spawned ≡ polls r.spawned → Stays r s
  Stays-kept k e = record {
    config = k.config;
    peers = k.peers;
    polls = e;
    led = λ l. sym k.role ∙ l;
    term = λ l. ap (λ p. p.current_term) k.persistent;
  }

  pub Campaigns-after : {r s t : RaftNode S} → Stays r s → Campaigns s t → Campaigns r t
  unfolding majority
  Campaigns-after h k = record {
    config = k.config ∙ h.config;
    peers = k.peers ∙ h.peers;
    voted = k.voted ∙ ap (λ c. c.node_id) h.config;
    outcome = rw (← h.polls) (rw (← h.peers) k.outcome);
  }
