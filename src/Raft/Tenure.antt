-- ===== src/Raft/Tenure.antt =====
-- What a node does to its log while it is in office, as a candidate or a leader (internal/raft): it only
-- appends entries of its term. A follower comes into office only with a new term.
use raftra.Common.{
  All, All-append, ℕ, ◌<◌, String, ◌≡◌, ◌≢◌, refl, sym, ap, ◌∙◌, ◌⊎◌, inl, inr, List, [], ◌++◌,
  arith, string_eq, nat_eq,
}
use mathlib.Core.List.{append-nil, append_assoc}
use raftra.Kvstore.{Codec}
use raftra.Proto.{LogEntry, RequestVoteRequest}
use raftra.Raft.Advance.{Advances}
use raftra.Raft.Commit.Frame.{check_and_update-IsCommitted}
use raftra.Raft.Commit.{check_and_update_commit_index_locked}
use raftra.Raft.Kept.{IsKept}
use raftra.Raft.Node.{RaftNode, follower, role_eq}
use raftra.Raft.Run.{stop}
use raftra.Raft.Send.Frame.{send-IsSent, broadcast-IsSent}
use raftra.Raft.Send.{send_append_entries_to_peer_locked, broadcast_append_entries_locked}
use raftra.Raft.Term.{check_term}
use raftra.Raft.Timer.{Env, reset_election_timer, reset_heartbeat_timer}
use raftra.Raft.Vote.{handle_request_vote}
use raftra.Storage.{StorageBackend}

-- The second log is the first one with entries of the term after it.
abbrev pub Extends : ℕ → List LogEntry → List LogEntry → Type 0
Extends term log log' =
    (added : List LogEntry) × (log' ≡ log ++ added) × All (λ e. e.term ≡ term) added

-- A later term, or the same one; a node that is in office then has been, and its log is extended.
abbrev pub Tenure : {S : Type 0} → RaftNode S → RaftNode S → Type 0
Tenure rn rn' =
    (rn.persistent.current_term < rn'.persistent.current_term)
    ⊎ (rn'.persistent.current_term ≡ rn.persistent.current_term)
      × (rn'.role ≢ follower
          → (rn.role ≢ follower)
            × Extends rn.persistent.current_term rn.persistent.log rn'.persistent.log)

-- The log is left alone, and the role with it, if the node does not step down.
pub record Rests {S : Type 0} (rn rn' : RaftNode S) : Type 0 where
  pub role : (rn'.role ≡ rn.role) ⊎ (rn'.role ≡ follower)
  pub log : rn'.persistent.log ≡ rn.persistent.log

pub Extends-refl : (term : ℕ) (log : List LogEntry) → Extends term log log
Extends-refl term log = ([], sym (append-nil log), tt)

pub Extends-trans :
    (term : ℕ) (l l' l'' : List LogEntry)
    → Extends term l l'
    → Extends term l' l''
    → Extends term l l''
Extends-trans term l l' l'' (xs, e, h) (ys, e', h') = (
  xs ++ ys,
  e' ∙ ap (λ k. k ++ ys) e ∙ append_assoc l xs ys,
  All-append (λ e. e.term ≡ term) xs ys h h',
)

module _ {S : Type 0} where
  pub Rests-trans : {r s t : RaftNode S} → Rests r s → Rests s t → Rests r t
  Rests-trans {r} {s} {t} h k = record {
    role = ground (arith, h.role, k.role);
    log = k.log ∙ h.log;
  }

  pub Rests-kept : {r s : RaftNode S} → IsKept r s → Rests r s
  Rests-kept k = record { role = inl k.role; log = ap (λ p. p.log) k.persistent }

  pub Rests-Tenure :
      (rn rn' : RaftNode S) → Advances rn.persistent rn'.persistent → Rests rn rn' → Tenure rn rn'
  Rests-Tenure rn rn' (inl later) h = inl later
  Rests-Tenure rn rn' (inr (same, voted)) h = inr (
    sym same,
    λ office. (
      elim h.role [ inl kept ↦ λ e. office (kept ∙ e) | inr fell ↦ absurd (office fell) ],
      rw h.log (Extends-refl _ _),
    ),
  )

  pub Tenure-refl : (rn : RaftNode S) → Tenure rn rn
  Tenure-refl rn = inr (refl, λ office. (office, Extends-refl _ _))

  pub Tenure-trans : (r s t : RaftNode S) → Tenure r s → Tenure s t → Tenure r t
  Tenure-trans r s t (inl h) (inl k) = inl (omega (arith, h, k))
  Tenure-trans r s t (inl h) (inr (e, k)) = inl (omega (arith, h, e))
  Tenure-trans r s t (inr (e, h)) (inl k) = inl (omega (arith, e, k))
  Tenure-trans r s t (inr (e, h)) (inr (e', k)) = inr (
    e' ∙ e,
    λ office.
        let (held, grown') = k office in
        let (first, grown) = h held in (first, Extends-trans _ _ _ _ grown (rw (← e) grown')),
  )

  pub reset_election_timer-Rests :
      (env : Env) (rn : RaftNode S) → Rests rn (reset_election_timer env rn)
  unfolding reset_election_timer
  reset_election_timer-Rests env rn = ground arith

  pub reset_heartbeat_timer-Rests :
      (env : Env) (rn : RaftNode S) → Rests rn (reset_heartbeat_timer env rn)
  unfolding reset_heartbeat_timer
  reset_heartbeat_timer-Rests env rn = ground arith

  pub stop-Rests : (rn : RaftNode S) → Rests rn (stop rn)
  unfolding stop
  stop-Rests rn = ground arith

module _ {S : Type 0} ⦃b : StorageBackend S⦄ where
  pub check_term-Rests : (t : ℕ) (rn : RaftNode S) → Rests rn (check_term t rn).0
  unfolding check_term
  check_term-Rests t rn = ground arith

  pub handle_request_vote-Rests :
      (env : Env) (req : RequestVoteRequest) (rn : RaftNode S)
      → Rests rn (handle_request_vote env req rn).0
  unfolding handle_request_vote check_term reset_election_timer
  handle_request_vote-Rests env req rn = ground arith

  pub send-Rests :
      (peer : String) (rn : RaftNode S) → Rests rn (send_append_entries_to_peer_locked peer rn)
  send-Rests peer rn = Rests-kept (send-IsSent peer rn).kept

  pub broadcast-Rests : (rn : RaftNode S) → Rests rn (broadcast_append_entries_locked rn)
  broadcast-Rests rn = Rests-kept (broadcast-IsSent rn).kept

module _ {S : Type 0} ⦃b : StorageBackend S⦄ ⦃codec : Codec⦄ where
  pub check_and_update-Rests :
      (rn : RaftNode S) → Rests rn (check_and_update_commit_index_locked rn)
  check_and_update-Rests rn = Rests-kept (check_and_update-IsCommitted rn).kept
