-- ===== src/Cluster/Votes.antt =====
-- The votes that were cast in the past of a cluster (internal/raft/election.go): a member has one vote
-- in a term, whatever happens in between.
use raftra.Common.{ℕ, ◌<◌, String, ◌≡◌, ◌≢◌, ◌⊎◌, inl, inr, List, arith, string_eq, nat_eq}
use raftra.Cluster.Setup.{AllMembers, Move-Advances, Run-AllMembers}
use raftra.Cluster.{Cluster, Run, here, next}
use raftra.Kvstore.{Codec}
use raftra.Raft.Durable.{IsWritable}
use raftra.Storage.{StorageBackend, IsLawful}

module _ {S : Type 0} ⦃b : StorageBackend S⦄ ⦃codec : Codec⦄ where
  -- The node's vote in its term.
  abbrev pub Holds : Cluster S → String → ℕ → String → Type 0
  Holds cl v t c =
      ((cl.node v).persistent.current_term ≡ t) × ((cl.node v).persistent.voted_for ≡ c)

  -- At some point of the run the node's term was `t` and its vote was for `c`.
  abbrev pub Voted :
      {members : List String} {first cl : Cluster S}
      → Run members first cl
      → String
      → ℕ
      → String
      → Type 0
  Voted {cl} here v t c = Holds cl v t c
  Voted {cl} (next r mv) v t c = Voted r v t c ⊎ Holds cl v t c

  pub Holds-Voted :
      {members : List String} {first cl : Cluster S} (r : Run members first cl) {v : String} {t : ℕ}
      {c : String}
      → Holds cl v t c
      → Voted r v t c
  Holds-Voted here h = h
  Holds-Voted (next r mv) h = inr h

module _ {S : Type 0} ⦃b : StorageBackend S⦄ ⦃codec : Codec⦄ (law : IsLawful b) (ok : IsWritable b)
    (members : List String) where
  -- A vote that was cast in the node's term still stands.
  Voted-stands :
      {first cl : Cluster S} (r : Run members first cl) (v : String) (t : ℕ) (c : String)
      → AllMembers law ok members first
      → c ≢ ""
      → Voted r v t c
      → (t < (cl.node v).persistent.current_term) ⊎ Holds cl v t c
  Voted-stands here v t c all named h = inr h
  Voted-stands (next r mv) v t c all named (inr h) = inr h
  Voted-stands (next r mv) v t c all named (inl h) =
      let past = Voted-stands r v t c all named h in
      let moved = Move-Advances law ok members mv (Run-AllMembers law ok members r all) v in
      ground (arith, past, moved)

  pub Voted-unique :
      {first cl : Cluster S} (r : Run members first cl) (v : String) (t : ℕ) (c d : String)
      → AllMembers law ok members first
      → c ≢ ""
      → d ≢ ""
      → Voted r v t c
      → Voted r v t d
      → c ≡ d
  Voted-unique here v t c d all hc hd h k = ground arith
  Voted-unique (next r mv) v t c d all hc hd (inl h) (inl k) = Voted-unique r v t c d all hc hd h k
  Voted-unique (next r mv) v t c d all hc hd (inr h) (inr k) = ground arith
  Voted-unique (next r mv) v t c d all hc hd (inl h) (inr k) =
      ground (arith, Voted-stands (next r mv) v t c all hc (inl h))
  Voted-unique (next r mv) v t c d all hc hd (inr h) (inl k) =
      ground (arith, Voted-stands (next r mv) v t d all hd (inl k))
