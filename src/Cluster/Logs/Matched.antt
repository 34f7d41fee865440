-- ===== src/Cluster/Logs/Matched.antt =====
-- Two logs whose entries leaders have written, and what a node adds to its own (internal/raft).
use raftra.Common.{
  length-take, lt-length_of_some, ℕ, suc, ◌≤◌, String, ◌≡◌, refl, sym, ap, ◌∙◌, inl, inr, false,
  some, List, [], ◌∷◌, arith, string_eq, nat_eq, length, take, get_elem?,
}
use mathlib.Core.List.{append-nil}
use raftra.Cluster.Counted.{IsStart}
use raftra.Cluster.Logs.{Leads, Wrote, IsFaithful, IsSpacious}
use raftra.Cluster.Logs.Recorded.{Serves}
use raftra.Cluster.Logs.Traced.{
  IsTraced, IsTraced-later, IsTraced-take, IsTraced-append, IsTraced-merge_log, take-append_left,
  take_one,
}
use raftra.Cluster.Logs.Written.{Wrote-unique, Wrote-comparable}
use raftra.Cluster.{contains, Cluster, Move, Run, next}
use raftra.Kvstore.{Codec}
use raftra.Proto.{LogEntry, AppendEntriesRequest}
use raftra.Raft.Append.Agreement.{LogMatching}
use raftra.Raft.Append.Records.{IsServed}
use raftra.Raft.Append.Spec.{merge_log}
use raftra.Raft.Durable.{IsWritable}
use raftra.Raft.Node.{RaftNode, leader, role_eq}
use raftra.Raft.Records.{Records, IsRecorded}
use raftra.Storage.{StorageBackend, IsLawful, sentinel}

module _ {S : Type 0} ⦃b : StorageBackend S⦄ ⦃codec : Codec⦄ (law : IsLawful b) (ok : IsWritable b)
    (members : List String) (named : contains members "" ≡ false) where
  -- A cluster at its start, with logs that hold the sentinel only, in memory and on storage.
  pub record IsFresh (cl : Cluster S) : Type 0 where
    pub is_start : IsStart law ok members cl
    pub stored : (m : String) → law.log (cl.node m).storage ≡ sentinel ∷ []
    pub in_memory : (m : String) → (cl.node m).persistent.log ≡ sentinel ∷ []

  pub fresh-IsRecorded : (cl : Cluster S) → IsFresh cl → (m : String) → IsRecorded law (cl.node m)
  fresh-IsRecorded cl h m =
      (h.in_memory m ∙ sym (h.stored m), rw (h.stored m) (omega arith, (refl, tt)))

  -- Two traced logs match: one leader has written both prefixes.
  pub matched :
      {first cl : Cluster S} (r : Run members first cl) (xs ys : List LogEntry)
      → IsFresh first
      → IsFaithful law r
      → IsSpacious law r
      → IsTraced law r xs
      → IsTraced law r ys
      → LogMatching xs ys
  matched {first} r xs ys fresh f space h h' k x y hx hy t = elim (h.1 k x hx) [
    | inl zeroth ↦ zero_agree zeroth
    | inr (m, l, wrote, same) ↦ elim (h'.1 k y hy) [
      | inl zeroth ↦ zero_agree zeroth
      | inr (m', l', wrote', same') ↦
          let one =
            Wrote-unique law ok members named r x.term m m' l l' fresh.is_start wrote
              (rw (← t) at wrote') in
          same
          ∙ written m x.term l l' wrote (rw one (rw (← t) at wrote')) (long xs l x same hx)
              (long ys l' y same' hy)
          ∙ sym same'
    ]
  ]
    where
      zero_agree : k ≡ 0 → take (suc k) xs ≡ take (suc k) ys
      zero_agree e = rw e (take_one xs sentinel h.0 ∙ sym (take_one ys sentinel h'.0))

      long :
          (zs l : List LogEntry) (z : LogEntry)
          → take (suc k) zs ≡ take (suc k) l
          → get_elem? zs k ≡ some z
          → suc k ≤ length l
      long zs l z same there = ground (
        arith,
        lt-length_of_some zs k z there,
        ap length same,
        length-take (suc k) zs,
        length-take (suc k) l,
      )

      written :
          (m : String) (term : ℕ) (l l' : List LogEntry)
          → Wrote law r m term l
          → Wrote law r m term l'
          → suc k ≤ length l
          → suc k ≤ length l'
          → take (suc k) l ≡ take (suc k) l'
      written m term l l' w w' fits fits' =
          elim (Wrote-comparable law ok members named r m term l l' fresh.is_start
            (fresh-IsRecorded first fresh) f space w w') [
              | inl (rest, e) ↦ rw e (sym (take-append_left (suc k) l rest fits))
              | inr (rest, e) ↦ rw e (take-append_left (suc k) l' rest fits')
            ]

  pub record AllTraced {first cl : Cluster S} (r : Run members first cl) : Type 0 where
    pub logs : (m : String) → IsTraced law r (law.log (cl.node m).storage)
    pub written : (m : String) (t : ℕ) (l : List LogEntry) → Wrote law r m t l → IsTraced law r l

  -- The node's log after entries of its own, or of a leader's request.
  pub recorded-IsTraced :
      {first cl cl' : Cluster S} (r : Run members first cl) (mv : Move members cl cl') (i : String)
      (rn rn' : RaftNode S)
      → IsTraced law r (law.log rn.storage)
      → (rn'.role ≡ leader → Leads law cl' i rn'.persistent.current_term (law.log rn'.storage))
      → Records law rn rn'
      → IsTraced law (next r mv) (law.log rn'.storage)
  recorded-IsTraced r mv i rn rn' h now (added, ix, disk, memory, own) =
      let old = IsTraced-later law r mv (law.log rn.storage) h in
      elim own [
        | inl nothing ↦ rw disk (rw nothing (rw append-nil old))
        | inr (led, terms) ↦ rw disk (
            IsTraced-append law (next r mv) i rn'.persistent.current_term (law.log rn.storage) added
              old (inr (rw disk at (now led))) terms)
      ]

  -- The node's log after it serves a request.
  pub served-IsTraced :
      {first cl : Cluster S} (r : Run members first cl) (i : String) (xs xs' : List LogEntry)
      (req : AppendEntriesRequest)
      → IsFresh first
      → IsFaithful law r
      → IsSpacious law r
      → AllTraced r
      → IsTraced law r xs
      → Serves law r i req
      → IsServed req xs xs'
      → IsTraced law r xs'
  served-IsTraced r i xs xs' req fresh f space all h served (inl (n, pos, cut)) =
      rw cut (IsTraced-take law r n xs pos h)
  served-IsTraced r i xs xs' req fresh f space all h (sent, (m, l, other, wrote, numbered, slices))
        (inr (previous, merged)) =
      elim slices [
        | inl empty ↦ rw merged (rw empty (unfold merge_log in h))
        | inr slice ↦
            let written = all.written m req.term l wrote in
            rw merged (
              IsTraced-merge_log law r req xs l h written (matched r xs l fresh f space h written)
                slice previous)
      ]
