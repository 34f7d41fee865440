-- ===== src/Storage/Bbolt/Update.antt =====
-- Transactions of internal/storage/bbolt_store.go: what the loops inside them do to the buckets.
use raftra.Common.{
  length-append, ◌+◌, ◌≤◌, ◌^◌, ◌≡◌, ◌≢◌, refl, sym, ap, ◌∙◌, inl, inr, none, some, List, [], ◌∷◌,
  ◌++◌, arith, ◌==◌, string_eq, nat_eq, if◌then◌else◌, length, Option-cases,
}
use mathlib.Core.Path.{subst}
use mathlib.Core.List.{append-nil, append_assoc}
use raftra.GoMap
use raftra.Kvstore.{Bytes}
use raftra.Proto.{LogEntry}
use raftra.Storage.{AreIndexedFrom, Err}
use raftra.Storage.Bbolt.{Bbolt, meta, log, Marshal, update, delete_all, put_all}
use raftra.Storage.Bbolt.Pairs.{Pairs, put_sorted, delete_keys, IsDocumented, IsFaithful}
use raftra.Storage.Bbolt.Keys.{uint64_to_bytes}
use raftra.Storage.Bbolt.Order.{bytes_eq}
use raftra.Storage.Bbolt.Rows.{AreRows, AreRows-append, put_sorted-end}

lookup-put_sorted :
    (k v j : Bytes) (ps : Pairs)
    → GoMap.lookup (put_sorted k v ps) j ≡ (if k == j then some v else GoMap.lookup ps j)
unfolding GoMap.lookup put_sorted
lookup-put_sorted k v j [] = refl
lookup-put_sorted k v j ((i, w) ∷ ps) = ground (
  arith,
  bytes_eq.equal_iff k j,
  bytes_eq.equal_iff i j,
  bytes_eq.equal_iff k i,
  lookup-put_sorted k v j ps,
)

pub lookup-put_same : (k v : Bytes) (ps : Pairs) → GoMap.lookup (put_sorted k v ps) k ≡ some v
lookup-put_same k v ps = ground (arith, lookup-put_sorted k v k ps, bytes_eq.equal_iff k k)

pub lookup-put_other :
    (k v j : Bytes) (ps : Pairs) → k ≢ j → GoMap.lookup (put_sorted k v ps) j ≡ GoMap.lookup ps j
lookup-put_other k v j ps ne = ground (arith, lookup-put_sorted k v j ps, bytes_eq.equal_iff k j)

meta-ne-log : meta ≢ log
meta-ne-log e = ground (arith, e)

module _ {D : Type 0} ⦃bbolt : Bbolt D⦄ (docs : IsDocumented bbolt) where
  -- A transaction that succeeds leaves what its function made.
  pub update-none :
      (fn : D → D × Err) (d : D)
      → (update fn d).1 ≡ none
      → ((fn d).1 ≡ none) × ((update fn d).0 ≡ (fn d).0)
  unfolding update
  update-none fn d h = ground (arith, docs.commit-none (fn d).0 d)

  -- A transaction that fails leaves the database as it was.
  pub update-failed : (fn : D → D × Err) (d : D) → (update fn d).1 ≢ none → (update fn d).0 ≡ d
  unfolding update
  update-failed fn d h = ground (arith, docs.commit-failed (fn d).0 d)

  delete_all-cons :
      (k v : Bytes) (ks : Pairs) (d : D)
      → (delete_all ((k, v) ∷ ks) d).1 ≡ none
      → ((bbolt.delete log k d).1 ≡ none)
        × (delete_all ((k, v) ∷ ks) d ≡ delete_all ks (bbolt.delete log k d).0)
  unfolding delete_all
  delete_all-cons k v ks d h = ground arith

  pub delete_all_lem :
      (ks : Pairs) (d : D)
      → (delete_all ks d).1 ≡ none
      → (docs.contents log (delete_all ks d).0 ≡ delete_keys (docs.contents log d) ks)
        × (docs.contents meta (delete_all ks d).0 ≡ docs.contents meta d)
  unfolding delete_all delete_keys
  delete_all_lem [] d h = (refl, refl)
  delete_all_lem ((k, v) ∷ ks) d h =
      let step = delete_all-cons k v ks d h in
      let next = (bbolt.delete log k d).0 in
      let rest = delete_all_lem ks next (sym (ap (λ r. r.1) step.1) ∙ h) in
      (
        ap (λ r. docs.contents log r.0) step.1
            ∙ rest.0
            ∙ ap (λ ps. delete_keys ps ks) (docs.delete_lem log k d step.0),
        ap (λ r. docs.contents meta r.0) step.1
            ∙ rest.1
            ∙ docs.delete-other log meta k d (λ e. meta-ne-log (sym e)),
      )

  module _ ⦃proto : Marshal⦄ where
    put_all-missing :
        (e : LogEntry) (es : List LogEntry) (d : D)
        → proto.marshal e ≡ none
        → (put_all (e ∷ es) d).1 ≢ none
    unfolding put_all
    put_all-missing e es d missing h = ground arith

    put_all-found :
        (e : LogEntry) (es : List LogEntry) (d : D) (v : Bytes)
        → proto.marshal e ≡ some v
        → (put_all (e ∷ es) d).1 ≡ none
        → ((bbolt.put log (uint64_to_bytes e.index) v d).1 ≡ none)
          × (put_all (e ∷ es) d ≡ put_all es (bbolt.put log (uint64_to_bytes e.index) v d).0)
    unfolding put_all
    put_all-found e es d v found h = ground arith

  module _ ⦃proto : Marshal⦄ (faithful : IsFaithful proto) where
    put_all-cons :
        (e : LogEntry) (es : List LogEntry) (d : D)
        → (put_all (e ∷ es) d).1 ≡ none
        → (v : Bytes) × (proto.marshal e ≡ some v)
          × ((bbolt.put log (uint64_to_bytes e.index) v d).1 ≡ none)
          × (put_all (e ∷ es) d ≡ put_all es (bbolt.put log (uint64_to_bytes e.index) v d).0)
    put_all-cons e es d h = elim (Option-cases (proto.marshal e)) [
      | inl missing ↦ absurd (put_all-missing e es d missing h)
      | inr found ↦
          let step = put_all-found e es d found.0 found.1 h in (found.0, found.1, step.0, step.1)
    ]

    pub put_all_lem :
        (es log' : List LogEntry) (d : D)
        → (put_all es d).1 ≡ none
        → AreIndexedFrom (length log') es
        → length log' + length es ≤ 2 ^ 64
        → AreRows 0 log' (docs.contents log d)
        → AreRows 0 (log' ++ es) (docs.contents log (put_all es d).0)
          × (docs.contents meta (put_all es d).0 ≡ docs.contents meta d)
    unfolding put_all
    put_all_lem [] log' d h ix small rows =
        (subst (λ l. AreRows 0 l (docs.contents log d)) (sym (append-nil log')) rows, refl)
    put_all_lem (e ∷ es) log' d h ix small rows =
        let step = put_all-cons e es d h in
        let v = step.0 in
        let next = (bbolt.put log (uint64_to_bytes e.index) v d).0 in
        let end : e.index ≡ 0 + length log' = ix.0 ∙ omega arith in
        let at_end : docs.contents log next
            ≡ docs.contents log d ++ (uint64_to_bytes (0 + length log'), v) ∷ [] =
          docs.put_lem log (uint64_to_bytes e.index) v d step.2
          ∙ ap (λ i. put_sorted (uint64_to_bytes i) v (docs.contents log d)) end
          ∙ put_sorted-end 0 log' (docs.contents log d) v rows (omega (arith, small)) in
        let rows' : AreRows 0 (log' ++ e ∷ []) (docs.contents log next) =
          subst (AreRows 0 (log' ++ e ∷ [])) (sym at_end) (
            AreRows-append 0 log' (docs.contents log d) e v rows
              (faithful.unmarshal-marshal e step.1)) in
        let len = length-append log' (e ∷ []) in
        let ix' : AreIndexedFrom (length (log' ++ e ∷ [])) es =
          subst (λ n. AreIndexedFrom n es) (omega (arith, len)) ix.1 in
        let rest =
          put_all_lem es (log' ++ e ∷ []) next (sym (ap (λ r. r.1) step.3) ∙ h) ix'
            (omega (arith, len, small)) rows' in
        (
          subst (λ l. AreRows 0 l (docs.contents log (put_all (e ∷ es) d).0))
              (append_assoc log' (e ∷ []) es)
              (subst (λ r. AreRows 0 ((log' ++ e ∷ []) ++ es) (docs.contents log r.0)) (sym step.3)
                rest.0),
          ap (λ r. docs.contents meta r.0) step.3
              ∙ rest.1
              ∙ docs.put-other log meta (uint64_to_bytes e.index) v d (λ c. meta-ne-log (sym c)),
        )
