-- ===== src/Storage/Bbolt/Open.antt =====
-- `NewBboltStoreWithOptions` of internal/storage/bbolt_store.go, once the database is open.
use raftra.Common.{
  ◌<◌, ◌≡◌, refl, sym, ap, ◌∙◌, inl, inr, none, some, List, [], ◌∷◌, arith, string_eq, nat_eq,
  length, Option-cases,
}
use mathlib.Core.Path.{subst}
use raftra.GoMap
use raftra.Kvstore.{Bytes}
use raftra.Proto.{LogEntry}
use raftra.Storage.{sentinel}
use raftra.Storage.Bbolt.{
  Bbolt, meta, log, Marshal, key_term, key_voted_for, put_sentinel, new_bbolt_store, load_term,
  load_voted_for,
}
use raftra.Storage.Bbolt.Keys.{uint64_to_bytes}
use raftra.Storage.Bbolt.Order.{bytes_eq}
use raftra.Storage.Bbolt.Pairs.{Pairs, put_sorted, IsDocumented, IsFaithful}
use raftra.Storage.Bbolt.Refines.{Represents}
use raftra.Storage.Bbolt.Rows.{AreRows}
use raftra.Storage.Bbolt.Update.{update-none}
use raftra.Storage.Memory.{MemoryStore, new_memory_store}

module _ {D : Type 0} ⦃bbolt : Bbolt D⦄ ⦃proto : Marshal⦄ (docs : IsDocumented bbolt)
    (faithful : IsFaithful proto) where
  put_sentinel-present :
      (d : D) (v : Bytes)
      → bbolt.get log (uint64_to_bytes 0) d ≡ some v
      → put_sentinel d ≡ (d, none)
  unfolding put_sentinel
  put_sentinel-present d v e = rw (e, put_sentinel)

  first-row :
      (es : List LogEntry) (ps : Pairs)
      → AreRows 0 es ps
      → 0 < length es
      → (v : Bytes) × (GoMap.lookup ps (uint64_to_bytes 0) ≡ some v)
  first-row [] ps h pos = absurd (omega (arith, pos))
  first-row (e ∷ es) [] h pos = absurd h
  first-row (e ∷ es) ((k, v) ∷ ps) h pos = (v, GoMap.lookup-here ps k (uint64_to_bytes 0) v h.0)

  -- A database that represents a store with a log is represented alike after it is opened again:
  -- the term, the vote and every entry are recovered.
  pub reopen-Represents :
      (d : D) (m : MemoryStore)
      → Represents docs faithful d m
      → 0 < length m.entries
      → (new_bbolt_store d).1 ≡ none
      → Represents docs faithful (new_bbolt_store d).0 m
  unfolding new_bbolt_store
  reopen-Represents d m r pos h =
      let done = update-none docs put_sentinel d h in
      let first = first-row m.entries (docs.contents log d) r.rows pos in
      let kept =
        put_sentinel-present d first.0 (docs.get_lem log (uint64_to_bytes 0) d ∙ first.1) in
      subst (λ c. Represents docs faithful c m) (sym (done.1 ∙ ap (λ x. x.0) kept)) r

  put_sentinel-missing :
      (d : D)
      → bbolt.get log (uint64_to_bytes 0) d ≡ none
      → (put_sentinel d).1 ≡ none
      → (v : Bytes) × (proto.marshal sentinel ≡ some v)
        × (put_sentinel d ≡ bbolt.put log (uint64_to_bytes 0) v d)
  unfolding put_sentinel
  put_sentinel-missing d missing h = elim (Option-cases (proto.marshal sentinel)) [
    | inl bad ↦ absurd (ground (arith, bad, missing, h))
    | inr good ↦ (good.0, good.1, rw (missing, put_sentinel) (rw (good.1)))
  ]

  load-empty :
      (d : D) → docs.contents meta d ≡ [] → ((load_term d).0 ≡ 0) × ((load_voted_for d).0 ≡ "")
  unfolding load_term load_voted_for GoMap.lookup
  load-empty d e =
      let t : bbolt.get meta key_term d ≡ none =
        docs.get_lem meta key_term d ∙ ap (λ ps. GoMap.lookup ps key_term) e in
      let v : bbolt.get meta key_voted_for d ≡ none =
        docs.get_lem meta key_voted_for d ∙ ap (λ ps. GoMap.lookup ps key_voted_for) e in
      (rw (t, load_term), rw (v, load_voted_for))

  -- An empty database, once opened, represents a new in-memory store, with its sentinel.
  pub open-Represents :
      (d : D)
      → docs.contents meta d ≡ []
      → docs.contents log d ≡ []
      → (new_bbolt_store d).1 ≡ none
      → Represents docs faithful (new_bbolt_store d).0 new_memory_store
  unfolding new_bbolt_store GoMap.lookup put_sorted
  open-Represents d m l h =
      let done = update-none docs put_sentinel d h in
      let missing : bbolt.get log (uint64_to_bytes 0) d ≡ none =
        docs.get_lem log (uint64_to_bytes 0) d ∙ ap (λ ps. GoMap.lookup ps (uint64_to_bytes 0)) l in
      let written = put_sentinel-missing d missing done.0 in
      let made = done.1 ∙ ap (λ x. x.0) written.2 in
      let ok = sym (ap (λ x. x.1) written.2) ∙ done.0 in
      let rows : docs.contents log (new_bbolt_store d).0 ≡ (uint64_to_bytes 0, written.0) ∷ [] =
        ap (docs.contents log) made
        ∙ docs.put_lem log (uint64_to_bytes 0) written.0 d ok
        ∙ ap (put_sorted (uint64_to_bytes 0) written.0) l in
      let loads = load-empty (new_bbolt_store d).0 (
        ap (docs.contents meta) made
        ∙ docs.put-other log meta (uint64_to_bytes 0) written.0 d (λ e. ground (arith, e))
        ∙ m) in
      record {
        term = loads.0;
        voted_for = loads.1;
        rows =
            subst (AreRows 0 (sentinel ∷ [])) (sym rows)
              (refl, faithful.unmarshal-marshal sentinel written.1, tt);
        small = omega arith;
      }
