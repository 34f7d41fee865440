-- ===== src/Storage/Bbolt/Refines.antt =====
-- The bbolt store (internal/storage/bbolt_store.go) behaves as the in-memory store: what a database
-- represents moves with every write, and every read answers what the in-memory store answers.
use raftra.Common.{
  length-append, length-append, length-take, ℕ, ◌+◌, ◌<◌, ◌^◌, ◌≡◌, refl, sym, ap, ◌∙◌, none, List,
  [], ◌∷◌, ◌++◌, arith, string_eq, nat_eq, length, take, drop,
}
use mathlib.Core.Path.{subst}
use mathlib.Core.List.{append-nil}
use raftra.GoMap
use raftra.Proto.{LogEntry}
use raftra.Storage.{AreIndexedFrom}
use raftra.Storage.Bbolt.{
  Bbolt, meta, log, Marshal, key_term, key_voted_for, delete_all, put_all, load_term,
  load_voted_for, append_entries, truncate_from,
}
use raftra.Storage.Bbolt.Pairs.{delete_keys, seek, IsDocumented, IsFaithful}
use raftra.Storage.Bbolt.Keys.{uint64_to_bytes}
use raftra.Storage.Bbolt.Order.{bytes_eq}
use raftra.Storage.Bbolt.Rows.Deletion.{delete_keys-drop}
use raftra.Storage.Bbolt.Rows.{AreRows, AreRows-take, seek_lem}
use raftra.Storage.Bbolt.Update.{update-none, delete_all_lem, put_all_lem}
use raftra.Storage.Memory
use raftra.Storage.Memory.{MemoryStore}
use raftra.Storage.Memory.Laws

module _ {D : Type 0} ⦃bbolt : Bbolt D⦄ ⦃proto : Marshal⦄ (docs : IsDocumented bbolt)
    (faithful : IsFaithful proto) where
  -- The database holds the state of the in-memory store: its term, its vote, and a row for each entry
  -- of its log, at the key of the entry's place.
  pub record Represents (d : D) (m : MemoryStore) : Type 0 where
    pub term : (load_term d).0 ≡ m.term
    pub voted_for : (load_voted_for d).0 ≡ m.voted_for
    pub rows : AreRows 0 m.entries (docs.contents log d)
    pub small : length m.entries < 2 ^ 64

  load_term-contents :
      (c d : D) → docs.contents meta c ≡ docs.contents meta d → (load_term c).0 ≡ (load_term d).0
  unfolding load_term
  load_term-contents c d e =
      let same : bbolt.get meta key_term c ≡ bbolt.get meta key_term d =
        docs.get_lem meta key_term c
        ∙ ap (λ ps. GoMap.lookup ps key_term) e
        ∙ sym (docs.get_lem meta key_term d) in
      rw (same, load_term)

  load_voted_for-contents :
      (c d : D)
      → docs.contents meta c ≡ docs.contents meta d
      → (load_voted_for c).0 ≡ (load_voted_for d).0
  unfolding load_voted_for
  load_voted_for-contents c d e =
      let same : bbolt.get meta key_voted_for c ≡ bbolt.get meta key_voted_for d =
        docs.get_lem meta key_voted_for c
        ∙ ap (λ ps. GoMap.lookup ps key_voted_for) e
        ∙ sym (docs.get_lem meta key_voted_for d) in
      rw (same, load_voted_for)

  -- A write of the log.
  Represents-log :
      (d c : D) (m n : MemoryStore)
      → Represents d m
      → docs.contents meta c ≡ docs.contents meta d
      → n.term ≡ m.term
      → n.voted_for ≡ m.voted_for
      → AreRows 0 n.entries (docs.contents log c)
      → length n.entries < 2 ^ 64
      → Represents c n
  Represents-log d c m n r e t v rows small = record {
    term = load_term-contents c d e ∙ r.term ∙ sym t;
    voted_for = load_voted_for-contents c d e ∙ r.voted_for ∙ sym v;
    rows = rows;
    small = small;
  }

  -- A write of the metadata, which leaves the rows.
  pub Represents-meta :
      (d c : D) (m n : MemoryStore)
      → Represents d m
      → docs.contents log c ≡ docs.contents log d
      → n.entries ≡ m.entries
      → (load_term c).0 ≡ n.term
      → (load_voted_for c).0 ≡ n.voted_for
      → Represents c n
  Represents-meta d c m n r e same t v = record {
    term = t;
    voted_for = v;
    rows =
        subst (λ es. AreRows 0 es (docs.contents log c)) (sym same)
          (subst (AreRows 0 m.entries) (sym e) r.rows);
    small = subst (λ es. length es < 2 ^ 64) (sym same) r.small;
  }

  pub append_entries-Represents :
      (d : D) (m : MemoryStore) (es : List LogEntry)
      → Represents d m
      → AreIndexedFrom (length m.entries) es
      → length m.entries + length es < 2 ^ 64
      → (append_entries es d).1 ≡ none
      → Represents (append_entries es d).0 (Memory.append_entries es m).0
  unfolding append_entries Memory.append_entries
  append_entries-Represents d m [] r ix small h =
      subst (λ es. Represents d (record m { entries = es })) (sym (append-nil m.entries)) r
  append_entries-Represents d m (e ∷ es) r ix small h =
      let done = update-none docs (put_all (e ∷ es)) d h in
      let puts =
        put_all_lem docs faithful (e ∷ es) m.entries d done.0 ix (omega (arith, small)) r.rows in
      Represents-log d _ m (record m { entries = m.entries ++ e ∷ es }) r
        (ap (docs.contents meta) done.1 ∙ puts.1) refl refl
        (subst (λ c. AreRows 0 (m.entries ++ e ∷ es) (docs.contents log c)) (sym done.1) puts.0)
        (omega (arith, length-append m.entries (e ∷ es), small))

  -- The pairs that Seek finds are those of the entries from the index on.
  pub from_seek-rows :
      (d : D) (m : MemoryStore) (i : ℕ)
      → Represents d m
      → i < 2 ^ 64
      → bbolt.from_seek log (uint64_to_bytes i) d ≡ drop i (docs.contents log d)
  from_seek-rows d m i r hi =
      let start : i ≡ 0 + i = omega arith in
      docs.from_seek_lem log (uint64_to_bytes i) d
      ∙ ap (λ j. seek (uint64_to_bytes j) (docs.contents log d)) start
      ∙ seek_lem 0 m.entries (docs.contents log d) i r.rows (omega (arith, hi))
          (omega (arith, r.small))

  pub truncate_from-Represents :
      (d : D) (m : MemoryStore) (i : ℕ)
      → Represents d m
      → i < 2 ^ 64
      → (truncate_from i d).1 ≡ none
      → Represents (truncate_from i d).0 (Memory.truncate_from i m).0
  unfolding truncate_from
  truncate_from-Represents d m i r hi h =
      let done =
        update-none docs (λ tx. delete_all (bbolt.from_seek log (uint64_to_bytes i) tx) tx) d h in
      let ks = bbolt.from_seek log (uint64_to_bytes i) d in
      let gone = delete_all_lem docs ks d done.0 in
      let frame = Laws.truncate_from-frame m i in
      let entries = Laws.truncate_from_lem m i in
      let left : docs.contents log (truncate_from i d).0 ≡ take i (docs.contents log d) =
        ap (docs.contents log) done.1
        ∙ gone.0
        ∙ ap (delete_keys (docs.contents log d)) (from_seek-rows d m i r hi)
        ∙ delete_keys-drop 0 m.entries (docs.contents log d) i r.rows (omega (arith, r.small)) in
      Represents-log d _ m (Memory.truncate_from i m).0 r (ap (docs.contents meta) done.1 ∙ gone.1)
        frame.0 frame.1
        (subst (λ es. AreRows 0 es (docs.contents log (truncate_from i d).0)) (sym entries)
          (subst (AreRows 0 (take i m.entries)) (sym left)
            (AreRows-take 0 m.entries (docs.contents log d) i r.rows)))
        (subst (λ es. length es < 2 ^ 64) (sym entries)
          (omega (arith, length-take i m.entries, r.small)))
