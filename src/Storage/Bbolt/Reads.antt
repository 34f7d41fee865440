-- ===== src/Storage/Bbolt/Reads.antt =====
-- The reads of the bbolt store (internal/storage/bbolt_store.go) against those of the in-memory one.
use raftra.Common.{
  drop_all, ℕ, suc, ◌+◌, ◌-◌, ◌<◌, ◌^◌, String, ◌≡◌, refl, sym, ap, ◌∙◌, none, some, List, [], ◌∷◌,
  arith, string_eq, nat_eq, u64, length, drop, last_or,
}
use raftra.GoMap
use raftra.Kvstore.{Bytes}
use raftra.Proto.{LogEntry}
use raftra.Storage.{checked, sentinel}
use raftra.Storage.Bbolt.{
  Bbolt, log, Marshal, load_term, load_voted_for, get_entry, get_entries_from, last_index,
  last_term, load_all_entries, unmarshal_all,
}
use raftra.Storage.Bbolt.Pairs.{Pairs, last_pair, IsDocumented, IsFaithful}
use raftra.Storage.Bbolt.Keys.{uint64_to_bytes, bytes_to_uint64, bytes_to_uint64-uint64_to_bytes}
use raftra.Storage.Bbolt.Order.{bytes_eq}
use raftra.Storage.Bbolt.Refines.{Represents, from_seek-rows}
use raftra.Storage.Bbolt.Rows.{
  AreRows, AreRows-drop, read, read-lookup, unmarshal_all-rows, last-rows,
}
use raftra.Storage.Memory
use raftra.Storage.Memory.{MemoryStore}
use raftra.Storage.Memory.Laws

-- The two stores answer alike: `i` is an index that a uint64 holds.
pub record IsAlike {D : Type 0} ⦃bbolt : Bbolt D⦄ ⦃proto : Marshal⦄ (d : D) (m : MemoryStore)
    (i : ℕ) : Type 0 where
  pub same_load_term : load_term d ≡ Memory.load_term m
  pub same_load_voted_for : load_voted_for d ≡ Memory.load_voted_for m
  pub same_get_entry : checked (get_entry i d) ≡ checked (Memory.get_entry i m)
  pub same_get_entries_from : get_entries_from i d ≡ Memory.get_entries_from i m
  pub same_load_all_entries : load_all_entries d ≡ Memory.load_all_entries m
  pub same_last_index : 0 < length m.entries → last_index d ≡ Memory.last_index m
  pub same_last_term : 0 < length m.entries → last_term d ≡ Memory.last_term m

wrapped : (n : ℕ) → 0 < n → n < 2 ^ 64 → n - 1 ≡ u64 (n + (2 ^ 64 - 1))
unfolding u64
wrapped n pos small = omega arith

module _ {D : Type 0} ⦃bbolt : Bbolt D⦄ ⦃proto : Marshal⦄ (docs : IsDocumented bbolt)
    (faithful : IsFaithful proto) where
  load_term-none : (d : D) → (load_term d).1 ≡ none
  unfolding load_term
  load_term-none d = ground arith

  load_voted_for-none : (d : D) → (load_voted_for d).1 ≡ none
  unfolding load_voted_for
  load_voted_for-none d = ground arith

  checked-get_entry :
      (d : D) (i : ℕ) → checked (get_entry i d) ≡ read (bbolt.get log (uint64_to_bytes i) d)
  unfolding get_entry
  checked-get_entry d i = ground arith

  get_entry-alike :
      (d : D) (m : MemoryStore) (i : ℕ)
      → Represents docs faithful d m
      → i < 2 ^ 64
      → checked (get_entry i d) ≡ checked (Memory.get_entry i m)
  get_entry-alike d m i r hi =
      let start : i ≡ 0 + i = omega arith in
      checked-get_entry d i
      ∙ ap read (docs.get_lem log (uint64_to_bytes i) d)
      ∙ ap (λ j. read (GoMap.lookup (docs.contents log d) (uint64_to_bytes j))) start
      ∙ read-lookup 0 m.entries (docs.contents log d) i r.rows (omega (arith, hi))
      ∙ sym (Laws.get_entry_lem m i)

  memory-get_entries_from :
      (m : MemoryStore) (i : ℕ) → Memory.get_entries_from i m ≡ (drop i m.entries, none)
  unfolding Memory.get_entries_from
  memory-get_entries_from m i = ground (arith, drop_all i m.entries)

  get_entries_from-alike :
      (d : D) (m : MemoryStore) (i : ℕ)
      → Represents docs faithful d m
      → i < 2 ^ 64
      → get_entries_from i d ≡ Memory.get_entries_from i m
  unfolding get_entries_from
  get_entries_from-alike d m i r hi =
      ap unmarshal_all (from_seek-rows docs faithful d m i r hi)
      ∙ unmarshal_all-rows (0 + i) (drop i m.entries) (drop i (docs.contents log d))
          (AreRows-drop 0 m.entries (docs.contents log d) i r.rows)
      ∙ sym (memory-get_entries_from m i)

  load_all_entries-alike :
      (d : D) (m : MemoryStore)
      → Represents docs faithful d m
      → load_all_entries d ≡ Memory.load_all_entries m
  unfolding load_all_entries Memory.load_all_entries
  load_all_entries-alike d m r =
      ap unmarshal_all (docs.from_first_lem log d)
      ∙ unmarshal_all-rows 0 m.entries (docs.contents log d) r.rows

  -- The last pair of the bucket, for a log that is not empty.
  last-contents :
      (es : List LogEntry) (ps : Pairs)
      → AreRows 0 es ps
      → 0 < length es
      → (p : Bytes × Bytes) × (last_pair ps ≡ some p)
        × (p.0 ≡ uint64_to_bytes (length es - 1))
        × (proto.unmarshal p.1 ≡ some (last_or sentinel es))
  unfolding last_pair
  last-contents [] ps h pos = absurd (omega (arith, pos))
  last-contents (e ∷ es) [] h pos = absurd h
  last-contents (e ∷ es) (p ∷ ps) h pos =
      let found = last-rows 0 e es p ps h in
      let index : 0 + length es ≡ suc (length es) - 1 = omega arith in
      (last_or p ps, refl, found.0 ∙ ap uint64_to_bytes index, found.1)

  last_index-some :
      (d : D) (p : Bytes × Bytes)
      → bbolt.last log d ≡ some p
      → last_index d ≡ (bytes_to_uint64 p.0, none)
  unfolding last_index
  last_index-some d p e = rw (e, last_index)

  last_term-some :
      (d : D) (p : Bytes × Bytes) (entry : LogEntry)
      → bbolt.last log d ≡ some p
      → proto.unmarshal p.1 ≡ some entry
      → last_term d ≡ (entry.term, none)
  unfolding last_term
  last_term-some d p entry e u = rw (e, last_term) (rw (u))

  memory-last_term :
      (es : List LogEntry) (t : ℕ) (v : String)
      → Memory.last_term (record { term = t; voted_for = v; entries = es })
        ≡ ((last_or sentinel es).term, none)
  unfolding Memory.last_term
  memory-last_term [] t v = refl
  memory-last_term (e ∷ es) t v = refl

  last_index-alike :
      (d : D) (m : MemoryStore)
      → Represents docs faithful d m
      → 0 < length m.entries
      → last_index d ≡ Memory.last_index m
  unfolding Memory.last_index
  last_index-alike d m r pos =
      let found = last-contents m.entries (docs.contents log d) r.rows pos in
      let wraps : length m.entries - 1 ≡ u64 (length m.entries + (2 ^ 64 - 1)) =
        wrapped (length m.entries) pos r.small in
      last_index-some d found.0 (docs.last_lem log d ∙ found.1)
      ∙ ap (λ (n : ℕ). (n, none))
          (ap bytes_to_uint64 found.2
            ∙ bytes_to_uint64-uint64_to_bytes (length m.entries - 1) (omega (arith, r.small))
            ∙ wraps)

  last_term-alike :
      (d : D) (m : MemoryStore)
      → Represents docs faithful d m
      → 0 < length m.entries
      → last_term d ≡ Memory.last_term m
  last_term-alike d m r pos =
      let found = last-contents m.entries (docs.contents log d) r.rows pos in
      last_term-some d found.0 _ (docs.last_lem log d ∙ found.1) found.3
      ∙ sym (memory-last_term m.entries m.term m.voted_for)

  -- A database that represents a store answers every read as the store does; the last index and term
  -- where the log is not empty, as it never is after the sentinel is put.
  pub reads-IsAlike :
      (d : D) (m : MemoryStore) (i : ℕ) → Represents docs faithful d m → i < 2 ^ 64 → IsAlike d m i
  unfolding Memory.load_term Memory.load_voted_for
  reads-IsAlike d m i r hi = record {
    same_load_term = cc (r.term, load_term-none d);
    same_load_voted_for = cc (r.voted_for, load_voted_for-none d);
    same_get_entry = get_entry-alike d m i r hi;
    same_get_entries_from = get_entries_from-alike d m i r hi;
    same_load_all_entries = load_all_entries-alike d m r;
    same_last_index = last_index-alike d m r;
    same_last_term = last_term-alike d m r;
  }
