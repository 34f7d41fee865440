-- ===== src/Storage/Memory/Laws.antt =====
-- The in-memory store (internal/storage/memory_store.go) is a lawful backend.
use raftra.Common.{
  ◌++◌, ℕ, String, ap, ◌+◌, ◌<◌, ◌^◌, ◌≡◌, ◌≢◌, refl, none, List, [], ◌∷◌, length, get_elem?, take,
  drop, last_or, arith, take_all, drop_all, get_elem?-none, u64,
}
use raftra.Proto.{LogEntry}
use raftra.Storage.{IsLawful, checked, sentinel}
use raftra.Storage.Memory.{
  MemoryStore, memory_backend, save_term, load_term, save_voted_for, load_voted_for, append_entries,
  get_entry, get_entries_from, truncate_from, last_index, last_term, load_all_entries,
}

module _ (m : MemoryStore) where
  pub get_entry_lem : (i : ℕ) → checked (get_entry i m) ≡ get_elem? m.entries i
  unfolding get_entry
  get_entry_lem i = ground (arith, get_elem?-none m.entries i)

  pub get_entries_from_lem : (i : ℕ) → (get_entries_from i m).0 ≡ drop i m.entries
  unfolding get_entries_from
  get_entries_from_lem i = ground (arith, drop_all i m.entries)

  pub truncate_from_lem : (i : ℕ) → (truncate_from i m).0.entries ≡ take i m.entries
  unfolding truncate_from
  truncate_from_lem i = ground (arith, take_all i m.entries)

  pub truncate_from-frame :
      (i : ℕ)
      → ((truncate_from i m).0.term ≡ m.term)
        × ((truncate_from i m).0.voted_for ≡ m.voted_for)
        × ((truncate_from i m).1 ≡ none)
  unfolding truncate_from
  truncate_from-frame i = ground arith

  pub last_index_lem :
      0 < length m.entries → length m.entries < 2 ^ 64 → (last_index m).0 + 1 ≡ length m.entries
  unfolding last_index u64
  last_index_lem p q = omega arith

pub append_entries-failed :
    (m : MemoryStore) (es : List LogEntry)
    → (append_entries es m).1 ≢ none
    → (append_entries es m).0.entries ≡ m.entries
unfolding append_entries
append_entries-failed m es h = absurd (h refl)

pub truncate_from-failed :
    (m : MemoryStore) (i : ℕ)
    → (truncate_from i m).1 ≢ none
    → (truncate_from i m).0.entries ≡ m.entries
truncate_from-failed m i h = absurd (h (truncate_from-frame m i).2)

pub last_term_entries :
    (es : List LogEntry) (t : ℕ) (v : _)
    → (last_term (record { term = t; voted_for = v; entries = es })).0 ≡ (last_or sentinel es).term
unfolding last_term
last_term_entries [] t v = refl
last_term_entries (e ∷ es) t v = refl

-- What a write leaves, field by field.
module _ (m : MemoryStore) where
  pub save_term_lem : (t : ℕ) → (save_term t m).0 ≡ record m { term = t }
  unfolding save_term
  save_term_lem t = refl

  pub save_voted_for_lem : (c : String) → (save_voted_for c m).0 ≡ record m { voted_for = c }
  unfolding save_voted_for
  save_voted_for_lem c = refl

  pub append_entries_lem :
      (es : List LogEntry) → (append_entries es m).0 ≡ record m { entries = m.entries ++ es }
  unfolding append_entries
  append_entries_lem es = refl

  pub loads :
      ((load_term m).0 ≡ m.term)
      × ((load_voted_for m).0 ≡ m.voted_for)
      × ((load_all_entries m).0 ≡ m.entries)
  unfolding load_term load_voted_for load_all_entries
  loads = (refl, refl, refl)

abbrev pub memory_backend-IsLawful : IsLawful memory_backend
memory_backend-IsLawful = record {
  log = λ m. m.entries;
  term = λ m. m.term;
  voted_for = λ m. m.voted_for;
  get_entry_lem = λ m i _. get_entry_lem m i;
  get_entries_from_lem = λ m i _. get_entries_from_lem m i;
  last_index_lem = last_index_lem;
  last_term_lem = λ m. last_term_entries m.entries m.term m.voted_for;
  append_entries-none = λ m es _ _. ap (λ s. s.entries) (append_entries_lem m es);
  append_entries-failed = append_entries-failed;
  truncate_from-none = λ m i _ _. truncate_from_lem m i;
  truncate_from-failed = truncate_from-failed;
  save_term_lem = λ m t _. ap (λ s. s.term) (save_term_lem m t);
  save_voted_for_lem = λ m c _. ap (λ s. s.voted_for) (save_voted_for_lem m c);
  log-save_term = λ m t. ap (λ s. s.entries) (save_term_lem m t);
  voted_for-save_term = λ m t. ap (λ s. s.voted_for) (save_term_lem m t);
  log-save_voted_for = λ m c. ap (λ s. s.entries) (save_voted_for_lem m c);
  term-save_voted_for = λ m c. ap (λ s. s.term) (save_voted_for_lem m c);
  term-append_entries = λ m es. ap (λ s. s.term) (append_entries_lem m es);
  voted_for-append_entries = λ m es. ap (λ s. s.voted_for) (append_entries_lem m es);
  term-truncate_from = λ m i. (truncate_from-frame m i).0;
  voted_for-truncate_from = λ m i. (truncate_from-frame m i).1;
  load_term_lem = λ m. (loads m).0;
  load_voted_for_lem = λ m. (loads m).1;
  load_all_entries_lem = λ m. (loads m).2;
}
