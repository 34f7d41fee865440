-- ===== src/Storage.antt =====
-- internal/storage: the interface `StorageBackend` of the durable state, and what its users rely on.
pub mod Memory
pub mod Bbolt
use raftra.Common.{
  ℕ, suc, ◌+◌, ◌<◌, ◌^◌, String, ◌≡◌, ◌≢◌, Option, none, some, List, [], ◌∷◌, ◌++◌, length,
  get_elem?, take, drop, last_or,
}
use raftra.Proto.{LogEntry}

-- The errors that Go code returns, by the place that makes them; `none` is a nil error.
pub data Error : Type 0 where
  out_of_bounds : (index : ℕ) → Error
  not_leader : Error
  commit_timeout : Error
  node_stopped : Error
  storage_failure : Error

abbrev pub Err : Type 0
Err = Option Error

-- Go returns a value beside the error, and some callers read the value and drop the error. A method
-- that writes returns the new state of the store.
pub record StorageBackend (S : Type 0) : Type 0 where
  pub save_term : ℕ → S → S × Err
  pub load_term : S → ℕ × Err
  pub save_voted_for : String → S → S × Err
  pub load_voted_for : S → String × Err
  pub append_entries : List LogEntry → S → S × Err
  pub get_entry : ℕ → S → Option LogEntry × Err
  pub get_entries_from : ℕ → S → List LogEntry × Err
  pub truncate_from : ℕ → S → S × Err
  pub last_index : S → ℕ × Err
  pub last_term : S → ℕ × Err
  pub load_all_entries : S → List LogEntry × Err

-- `err != nil || entry == nil`, as every caller of `GetEntry` tests.
abbrev pub checked : Option LogEntry × Err → Option LogEntry
checked (entry, none) = entry
checked (entry, some e) = none

abbrev pub sentinel : LogEntry
sentinel = record { index = 0; term = 0; command = [] }

-- The entries stand at the indices that they carry, from `n` on.
abbrev pub AreIndexedFrom : ℕ → List LogEntry → Type 0
AreIndexedFrom n [] = Unit
AreIndexedFrom n (e ∷ es) = (e.index ≡ n) × AreIndexedFrom (suc n) es

-- What the users of a backend rely on: a view of the store as a log that lists its entries by index,
-- a term and a vote. Reads of what is there do not fail. A write may fail, and then it leaves the log
-- alone; the two writes of metadata do not touch the log, nor do writes of the log touch them.
pub record IsLawful {S : Type 0} (b : StorageBackend S) : Type 0 where
  pub log : S → List LogEntry
  pub term : S → ℕ
  pub voted_for : S → String
  pub get_entry_lem : (s : S) (i : ℕ) → i < 2 ^ 64 → checked (b.get_entry i s) ≡ get_elem? (log s) i
  pub get_entries_from_lem :
      (s : S) (i : ℕ) → i < 2 ^ 64 → (b.get_entries_from i s).0 ≡ drop i (log s)
  pub last_index_lem :
      (s : S)
      → 0 < length (log s)
      → length (log s) < 2 ^ 64
      → (b.last_index s).0 + 1 ≡ length (log s)
  pub last_term_lem : (s : S) → (b.last_term s).0 ≡ (last_or sentinel (log s)).term
  pub append_entries-none :
      (s : S) (es : List LogEntry)
      → AreIndexedFrom (length (log s)) es
      → (b.append_entries es s).1 ≡ none
      → log (b.append_entries es s).0 ≡ log s ++ es
  pub append_entries-failed :
      (s : S) (es : List LogEntry)
      → (b.append_entries es s).1 ≢ none
      → log (b.append_entries es s).0 ≡ log s
  pub truncate_from-none :
      (s : S) (i : ℕ)
      → i < 2 ^ 64
      → (b.truncate_from i s).1 ≡ none
      → log (b.truncate_from i s).0 ≡ take i (log s)
  pub truncate_from-failed :
      (s : S) (i : ℕ) → (b.truncate_from i s).1 ≢ none → log (b.truncate_from i s).0 ≡ log s
  pub save_term_lem : (s : S) (t : ℕ) → (b.save_term t s).1 ≡ none → term (b.save_term t s).0 ≡ t
  pub save_voted_for_lem :
      (s : S) (c : String)
      → (b.save_voted_for c s).1 ≡ none
      → voted_for (b.save_voted_for c s).0 ≡ c
  pub log-save_term : (s : S) (t : ℕ) → log (b.save_term t s).0 ≡ log s
  pub voted_for-save_term : (s : S) (t : ℕ) → voted_for (b.save_term t s).0 ≡ voted_for s
  pub log-save_voted_for : (s : S) (c : String) → log (b.save_voted_for c s).0 ≡ log s
  pub term-save_voted_for : (s : S) (c : String) → term (b.save_voted_for c s).0 ≡ term s
  pub term-append_entries : (s : S) (es : List LogEntry) → term (b.append_entries es s).0 ≡ term s
  pub voted_for-append_entries :
      (s : S) (es : List LogEntry) → voted_for (b.append_entries es s).0 ≡ voted_for s
  pub term-truncate_from : (s : S) (i : ℕ) → term (b.truncate_from i s).0 ≡ term s
  pub voted_for-truncate_from : (s : S) (i : ℕ) → voted_for (b.truncate_from i s).0 ≡ voted_for s
  pub load_term_lem : (s : S) → (b.load_term s).0 ≡ term s
  pub load_voted_for_lem : (s : S) → (b.load_voted_for s).0 ≡ voted_for s
  pub load_all_entries_lem : (s : S) → (b.load_all_entries s).0 ≡ log s
