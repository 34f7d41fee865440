-- ===== src/Storage/Memory.antt =====
-- internal/storage/memory_store.go: the backend that keeps its log as a slice. The mutex and the
-- copies that it returns do not show in a model by values.
pub mod Laws
use raftra.Common.{
  ℕ, ◌+◌, ◌-◌, ◌^◌, String, ◌≡◌, Option, none, some, List, [], ◌∷◌, ◌++◌, length, get_elem?, take,
  drop, last_or, leb, ltb, if◌then◌else◌, u64,
}
use raftra.Proto.{LogEntry}
use raftra.Storage.{StorageBackend, Err, Error, out_of_bounds, sentinel}

pub record MemoryStore : Type 0 where
  pub term : ℕ
  pub voted_for : String
  pub entries : List LogEntry

abbrev pub new_memory_store : MemoryStore
new_memory_store = record { term = 0; voted_for = ""; entries = sentinel ∷ [] }

unfoldable pub save_term : ℕ → MemoryStore → MemoryStore × Err
save_term term m = (record m { term = term }, none)

unfoldable pub load_term : MemoryStore → ℕ × Err
load_term m = (m.term, none)

unfoldable pub save_voted_for : String → MemoryStore → MemoryStore × Err
save_voted_for candidate_id m = (record m { voted_for = candidate_id }, none)

unfoldable pub load_voted_for : MemoryStore → String × Err
load_voted_for m = (m.voted_for, none)

unfoldable pub append_entries : List LogEntry → MemoryStore → MemoryStore × Err
append_entries entries m = (record m { entries = m.entries ++ entries }, none)

unfoldable pub get_entry : ℕ → MemoryStore → Option LogEntry × Err
get_entry index m =
    if leb (length m.entries) index
    then (none, some (out_of_bounds index))
    else (get_elem? m.entries index, none)

unfoldable pub get_entries_from : ℕ → MemoryStore → List LogEntry × Err
get_entries_from start_index m =
    if leb (length m.entries) start_index then ([], none) else (drop start_index m.entries, none)

unfoldable pub truncate_from : ℕ → MemoryStore → MemoryStore × Err
truncate_from index m =
    if ltb index (length m.entries)
    then (record m { entries = take index m.entries }, none)
    else (m, none)

-- `uint64(len - 1)`: of an empty slice the greatest uint64.
unfoldable pub last_index : MemoryStore → ℕ × Err
last_index m = (u64 (length m.entries + (2 ^ 64 - 1)), none)

unfoldable pub last_term : MemoryStore → ℕ × Err
last_term m = elim m.entries [ [] ↦ (0, none) | e ∷ es ↦ ((last_or e es).term, none) ]

unfoldable pub load_all_entries : MemoryStore → List LogEntry × Err
load_all_entries m = (m.entries, none)

instance abbrev pub memory_backend : StorageBackend MemoryStore
memory_backend = record {
  save_term = save_term;
  load_term = load_term;
  save_voted_for = save_voted_for;
  load_voted_for = load_voted_for;
  append_entries = append_entries;
  get_entry = get_entry;
  get_entries_from = get_entries_from;
  truncate_from = truncate_from;
  last_index = last_index;
  last_term = last_term;
  load_all_entries = load_all_entries;
}
