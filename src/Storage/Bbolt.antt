-- ===== src/Storage/Bbolt.antt =====
-- internal/storage/bbolt_store.go: the backend that keeps its log in a bbolt database.
pub mod Keys
pub mod Order
pub mod Pairs
pub mod Rows
pub mod Update
pub mod Refines
pub mod Writes
pub mod Reads
pub mod Open
use raftra.Common.{
  ℕ, zero, suc, ◌+◌, ◌-◌, ◌≤◌, ◌<◌, ◌^◌, String, ◌≡◌, ◌≢◌, refl, sym, ap, ◌∙◌, ◌⊎◌, ◌↔◌, inl, inr,
  Bool, true, false, not, ◌&&◌, ◌||◌, Option, none, some, List, [], ◌∷◌, ◌++◌, min, arith, ◌==◌,
  string_eq, nat_eq, u64, u64-eq_of_lt, eq_iff, ltb, leb, if◌then◌else◌, length, take, drop,
  get_elem?, last_or, Bool-cases, Option-cases,
}
use raftra.Kvstore.{Bytes}
use raftra.Proto.{LogEntry}
use raftra.Storage.{Err, Error, StorageBackend, out_of_bounds, storage_failure, sentinel}
use raftra.Storage.Bbolt.Keys.{uint64_to_bytes, bytes_to_uint64}

-- bucketMeta and bucketLog.
pub data Bucket : Type 0 where
  meta log : Bucket

-- What the store calls of bbolt, for a database `D`; a transaction works on a copy of
-- it, which `commit` puts in the place of the old one unless it fails. A cursor's walk from Seek,
-- or from First, to the end is the list of what it yields.
pub record Bbolt (D : Type 0) : Type 0 where
  pub commit : D → D → D × Err
  pub get : Bucket → Bytes → D → Option Bytes
  pub put : Bucket → Bytes → Bytes → D → D × Err
  pub delete : Bucket → Bytes → D → D × Err
  pub from_first : Bucket → D → List (Bytes × Bytes)
  pub from_seek : Bucket → Bytes → D → List (Bytes × Bytes)
  pub last : Bucket → D → Option (Bytes × Bytes)

-- proto.Marshal and proto.Unmarshal of log entries, and the conversions between texts and bytes.
pub record Marshal : Type 0 where
  pub marshal : LogEntry → Option Bytes
  pub unmarshal : Bytes → Option LogEntry
  pub bytes_of : String → Bytes
  pub string_of : Bytes → String

module _ {D : Type 0} ⦃bbolt : Bbolt D⦄ where
  -- db.Update: an error of the function rolls the transaction back.
  unfoldable pub update : (D → D × Err) → D → D × Err
  update fn db =
      let (tx, err) = fn db in elim err [ none ↦ bbolt.commit tx db | some e ↦ (db, some e) ]

  -- The second loop of TruncateFrom.
  unfoldable pub delete_all : List (Bytes × Bytes) → D → D × Err
  delete_all [] tx = (tx, none)
  delete_all ((k, v) ∷ keys_to_delete) tx =
      let (tx', err) = bbolt.delete log k tx in
      let rest = delete_all keys_to_delete tx' in
      elim err [ none ↦ rest | some e ↦ (tx', some storage_failure) ]

  unfoldable pub truncate_from : ℕ → D → D × Err
  truncate_from index db =
      update (λ tx. delete_all (bbolt.from_seek log (uint64_to_bytes index) tx) tx) db

  unfoldable pub last_index : D → ℕ × Err
  last_index db = elim (bbolt.last log db) [
    | none ↦ (0, none)
    | some entry ↦ (bytes_to_uint64 entry.0, none)
  ]

module _ ⦃proto : Marshal⦄ where
  unfoldable pub key_term : Bytes
  key_term = proto.bytes_of "current_term"

  unfoldable pub key_voted_for : Bytes
  key_voted_for = proto.bytes_of "voted_for"

  -- The loops over a cursor: the entries read before an error, and the error.
  unfoldable pub unmarshal_all : List (Bytes × Bytes) → List LogEntry × Err
  unmarshal_all [] = ([], none)
  unmarshal_all ((k, v) ∷ pairs) =
      let rest = unmarshal_all pairs in
      elim (proto.unmarshal v) [
        | none ↦ ([], some storage_failure)
        | some entry ↦ (entry ∷ rest.0, rest.1)
      ]

module _ {D : Type 0} ⦃bbolt : Bbolt D⦄ ⦃proto : Marshal⦄ where
  -- NewBboltStoreWithOptions once the database is open and has its buckets.
  unfoldable pub put_sentinel : D → D × Err
  put_sentinel tx = elim (bbolt.get log (uint64_to_bytes 0) tx) [
    | some _ ↦ (tx, none)
    | none ↦ elim (proto.marshal sentinel) [
      | none ↦ (tx, some storage_failure)
      | some data' ↦ bbolt.put log (uint64_to_bytes 0) data' tx
    ]
  ]

  unfoldable pub new_bbolt_store : D → D × Err
  new_bbolt_store db = update put_sentinel db

  unfoldable pub save_term : ℕ → D → D × Err
  save_term term db = update (λ tx. bbolt.put meta key_term (uint64_to_bytes term) tx) db

  unfoldable pub load_term : D → ℕ × Err
  load_term db = elim (bbolt.get meta key_term db) [
    | none ↦ (0, none)
    | some val ↦ (bytes_to_uint64 val, none)
  ]

  unfoldable pub save_voted_for : String → D → D × Err
  save_voted_for candidate_id db =
      update (λ tx. bbolt.put meta key_voted_for (proto.bytes_of candidate_id) tx) db

  unfoldable pub load_voted_for : D → String × Err
  load_voted_for db = elim (bbolt.get meta key_voted_for db) [
    | none ↦ ("", none)
    | some val ↦ (proto.string_of val, none)
  ]

  -- The loop of AppendEntries.
  unfoldable pub put_all : List LogEntry → D → D × Err
  put_all [] tx = (tx, none)
  put_all (entry ∷ entries) tx = elim (proto.marshal entry) [
    | none ↦ (tx, some storage_failure)
    | some data' ↦
        let (tx', err) = bbolt.put log (uint64_to_bytes entry.index) data' tx in
        let rest = put_all entries tx' in
        elim err [ none ↦ rest | some e ↦ (tx', some storage_failure) ]
  ]

  unfoldable pub append_entries : List LogEntry → D → D × Err
  append_entries [] db = (db, none)
  append_entries (entry ∷ entries) db = update (put_all (entry ∷ entries)) db

  unfoldable pub get_entry : ℕ → D → Option LogEntry × Err
  get_entry index db = elim (bbolt.get log (uint64_to_bytes index) db) [
    | none ↦ (none, some (out_of_bounds index))
    | some val ↦ elim (proto.unmarshal val) [
      | none ↦ (some (record { index = 0; term = 0; command = [] }), some storage_failure)
      | some entry ↦ (some entry, none)
    ]
  ]

  unfoldable pub get_entries_from : ℕ → D → List LogEntry × Err
  get_entries_from start_index db =
      unmarshal_all (bbolt.from_seek log (uint64_to_bytes start_index) db)

  unfoldable pub last_term : D → ℕ × Err
  last_term db = elim (bbolt.last log db) [
    | none ↦ (0, none)
    | some pair ↦ elim (proto.unmarshal pair.1) [
      | none ↦ (0, some storage_failure)
      | some entry ↦ (entry.term, none)
    ]
  ]

  unfoldable pub load_all_entries : D → List LogEntry × Err
  load_all_entries db = unmarshal_all (bbolt.from_first log db)

  instance abbrev pub bbolt_backend : StorageBackend D
  bbolt_backend = record {
    save_term = save_term;
    load_term = load_term;
    save_voted_for = save_voted_for;
    load_voted_for = load_voted_for;
    append_entries = append_entries;
    get_entry = get_entry;
    get_entries_from = get_entries_from;
    truncate_from = truncate_from;
    last_index = last_index;
    last_term = last_term;
    load_all_entries = load_all_entries;
  }
