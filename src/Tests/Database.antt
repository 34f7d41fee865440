-- ===== src/Tests/Database.antt =====
-- A database in memory that behaves as bbolt documents, and the bbolt store over it
-- (internal/storage/bbolt_store.go).
use raftra.Common.{ℕ, String, ◌≡◌, ◌≢◌, refl, Option, none, some, [], ◌∷◌, arith, string_eq, nat_eq}
use Prim.Native.Nat.{Ordering, compare}
use Prim.Native.Char.{Char, char, code, nul, IsLt, IsScalar}
use Prim.Native.String.{[] as empty, ◌∷◌ as prefixed}
use text.Mathlib.TextEquality.{Char-path}
use raftra.GoMap
use raftra.Kvstore.{Bytes}
use raftra.Proto.{LogEntry}
use raftra.Storage.Bbolt.{
  Bbolt, Bucket, meta, log, Marshal, bbolt_backend, new_bbolt_store, update, put_sentinel,
}
use raftra.Storage.Bbolt.Open.{open-Represents, reopen-Represents}
use raftra.Storage.Bbolt.Keys.{uint64_to_bytes, big_endian}
use raftra.Storage.Bbolt.Pairs.{Pairs, put_sorted, seek, last_pair, IsDocumented, IsFaithful}
use raftra.Storage.Bbolt.Order.{bytes_eq, bytes_beq}
use raftra.Storage.Bbolt.Reads.{IsAlike, reads-IsAlike}
use raftra.Storage.Bbolt.Refines.{Represents}
use raftra.Storage.Bbolt.Writes.{Write, append, perform, writes-refine}
use raftra.Storage.Memory.{memory_backend, new_memory_store}
use raftra.Tests.Fixtures.{entry}

pub record Database : Type 0 where
  pub metadata : Pairs
  pub rows : Pairs

abbrev pairs_of : Bucket → Database → Pairs
pairs_of meta d = d.metadata
pairs_of log d = d.rows

abbrev with_pairs : Bucket → Pairs → Database → Database
with_pairs meta ps d = record d { metadata = ps }
with_pairs log ps d = record d { rows = ps }

instance abbrev database : Bbolt Database
database = record {
  commit = λ new old. (new, none);
  get = λ b k d. GoMap.lookup (pairs_of b d) k;
  put = λ b k v d. (with_pairs b (put_sorted k v (pairs_of b d)) d, none);
  delete = λ b k d. (with_pairs b (GoMap.delete (pairs_of b d) k) d, none);
  from_first = λ b d. pairs_of b d;
  from_seek = λ b k d. seek k (pairs_of b d);
  last = λ b d. last_pair (pairs_of b d);
}

pub pairs_of-same : (b : Bucket) (ps : Pairs) (d : Database) → pairs_of b (with_pairs b ps d) ≡ ps
pairs_of-same meta ps d = refl
pairs_of-same log ps d = refl

pairs_of-other :
    (b c : Bucket) (ps : Pairs) (d : Database)
    → b ≢ c
    → pairs_of c (with_pairs b ps d) ≡ pairs_of c d
pairs_of-other meta meta ps d ne = absurd (ne refl)
pairs_of-other meta log ps d ne = refl
pairs_of-other log meta ps d ne = refl
pairs_of-other log log ps d ne = absurd (ne refl)

abbrev database-IsDocumented : IsDocumented database
database-IsDocumented = record {
  contents = pairs_of;
  get_lem = λ b k d. refl;
  put_lem = λ b k v d h. pairs_of-same b _ d;
  put-other = λ b c k v d ne. pairs_of-other b c _ d ne;
  delete_lem = λ b k d h. pairs_of-same b _ d;
  delete-other = λ b c k d ne. pairs_of-other b c _ d ne;
  from_first_lem = λ b d. refl;
  from_seek_lem = λ b k d. refl;
  last_lem = λ b d. refl;
  commit-none = λ new old h. refl;
  commit-failed = λ new old h. absurd (h refl);
}

-- A text as the numbers of its characters. The two tables have the clauses of `IsScalar`.
abbrev BothBelow : Ordering → Ordering → Type 0
BothBelow Ordering.lt o = IsLt o
BothBelow Ordering.eq _ = ⊥
BothBelow Ordering.gt _ = ⊥

abbrev Scalar : Ordering → Ordering → Ordering → Type 0
Scalar Ordering.lt _ _ = Unit
Scalar Ordering.eq o p = BothBelow o p
Scalar Ordering.gt o p = BothBelow o p

IsLt? : (o : Ordering) → Dec (IsLt o)
IsLt? Ordering.lt = yes tt
IsLt? Ordering.eq = no (λ h. h)
IsLt? Ordering.gt = no (λ h. h)

BothBelow? : (o p : Ordering) → Dec (BothBelow o p)
BothBelow? Ordering.lt p = IsLt? p
BothBelow? Ordering.eq p = no (λ h. h)
BothBelow? Ordering.gt p = no (λ h. h)

Scalar? : (o p q : Ordering) → Dec (Scalar o p q)
Scalar? Ordering.lt p q = yes tt
Scalar? Ordering.eq p q = BothBelow? p q
Scalar? Ordering.gt p q = BothBelow? p q

IsScalar? : (n : ℕ) → Dec (IsScalar n)
IsScalar? n = Scalar? (compare n 55296) (compare 57343 n) (compare n 1114112)

char_if : (n : ℕ) → Dec (IsScalar n) → Char
char_if n (yes p) = char n p
char_if n (no _) = nul

char_if-code : (c : Char) (d : Dec (IsScalar (code c))) → char_if (code c) d ≡ c
unfolding char_if
char_if-code (char n p) (yes q) = Char-path (char n q) (char n p) refl
char_if-code (char n p) (no k) = absurd (k p)

abbrev bytes_of : String → Bytes
bytes_of empty = []
bytes_of (prefixed c s) = code c ∷ bytes_of s

string_of : Bytes → String
string_of [] = ""
string_of (n ∷ ns) = prefixed (char_if n (IsScalar? n)) (string_of ns)

string_of-bytes_of : (s : String) → string_of (bytes_of s) ≡ s
unfolding string_of
string_of-bytes_of empty = refl
string_of-bytes_of (prefixed c s) = cc (char_if-code c (IsScalar? (code c)), string_of-bytes_of s)

abbrev unmarshal : Bytes → Option LogEntry
unmarshal (index ∷ term ∷ command) = some (entry index term command)
unmarshal _ = none

instance abbrev plain_marshal : Marshal
plain_marshal = record {
  marshal = λ e. some (e.index ∷ e.term ∷ e.command);
  unmarshal = unmarshal;
  bytes_of = bytes_of;
  string_of = string_of;
}

plain_marshal-IsFaithful : IsFaithful plain_marshal
plain_marshal-IsFaithful = record {
  unmarshal-marshal = λ e {bytes} h. ground (arith, h);
  string_of-bytes_of = string_of-bytes_of;
}

abbrev empty_database : Database
empty_database = record { metadata = []; rows = [] }

abbrev new_database : Database
new_database = (new_bbolt_store empty_database).0

new_database-Represents :
    Represents database-IsDocumented plain_marshal-IsFaithful new_database new_memory_store
unfolding new_bbolt_store update put_sentinel GoMap.lookup
new_database-Represents =
    open-Represents database-IsDocumented plain_marshal-IsFaithful empty_database refl refl refl

reopen-Represents_example :
    Represents database-IsDocumented plain_marshal-IsFaithful
      (new_bbolt_store new_database).0
      new_memory_store
unfolding new_bbolt_store update put_sentinel put_sorted GoMap.lookup uint64_to_bytes big_endian
    bytes_beq
reopen-Represents_example =
    reopen-Represents database-IsDocumented plain_marshal-IsFaithful new_database new_memory_store
      new_database-Represents (omega arith) refl

abbrev write1 : Write
write1 = append (entry 1 1 [] ∷ [])

writes-refine_example :
    ((perform write1 new_database).1 ≡ none
      → Represents database-IsDocumented plain_marshal-IsFaithful
          (perform write1 new_database).0
          (perform write1 new_memory_store).0)
    × ((perform write1 new_database).1 ≢ none
        → Represents database-IsDocumented plain_marshal-IsFaithful
            (perform write1 new_database).0
            new_memory_store)
writes-refine_example =
    writes-refine database-IsDocumented plain_marshal-IsFaithful new_database new_memory_store
      write1 new_database-Represents ((refl, tt), omega arith)

reads-IsAlike_example : IsAlike new_database new_memory_store 0
reads-IsAlike_example =
    reads-IsAlike database-IsDocumented plain_marshal-IsFaithful new_database new_memory_store 0
      new_database-Represents (omega arith)
