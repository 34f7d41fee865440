-- ===== src/Storage/Bbolt/Pairs.antt =====
-- What bbolt documents of a bucket, as far as internal/storage/bbolt_store.go relies on it: a
-- dictionary whose pairs are kept in the order of their keys.
use raftra.Common.{
  String, ◌≡◌, ◌≢◌, false, Option, none, some, List, [], ◌∷◌, arith, ◌==◌, string_eq, nat_eq,
  if◌then◌else◌, last_or,
}
use raftra.GoMap
use raftra.Kvstore.{Bytes}
use raftra.Storage.Bbolt.{Bbolt, Bucket, Marshal}
use raftra.Storage.Bbolt.Order.{bytes_less, bytes_eq}
use raftra.Proto.{LogEntry}

abbrev pub Pairs : Type 0
Pairs = List (Bytes × Bytes)

-- Put: the pair goes where its key belongs, over the pair with this key if there is one.
unfoldable pub put_sorted : Bytes → Bytes → Pairs → Pairs
put_sorted k v [] = (k, v) ∷ []
put_sorted k v ((j, w) ∷ ps) =
    let rest = put_sorted k v ps in
    if bytes_less k j then (k, v) ∷ (j, w) ∷ ps else if k == j then (k, v) ∷ ps else (j, w) ∷ rest

pub put_sorted-later :
    (k v j w : Bytes) (ps : Pairs)
    → bytes_less k j ≡ false
    → k ≢ j
    → put_sorted k v ((j, w) ∷ ps) ≡ (j, w) ∷ put_sorted k v ps
unfolding put_sorted
put_sorted-later k v j w ps less ne = ground (arith, bytes_eq.equal_iff k j)

-- Seek: the pairs from the first key that is not below `k`.
unfoldable pub seek : Bytes → Pairs → Pairs
seek k [] = []
seek k ((j, w) ∷ ps) = let rest = seek k ps in if bytes_less j k then rest else (j, w) ∷ ps

-- A row of deletions.
unfoldable pub delete_keys : Pairs → Pairs → Pairs
delete_keys ps [] = ps
delete_keys ps ((j, v) ∷ ks) = delete_keys (GoMap.delete ps j) ks

unfoldable pub last_pair : Pairs → Option (Bytes × Bytes)
last_pair [] = none
last_pair (p ∷ ps) = some (last_or p ps)

pub record IsDocumented {D : Type 0} (bbolt : Bbolt D) : Type 0 where
  pub contents : Bucket → D → Pairs
  pub get_lem : (b : Bucket) (k : Bytes) (d : D) → bbolt.get b k d ≡ GoMap.lookup (contents b d) k
  pub put_lem :
      (b : Bucket) (k v : Bytes) (d : D)
      → (bbolt.put b k v d).1 ≡ none
      → contents b (bbolt.put b k v d).0 ≡ put_sorted k v (contents b d)
  pub put-other :
      (b c : Bucket) (k v : Bytes) (d : D) → b ≢ c → contents c (bbolt.put b k v d).0 ≡ contents c d
  pub delete_lem :
      (b : Bucket) (k : Bytes) (d : D)
      → (bbolt.delete b k d).1 ≡ none
      → contents b (bbolt.delete b k d).0 ≡ GoMap.delete (contents b d) k
  pub delete-other :
      (b c : Bucket) (k : Bytes) (d : D) → b ≢ c → contents c (bbolt.delete b k d).0 ≡ contents c d
  pub from_first_lem : (b : Bucket) (d : D) → bbolt.from_first b d ≡ contents b d
  pub from_seek_lem :
      (b : Bucket) (k : Bytes) (d : D) → bbolt.from_seek b k d ≡ seek k (contents b d)
  pub last_lem : (b : Bucket) (d : D) → bbolt.last b d ≡ last_pair (contents b d)
  pub commit-none : (new old : D) → (bbolt.commit new old).1 ≡ none → (bbolt.commit new old).0 ≡ new
  pub commit-failed :
      (new old : D) → (bbolt.commit new old).1 ≢ none → (bbolt.commit new old).0 ≡ old

-- Protobuf and the conversion of texts read back what they wrote.
pub record IsFaithful (proto : Marshal) : Type 0 where
  pub unmarshal-marshal :
      (e : LogEntry) {bytes : Bytes} → proto.marshal e ≡ some bytes → proto.unmarshal bytes ≡ some e
  pub string_of-bytes_of : (s : String) → proto.string_of (proto.bytes_of s) ≡ s
