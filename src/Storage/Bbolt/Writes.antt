-- ===== src/Storage/Bbolt/Writes.antt =====
-- The writes of the bbolt store (internal/storage/bbolt_store.go) against those of the in-memory one.
use raftra.Common.{
  ℕ, ◌+◌, ◌<◌, ◌^◌, String, ◌≡◌, ◌≢◌, refl, sym, ap, ◌∙◌, none, some, List, [], ◌∷◌, arith,
  string_eq, nat_eq, eq_iff, length,
}
use mathlib.Core.Path.{subst}
use raftra.GoMap
use raftra.Kvstore.{Bytes}
use raftra.Proto.{LogEntry}
use raftra.Storage.{StorageBackend, AreIndexedFrom, Err}
use raftra.Storage.Bbolt.{
  Bbolt, meta, log, Marshal, key_term, key_voted_for, save_term, load_term, save_voted_for,
  load_voted_for, append_entries, truncate_from, bbolt_backend,
}
use raftra.Storage.Bbolt.Pairs.{IsDocumented, IsFaithful}
use raftra.Storage.Bbolt.Keys.{uint64_to_bytes, bytes_to_uint64, bytes_to_uint64-uint64_to_bytes}
use raftra.Storage.Bbolt.Order.{bytes_eq}
use raftra.Storage.Bbolt.Refines.{
  Represents, Represents-meta, append_entries-Represents, truncate_from-Represents,
}
use raftra.Storage.Bbolt.Update.{lookup-put_same, lookup-put_other, update-none, update-failed}
use raftra.Storage.Memory
use raftra.Storage.Memory.{MemoryStore, memory_backend}

-- The writes of a StorageBackend.
pub data Write : Type 0 where
  term : ℕ → Write
  vote : String → Write
  append : List LogEntry → Write
  truncate : ℕ → Write

unfoldable pub perform : {S : Type 0} ⦃b : StorageBackend S⦄ → Write → S → S × Err
perform ⦃b⦄ (term t) s = b.save_term t s
perform ⦃b⦄ (vote candidate_id) s = b.save_voted_for candidate_id s
perform ⦃b⦄ (append entries) s = b.append_entries entries s
perform ⦃b⦄ (truncate index) s = b.truncate_from index s

-- The writes that a node makes: numbers that a uint64 holds, and entries that carry the indices at
-- which they are appended.
abbrev pub IsAdmissible : MemoryStore → Write → Type 0
IsAdmissible m (term t) = t < 2 ^ 64
IsAdmissible m (vote candidate_id) = Unit
IsAdmissible m (append entries) =
    AreIndexedFrom (length m.entries) entries × (length m.entries + length entries < 2 ^ 64)
IsAdmissible m (truncate index) = index < 2 ^ 64

log-ne-meta : meta ≢ log
log-ne-meta e = ground (arith, e)

module _ {D : Type 0} ⦃bbolt : Bbolt D⦄ ⦃proto : Marshal⦄ (docs : IsDocumented bbolt)
    (faithful : IsFaithful proto) where
  key-ne : key_term ≢ key_voted_for
  unfolding key_term key_voted_for
  key-ne e =
      let same : ◌≡◌ {A = String} "current_term" "voted_for" =
        sym (faithful.string_of-bytes_of "current_term")
        ∙ ap proto.string_of e
        ∙ faithful.string_of-bytes_of "voted_for" in
      ground (arith, eq_iff "current_term" "voted_for", same)

  -- What Get finds in a bucket after a put.
  get-put :
      (k v : Bytes) (d : D)
      → (bbolt.put meta k v d).1 ≡ none
      → bbolt.get meta k (bbolt.put meta k v d).0 ≡ some v
  get-put k v d h =
      docs.get_lem meta k _
      ∙ ap (λ ps. GoMap.lookup ps k) (docs.put_lem meta k v d h)
      ∙ lookup-put_same k v (docs.contents meta d)

  get-put_other :
      (k v j : Bytes) (d : D)
      → (bbolt.put meta k v d).1 ≡ none
      → k ≢ j
      → bbolt.get meta j (bbolt.put meta k v d).0 ≡ bbolt.get meta j d
  get-put_other k v j d h ne =
      docs.get_lem meta j _
      ∙ ap (λ ps. GoMap.lookup ps j) (docs.put_lem meta k v d h)
      ∙ lookup-put_other k v j (docs.contents meta d) ne
      ∙ sym (docs.get_lem meta j d)

  load_term-get :
      (c d : D)
      → bbolt.get meta key_term c ≡ bbolt.get meta key_term d
      → (load_term c).0 ≡ (load_term d).0
  unfolding load_term
  load_term-get c d e = rw (e, load_term)

  load_voted_for-get :
      (c d : D)
      → bbolt.get meta key_voted_for c ≡ bbolt.get meta key_voted_for d
      → (load_voted_for c).0 ≡ (load_voted_for d).0
  unfolding load_voted_for
  load_voted_for-get c d e = rw (e, load_voted_for)

  load_term-some :
      (c : D) (v : Bytes) → bbolt.get meta key_term c ≡ some v → (load_term c).0 ≡ bytes_to_uint64 v
  unfolding load_term
  load_term-some c v e = rw (e, load_term)

  load_voted_for-some :
      (c : D) (v : Bytes)
      → bbolt.get meta key_voted_for c ≡ some v
      → (load_voted_for c).0 ≡ proto.string_of v
  unfolding load_voted_for
  load_voted_for-some c v e = rw (e, load_voted_for)

  save_term-Represents :
      (d : D) (m : MemoryStore) (t : ℕ)
      → Represents docs faithful d m
      → t < 2 ^ 64
      → (save_term t d).1 ≡ none
      → Represents docs faithful (save_term t d).0 (record m { term = t })
  unfolding save_term
  save_term-Represents d m t r small h =
      let done = update-none docs (λ tx. bbolt.put meta key_term (uint64_to_bytes t) tx) d h in
      Represents-meta docs faithful d _ m (record m { term = t }) r
        (ap (docs.contents log) done.1
          ∙ docs.put-other meta log key_term (uint64_to_bytes t) d log-ne-meta)
        refl
        (ap (λ c. (load_term c).0) done.1
          ∙ load_term-some _ (uint64_to_bytes t) (get-put key_term (uint64_to_bytes t) d done.0)
          ∙ bytes_to_uint64-uint64_to_bytes t small)
        (ap (λ c. (load_voted_for c).0) done.1
          ∙ load_voted_for-get _ d
              (get-put_other key_term (uint64_to_bytes t) key_voted_for d done.0 key-ne)
          ∙ r.voted_for)

  save_voted_for-Represents :
      (d : D) (m : MemoryStore) (candidate_id : String)
      → Represents docs faithful d m
      → (save_voted_for candidate_id d).1 ≡ none
      → Represents docs faithful
          (save_voted_for candidate_id d).0
          (record m { voted_for = candidate_id })
  unfolding save_voted_for
  save_voted_for-Represents d m candidate_id r h =
      let v = proto.bytes_of candidate_id in
      let done = update-none docs (λ tx. bbolt.put meta key_voted_for v tx) d h in
      Represents-meta docs faithful d _ m (record m { voted_for = candidate_id }) r
        (ap (docs.contents log) done.1 ∙ docs.put-other meta log key_voted_for v d log-ne-meta) refl
        (ap (λ c. (load_term c).0) done.1
          ∙ load_term-get _ d
              (get-put_other key_voted_for v key_term d done.0 (λ e. key-ne (sym e)))
          ∙ r.term)
        (ap (λ c. (load_voted_for c).0) done.1
          ∙ load_voted_for-some _ v (get-put key_voted_for v d done.0)
          ∙ faithful.string_of-bytes_of candidate_id)

  -- A write that fails is rolled back.
  perform-failed : (d : D) (w : Write) → (perform w d).1 ≢ none → (perform w d).0 ≡ d
  unfolding perform save_term save_voted_for append_entries truncate_from
  perform-failed d (term t) h = update-failed docs _ d h
  perform-failed d (vote candidate_id) h = update-failed docs _ d h
  perform-failed d (append []) h = refl
  perform-failed d (append (e ∷ es)) h = update-failed docs _ d h
  perform-failed d (truncate index) h = update-failed docs _ d h

  rolled_back :
      (d : D) (m : MemoryStore) (w : Write)
      → Represents docs faithful d m
      → (perform w d).1 ≢ none
      → Represents docs faithful (perform w d).0 m
  rolled_back d m w r h = subst (λ c. Represents docs faithful c m) (sym (perform-failed d w h)) r

  -- Every admissible write keeps the two stores together: where the transaction succeeds, the database
  -- represents the in-memory store after the same write, and where it fails, the one before.
  pub writes-refine :
      (d : D) (m : MemoryStore) (w : Write)
      → Represents docs faithful d m
      → IsAdmissible m w
      → ((perform w d).1 ≡ none → Represents docs faithful (perform w d).0 (perform w m).0)
        × ((perform w d).1 ≢ none → Represents docs faithful (perform w d).0 m)
  unfolding perform Memory.save_term Memory.save_voted_for
  writes-refine d m (term t) r a =
      (save_term-Represents d m t r a, λ h. rolled_back d m (term t) r h)
  writes-refine d m (vote candidate_id) r a =
      (save_voted_for-Represents d m candidate_id r, λ h. rolled_back d m (vote candidate_id) r h)
  writes-refine d m (append entries) r a = (
    append_entries-Represents docs faithful d m entries r a.0 a.1,
    λ h. rolled_back d m (append entries) r h,
  )
  writes-refine d m (truncate index) r a = (
    truncate_from-Represents docs faithful d m index r a,
    λ h. rolled_back d m (truncate index) r h,
  )
