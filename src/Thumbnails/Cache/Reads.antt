-- ===== src/Thumbnails/Cache/Reads.antt =====
-- What `ThumbnailCache.get` returns after a `put` (src/sns_media_list/services/thumbnail_cache.py).
use sns_media_list.Prelude.{
  ℕ, ◌≤◌, ◌<◌, ◌≡◌, refl, String, true, false, some, length, arith, str_eq, ◌∙◌,
}
use sns_media_list.Dict
use sns_media_list.Dict.{
  Dict, append, Distinct, Every, Every-get, Every-append, Every-remove, total, total-append,
  total-remove, get-remove_self, append-Distinct, get-append_absent, get-append_ne, get-remove_ne,
  remove-Distinct,
}
use sns_media_list.Errors.{ok, err}
use sns_media_list.Thumbnails.Cache.{
  Bytes, CacheEntry, ThumbnailCache, remove_entry, put_success, put_failure, get, unavailable,
}
use sns_media_list.Thumbnails.Cache.Sums.{entries-remove_entry}
use sns_media_list.Thumbnails.Cache.Stores.{IsValid, put_success-Stored, put_failure-Stored}

-- A thumbnail that fits into the cache is returned, unchanged, until it expires: storing it is never
-- given up for want of room, whatever the cache holds.
pub get-put_success :
    (token : String) (content : Bytes) (expires_at now later : ℕ) (c : ThumbnailCache)
    → IsValid c
    → length content ≤ c.max_bytes
    → now < expires_at
    → later < expires_at
    → (get token later (put_success token content expires_at now c)).1 ≡ ok (some content)
unfolding get
get-put_success token content expires_at now later c v fits fresh still =
    let s = put_success-Stored token content expires_at now c v.counted fits fresh in
    rw s.result (rw (get-append_absent token _ s.before.entries s.absent, get) (ground arith))

-- A failure is raised again until it expires, where failures are kept at all.
pub get-put_failure :
    (token : String) (expires_at now later : ℕ) (c : ThumbnailCache)
    → IsValid c
    → 0 < c.max_negative_entries
    → now < expires_at
    → later < expires_at
    → (get token later (put_failure token expires_at now c)).1 ≡ err unavailable
unfolding get
get-put_failure token expires_at now later c v pos fresh still =
    let s = put_failure-Stored token expires_at now c v.counted pos fresh in
    rw s.result (rw (get-append_absent token _ s.before.entries s.absent, get) (ground arith))

-- On a valid cache, storing a thumbnail that fits changes nothing of another token's failure.
pub put_success_spares :
    (token other : String) (content : Bytes) (expires_at now : ℕ) (c : ThumbnailCache)
    (e : CacheEntry)
    → IsValid c
    → length content ≤ c.max_bytes
    → now < expires_at
    → str_eq token other ≡ false
    → Dict.get other c.entries ≡ some e
    → e.failed ≡ true
    → Dict.get other (put_success token content expires_at now c).entries ≡ some e
put_success_spares token other content expires_at now c e v fits fresh differ found failed =
    let s = put_success-Stored token content expires_at now c v.counted fits fresh in
    let still : Dict.get other (remove_entry token c).entries ≡ some e =
      rw entries-remove_entry (get-remove_ne token other c.entries differ ∙ found) in
    rw s.result
      (get-append_ne token other _ s.before.entries differ ∙ s.evicted.kept other e still failed)

-- On a valid cache that keeps failures, storing a failure changes nothing of another token's thumbnail.
pub put_failure_spares :
    (token other : String) (expires_at now : ℕ) (c : ThumbnailCache) (e : CacheEntry)
    → IsValid c
    → 0 < c.max_negative_entries
    → now < expires_at
    → str_eq token other ≡ false
    → Dict.get other c.entries ≡ some e
    → e.failed ≡ false
    → Dict.get other (put_failure token expires_at now c).entries ≡ some e
put_failure_spares token other expires_at now c e v pos fresh differ found success =
    let f = put_failure-Stored token expires_at now c v.counted pos fresh in
    let still : Dict.get other (remove_entry token c).entries ≡ some e =
      rw entries-remove_entry (get-remove_ne token other c.entries differ ∙ found) in
    rw f.result (
      get-append_ne token other _ f.before.entries differ
      ∙ f.evicted.kept other e still (rw success refl))
