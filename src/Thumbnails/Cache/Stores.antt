-- ===== src/Thumbnails/Cache/Stores.antt =====
-- What `put_success` and `put_failure` leave of a `ThumbnailCache`
-- (src/sns_media_list/services/thumbnail_cache.py).
use sns_media_list.Prelude.{
  ℕ, suc, ◌+◌, ◌≤◌, ◌<◌, ◌≡◌, refl, String, true, false, ◌||◌, ◌&&◌, none, some, length, leb, ltb,
  arith, Bool-cases, inl, inr,
}
use sns_media_list.Dict
use sns_media_list.Dict.{
  Dict, append, Distinct, Every, Every-get, Every-append, Every-remove, total, total-append,
  total-remove, get-remove_self, append-Distinct, remove-Distinct,
}
use sns_media_list.Thumbnails.Cache.{
  Bytes, CacheEntry, ThumbnailCache, failures, bytes_of, remove_entry, is_failed, drop_failures,
  insert_success, insert_failure, put_success, put_failure,
}
use sns_media_list.Thumbnails.Cache.Sums.{
  IsEntry, IsCounted, remove_entry-IsCounted, remove_entry_shrinks, entries-remove_entry,
}
use sns_media_list.Thumbnails.Cache.Eviction.{
  Evicted, make_room-room, drop_failures-free, succeeded,
}

pub record IsValid (c : ThumbnailCache) : Type 0 where
  pub counted : IsCounted c
  pub size_bounded : c.size_bytes ≤ c.max_bytes
  pub failures_bounded : c.failure_count ≤ c.max_negative_entries

abbrev success : Bytes → ℕ → CacheEntry
success content expires_at = record {
  content = some content;
  expires_at = expires_at;
  failed = false;
}

abbrev failure : ℕ → CacheEntry
failure expires_at = record { content = none; expires_at = expires_at; failed = true }

pub remove_entry-IsValid :
    (token : String) (c : ThumbnailCache) → IsValid c → IsValid (remove_entry token c)
remove_entry-IsValid token c v =
    let (size, fail, limit, negative) = remove_entry_shrinks token c v.counted in
    record {
      counted = remove_entry-IsCounted token c v.counted;
      size_bounded = omega (arith, size, limit, v.size_bounded);
      failures_bounded = omega (arith, fail, negative, v.failures_bounded);
    }

pub remove_entry_absent :
    (token : String) (c : ThumbnailCache)
    → IsCounted c
    → Dict.get token (remove_entry token c).entries ≡ none
remove_entry_absent token c v = rw entries-remove_entry (get-remove_self token c.entries v.distinct)

insert-IsCounted :
    (token : String) (e : CacheEntry) (c : ThumbnailCache) (size failed : ℕ)
    → IsCounted c
    → IsEntry e
    → Dict.get token c.entries ≡ none
    → size ≡ c.size_bytes + bytes_of e
    → failed ≡ c.failure_count + failures e
    → IsCounted
        (record c { entries = append token e c.entries; size_bytes = size; failure_count = failed })
insert-IsCounted token e c size failed v i absent s f = record {
  distinct = append-Distinct token e c.entries absent v.distinct;
  entries = Every-append IsEntry token e c.entries i v.entries;
  size = omega (arith, s, v.size, total-append bytes_of token e c.entries);
  failed = omega (arith, f, v.failed, total-append failures token e c.entries);
}

-- what `put_success` leaves, where the bytes fit and are not out of date
pub record Stored (token : String) (content : Bytes) (expires_at now : ℕ) (c : ThumbnailCache)
    : Type 0 where
  pub before : ThumbnailCache
  pub evicted : Evicted is_failed (remove_entry token c) before
  pub absent : Dict.get token before.entries ≡ none
  pub fits : before.size_bytes + length content ≤ before.max_bytes
  pub result :
      put_success token content expires_at now c ≡ insert_success token content expires_at before

pub put_success-Stored :
    (token : String) (content : Bytes) (expires_at now : ℕ) (c : ThumbnailCache)
    → IsCounted c
    → length content ≤ c.max_bytes
    → now < expires_at
    → Stored token content expires_at now c
unfolding put_success
put_success-Stored token content expires_at now c v fits fresh =
    let c₁ = remove_entry token c in
    let w = remove_entry-IsCounted token c v in
    let limit = (remove_entry_shrinks token c v).2 in
    let (c₂, made, evicted, room_left) =
      make_room-room (suc (length c₁.entries)) (length content) c₁ w (omega arith)
        (rw limit fits) in
    record {
      before = c₂;
      evicted = evicted;
      absent = evicted.absent token (remove_entry_absent token c v);
      fits = room_left;
      result = ground arith;
    }

pub put_success-IsValid :
    (token : String) (content : Bytes) (expires_at now : ℕ) (c : ThumbnailCache)
    → IsValid c
    → IsValid (put_success token content expires_at now c)
put_success-IsValid token content expires_at now c v =
    elim (Bool-cases (ltb c.max_bytes (length content) || leb expires_at now)) [
      | inl e ↦
          let left : put_success token content expires_at now c ≡ remove_entry token c =
            unfold put_success in ground arith in
          rw left (remove_entry-IsValid token c v)
      | inr e ↦
          let s =
            put_success-Stored token content expires_at now c v.counted (ground arith)
              (ground arith) in
          let w = remove_entry-IsValid token c v in
          rw s.result (record {
            counted =
                insert-IsCounted token (success content expires_at) s.before _ _ s.evicted.counted
                  refl s.absent refl (omega arith);
            size_bounded = s.fits;
            failures_bounded =
                omega
                  (arith, s.evicted.failures_fall, s.evicted.negative_limit, w.failures_bounded);
          })
    ]

pub record StoredFailure (token : String) (expires_at now : ℕ) (c : ThumbnailCache) : Type 0 where
  pub before : ThumbnailCache
  pub evicted : Evicted succeeded (remove_entry token c) before
  pub absent : Dict.get token before.entries ≡ none
  pub free : before.failure_count < before.max_negative_entries
  pub result : put_failure token expires_at now c ≡ insert_failure token expires_at before

pub put_failure-Stored :
    (token : String) (expires_at now : ℕ) (c : ThumbnailCache)
    → IsCounted c
    → 0 < c.max_negative_entries
    → now < expires_at
    → StoredFailure token expires_at now c
unfolding put_failure
put_failure-Stored token expires_at now c v pos fresh =
    let c₁ = remove_entry token c in
    let w = remove_entry-IsCounted token c v in
    let negative = (remove_entry_shrinks token c v).3 in
    let rounds = suc (length c₁.entries) in
    let (evicted, free) = drop_failures-free rounds c₁ w (omega arith) (rw negative pos) in
    record {
      before = drop_failures rounds c₁;
      evicted = evicted;
      absent = evicted.absent token (remove_entry_absent token c v);
      free = omega (arith, free, evicted.negative_limit);
      result = ground arith;
    }

pub put_failure-IsValid :
    (token : String) (expires_at now : ℕ) (c : ThumbnailCache)
    → IsValid c
    → IsValid (put_failure token expires_at now c)
put_failure-IsValid token expires_at now c v =
    elim (Bool-cases (ltb now expires_at && ltb 0 c.max_negative_entries)) [
      | inr e ↦
          let left : put_failure token expires_at now c ≡ remove_entry token c =
            unfold put_failure in ground (arith, (remove_entry_shrinks token c v.counted).3) in
          rw left (remove_entry-IsValid token c v)
      | inl e ↦
          let s =
            put_failure-Stored token expires_at now c v.counted (ground arith) (ground arith) in
          let w = remove_entry-IsValid token c v in
          rw s.result (record {
            counted =
                insert-IsCounted token (failure expires_at) s.before _ _ s.evicted.counted refl
                  s.absent (omega arith) refl;
            size_bounded = omega (arith, s.evicted.size_falls, s.evicted.limit, w.size_bounded);
            failures_bounded = omega (arith, s.free);
          })
    ]
