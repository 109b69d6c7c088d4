-- ===== src/Thumbnails/Cache/Invariant.antt =====
-- Every operation of `ThumbnailCache` (src/sns_media_list/services/thumbnail_cache.py) keeps its limits.
use sns_media_list.Prelude.{
  ℕ, ◌≡◌, refl, String, some, List, [], ◌∷◌, leb, arith, Bool-cases, Option-cases, inl, inr,
}
use sns_media_list.Dict
use sns_media_list.Dict.{
  Dict, append, Distinct, Every, Every-get, Every-append, Every-remove, total, total-append,
  total-remove, get-remove_self, append-Distinct, remove-Distinct,
}
use sns_media_list.Thumbnails.Cache.{
  Bytes, CacheEntry, ThumbnailCache, failures, bytes_of, init, put_success, put_failure, get,
}
use sns_media_list.Thumbnails.Cache.Sums.{IsEntry}
use sns_media_list.Thumbnails.Cache.Stores.{
  IsValid, remove_entry-IsValid, put_success-IsValid, put_failure-IsValid,
}

moved-IsValid :
    (token : String) (e : CacheEntry) (c : ThumbnailCache)
    → Dict.get token c.entries ≡ some e
    → IsValid c
    → IsValid (record c { entries = append token e (Dict.remove token c.entries) })
moved-IsValid token e c found v =
    let d = Dict.remove token c.entries in
    record {
      counted = record {
        distinct =
            append-Distinct token e d (get-remove_self token c.entries v.counted.distinct)
              (remove-Distinct token c.entries v.counted.distinct);
        entries =
            Every-append IsEntry token e d
              (Every-get IsEntry token c.entries e found v.counted.entries)
              (Every-remove IsEntry token c.entries v.counted.entries);
        size = ground (
          arith,
          v.counted.size,
          total-append bytes_of token e d,
          total-remove bytes_of token c.entries,
        );
        failed = ground (
          arith,
          v.counted.failed,
          total-append failures token e d,
          total-remove failures token c.entries,
        );
      };
      size_bounded = v.size_bounded;
      failures_bounded = v.failures_bounded;
    }

pub get-IsValid :
    (token : String) (now : ℕ) (c : ThumbnailCache) → IsValid c → IsValid (get token now c).0
unfolding get
get-IsValid token now c v = elim (Option-cases (Dict.get token c.entries)) [
  | inl e ↦ rw (e, get) v
  | inr (x, e) ↦ elim (Bool-cases (leb x.expires_at now)) [
    | inl f ↦ rw (e, get, f) (remove_entry-IsValid token c v)
    | inr f ↦ rw (e, get, f) (moved-IsValid token x c e v)
  ]
]

-- An operation of the cache, with the reading of the clock.
pub data Call : Type 0 where
  gets : String → Call
  puts_success : String → Bytes → ℕ → Call
  puts_failure : String → ℕ → Call

abbrev pub after : ℕ × Call → ThumbnailCache → ThumbnailCache
after (now, gets token) c = (get token now c).0
after (now, puts_success token content expires_at) c = put_success token content expires_at now c
after (now, puts_failure token expires_at) c = put_failure token expires_at now c

abbrev pub run : List (ℕ × Call) → ThumbnailCache → ThumbnailCache
run [] c = c
run (x ∷ xs) c = run xs (after x c)

after-IsValid : (x : ℕ × Call) (c : ThumbnailCache) → IsValid c → IsValid (after x c)
after-IsValid (now, gets token) c v = get-IsValid token now c v
after-IsValid (now, puts_success token content expires_at) c v =
    put_success-IsValid token content expires_at now c v
after-IsValid (now, puts_failure token expires_at) c v =
    put_failure-IsValid token expires_at now c v

run-IsValid : (xs : List (ℕ × Call)) (c : ThumbnailCache) → IsValid c → IsValid (run xs c)
run-IsValid [] c v = v
run-IsValid (x ∷ xs) c v = run-IsValid xs (after x c) (after-IsValid x c v)

-- After any operations on a new cache, at any times, the tokens are distinct, `size_bytes` is the sum of
-- the lengths of the thumbnails kept and at most `max_bytes`, and the number of failures kept is counted
-- and at most `max_negative_entries`.
pub cache_run-IsValid :
    (max_bytes max_negative_entries : ℕ) (xs : List (ℕ × Call))
    → IsValid (run xs (init max_bytes max_negative_entries))
cache_run-IsValid m n xs = run-IsValid xs (init m n) (record {
  counted = record { distinct = tt; entries = tt; size = refl; failed = refl };
  size_bounded = omega arith;
  failures_bounded = omega arith;
})
