-- ===== src/Thumbnails/Cache.antt =====
-- `ThumbnailCache` of src/sns_media_list/services/thumbnail_cache.py. Each reading of the injected clock
-- is an argument. The counters are integers in the source and could fall below 0 there; they do
-- not, since they are the sums that they stand for, and so the subtraction of ℕ serves.
pub mod Sums
pub mod Eviction
pub mod Stores
pub mod Invariant
pub mod Reads
pub mod Absence
use sns_media_list.Prelude.{
  ℕ, zero, suc, ◌+◌, ◌-◌, String, Bool, true, false, ◌||◌, ◌&&◌, Option, none, some, List, [], ◌∷◌,
  if◌then◌else◌, length, leb, ltb,
}
use sns_media_list.Dict
use sns_media_list.Dict.{Dict, append}
use sns_media_list.Errors.{app_error, upstream_media_invalid, Result, ok, err, AppError}

-- the bytes of a generated JPEG
abbrev pub Bytes : Type 0
Bytes = List ℕ

pub record CacheEntry : Type 0 where
  pub content : Option Bytes
  pub expires_at : ℕ
  pub failed : Bool

-- `entries` is in the order of use, the least recent entry first.
pub record ThumbnailCache : Type 0 where
  pub max_bytes : ℕ
  pub max_negative_entries : ℕ
  pub entries : Dict CacheEntry
  pub size_bytes : ℕ
  pub failure_count : ℕ

abbrev pub init : ℕ → ℕ → ThumbnailCache
init max_bytes max_negative_entries = record {
  max_bytes = max_bytes;
  max_negative_entries = max_negative_entries;
  entries = [];
  size_bytes = 0;
  failure_count = 0;
}

-- What an entry adds to `_failure_count` and to `_size_bytes`, by the tests of `_remove`.
abbrev pub failures : CacheEntry → ℕ
failures e = if e.failed then 1 else 0

abbrev pub bytes_of : CacheEntry → ℕ
bytes_of e = if e.failed then 0 else (elim e.content [ none ↦ 0 | some b ↦ length b ])

-- `_remove`
unfoldable pub remove_entry : String → ThumbnailCache → ThumbnailCache
remove_entry token c = elim (Dict.get token c.entries) [
  | none ↦ c
  | some e ↦ record c {
    entries = Dict.remove token c.entries;
    failure_count = c.failure_count - failures e;
    size_bytes = c.size_bytes - bytes_of e;
  }
]

abbrev pub unavailable : AppError
unavailable = app_error upstream_media_invalid "The generated thumbnail is unavailable."

-- `get`: the cache after it, and the bytes, a miss, or the cached failure that it raises
unfoldable pub get : String → ℕ → ThumbnailCache → ThumbnailCache × Result (Option Bytes)
unfolding remove_entry
get token now c = elim (Dict.get token c.entries) [
  | none ↦ (c, ok none)
  | some e ↦ if leb e.expires_at now then (remove_entry token c, ok none) else (
    record c { entries = append token e (Dict.remove token c.entries) },
    if e.failed then err unavailable else ok e.content,
  )
]

-- the first token in the order of use whose entry passes a test
unfoldable pub oldest : (CacheEntry → Bool) → Dict CacheEntry → Option String
oldest p [] = none
oldest p ((token, e) ∷ d) = let rest = oldest p d in if p e then some token else rest

abbrev pub has_content : CacheEntry → Bool
has_content e = elim e.content [ none ↦ false | some b ↦ true ]

abbrev pub is_failed : CacheEntry → Bool
is_failed e = e.failed

-- `_evict_oldest_success` and `_evict_oldest_failure`: the cache after the eviction, `none` if there
-- was nothing to evict.
unfoldable pub evict_oldest : (CacheEntry → Bool) → ThumbnailCache → Option ThumbnailCache
unfolding oldest remove_entry
evict_oldest p c = elim (oldest p c.entries) [
  | none ↦ none
  | some token ↦ some (remove_entry token c)
]

abbrev pub evict_oldest_success : ThumbnailCache → Option ThumbnailCache
evict_oldest_success = evict_oldest has_content

abbrev pub evict_oldest_failure : ThumbnailCache → Option ThumbnailCache
evict_oldest_failure = evict_oldest is_failed

abbrev pub has_entries : Dict CacheEntry → Bool
has_entries [] = false
has_entries (e ∷ d) = true

-- How the loop that makes room ends: with room, or with nothing left to evict. `spent` is a loop that
-- ran out of the rounds given to it.
pub data Room : Type 0 where
  room refused : ThumbnailCache → Room
  spent : Room

-- The loop of `put_success`. Every round removes an entry, so one round more than there are entries
-- is enough.
unfoldable pub make_room : ℕ → ℕ → ThumbnailCache → Room
make_room zero needed c = spent
make_room (suc rounds) needed c = elim (ltb c.max_bytes (c.size_bytes + needed)) [
  | false ↦ room c
  | true ↦ elim (has_entries c.entries) [
    | false ↦ room c
    | true ↦ elim (evict_oldest_success c) [
      | none ↦ refused c
      | some c' ↦ make_room rounds needed c'
    ]
  ]
]

abbrev pub insert_success : String → Bytes → ℕ → ThumbnailCache → ThumbnailCache
insert_success token content expires_at c = record c {
  entries =
      append token (record { content = some content; expires_at = expires_at; failed = false })
        c.entries;
  size_bytes = c.size_bytes + length content;
}

unfoldable pub put_success : String → Bytes → ℕ → ℕ → ThumbnailCache → ThumbnailCache
unfolding make_room remove_entry
put_success token content expires_at now c =
    let c' = remove_entry token c in
    if ltb c.max_bytes (length content) || leb expires_at now
    then c'
    else elim (make_room (suc (length c'.entries)) (length content) c') [
      | room c'' ↦ insert_success token content expires_at c''
      | refused c'' ↦ c''
      | spent ↦ c'
    ]

-- The loop of `put_failure`, which also ends where there is no failure to evict; the rounds are as
-- above.
unfoldable pub drop_failures : ℕ → ThumbnailCache → ThumbnailCache
drop_failures zero c = c
drop_failures (suc rounds) c = elim (leb c.max_negative_entries c.failure_count) [
  | false ↦ c
  | true ↦ elim (evict_oldest_failure c) [ none ↦ c | some c' ↦ drop_failures rounds c' ]
]

abbrev pub insert_failure : String → ℕ → ThumbnailCache → ThumbnailCache
insert_failure token expires_at c = record c {
  entries =
      append token (record { content = none; expires_at = expires_at; failed = true }) c.entries;
  failure_count = c.failure_count + 1;
}

unfoldable pub put_failure : String → ℕ → ℕ → ThumbnailCache → ThumbnailCache
unfolding drop_failures remove_entry
put_failure token expires_at now c =
    let c' = remove_entry token c in
    if ltb now expires_at && ltb 0 c.max_negative_entries
    then insert_failure token expires_at (drop_failures (suc (length c'.entries)) c')
    else c'
