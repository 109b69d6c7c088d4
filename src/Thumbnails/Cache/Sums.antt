-- ===== src/Thumbnails/Cache/Sums.antt =====
-- The counters of `ThumbnailCache` (src/sns_media_list/services/thumbnail_cache.py) as sums over its entries.
use sns_media_list.Prelude.{
  ◌≤◌, ◌≡◌, refl, String, Bool, true, false, none, some, [], ◌∷◌, if◌then◌else◌, arith, Bool-cases,
  Option-cases, inl, inr, eq_iff,
}
use sns_media_list.Dict
use sns_media_list.Dict.{
  Dict, append, Distinct, Every, total, weight?, total-remove, total-append, remove-Distinct,
  Every-remove, length-remove,
}
use sns_media_list.Thumbnails.Cache.{
  CacheEntry, ThumbnailCache, failures, bytes_of, remove_entry, oldest, has_content,
}

-- an entry is a failure, or else it has content
abbrev pub IsEntry : CacheEntry → Type 0
IsEntry e = e.failed ≡ (if has_content e then false else true)

-- What holds between operations, but for the two limits.
pub record IsCounted (c : ThumbnailCache) : Type 0 where
  pub distinct : Distinct c.entries
  pub entries : Every IsEntry c.entries
  pub size : c.size_bytes ≡ total bytes_of c.entries
  pub failed : c.failure_count ≡ total failures c.entries

-- Removing an entry keeps the counters right; neither counter is reduced below what it counts.
pub remove_entry-IsCounted :
    (token : String) (c : ThumbnailCache) → IsCounted c → IsCounted (remove_entry token c)
unfolding remove_entry
remove_entry-IsCounted token c v = elim (Option-cases (Dict.get token c.entries)) [
  | inl e ↦ rw (e, remove_entry) v
  | inr (x, e) ↦
      rw (e, remove_entry)
        (record {
          distinct = remove-Distinct token c.entries v.distinct;
          entries = Every-remove _ token c.entries v.entries;
          size = ground (arith, v.size, total-remove bytes_of token c.entries);
          failed = ground (arith, v.failed, total-remove failures token c.entries);
        })
]

pub remove_entry_shrinks :
    (token : String) (c : ThumbnailCache)
    → IsCounted c
    → ((remove_entry token c).size_bytes ≤ c.size_bytes)
      × ((remove_entry token c).failure_count ≤ c.failure_count)
      × ((remove_entry token c).max_bytes ≡ c.max_bytes)
      × ((remove_entry token c).max_negative_entries ≡ c.max_negative_entries)
unfolding remove_entry
remove_entry_shrinks token c v = ground arith

-- the entries after a removal
pub entries-remove_entry :
    (token : String) (c : ThumbnailCache)
    → (remove_entry token c).entries ≡ Dict.remove token c.entries
unfolding remove_entry Dict.get Dict.remove
entries-remove_entry token c = elim (Option-cases (Dict.get token c.entries)) [
  | inl e ↦ rw (e, remove_entry) (remove_absent token c.entries e)
  | inr (x, e) ↦ rw (e, remove_entry) refl
]
  where
    remove_absent : (t : String) (d : Dict CacheEntry) → Dict.get t d ≡ none → d ≡ Dict.remove t d
    remove_absent t [] e = refl
    remove_absent t ((i, x) ∷ d) e = ground (arith, remove_absent t d)

-- The oldest entry that passes a test is there, and passes it.
pub oldest-found :
    (p : CacheEntry → Bool) (d : Dict CacheEntry) (token : String)
    → Distinct d
    → oldest p d ≡ some token
    → (e : CacheEntry) × (Dict.get token d ≡ some e) × (p e ≡ true)
unfolding oldest Dict.get
oldest-found p [] token u h = cc
oldest-found p ((i, x) ∷ d) token u h = elim (Bool-cases (p x)) [
  | inl e ↦ (x, ground (arith, eq_iff i token), e)
  | inr e ↦
      let (y, found, q) = oldest-found p d token u.1 (ground arith) in
      (y, ground (arith, eq_iff i token), q)
]

-- There is none exactly where no entry passes the test.
pub oldest-none :
    (p : CacheEntry → Bool) (d : Dict CacheEntry) → oldest p d ≡ none → Every (λ e. p e ≡ false) d
unfolding oldest
oldest-none p [] h = tt
oldest-none p ((i, x) ∷ d) h = ground (arith, oldest-none p d)
