-- ===== src/Thumbnails/Cache/Eviction.antt =====
-- The two loops of `ThumbnailCache` that make room (src/sns_media_list/services/thumbnail_cache.py).
use sns_media_list.Prelude.{
  ℕ, zero, suc, ◌+◌, ◌≤◌, ◌<◌, ◌≡◌, refl, String, Bool, true, false, none, some, [], ◌∷◌,
  if◌then◌else◌, length, leb, ltb, arith, Bool-cases, Option-cases, inl, inr, str_eq, eq_iff, ◌⊎◌,
  ◌∙◌,
}
use sns_media_list.Dict
use sns_media_list.Dict.{
  Dict, append, Distinct, Every, Every-get, total, weight?, total-remove, get-remove-none,
  get-remove_ne, length-remove,
}
use sns_media_list.Thumbnails.Cache.{
  CacheEntry, ThumbnailCache, failures, bytes_of, remove_entry, oldest, has_content, is_failed,
  evict_oldest, room, make_room, drop_failures, has_entries,
}
use sns_media_list.Thumbnails.Cache.Sums.{
  IsEntry, IsCounted, remove_entry-IsCounted, remove_entry_shrinks, entries-remove_entry,
  oldest-found, oldest-none,
}

-- What a loop of evictions leaves of a cache: entries of the other class, and nothing new.
pub record Evicted (spared : CacheEntry → Bool) (c c' : ThumbnailCache) : Type 0 where
  pub counted : IsCounted c'
  pub limit : c'.max_bytes ≡ c.max_bytes
  pub negative_limit : c'.max_negative_entries ≡ c.max_negative_entries
  pub size_falls : c'.size_bytes ≤ c.size_bytes
  pub failures_fall : c'.failure_count ≤ c.failure_count
  pub absent : (j : String) → Dict.get j c.entries ≡ none → Dict.get j c'.entries ≡ none
  pub kept :
      (j : String) (e : CacheEntry)
      → Dict.get j c.entries ≡ some e
      → spared e ≡ true
      → Dict.get j c'.entries ≡ some e

Evicted-refl : (spared : CacheEntry → Bool) (c : ThumbnailCache) → IsCounted c → Evicted spared c c
Evicted-refl spared c v = record {
  counted = v;
  limit = refl;
  negative_limit = refl;
  size_falls = omega arith;
  failures_fall = omega arith;
  absent = λ j h. h;
  kept = λ j e h s. h;
}

Evicted-trans :
    (spared : CacheEntry → Bool) (a b c : ThumbnailCache)
    → Evicted spared a b
    → Evicted spared b c
    → Evicted spared a c
Evicted-trans spared a b c f g = record {
  counted = g.counted;
  limit = g.limit ∙ f.limit;
  negative_limit = g.negative_limit ∙ f.negative_limit;
  size_falls = omega (arith, f.size_falls, g.size_falls);
  failures_fall = omega (arith, f.failures_fall, g.failures_fall);
  absent = λ j h. g.absent j (f.absent j h);
  kept = λ j e h s. g.kept j e (f.kept j e h s) s;
}

-- Removing an entry that is not spared.
remove-Evicted :
    (spared : CacheEntry → Bool) (token : String) (c : ThumbnailCache) (x : CacheEntry)
    → IsCounted c
    → Dict.get token c.entries ≡ some x
    → spared x ≡ false
    → Evicted spared c (remove_entry token c)
remove-Evicted spared token c x v e s =
    let (size, fail, limit, negative) = remove_entry_shrinks token c v in
    record {
      counted = remove_entry-IsCounted token c v;
      limit = limit;
      negative_limit = negative;
      size_falls = size;
      failures_fall = fail;
      absent = λ j h. rw entries-remove_entry (get-remove-none token j c.entries h);
      kept = λ j y h t. rw entries-remove_entry (other j y h t (Bool-cases (str_eq token j)));
    }
  where
    other :
        (j : String) (y : CacheEntry)
        → Dict.get j c.entries ≡ some y
        → spared y ≡ true
        → (str_eq token j ≡ true) ⊎ (str_eq token j ≡ false)
        → Dict.get j (Dict.remove token c.entries) ≡ some y
    other j y h t (inl q) = absurd (ground (arith, eq_iff token j))
    other j y h t (inr q) = get-remove_ne token j c.entries q ∙ h

no_content : (d : Dict CacheEntry) → Every (λ e. has_content e ≡ false) d → total bytes_of d ≡ 0
no_content [] h = refl
no_content ((i, x) ∷ d) h = ground (arith, no_content d)

no_failures : (d : Dict CacheEntry) → Every (λ e. is_failed e ≡ false) d → total failures d ≡ 0
no_failures [] h = refl
no_failures ((i, x) ∷ d) h = ground (arith, no_failures d)

entries_fewer :
    (token : String) (c : ThumbnailCache) (x : CacheEntry)
    → Dict.get token c.entries ≡ some x
    → length (remove_entry token c).entries + 1 ≡ length c.entries
entries_fewer token c x e = rw entries-remove_entry (length-remove token c.entries x e)

no_entries : (d : Dict CacheEntry) → has_entries d ≡ false → total bytes_of d ≡ 0
no_entries [] h = refl
no_entries (x ∷ d) h = cc

-- Where the new bytes fit into the whole cache, the loop ends with room for them: it is never refused
-- and never out of rounds. Failures stay.
pub make_room-room :
    (rounds needed : ℕ) (c : ThumbnailCache)
    → IsCounted c
    → length c.entries < rounds
    → needed ≤ c.max_bytes
    → (c' : ThumbnailCache) × (make_room rounds needed c ≡ room c')
      × Evicted is_failed c c'
      × (c'.size_bytes + needed ≤ c'.max_bytes)
unfolding make_room evict_oldest
make_room-room zero needed c v h fits = absurd (omega arith)
make_room-room (suc rounds) needed c v h fits =
    elim (Bool-cases (ltb c.max_bytes (c.size_bytes + needed))) [
      | inr f ↦ (c, ground arith, Evicted-refl is_failed c v, ground arith)
      | inl f ↦ elim (Bool-cases (has_entries c.entries)) [
        | inr g ↦ absurd (ground (arith, v.size, no_entries c.entries g))
        | inl g ↦ elim (Option-cases (oldest has_content c.entries)) [
          | inl o ↦
              absurd
                (ground (arith, v.size, no_content c.entries (oldest-none has_content c.entries o)))
          | inr (token, o) ↦
              let (x, found, content) = oldest-found has_content c.entries token v.distinct o in
              let spared : is_failed x ≡ false =
                ground (arith, Every-get IsEntry token c.entries x found v.entries) in
              let step = remove-Evicted is_failed token c x v found spared in
              let (c', made, rest, fit) =
                make_room-room rounds needed (remove_entry token c) step.counted
                  (omega (arith, entries_fewer token c x found)) (rw step.limit fits) in
              let again : make_room (suc rounds) needed c
                  ≡ make_room rounds needed (remove_entry token c) =
                ground arith in
              (c', again ∙ made, Evicted-trans is_failed c (remove_entry token c) c' step rest, fit)
        ]
      ]
    ]

abbrev pub succeeded : CacheEntry → Bool
succeeded e = if e.failed then false else true

-- With a place for a failure at all, the other loop ends with one free, and successes stay.
pub drop_failures-free :
    (rounds : ℕ) (c : ThumbnailCache)
    → IsCounted c
    → length c.entries < rounds
    → 0 < c.max_negative_entries
    → Evicted succeeded c (drop_failures rounds c)
      × ((drop_failures rounds c).failure_count < c.max_negative_entries)
unfolding drop_failures evict_oldest
drop_failures-free zero c v h pos = absurd (omega arith)
drop_failures-free (suc rounds) c v h pos =
    elim (Bool-cases (leb c.max_negative_entries c.failure_count)) [
      | inr f ↦
          let ends : drop_failures (suc rounds) c ≡ c = ground arith in
          rw ends (Evicted-refl succeeded c v, ground arith)
      | inl f ↦ elim (Option-cases (oldest is_failed c.entries)) [
        | inl o ↦
            absurd
              (ground (arith, v.failed, no_failures c.entries (oldest-none is_failed c.entries o)))
        | inr (token, o) ↦
            let (x, found, fail) = oldest-found is_failed c.entries token v.distinct o in
            let step = remove-Evicted succeeded token c x v found (rw fail refl) in
            let (rest, free) =
              drop_failures-free rounds (remove_entry token c) step.counted
                (omega (arith, entries_fewer token c x found)) (rw step.negative_limit pos) in
            let again : drop_failures (suc rounds) c ≡ drop_failures rounds (remove_entry token c) =
              ground arith in
            rw again (
              Evicted-trans succeeded c (remove_entry token c) _ step rest,
              rw step.negative_limit at free,
            )
      ]
    ]
