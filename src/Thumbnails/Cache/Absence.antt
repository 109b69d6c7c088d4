-- ===== src/Thumbnails/Cache/Absence.antt =====
-- What `ThumbnailCache` (src/sns_media_list/services/thumbnail_cache.py) does not hold, it holds only
-- once it is stored.
use sns_media_list.Prelude.{
  ℕ, zero, suc, ◌≡◌, refl, String, false, none, some, length, leb, ltb, ◌||◌, ◌&&◌, arith, str_eq,
  eq_iff, Bool, Bool-cases, Option-cases, inl, inr, ◌∙◌, ◌⊎◌, subst, ◌+◌,
}
use sns_media_list.Dict
use sns_media_list.Dict.{
  Every-get, get-append, get-append_ne, get-remove-none, get-remove_self, Distinct,
}
use sns_media_list.Errors.{ok}
use sns_media_list.Thumbnails.Cache.{
  Bytes, CacheEntry, ThumbnailCache, remove_entry, evict_oldest, oldest, has_content, is_failed,
  has_entries, Room, room, refused, spent, make_room, drop_failures, put_success, put_failure, get,
}
use sns_media_list.Thumbnails.Cache.Sums.{IsEntry, entries-remove_entry}
use sns_media_list.Thumbnails.Cache.Stores.{IsValid, remove_entry_absent}

abbrev pub IsAbsent : String → ThumbnailCache → Type 0
IsAbsent token c = Dict.get token c.entries ≡ none

remove_entry-IsAbsent :
    (token other : String) (c : ThumbnailCache)
    → IsAbsent token c
    → IsAbsent token (remove_entry other c)
remove_entry-IsAbsent token other c h =
    rw entries-remove_entry (get-remove-none other token c.entries h)

pub get-IsAbsent :
    (token other : String) (now : ℕ) (c : ThumbnailCache)
    → IsAbsent token c
    → IsAbsent token (get other now c).0
unfolding get
get-IsAbsent token other now c h = elim (Option-cases (Dict.get other c.entries)) [
  | inl e ↦ rw (e, get) h
  | inr (x, e) ↦ elim (Bool-cases (leb x.expires_at now)) [
    | inl f ↦ rw (e, get, f) (remove_entry-IsAbsent token other c h)
    | inr f ↦
        rw
          (
            e,
            get,
            f,
            get-append other token x (Dict.remove other c.entries),
            get-remove-none other token c.entries h,
          )
          (ground (arith, eq_iff other token, h, e))
  ]
]

-- A miss leaves nothing of the token in the cache.
pub get_miss :
    (token : String) (now : ℕ) (c : ThumbnailCache)
    → IsValid c
    → (get token now c).1 ≡ ok none
    → IsAbsent token (get token now c).0
unfolding get
get_miss token now c v m = elim (Option-cases (Dict.get token c.entries)) [
  | inl e ↦ rw (e, get) e
  | inr (x, e) ↦ elim (Bool-cases (leb x.expires_at now)) [
    | inl f ↦ rw (e, get, f) (remove_entry_absent token c v.counted)
    | inr f ↦
        let entry : IsEntry x = Every-get IsEntry token c.entries x e v.counted.entries in
        absurd (ground (arith, m, e, f, entry))
  ]
]

evict_oldest-IsAbsent :
    (token : String) (p : CacheEntry → Bool) (c d : ThumbnailCache)
    → evict_oldest p c ≡ some d
    → IsAbsent token c
    → IsAbsent token d
unfolding evict_oldest
evict_oldest-IsAbsent token p c d e h = elim (Option-cases (oldest p c.entries)) [
  | inl nothing ↦ absurd (ground arith)
  | inr (other, found) ↦
      let is : remove_entry other c ≡ d = ground arith in
      subst (IsAbsent token) is (remove_entry-IsAbsent token other c h)
]

-- The cache that a loop leaves.
abbrev RoomIsAbsent : String → Room → Type 0
RoomIsAbsent token (room c) = IsAbsent token c
RoomIsAbsent token (refused c) = IsAbsent token c
RoomIsAbsent token spent = Unit

make_room-IsAbsent :
    (token : String) (rounds needed : ℕ) (c : ThumbnailCache)
    → IsAbsent token c
    → RoomIsAbsent token (make_room rounds needed c)
unfolding make_room
make_room-IsAbsent token zero needed c h = tt
make_room-IsAbsent token (suc rounds) needed c h =
    elim (Bool-cases (ltb c.max_bytes (c.size_bytes + needed))) [
      | inr fits ↦ rw (fits, make_room) h
      | inl full ↦ elim (Bool-cases (has_entries c.entries)) [
        | inr empty ↦ rw (full, empty, make_room) h
        | inl filled ↦ elim (Option-cases (evict_oldest has_content c)) [
          | inl nothing ↦ rw (full, filled, nothing, make_room) h
          | inr (d, evicted) ↦
              rw (full, filled, evicted, make_room)
                (make_room-IsAbsent token rounds needed d
                  (evict_oldest-IsAbsent token has_content c d evicted h))
        ]
      ]
    ]

drop_failures-IsAbsent :
    (token : String) (rounds : ℕ) (c : ThumbnailCache)
    → IsAbsent token c
    → IsAbsent token (drop_failures rounds c)
unfolding drop_failures
drop_failures-IsAbsent token zero c h = h
drop_failures-IsAbsent token (suc rounds) c h =
    elim (Bool-cases (leb c.max_negative_entries c.failure_count)) [
      | inr free ↦ rw (free, drop_failures) h
      | inl full ↦ elim (Option-cases (evict_oldest is_failed c)) [
        | inl nothing ↦ rw (full, nothing, drop_failures) h
        | inr (d, evicted) ↦
            rw (full, evicted, drop_failures)
              (drop_failures-IsAbsent token rounds d
                (evict_oldest-IsAbsent token is_failed c d evicted h))
      ]
    ]

Room-cases :
    (r : Room)
    → ((c : ThumbnailCache) × (r ≡ room c)) ⊎ ((c : ThumbnailCache) × (r ≡ refused c)) ⊎ (r ≡ spent)
Room-cases (room c) = inl (c, refl)
Room-cases (refused c) = inr (inl (c, refl))
Room-cases spent = inr (inr refl)

pub put_success-IsAbsent :
    (token other : String) (content : Bytes) (expires_at now : ℕ) (c : ThumbnailCache)
    → str_eq other token ≡ false
    → IsAbsent token c
    → IsAbsent token (put_success other content expires_at now c)
unfolding put_success
put_success-IsAbsent token other content expires_at now c differ h =
    let without = remove_entry-IsAbsent token other c h in
    let c' = remove_entry other c in
    let r = make_room (suc (length c'.entries)) (length content) c' in
    let made : RoomIsAbsent token r =
      make_room-IsAbsent token (suc (length c'.entries)) (length content) c' without in
    elim (Bool-cases (ltb c.max_bytes (length content) || leb expires_at now)) [
      | inl given_up ↦ rw (given_up, put_success) without
      | inr tried ↦ elim (Room-cases r) [
        | inl (d, e) ↦
            rw (tried, e, put_success)
              (get-append_ne other token _ d.entries differ ∙ subst (RoomIsAbsent token) e made)
        | inr (inl (d, e)) ↦ rw (tried, e, put_success) (subst (RoomIsAbsent token) e made)
        | inr (inr e) ↦ rw (tried, e, put_success) without
      ]
    ]

pub put_failure-IsAbsent :
    (token other : String) (expires_at now : ℕ) (c : ThumbnailCache)
    → str_eq other token ≡ false
    → IsAbsent token c
    → IsAbsent token (put_failure other expires_at now c)
unfolding put_failure
put_failure-IsAbsent token other expires_at now c differ h =
    let c' = remove_entry other c in
    let without = remove_entry-IsAbsent token other c h in
    let d = drop_failures (suc (length c'.entries)) c' in
    let dropped = drop_failures-IsAbsent token (suc (length c'.entries)) c' without in
    elim (Bool-cases (ltb now expires_at && ltb 0 c.max_negative_entries)) [
      | inr given_up ↦ rw (given_up, put_failure) without
      | inl tried ↦ rw (tried, put_failure) (get-append_ne other token _ d.entries differ ∙ dropped)
    ]
