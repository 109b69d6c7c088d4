-- ===== src/Registry/Counts.antt =====
-- src/sns_media_list/mcp/middleware.py: the registry counts the active requests of each key.
use sns_media_list.Dict
use sns_media_list.Dict.{Dict}
use sns_media_list.Prelude.{
  ℕ, ◌+◌, ◌-◌, ◌≡◌, ◌≤◌, refl, inl, inr, true, false, ◌&&◌, String, none, some, List, [], ◌∷◌,
  length, if◌then◌else◌, ltb, leb, str_eq, eq_iff, arith, Option-cases, Bool-cases,
}
use sns_media_list.Registry.{
  McpRequestRegistry, init, with_active, Key, contains, count_of, begin, finish,
}

-- Distinct keys, no more than the capacity, and a request for each.
pub record IsValid (r : McpRequestRegistry) : Type 0 where
  pub distinct : Dict.Distinct (r.active)
  pub bounded : length (r.active) ≤ r.max_active
  pub counted : Dict.Every (λ n. 1 ≤ n) (r.active)

length-set_present :
    (k : String) (v : ℕ) (d : Dict ℕ) (w : ℕ)
    → Dict.get k d ≡ some w
    → length (Dict.set k v d) ≡ length d
unfolding Dict.get Dict.set
length-set_present k v [] w e = absurd (ground arith)
length-set_present k v ((j, u) ∷ d) w e = ground (arith, length-set_present k v d w)

set-IsValid :
    (key : String) (n : ℕ) (r : McpRequestRegistry)
    → 1 ≤ n
    → length (Dict.set key n (r.active)) ≤ r.max_active
    → IsValid r
    → IsValid (with_active (Dict.set key n (r.active)) r)
set-IsValid key n r h l v = record {
  distinct = Dict.set-Distinct key n (r.active) (v.distinct);
  bounded = l;
  counted = Dict.Every-set (λ m. 1 ≤ m) key n (r.active) h (v.counted);
}

begin-IsValid : (key : Key) (r : McpRequestRegistry) → IsValid r → IsValid ((begin key r).1)
unfolding begin contains
begin-IsValid none r v = v
begin-IsValid (some key) r v = elim (Option-cases (Dict.get key (r.active))) [
  | inl absent ↦ elim (Bool-cases (leb (r.max_active) (length (r.active)))) [
    | inl full ↦ let refused : begin (some key) r ≡ (false, r) = ground arith in rw refused v
    | inr free ↦
        let added : begin (some key) r ≡ (true, with_active (Dict.set key 1 (r.active)) r) =
          ground arith in
        rw added (
          set-IsValid key 1 r (omega arith) (ground (arith, Dict.length-set_le key 1 (r.active))) v)
  ]
  | inr (n, present) ↦
      let added : begin (some key) r ≡ (true, with_active (Dict.set key (n + 1) (r.active)) r) =
        ground arith in
      rw added (
        set-IsValid key (n + 1) r (omega arith)
          (ground (arith, length-set_present key (n + 1) (r.active) n present, v.bounded)) v)
]

finish-IsValid : (key : Key) (r : McpRequestRegistry) → IsValid r → IsValid (finish key r)
unfolding finish
finish-IsValid none r v = v
finish-IsValid (some key) r v = elim (Option-cases (Dict.get key (r.active))) [
  | inl absent ↦ rw (absent, finish) v
  | inr (n, present) ↦ elim (Bool-cases (ltb 0 (n - 1))) [
    | inl more ↦
        rw (present, more, finish)
          (set-IsValid key (n - 1) r (ground arith)
            (ground (arith, length-set_present key (n - 1) (r.active) n present, v.bounded)) v)
    | inr last ↦
        rw (present, last, finish)
          (record {
            distinct = Dict.remove-Distinct key (r.active) (v.distinct);
            bounded = omega (arith, Dict.length-remove_le key (r.active), v.bounded);
            counted = Dict.Every-remove (λ m. 1 ≤ m) key (r.active) (v.counted);
          })
  ]
]

-- The requests of a key that are active.
begin_count :
    (k j : String) (r : McpRequestRegistry)
    → count_of j ((begin (some k) r).1)
      ≡ (if str_eq k j && (begin (some k) r).0 then count_of j r + 1 else count_of j r)
unfolding begin contains
begin_count k j r = ground (arith, Dict.get-set k j (count_of k r + 1) (r.active), eq_iff k j)

finish_count :
    (k j : String) (r : McpRequestRegistry)
    → IsValid r
    → count_of j (finish (some k) r) ≡ (if str_eq k j then count_of j r - 1 else count_of j r)
unfolding finish
finish_count k j r v =
    let same = eq_iff k j in
    let gone = Dict.get-remove_self k (r.active) (v.distinct) in
    let kept = Dict.get-remove_ne k j (r.active) in
    elim (Option-cases (Dict.get k (r.active))) [
      | inl absent ↦ ground (arith, same)
      | inr (n, present) ↦ ground (arith, same, gone, kept, Dict.get-set k j (n - 1) (r.active))
    ]

contains_count :
    (k : String) (r : McpRequestRegistry) → IsValid r → contains (some k) r ≡ ltb 0 (count_of k r)
unfolding contains
contains_count k r v = elim (Option-cases (Dict.get k (r.active))) [
  | inl absent ↦ ground arith
  | inr (n, present) ↦
      ground (arith, Dict.Every-get (λ m. 1 ≤ m) k (r.active) n present (v.counted))
]

-- In a valid registry, a request that is accepted and finishes, others of the same key active or
-- not, leaves the number of active requests of every key as it was, and so whether the key is
-- contained.
pub count_of-finish-begin :
    (k j : String) (r : McpRequestRegistry)
    → IsValid r
    → (begin (some k) r).0 ≡ true
    → (count_of j (finish (some k) ((begin (some k) r).1)) ≡ count_of j r)
      × (contains (some j) (finish (some k) ((begin (some k) r).1)) ≡ contains (some j) r)
count_of-finish-begin k j r v accepted =
    let begun = begin-IsValid (some k) r v in
    let finished = finish-IsValid (some k) ((begin (some k) r).1) begun in
    let counts : count_of j (finish (some k) ((begin (some k) r).1)) ≡ count_of j r =
      ground (arith, begin_count k j r, finish_count k j ((begin (some k) r).1) begun, accepted) in
    (
      counts,
      rw
          (
            contains_count j (finish (some k) ((begin (some k) r).1)) finished,
            contains_count j r v,
            counts,
          )
          refl,
    )

pub data Call : Type 0 where
  begins finishes : Key → Call

abbrev pub run : List Call → McpRequestRegistry → McpRequestRegistry
run [] r = r
run (begins key ∷ cs) r = run cs ((begin key r).1)
run (finishes key ∷ cs) r = run cs (finish key r)

run-IsValid : (cs : List Call) (r : McpRequestRegistry) → IsValid r → IsValid (run cs r)
run-IsValid [] r v = v
run-IsValid (begins key ∷ cs) r v = run-IsValid cs ((begin key r).1) (begin-IsValid key r v)
run-IsValid (finishes key ∷ cs) r v = run-IsValid cs (finish key r) (finish-IsValid key r v)

-- After any requests begin and finish, a new registry has distinct keys, no more than its capacity,
-- and at least one active request for each.
pub registry_run-IsValid : (max_active : ℕ) (cs : List Call) → IsValid (run cs (init max_active))
registry_run-IsValid max_active cs =
    run-IsValid cs (init max_active) (record { distinct = tt; bounded = omega arith; counted = tt })
