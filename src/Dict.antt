-- ===== src/Dict.antt =====
-- Python's `dict` and `OrderedDict` with text keys: an association list in insertion order, the
-- oldest entry first.
use sns_media_list.Prelude.{
  ℕ, ◌+◌, ◌≤◌, String, ◌≡◌, refl, false, Option, none, some, List, [], ◌∷◌, ◌++◌, arith, str_eq,
  eq_iff, if◌then◌else◌, length, length-append, ◌<◌, Bool-cases, inl, inr,
}

abbrev pub Dict {ℓ} : Type ℓ → Type ℓ
Dict V = List (String × V)

module _ {ℓ} {V : Type ℓ} where
  -- d.get(k)
  unfoldable pub get : String → Dict V → Option V
  get k [] = none
  get k ((j, v) ∷ d) = if str_eq j k then some v else get k d

  -- d.pop(k, None), del d[k]
  unfoldable pub remove : String → Dict V → Dict V
  remove k [] = []
  remove k ((j, v) ∷ d) = if str_eq j k then d else (j, v) ∷ remove k d

  -- d[k] = v: a present key keeps its place, a new one goes to the end
  unfoldable pub set : String → V → Dict V → Dict V
  set k v [] = (k, v) ∷ []
  set k v ((j, w) ∷ d) = if str_eq j k then (j, v) ∷ d else (j, w) ∷ set k v d

  -- An entry at the end of the order, for a key that is absent.
  abbrev pub append : String → V → Dict V → Dict V
  append k v d = d ++ (k, v) ∷ []

  abbrev pub Distinct : Dict V → Type ℓ
  Distinct [] = Unit
  Distinct ((k, v) ∷ d) = (get k d ≡ none) × Distinct d

  -- the sum of a weight over the values
  abbrev pub total : (V → ℕ) → Dict V → ℕ
  total w [] = 0
  total w ((k, v) ∷ d) = w v + total w d

  abbrev pub weight? : (V → ℕ) → Option V → ℕ
  weight? w none = 0
  weight? w (some v) = w v

module _ {ℓ} {V : Type ℓ} where
  pub get-remove_ne :
      (k j : String) (d : Dict V) → str_eq k j ≡ false → get j (remove k d) ≡ get j d
  unfolding get remove
  get-remove_ne k j [] h = refl
  get-remove_ne k j ((i, v) ∷ d) h =
      ground (arith, get-remove_ne k j d h, eq_iff i k, eq_iff i j, eq_iff k j)

  pub get-remove_self : (k : String) (d : Dict V) → Distinct d → get k (remove k d) ≡ none
  unfolding get remove
  get-remove_self k [] h = refl
  get-remove_self k ((i, v) ∷ d) h = ground (arith, get-remove_self k d h.1, eq_iff i k)

  -- what is absent stays absent
  pub get-remove-none : (k j : String) (d : Dict V) → get j d ≡ none → get j (remove k d) ≡ none
  unfolding get remove
  get-remove-none k j [] h = refl
  get-remove-none k j ((i, v) ∷ d) h = ground (arith, get-remove-none k j d, eq_iff i k, eq_iff i j)

  pub remove-Distinct : (k : String) (d : Dict V) → Distinct d → Distinct (remove k d)
  unfolding remove
  remove-Distinct k [] h = tt
  remove-Distinct k ((i, v) ∷ d) h =
      ground (arith, remove-Distinct k d h.1, get-remove-none k i d h.0)

  pub get-append :
      (k j : String) (v : V) (d : Dict V)
      → get j (append k v d)
        ≡ (elim (get j d) [ none ↦ if str_eq k j then some v else none | some w ↦ some w ])
  unfolding get
  get-append k j v [] = ground arith
  get-append k j v ((i, w) ∷ d) = ground (arith, get-append k j v d)

  pub append-Distinct :
      (k : String) (v : V) (d : Dict V) → get k d ≡ none → Distinct d → Distinct (append k v d)
  unfolding get
  append-Distinct k v [] h u = (refl, tt)
  append-Distinct k v ((i, w) ∷ d) h u =
      ground (arith, append-Distinct k v d, get-append k i v d, eq_iff i k, eq_iff k i)

  pub get-set :
      (k j : String) (v : V) (d : Dict V)
      → get j (set k v d) ≡ (if str_eq k j then some v else get j d)
  unfolding get set
  get-set k j v [] = refl
  get-set k j v ((i, w) ∷ d) = ground (arith, eq_iff k j, eq_iff i k, eq_iff i j, get-set k j v d)

  pub set-Distinct : (k : String) (v : V) (d : Dict V) → Distinct d → Distinct (set k v d)
  unfolding get set
  set-Distinct k v [] u = (refl, tt)
  set-Distinct k v ((i, w) ∷ d) u =
      ground (arith, set-Distinct k v d u.1, get-set k i v d, eq_iff i k, eq_iff k i)

  pub total-remove :
      (w : V → ℕ) (k : String) (d : Dict V) → total w (remove k d) + weight? w (get k d) ≡ total w d
  unfolding get remove
  total-remove w k [] = refl
  total-remove w k ((i, v) ∷ d) = ground (arith, total-remove w k d)

  pub total-append :
      (w : V → ℕ) (k : String) (v : V) (d : Dict V) → total w (append k v d) ≡ total w d + w v
  total-append w k v [] = omega arith
  total-append w k v ((i, u) ∷ d) = omega (arith, total-append w k v d)

  pub total-set :
      (w : V → ℕ) (k : String) (v : V) (d : Dict V)
      → total w (set k v d) + weight? w (get k d) ≡ total w d + w v
  unfolding get set
  total-set w k v [] = omega arith
  total-set w k v ((i, u) ∷ d) = ground (arith, total-set w k v d)

-- a predicate of every value
abbrev pub Every {ℓ κ} : {V : Type ℓ} → (V → Type κ) → Dict V → Type κ
Every P [] = Unit
Every P ((k, v) ∷ d) = P v × Every P d

module _ {ℓ κ} {V : Type ℓ} (P : V → Type κ) where
  pub Every-get : (k : String) (d : Dict V) (v : V) → get k d ≡ some v → Every P d → P v
  unfolding get
  Every-get k [] v e h = cc
  Every-get k ((i, w) ∷ d) v e h = elim (Bool-cases (str_eq i k)) [
    | inl p ↦ let s : w ≡ v = ground arith in rw (← s) h.0
    | inr p ↦ Every-get k d v (ground arith) h.1
  ]

  pub Every-remove : (k : String) (d : Dict V) → Every P d → Every P (remove k d)
  unfolding remove
  Every-remove k [] h = tt
  Every-remove k ((i, w) ∷ d) h = elim (Bool-cases (str_eq i k)) [
    | inl p ↦ rw p h.1
    | inr p ↦ rw p (h.0, Every-remove k d h.1)
  ]

  pub Every-append : (k : String) (v : V) (d : Dict V) → P v → Every P d → Every P (append k v d)
  Every-append k v [] p h = (p, tt)
  Every-append k v ((i, w) ∷ d) p h = (h.0, Every-append k v d p h.1)

  pub Every-set : (k : String) (v : V) (d : Dict V) → P v → Every P d → Every P (set k v d)
  unfolding set
  Every-set k v [] p h = (p, tt)
  Every-set k v ((i, w) ∷ d) p h = elim (Bool-cases (str_eq i k)) [
    | inl q ↦ rw q (p, h.1)
    | inr q ↦ rw q (h.0, Every-set k v d p h.1)
  ]

module _ {ℓ} {V : Type ℓ} where
  pub length-remove_le : (k : String) (d : Dict V) → length (remove k d) ≤ length d
  unfolding remove
  length-remove_le k [] = omega arith
  length-remove_le k ((i, w) ∷ d) = ground (arith, length-remove_le k d)

  -- removing a key that is present frees one place
  pub length-remove :
      (k : String) (d : Dict V) (v : V) → get k d ≡ some v → length (remove k d) + 1 ≡ length d
  unfolding get remove
  length-remove k [] v e = cc
  length-remove k ((i, w) ∷ d) v e = ground (arith, length-remove k d v)

  -- one more entry fits where there is room
  pub length-append_le :
      (k : String) (v : V) (d : Dict V) (cap : ℕ) → length d < cap → length (append k v d) ≤ cap
  length-append_le k v d cap h = omega (arith, length-append d ((k, v) ∷ []))

pub Every-map {ℓ κ μ} :
    {V : Type ℓ} (P : V → Type κ) (Q : V → Type μ) (d : Dict V)
    → ((v : V) → P v → Q v)
    → Every P d
    → Every Q d
Every-map P Q [] f h = tt
Every-map P Q ((k, v) ∷ d) f h = (f v h.0, Every-map P Q d f h.1)

pub get-append_absent {ℓ} :
    {V : Type ℓ} (k : String) (v : V) (d : Dict V) → get k d ≡ none → get k (append k v d) ≡ some v
get-append_absent k v d e = rw (get-append k k v d, e) (ground (arith, eq_iff k k))

pub get-append_ne {ℓ} :
    {V : Type ℓ} (k j : String) (v : V) (d : Dict V)
    → str_eq k j ≡ false
    → get j (append k v d) ≡ get j d
get-append_ne k j v d e = rw (get-append k j v d) (ground arith)

-- a new key takes one more place
pub length-set {ℓ} :
    {V : Type ℓ} (k : String) (v : V) (d : Dict V)
    → get k d ≡ none
    → length (set k v d) ≡ length d + 1
unfolding get set
length-set k v [] e = refl
length-set k v ((i, w) ∷ d) e = ground (arith, length-set k v d)

pub length-set_le {ℓ} :
    {V : Type ℓ} (k : String) (v : V) (d : Dict V) → length (set k v d) ≤ length d + 1
unfolding set
length-set_le k v [] = omega arith
length-set_le k v ((i, w) ∷ d) = ground (arith, length-set_le k v d)
