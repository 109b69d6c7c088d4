-- ===== src/Errors/Statuses.antt =====
-- The HTTP statuses of the extractor diagnostics (src/sns_media_list/errors.py).
use sns_media_list.Prelude.{
  ℕ, suc, ◌≤◌, ◌≡◌, refl, ap, ◌∙◌, Bool, ◌||◌, some, List, [], ◌∷◌, arith, length, any, ◌==◌,
  Option-cases, inl, inr,
}
use sns_media_list.Python.{pos, Value, integer, array, fixed, Values, nil, cons}
use sns_media_list.Errors.Diagnostics.{
  status_items, insert_status, sorted_set, normalize_statuses, normalize_http_statuses,
  values_length,
}

-- rises strictly, from `lo` on
abbrev pub Rising : ℕ → List ℕ → Type 0
Rising lo [] = Unit {0}
Rising lo (x ∷ l) = (lo ≤ x) × Rising (suc x) l

abbrev pub Under : ℕ → List ℕ → Type 0
Under hi [] = Unit {0}
Under hi (x ∷ l) = (x ≤ hi) × Under hi l

abbrev Within : ℕ → ℕ → List ℕ → Type 0
Within lo hi [] = Unit {0}
Within lo hi (x ∷ l) = (lo ≤ x) × (x ≤ hi) × Within lo hi l

abbrev pub has : ℕ → List ℕ → Bool
has n = any (λ m. m == n)

insert_status-Rising :
    (lo n : ℕ) (l : List ℕ) → lo ≤ n → Rising lo l → Rising lo (insert_status n l)
unfolding insert_status
insert_status-Rising lo n [] h r = (h, tt)
insert_status-Rising lo n (m ∷ l) h r = ground (arith, insert_status-Rising (suc m) n l)

insert_status-Under : (hi n : ℕ) (l : List ℕ) → n ≤ hi → Under hi l → Under hi (insert_status n l)
unfolding insert_status
insert_status-Under hi n [] h r = (h, tt)
insert_status-Under hi n (m ∷ l) h r = ground (arith, insert_status-Under hi n l)

has-insert_status : (x n : ℕ) (l : List ℕ) → has x (insert_status n l) ≡ (n == x || has x l)
unfolding insert_status
has-insert_status x n [] = refl
has-insert_status x n (m ∷ l) = ground (arith, has-insert_status x n l)

length-insert_status :
    (n : ℕ) (l : List ℕ)
    → (1 ≤ length (insert_status n l)) × (length (insert_status n l) ≤ suc (length l))
unfolding insert_status
length-insert_status n [] = omega arith
length-insert_status n (m ∷ l) = ground (arith, length-insert_status n l)

sorted_set-Rising : (lo hi : ℕ) (l : List ℕ) → Within lo hi l → Rising lo (sorted_set l)
unfolding sorted_set
sorted_set-Rising lo hi [] w = tt
sorted_set-Rising lo hi (n ∷ l) w =
    insert_status-Rising lo n (sorted_set l) w.0 (sorted_set-Rising lo hi l w.2)

sorted_set-Under : (lo hi : ℕ) (l : List ℕ) → Within lo hi l → Under hi (sorted_set l)
unfolding sorted_set
sorted_set-Under lo hi [] w = tt
sorted_set-Under lo hi (n ∷ l) w =
    insert_status-Under hi n (sorted_set l) w.1 (sorted_set-Under lo hi l w.2)

has-sorted_set : (x : ℕ) (l : List ℕ) → has x (sorted_set l) ≡ has x l
unfolding sorted_set
has-sorted_set x [] = refl
has-sorted_set x (n ∷ l) = ground (arith, has-insert_status x n (sorted_set l), has-sorted_set x l)

length-sorted_set : (l : List ℕ) → length (sorted_set l) ≤ length l
unfolding sorted_set
length-sorted_set [] = omega arith
length-sorted_set (n ∷ l) =
    omega (arith, length-sorted_set l, length-insert_status n (sorted_set l))

sorted_set-nonempty : (l : List ℕ) → 1 ≤ length l → 1 ≤ length (sorted_set l)
unfolding sorted_set
sorted_set-nonempty [] h = h
sorted_set-nonempty (n ∷ l) h = omega (arith, length-insert_status n (sorted_set l))

status_items-Within :
    (vs : Values) (l : List ℕ)
    → status_items vs ≡ some l
    → Within 100 599 l × (length l ≡ values_length vs)
unfolding status_items
status_items-Within nil l h = ground arith
status_items-Within (cons (integer (pos n)) vs) [] h = ground arith
status_items-Within (cons (integer (pos n)) vs) (m ∷ l) h = ground (arith, status_items-Within vs l)
status_items-Within (cons _ vs) l h = cc

-- what the normalized statuses satisfy
pub record IsStatusList (l : List ℕ) : Type 0 where
  pub rising : Rising 100 l
  pub under : Under 599 l
  pub nonempty : 1 ≤ length l
  pub bounded : length l ≤ 8

normalize_statuses-IsStatusList :
    (vs : Values) (l : List ℕ) → normalize_statuses vs ≡ some l → IsStatusList l
unfolding normalize_statuses
normalize_statuses-IsStatusList vs l h = elim (Option-cases (status_items vs)) [
  | inl e ↦ absurd (ground arith)
  | inr (k, e) ↦
      let w = status_items-Within vs k e in
      let s : l ≡ sorted_set k = ground arith in
      rw s (record {
        rising = sorted_set-Rising 100 599 k w.0;
        under = sorted_set-Under 100 599 k w.0;
        nonempty = ground (arith, sorted_set-nonempty k);
        bounded = ground (arith, length-sorted_set k);
      })
]

-- Whatever value is given, the statuses that are kept rise strictly from 100 to 599, and there are
-- one to eight of them.
pub normalize_http_statuses-IsStatusList :
    (v : Value) (l : List ℕ) → normalize_http_statuses v ≡ some l → IsStatusList l
unfolding normalize_http_statuses
normalize_http_statuses-IsStatusList (array vs) l h = normalize_statuses-IsStatusList vs l h
normalize_http_statuses-IsStatusList (fixed vs) l h = normalize_statuses-IsStatusList vs l h
normalize_http_statuses-IsStatusList _ l h = cc

-- The tuple that the diagnostics keep, as the value that a second normalization is given.
abbrev pub status_values : List ℕ → Values
status_values [] = nil
status_values (n ∷ l) = cons (integer (pos n)) (status_values l)

values_length-status_values : (l : List ℕ) → values_length (status_values l) ≡ length l
values_length-status_values [] = refl
values_length-status_values (n ∷ l) = ap suc (values_length-status_values l)

status_items-status_values :
    (lo : ℕ) (l : List ℕ)
    → 100 ≤ lo
    → Rising lo l
    → Under 599 l
    → status_items (status_values l) ≡ some l
unfolding status_items
status_items-status_values lo [] h r u = refl
status_items-status_values lo (n ∷ l) h r u =
    ground (arith, status_items-status_values (suc n) l (omega arith) r.1 u.1)

insert_status_least : (n : ℕ) (l : List ℕ) → Rising (suc n) l → insert_status n l ≡ n ∷ l
unfolding insert_status
insert_status_least n [] r = refl
insert_status_least n (m ∷ l) r = ground arith

sorted_set_of_Rising : (lo : ℕ) (l : List ℕ) → Rising lo l → sorted_set l ≡ l
unfolding sorted_set
sorted_set_of_Rising lo [] r = refl
sorted_set_of_Rising lo (n ∷ l) r =
    ap (insert_status n) (sorted_set_of_Rising (suc n) l r.1) ∙ insert_status_least n l r.1

-- Normalizing the statuses that a normalization kept gives them back unchanged, as when an
-- `AppError` is given diagnostics that are already normalized.
pub normalize_http_statuses_idem :
    (v : Value) (l : List ℕ)
    → normalize_http_statuses v ≡ some l
    → normalize_http_statuses (fixed (status_values l)) ≡ some l
unfolding normalize_http_statuses normalize_statuses
normalize_http_statuses_idem v l h =
    let s = normalize_http_statuses-IsStatusList v l h in
    ground (
      arith,
      values_length-status_values l,
      status_items-status_values 100 l (omega arith) s.rising s.under,
      sorted_set_of_Rising 100 l s.rising,
      s.nonempty,
      s.bounded,
    )
