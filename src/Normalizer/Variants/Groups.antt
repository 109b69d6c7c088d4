-- ===== src/Normalizer/Variants/Groups.antt =====
-- src/sns_media_list/extractor/normalizer.py: the groups hold the items of their keys.
use sns_media_list.Models.{instagram, x}
use sns_media_list.Normalizer.Variants.{
  GalleryItem, Key, key_of, same_platform, key_eq, Group, add_to_group, group_items, of_key,
}
use sns_media_list.Prelude.{
  ◌≡◌, refl, sym, inl, inr, true, false, List, [], ◌∷◌, ◌++◌, if◌then◌else◌, arith, ap, subst,
  Bool-cases, append_assoc, append_nil, all,
}
use sns_media_list.Text.{text_eq→≡, text_eq_refl}

pub key_eq_refl : (k : Key) → key_eq k k ≡ true
unfolding key_eq same_platform
key_eq_refl (instagram, s, i) = ground (arith, text_eq_refl s)
key_eq_refl (x, s, i) = ground (arith, text_eq_refl s)

pub key_eq→≡ : (k l : Key) → key_eq k l ≡ true → k ≡ l
unfolding key_eq same_platform
key_eq→≡ (instagram, s, i) (instagram, t, j) h = ground (arith, text_eq→≡ s t)
key_eq→≡ (x, s, i) (x, t, j) h = ground (arith, text_eq→≡ s t)
key_eq→≡ (instagram, s, i) (x, t, j) h = absurd (ground arith)
key_eq→≡ (x, s, i) (instagram, t, j) h = absurd (ground arith)

-- The items of the first group of a key.
unfoldable pub members : Key → List Group → List GalleryItem
members k [] = []
members k ((first, others) ∷ groups) =
    if key_eq k (key_of first) then first ∷ others else members k groups

members-add_to_group :
    (k : Key) (item : GalleryItem) (groups : List Group)
    → members k (add_to_group item groups)
      ≡ members k groups ++ (if key_eq k (key_of item) then item ∷ [] else [])
unfolding members add_to_group
members-add_to_group k item [] = elim (Bool-cases (key_eq k (key_of item))) [
  | inl same ↦ rw (same) refl
  | inr other ↦ rw (other) refl
]
members-add_to_group k item ((first, others) ∷ groups) =
    elim (Bool-cases (key_eq (key_of first) (key_of item))) [
      | inl same ↦
          let path : key_of first ≡ key_of item = key_eq→≡ (key_of first) (key_of item) same in
          let matches : key_eq k (key_of first) ≡ key_eq k (key_of item) = ap (key_eq k) path in
          elim (Bool-cases (key_eq k (key_of item))) [
            | inl here ↦ rw (same, matches, here, members) refl
            | inr elsewhere ↦
                rw (same, matches, elsewhere, members) (sym (append_nil (members k groups)))
          ]
      | inr different ↦ elim (Bool-cases (key_eq k (key_of first))) [
        | inl here ↦
            let other : key_eq k (key_of item) ≡ false =
              subst (λ (l : Key). key_eq l (key_of item) ≡ false)
                (sym (key_eq→≡ k (key_of first) here)) different in
            rw (different, here, other, members) (sym (append_nil (first ∷ others)))
        | inr elsewhere ↦ rw (different, elsewhere, members) (members-add_to_group k item groups)
      ]
    ]

pub members-group_items :
    (k : Key) (groups : List Group) (items : List GalleryItem)
    → members k (group_items groups items) ≡ members k groups ++ of_key k items
unfolding group_items of_key
members-group_items k groups [] = sym (append_nil (members k groups))
members-group_items k groups (item ∷ items) =
    let ih = members-group_items k (add_to_group item groups) items in
    let added = members-add_to_group k item groups in
    elim (Bool-cases (key_eq k (key_of item))) [
      | inl here ↦
          let now : members k (add_to_group item groups) ≡ members k groups ++ (item ∷ []) =
            rw here at added in
          rw (ih, now, here, of_key) (append_assoc (members k groups) (item ∷ []) (of_key k items))
      | inr elsewhere ↦
          let now : members k (add_to_group item groups) ≡ members k groups =
            rw (elsewhere, append_nil (members k groups)) at added in
          rw (ih, now, elsewhere, of_key) refl
    ]

-- Each group holds items of one key, and no two groups are of the same key.
abbrev pub AreGrouped : List Group → Type 0
AreGrouped [] = Unit {0}
AreGrouped ((first, others) ∷ groups) =
    (all (λ item. key_eq (key_of first) (key_of item)) others ≡ true)
    × ((members (key_of first) groups ≡ []) × AreGrouped groups)

all_same-append :
    (k : Key) (others : List GalleryItem) (item : GalleryItem)
    → all (λ i. key_eq k (key_of i)) others ≡ true
    → key_eq k (key_of item) ≡ true
    → all (λ i. key_eq k (key_of i)) (others ++ (item ∷ [])) ≡ true
all_same-append k [] item h e = ground (arith, e)
all_same-append k (other ∷ others) item h e = ground (arith, all_same-append k others item, e)

AreGrouped-add_to_group :
    (item : GalleryItem) (groups : List Group)
    → AreGrouped groups
    → AreGrouped (add_to_group item groups)
unfolding add_to_group members
AreGrouped-add_to_group item [] h = (refl, (refl, tt))
AreGrouped-add_to_group item ((first, others) ∷ groups) (same_keys, (alone, h)) =
    elim (Bool-cases (key_eq (key_of first) (key_of item))) [
      | inl same ↦
          rw (same, add_to_group)
            (all_same-append (key_of first) others item same_keys same, (alone, h))
      | inr different ↦
          let added = members-add_to_group (key_of first) item groups in
          let still : members (key_of first) (add_to_group item groups) ≡ [] =
            rw (different, alone) at added in
          rw (different, add_to_group) (same_keys, (still, AreGrouped-add_to_group item groups h))
    ]

pub AreGrouped-group_items :
    (groups : List Group) (items : List GalleryItem)
    → AreGrouped groups
    → AreGrouped (group_items groups items)
unfolding group_items
AreGrouped-group_items groups [] h = h
AreGrouped-group_items groups (item ∷ items) h =
    AreGrouped-group_items (add_to_group item groups) items (AreGrouped-add_to_group item groups h)
