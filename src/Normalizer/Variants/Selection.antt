-- ===== src/Normalizer/Variants/Selection.antt =====
-- src/sns_media_list/extractor/normalizer.py: what `select_best_variants` selects.
use sns_media_list.Normalizer.Variants.{
  GalleryItem, Key, key_of, key_eq, Group, group_items, choice, select_best_variants, of_key,
}
use sns_media_list.Normalizer.Variants.Choices.{IsAmong, here, there, IsGreatest, max_by-IsGreatest}
use sns_media_list.Normalizer.Variants.Groups.{
  key_eq→≡, key_eq_refl, members, members-group_items, AreGrouped, AreGrouped-group_items,
}
use sns_media_list.Normalizer.Variants.Order.{
  IsSortedFrom, IsSortedFrom-sort_by_index, of_key-sort_by_index,
}
use sns_media_list.Prelude.{
  ◌≡◌, refl, sym, inl, inr, true, List, [], ◌∷◌, map, all, arith, ap, subst, Bool-cases,
}

-- What is selected of the items of a key: nothing where there are none, and else one of them, of
-- which none ranks above it.
abbrev pub IsChosen : List GalleryItem → List GalleryItem → Type 0
IsChosen [] selected = selected ≡ []
IsChosen (first ∷ others) selected =
    (best : GalleryItem) × ((selected ≡ best ∷ [])
      × IsGreatest (first.platform) (first ∷ others) best)

same_key_among :
    (k : Key) (c : GalleryItem) (items : List GalleryItem)
    → all (λ i. key_eq k (key_of i)) items ≡ true
    → IsAmong c items
    → key_eq k (key_of c) ≡ true
same_key_among k c _ h (here items) = ground (arith, h)
same_key_among k c _ h (there other items m) = same_key_among k c items (ground (arith, h)) m

choice_key :
    (first : GalleryItem) (others : List GalleryItem)
    → all (λ i. key_eq (key_of first) (key_of i)) others ≡ true
    → key_of first ≡ key_of (choice (first, others))
choice_key first others h =
    let greatest = max_by-IsGreatest (first.platform) first others in
    key_eq→≡ (key_of first) (key_of (choice (first, others))) (
      same_key_among (key_of first) (choice (first, others)) (first ∷ others)
        (ground (arith, key_eq_refl (key_of first), h)) (greatest.among))

choices-IsChosen :
    (k : Key) (groups : List Group)
    → AreGrouped groups
    → IsChosen (members k groups) (of_key k (map choice groups))
unfolding members of_key
choices-IsChosen k [] h = refl
choices-IsChosen k ((first, others) ∷ groups) (same_keys, (alone, h)) =
    let chosen = choice_key first others same_keys in
    let matches : key_eq k (key_of (choice (first, others))) ≡ key_eq k (key_of first) =
      ap (key_eq k) (sym chosen) in
    let ih = choices-IsChosen k groups h in
    elim (Bool-cases (key_eq k (key_of first))) [
      | inl found ↦
          let none_left : members k groups ≡ [] =
            subst (λ (l : Key). members l groups ≡ []) (sym (key_eq→≡ k (key_of first) found))
              alone in
          let empty : of_key k (map choice groups) ≡ [] =
            subst (λ (ms : List GalleryItem). IsChosen ms (of_key k (map choice groups))) none_left
              ih in
          rw (matches, found, empty, members, of_key)
            (choice (first, others), (refl, max_by-IsGreatest (first.platform) first others))
      | inr elsewhere ↦ rw (matches, elsewhere, members, of_key) ih
    ]

-- The selected items are sorted by index; and of the items of each key, one is selected, of which
-- none ranks above it, or none where there are none.
pub select_best_variants-IsChosen :
    (items : List GalleryItem) (k : Key)
    → IsSortedFrom 0 (select_best_variants items)
      × IsChosen (of_key k items) (of_key k (select_best_variants items))
unfolding select_best_variants members
select_best_variants-IsChosen items k =
    let groups = group_items [] items in
    (
      IsSortedFrom-sort_by_index (map choice groups),
      rw (of_key-sort_by_index k (map choice groups)) (
          subst (λ (ms : List GalleryItem). IsChosen ms (of_key k (map choice groups)))
            (members-group_items k [] items)
            (choices-IsChosen k groups (AreGrouped-group_items [] items tt))),
    )
