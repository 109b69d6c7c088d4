-- ===== src/Normalizer/Variants/Order.antt =====
-- src/sns_media_list/extractor/normalizer.py: the selected items are sorted by their index.
use sns_media_list.Normalizer.Variants.{
  GalleryItem, Key, key_of, key_eq, insert_by_index, sort_by_index, of_key,
}
use sns_media_list.Normalizer.Variants.Groups.{key_eq→≡}
use sns_media_list.Prelude.{
  ◌∙◌, ℕ, ◌≡◌, ◌≤◌, refl, sym, inl, inr, List, [], ◌∷◌, leb, arith, ap, Bool-cases,
}

-- The indexes do not fall, and the first is not below a number.
abbrev pub IsSortedFrom : ℕ → List GalleryItem → Type 0
IsSortedFrom n [] = Unit {0}
IsSortedFrom n (item ∷ items) = (n ≤ item.index) × IsSortedFrom (item.index) items

IsSortedFrom-insert_by_index :
    (n : ℕ) (item : GalleryItem) (items : List GalleryItem)
    → n ≤ item.index
    → IsSortedFrom n items
    → IsSortedFrom n (insert_by_index item items)
unfolding insert_by_index
IsSortedFrom-insert_by_index n item [] h s = (h, tt)
IsSortedFrom-insert_by_index n item (other ∷ others) h (m, s) =
    elim (Bool-cases (leb (item.index) (other.index))) [
      | inl before ↦ rw (before, insert_by_index) (h, (ground arith, s))
      | inr after ↦
          rw (after, insert_by_index)
            (m, IsSortedFrom-insert_by_index (other.index) item others (ground arith) s)
    ]

pub IsSortedFrom-sort_by_index : (items : List GalleryItem) → IsSortedFrom 0 (sort_by_index items)
unfolding sort_by_index
IsSortedFrom-sort_by_index [] = tt
IsSortedFrom-sort_by_index (item ∷ items) =
    IsSortedFrom-insert_by_index 0 item (sort_by_index items) (omega arith)
      (IsSortedFrom-sort_by_index items)

-- Items of one key have one index, so that sorting keeps their order.
of_key-insert_by_index :
    (k : Key) (item : GalleryItem) (items : List GalleryItem)
    → of_key k (insert_by_index item items) ≡ of_key k (item ∷ items)
unfolding insert_by_index of_key
of_key-insert_by_index k item [] = refl
of_key-insert_by_index k item (other ∷ others) =
    elim (Bool-cases (leb (item.index) (other.index))) [
      | inl before ↦ rw (before, insert_by_index) refl
      | inr after ↦
          let ih = of_key-insert_by_index k item others in
          elim (Bool-cases (key_eq k (key_of item))) [
            | inl here ↦ elim (Bool-cases (key_eq k (key_of other))) [
              | inl there ↦
                  let same : key_of item ≡ key_of other =
                    sym (key_eq→≡ k (key_of item) here) ∙ key_eq→≡ k (key_of other) there in
                  absurd (ground (arith, ap (λ (l : Key). l.2) same))
              | inr not_there ↦ ground (arith, ih)
            ]
            | inr elsewhere ↦ ground (arith, ih)
          ]
    ]

pub of_key-sort_by_index :
    (k : Key) (items : List GalleryItem) → of_key k (sort_by_index items) ≡ of_key k items
unfolding sort_by_index of_key
of_key-sort_by_index k [] = refl
of_key-sort_by_index k (item ∷ items) =
    let placed = of_key-insert_by_index k item (sort_by_index items) in
    rw (placed, of_key-sort_by_index k items, of_key) refl
