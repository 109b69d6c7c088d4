-- ===== src/Normalizer/Variants/Choices.antt =====
-- src/sns_media_list/extractor/normalizer.py: `max` over the variants of a key.
use sns_media_list.Int.{ℤ, ltb_ℤ, eq_ℤ}
use sns_media_list.Models.{Platform}
use sns_media_list.Normalizer.Variants.{GalleryItem, rank, is_below, max_by}
use sns_media_list.Prelude.{
  ◌≡◌, refl, inl, inr, Bool, true, false, ◌||◌, ◌&&◌, not, List, [], ◌∷◌, all, arith, Bool-cases,
}

-- The item is one of the list, by its place in it.
pub data IsAmong (item : GalleryItem) : List GalleryItem → Type 0 where
  here : (items : List GalleryItem) → IsAmong item (item ∷ items)
  there :
      (other : GalleryItem) (items : List GalleryItem)
      → IsAmong item items
      → IsAmong item (other ∷ items)

abbrev pub is_no_better : Platform → GalleryItem → GalleryItem → Bool
is_no_better p best item = not (is_below (rank p best) (rank p item))

-- The item is one of those, and none of those ranks above it.
pub record IsGreatest (p : Platform) (items : List GalleryItem) (best : GalleryItem) : Type 0 where
  pub among : IsAmong best items
  pub greatest : all (is_no_better p best) items ≡ true

-- One place of the order: the test of the places after it is `rest`.
abbrev first_below : ℤ → ℤ → Bool → Bool
first_below a b rest = ltb_ℤ a b || eq_ℤ a b && rest

first_below_trans :
    (a b c : ℤ) (ab cb ca : Bool)
    → (ab ≡ true → cb ≡ false → ca ≡ false)
    → first_below a b ab ≡ true
    → first_below c b cb ≡ false
    → first_below c a ca ≡ false
first_below_trans a b c ab cb ca rest h k = ground arith

first_above_trans :
    (a b c : ℤ) (ab ca cb : Bool)
    → (ab ≡ false → ca ≡ false → cb ≡ false)
    → first_below a b ab ≡ false
    → first_below c a ca ≡ false
    → first_below c b cb ≡ false
first_above_trans a b c ab ca cb rest h k = ground arith

below_trans :
    (a b c : ℤ × ℤ × ℤ) → is_below a b ≡ true → is_below c b ≡ false → is_below c a ≡ false
unfolding is_below
below_trans (a1, a2, a3) (b1, b2, b3) (c1, c2, c3) =
    first_below_trans a1 b1 c1 _ _ _ (first_below_trans a2 b2 c2 _ _ _ (λ h k. ground arith))

above_trans :
    (a b c : ℤ × ℤ × ℤ) → is_below a b ≡ false → is_below c a ≡ false → is_below c b ≡ false
unfolding is_below
above_trans (a1, a2, a3) (b1, b2, b3) (c1, c2, c3) =
    first_above_trans a1 b1 c1 _ _ _ (first_above_trans a2 b2 c2 _ _ _ (λ h k. ground arith))

below_refl : (a : ℤ × ℤ × ℤ) → is_below a a ≡ false
unfolding is_below
below_refl (a, b, c) = ground arith

past_second :
    (c best item : GalleryItem) (items : List GalleryItem)
    → IsAmong c (best ∷ items)
    → IsAmong c (best ∷ item ∷ items)
past_second _ _ item items (here _) = here (item ∷ items)
past_second c best item items (there _ _ m) = there best (item ∷ items) (there item items m)

pub max_by-IsGreatest :
    (p : Platform) (best : GalleryItem) (items : List GalleryItem)
    → IsGreatest p (best ∷ items) (max_by p best items)
unfolding max_by
max_by-IsGreatest p best [] = record {
  among = here [];
  greatest = rw (below_refl (rank p best)) refl;
}
max_by-IsGreatest p best (item ∷ items) = elim (Bool-cases (is_below (rank p best) (rank p item))) [
  | inl better ↦
      rw (better, max_by)
        (let ih = max_by-IsGreatest p item items in
          let c = max_by p item items in
          record {
            among = there best (item ∷ items) (ih.among);
            greatest =
                ground (arith, ih.greatest, below_trans (rank p best) (rank p item) (rank p c));
          })
  | inr worse ↦
      rw (worse, max_by)
        (let ih = max_by-IsGreatest p best items in
          let c = max_by p best items in
          record {
            among = past_second c best item items (ih.among);
            greatest =
                ground (arith, ih.greatest, above_trans (rank p best) (rank p item) (rank p c));
          })
]
