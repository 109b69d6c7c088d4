-- ===== src/Normalizer/Variants.antt =====
-- src/sns_media_list/extractor/normalizer.py: `select_best_variants`.
pub mod Groups
pub mod Choices
pub mod Order
pub mod Selection
use sns_media_list.Int.{ℤ, pos, ltb_ℤ, eq_ℤ}
use sns_media_list.Models.{Platform, instagram, x, MediaType}
use sns_media_list.Prelude.{
  ℕ, Bool, true, false, ◌&&◌, ◌||◌, Option, none, some, String, List, [], ◌∷◌, ◌++◌, map,
  if◌then◌else◌, ltb, leb, ◌==◌,
}
use sns_media_list.Text.{Text, text_eq}

-- A float: its text, which is only carried, and whether it is at least 0.
pub record Duration : Type 0 where
  pub text : Text
  pub is_at_least_zero : Bool

-- An index is at least 1 where a record is parsed; the other numbers can be negative.
pub record GalleryItem : Type 0 where
  pub platform : Platform
  pub post_url : Text
  pub post_id : Text
  pub index : ℕ
  pub media_type : MediaType
  pub source_url : Option Text
  pub author : Option Text
  pub description : Option Text
  pub preview_url : Option Text
  pub extension : Text
  pub width : Option ℤ
  pub height : Option ℤ
  pub duration : Option Duration
  pub progressive : Bool
  pub bitrate : ℤ
  pub extractor_type : ℤ

-- The key of a group: (platform, post_id, index).
abbrev pub Key : Type 0
Key = Platform × Text × ℕ

abbrev pub key_of : GalleryItem → Key
key_of item = (item.platform, item.post_id, item.index)

unfoldable pub same_platform : Platform → Platform → Bool
same_platform instagram instagram = true
same_platform x x = true
same_platform _ _ = false

unfoldable pub key_eq : Key → Key → Bool
unfolding same_platform text_eq
key_eq (p, s, i) (q, t, j) = same_platform p q && text_eq s t && i == j

-- A group is its first item, whose key is the group's, and the others.
abbrev pub Group : Type 0
Group = GalleryItem × List GalleryItem

-- grouped[key].append(item)
unfoldable pub add_to_group : GalleryItem → List Group → List Group
unfolding key_eq
add_to_group item [] = (item, []) ∷ []
add_to_group item ((first, others) ∷ groups) =
    if key_eq (key_of first) (key_of item)
    then (first, others ++ (item ∷ [])) ∷ groups
    else (first, others) ∷ add_to_group item groups

unfoldable pub group_items : List Group → List GalleryItem → List Group
unfolding add_to_group
group_items groups [] = groups
group_items groups (item ∷ items) = group_items (add_to_group item groups) items

-- value or 0
abbrev pub or_zero : Option ℤ → ℤ
or_zero none = pos 0
or_zero (some n) = n

-- The key by which `max` compares the variants of a platform.
abbrev pub rank : Platform → GalleryItem → ℤ × ℤ × ℤ
rank instagram item = (or_zero (item.width), or_zero (item.height), item.extractor_type)
rank x item = (item.bitrate, or_zero (item.width), or_zero (item.height))

-- The order of triples of integers.
unfoldable pub is_below : ℤ × ℤ × ℤ → ℤ × ℤ × ℤ → Bool
is_below (a, b, c) (d, e, f) = ltb_ℤ a d || eq_ℤ a d && (ltb_ℤ b e || eq_ℤ b e && ltb_ℤ c f)

-- max: the first of the greatest items
unfoldable pub max_by : Platform → GalleryItem → List GalleryItem → GalleryItem
unfolding is_below
max_by p best [] = best
max_by p best (item ∷ items) =
    max_by p (if is_below (rank p best) (rank p item) then item else best) items

abbrev pub choice : Group → GalleryItem
choice (first, others) = max_by (first.platform) first others

-- sorted by index, which keeps the order of items of the same index
unfoldable pub insert_by_index : GalleryItem → List GalleryItem → List GalleryItem
insert_by_index item [] = item ∷ []
insert_by_index item (other ∷ others) =
    if leb (item.index) (other.index)
    then item ∷ other ∷ others
    else other ∷ insert_by_index item others

unfoldable pub sort_by_index : List GalleryItem → List GalleryItem
unfolding insert_by_index
sort_by_index [] = []
sort_by_index (item ∷ items) = insert_by_index item (sort_by_index items)

unfoldable pub select_best_variants : List GalleryItem → List GalleryItem
unfolding group_items max_by sort_by_index
select_best_variants items = sort_by_index (map choice (group_items [] items))

-- The items of a key.
unfoldable pub of_key : Key → List GalleryItem → List GalleryItem
unfolding key_eq
of_key k [] = []
of_key k (item ∷ items) = if key_eq k (key_of item) then item ∷ of_key k items else of_key k items
