-- ===== src/Normalizer/Examples.antt =====
-- Names of media files, and the normalization of small records.
use sns_media_list.Normalizer.Filenames.{build_media_filename}
use sns_media_list.Normalizer.Filenames.Safety.{IsSafeName, build_media_filename-IsSafeName}
use sns_media_list.Int.{ℤ, pos, negsuc}
use sns_media_list.Models.{video, x}
use sns_media_list.Normalizer.Extraction.{UrlLibrary}
use sns_media_list.Normalizer.Variants.{
  GalleryItem, select_best_variants, of_key, same_platform, is_below,
}
use sns_media_list.Normalizer.Variants.Order.{IsSortedFrom}
use sns_media_list.Normalizer.Variants.Selection.{IsChosen, select_best_variants-IsChosen}
use sns_media_list.Prelude.{ℕ, none, true, List, [], ◌∷◌, ◌≡◌, refl, false, some}
use sns_media_list.Text.{to_lower, codes, text_eq}

named :
    build_media_filename (codes "x") (some (codes "a/b ..c")) (codes "12") 3 (codes "J.PG") false
    ≡ codes "x-ab..c-12-03.jpg"
unfolding build_media_filename to_lower
named = refl

build_media_filename-IsSafeName_example :
    IsSafeName 160
      (build_media_filename (codes "x") (some (codes "a/b")) (codes "12") 3 (codes "J.PG") false)
build_media_filename-IsSafeName_example =
    build_media_filename-IsSafeName (codes "x") (some (codes "a/b")) (codes "12") 3 (codes "J.PG")
      false

abbrev variant_item : ℕ → ℤ → GalleryItem
variant_item index bitrate = record {
  platform = x;
  post_url = codes "https://x.com/a/status/1";
  post_id = codes "1";
  index = index;
  media_type = video;
  source_url = some (codes "https://video.twimg.com/a.mp4");
  author = some (codes "a");
  description = none;
  preview_url = none;
  extension = codes "mp4";
  width = some (pos 640);
  height = none;
  duration = none;
  progressive = true;
  bitrate = bitrate;
  extractor_type = pos 0;
}

abbrev variant_items : List GalleryItem
variant_items =
    variant_item 2 (negsuc 99) ∷ variant_item 1 (pos 300) ∷ variant_item 2 (pos 400) ∷ []

variants_selected :
    select_best_variants variant_items ≡ variant_item 1 (pos 300) ∷ variant_item 2 (pos 400) ∷ []
unfolding select_best_variants text_eq same_platform is_below
variants_selected = refl

select_best_variants-IsChosen_example :
    IsSortedFrom 0 (select_best_variants variant_items)
    × IsChosen
        (of_key (x, codes "1", 2) variant_items)
        (of_key (x, codes "1", 2) (select_best_variants variant_items))
select_best_variants-IsChosen_example =
    select_best_variants-IsChosen variant_items (x, codes "1", 2)

abbrev simple_urls : UrlLibrary
simple_urls = record {
  urlsplit = λ url. some (record {
    scheme = codes "https";
    username = none;
    password = none;
    hostname = some (codes "video.twimg.com");
    port = none;
    path = codes "/a.mp4";
    query = [];
    fragment = [];
  });
  port_is_invalid = λ url. false;
  parse_qsl = λ query. some [];
  urlencode = λ pairs. [];
  urlunsplit = λ parts. parts.path;
}
