-- ===== src/Thumbnails/Examples.antt =====
-- Tests of src/sns_media_list/services/thumbnail_cache.py, and its theorems at concrete inputs.
use sns_media_list.Thumbnails.Jpeg.{
  jpeg_dimensions, jpeg_dimensions_total, validate_generated_jpeg, IsJpeg,
  validate_generated_jpeg-IsJpeg,
}
use sns_media_list.Prelude.{ℕ, ◌≡◌, refl, true, false, Option, none, some, List, [], ◌∷◌, arith}
use sns_media_list.Dict
use sns_media_list.Text.{Text}
use sns_media_list.Errors.{ok, err}
use sns_media_list.Thumbnails.Cache
use sns_media_list.Thumbnails.Cache.{
  Bytes, ThumbnailCache, init, put_success, put_failure, remove_entry, unavailable, oldest,
}
use sns_media_list.Thumbnails.Cache.Stores.{IsValid}
use sns_media_list.Thumbnails.Cache.Invariant.{
  Call, gets, puts_success, puts_failure, run, cache_run-IsValid,
}
use sns_media_list.Thumbnails.Cache.Reads.{
  get-put_success, get-put_failure, put_success_spares, put_failure_spares,
}
use sns_media_list.Thumbnails.Coordinator
use sns_media_list.Thumbnails.Coordinator.{
  ThumbnailCoordinator, enter, finish, generated, interrupted, hit, shares,
}
use sns_media_list.Thumbnails.Coordinator.Flights.{
  IsCoordinated, Reach, here, next, enters, finishes, Reach-init-IsCoordinated,
}
use sns_media_list.Thumbnails.Coordinator.Sharing.{
  Meanwhile, nothing, then_enters, then_finishes, enter-shares, enter_after_generated,
}

abbrev calls : List (ℕ × Call)
calls =
    (0, puts_success "a" (1 ∷ 2 ∷ []) 9)
    ∷ (0, puts_failure "b" 9)
    ∷ (1, puts_success "c" (3 ∷ 4 ∷ []) 9)
    ∷ (2, gets "a")
    ∷ []

abbrev small : ThumbnailCache
small = run calls (init 4 1)

cache_run-IsValid_example : IsValid small
cache_run-IsValid_example = cache_run-IsValid 4 1 calls

-- "c" is the least recently used thumbnail when "d" needs its place.
evicts_least_recent :
    (Dict.get "c" (put_success "d" (5 ∷ []) 9 3 small).entries ≡ none)
    × ((Cache.get "a" 4 (put_success "d" (5 ∷ []) 9 3 small)).1 ≡ ok (some (1 ∷ 2 ∷ [])))
unfolding Cache.get put_success put_failure remove_entry oldest Dict.get Dict.remove
    Cache.evict_oldest
evicts_least_recent = (refl, refl)

get-put_success_example :
    (Cache.get "d" 4 (put_success "d" (5 ∷ []) 9 3 small)).1 ≡ ok (some (5 ∷ []))
unfolding put_success put_failure Cache.get Dict.get Dict.remove
get-put_success_example =
    get-put_success "d" (5 ∷ []) 9 3 4 small cache_run-IsValid_example (omega arith) (omega arith)
      (omega arith)

get-put_failure_example : (Cache.get "d" 4 (put_failure "d" 9 3 small)).1 ≡ err unavailable
unfolding put_success put_failure Cache.get Dict.get Dict.remove
get-put_failure_example =
    get-put_failure "d" 9 3 4 small cache_run-IsValid_example (omega arith) (omega arith)
      (omega arith)

put_success_spares_example :
    Dict.get "b" (put_success "d" (5 ∷ []) 9 3 small).entries
    ≡ some (record { content = none; expires_at = 9; failed = true })
unfolding put_success put_failure Cache.get Dict.get Dict.remove
put_success_spares_example =
    put_success_spares "d" "b" (5 ∷ []) 9 3 small
      (record { content = none; expires_at = 9; failed = true }) cache_run-IsValid_example
      (omega arith) (omega arith) refl refl refl

put_failure_spares_example :
    Dict.get "a" (put_failure "d" 9 3 small).entries
    ≡ some (record { content = some (1 ∷ 2 ∷ []); expires_at = 9; failed = false })
unfolding put_success put_failure Cache.get Dict.get Dict.remove
put_failure_spares_example =
    put_failure_spares "d" "a" 9 3 small
      (record { content = some (1 ∷ 2 ∷ []); expires_at = 9; failed = false })
      cache_run-IsValid_example (omega arith) (omega arith) refl refl refl

abbrev idle : ThumbnailCoordinator
idle = Coordinator.init (init 4 1) 2

abbrev started : ThumbnailCoordinator
started = (enter "a" 0 0 7 idle).0

abbrev ended : ThumbnailCoordinator
ended = finish "a" 9 1 interrupted started

history : Reach idle ended
unfolding enter Dict.get Dict.set Cache.get
history = next (next here (enters "a" 0 0 7)) (finishes "a" 9 1 7 interrupted refl)

Reach-init-IsCoordinated_example : IsCoordinated ended
Reach-init-IsCoordinated_example = Reach-init-IsCoordinated 4 1 2 ended history

-- A request for "b" enters and its generation ends while "a" is generated.
abbrev meantime : ThumbnailCoordinator
meantime = finish "b" 9 2 (generated (5 ∷ [])) (enter "b" 1 1 8 started).0

meanwhile : Meanwhile "a" started meantime
unfolding enter Dict.get Dict.set Cache.get
meanwhile = then_finishes (then_enters nothing "b" 1 1 8) "b" 9 2 8 (generated (5 ∷ [])) refl refl

enter-shares_example : enter "a" 3 3 9 meantime ≡ (meantime, shares 7)
unfolding enter Dict.get Dict.set Cache.get
enter-shares_example =
    enter-shares "a" 0 0 7 idle meantime 3 3 9 (cache_run-IsValid 4 1 []) refl meanwhile

enter_after_generated_example :
    (enter "a" 2 2 8 (finish "a" 9 1 (generated (5 ∷ [])) idle)).1 ≡ hit (5 ∷ [])
enter_after_generated_example =
    enter_after_generated "a" (5 ∷ []) 9 1 2 2 8 idle (cache_run-IsValid 4 1 []) (omega arith)
      (omega arith) (omega arith)

abbrev frame : Text
frame = 0xff ∷ 0xd8 ∷ 0xff ∷ 0xc0 ∷ 0 ∷ 8 ∷ 8 ∷ 0 ∷ 2 ∷ 0 ∷ 3 ∷ 1 ∷ 0xff ∷ 0xd9 ∷ []

frame_accepted : validate_generated_jpeg 100 640 frame ≡ ok tt
unfolding validate_generated_jpeg
frame_accepted = refl

validate_generated_jpeg-IsJpeg_example : IsJpeg 100 640 frame
validate_generated_jpeg-IsJpeg_example = validate_generated_jpeg-IsJpeg 100 640 frame frame_accepted

jpeg_dimensions_total_example : (found : Option (ℕ × ℕ)) × (jpeg_dimensions 14 frame 2 ≡ some found)
jpeg_dimensions_total_example = jpeg_dimensions_total 14 frame 2 (omega arith) (omega arith)
