-- ===== src/Registry/Examples.antt =====
-- Requests of a small MCP registry.
use sns_media_list.Dict
use sns_media_list.Prelude.{◌≡◌, refl, true, some, List, [], ◌∷◌}
use sns_media_list.Registry.{McpRequestRegistry, init, contains, count_of, begin, finish}
use sns_media_list.Registry.Counts.{
  IsValid, Call, begins, finishes, run, registry_run-IsValid, count_of-finish-begin,
}

abbrev calls : List Call
calls = begins (some "a") ∷ begins (some "a") ∷ begins (some "b") ∷ finishes (some "a") ∷ []

abbrev used : McpRequestRegistry
used = run calls (init 2)

registry_run-IsValid_example : IsValid used
registry_run-IsValid_example = registry_run-IsValid 2 calls

accepted : (begin (some "a") used).0 ≡ true
unfolding begin Dict.get finish Dict.set
accepted = refl

count_of-finish-begin_example :
    (count_of "a" (finish (some "a") ((begin (some "a") used).1)) ≡ count_of "a" used)
    × (contains (some "a") (finish (some "a") ((begin (some "a") used).1))
        ≡ contains (some "a") used)
count_of-finish-begin_example =
    count_of-finish-begin "a" "a" used registry_run-IsValid_example accepted
