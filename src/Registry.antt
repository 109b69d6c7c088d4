-- ===== src/Registry.antt =====
-- src/sns_media_list/mcp/middleware.py: `McpRequestRegistry`, the MCP requests that are active and
-- may be cancelled.
-- The digest of a session and a request is a parameter, a function to strings; a request id that is
-- neither an int nor a str has none.
pub mod Counts
mod Examples
use sns_media_list.Dict
use sns_media_list.Dict.{Dict}
use sns_media_list.Prelude.{
  ℕ, suc, ◌+◌, ◌-◌, Bool, true, false, ◌&&◌, ◌||◌, not, String, Option, none, some, List, [],
  length, if◌then◌else◌, ltb, leb,
}

pub record McpRequestRegistry : Type 0 where
  pub max_active : ℕ
  pub active : Dict ℕ

-- McpRequestRegistry.__init__
abbrev pub init : ℕ → McpRequestRegistry
init max_active = record { max_active = max_active; active = [] }

abbrev pub with_active : Dict ℕ → McpRequestRegistry → McpRequestRegistry
with_active active r = record { max_active = r.max_active; active = active }

-- What McpRequestRegistry._key returns: `none` for no session, or for a request id of another type.
abbrev pub Key : Type 0
Key = Option String

-- McpRequestRegistry.contains
unfoldable pub contains : Key → McpRequestRegistry → Bool
contains none r = false
contains (some key) r = elim (Dict.get key (r.active)) [ none ↦ false | some _ ↦ true ]

-- self._active.get(key, 0)
abbrev pub count_of : String → McpRequestRegistry → ℕ
count_of key r = elim (Dict.get key (r.active)) [ none ↦ 0 | some n ↦ n ]

-- McpRequestRegistry.begin
unfoldable pub begin : Key → McpRequestRegistry → Bool × McpRequestRegistry
unfolding contains
begin none r = (false, r)
begin (some key) r =
    if not (contains (some key) r) && leb (r.max_active) (length (r.active))
    then (false, r)
    else (true, with_active (Dict.set key (count_of key r + 1) (r.active)) r)

-- McpRequestRegistry.finish
unfoldable pub finish : Key → McpRequestRegistry → McpRequestRegistry
finish none r = r
finish (some key) r = elim (Dict.get key (r.active)) [
  | none ↦ r
  | some n ↦
      if ltb 0 (n - 1)
      then with_active (Dict.set key (n - 1) (r.active)) r
      else with_active (Dict.remove key (r.active)) r
]
