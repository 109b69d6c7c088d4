-- ===== src/Proxy/Examples.antt =====
-- A client of the proxy.
use sns_media_list.Errors.{Result, ok}
use sns_media_list.Media.Policy.{Address}
use sns_media_list.Prelude.{ℕ, ◌≡◌, refl, true, inr, none, List, [], ◌∷◌, ◌++◌}
use sns_media_list.Proxy.{Session, handle_client, parse_connect_request}
use sns_media_list.Proxy.Guard.{IsGuarded, handle_client-IsGuarded}
use sns_media_list.Text.{is_space, text_eq, one_of, to_lower, Text, codes}

abbrev request : Text
request = codes "CONNECT X.com.:443 HTTP/1.1" ++ 13 ∷ 10 ∷ 13 ∷ 10 ∷ []

abbrev session : Session
session = record {
  request = inr request;
  validated = none;
  connected = none;
  drained = none;
  relayed = none;
}

abbrev resolver : Text → ℕ → Result (List Address)
resolver host port = ok (record { text = codes "8.8.8.8"; is_global = true } ∷ [])

abbrev hosts : List Text
hosts = codes "x.com" ∷ []

parsed_request : parse_connect_request request ≡ ok (codes "x.com", 443)
unfolding parse_connect_request is_space text_eq one_of to_lower
parsed_request = refl

handle_client-IsGuarded_example :
    IsGuarded hosts resolver
      ((handle_client hosts resolver 8192 session).target)
      ((handle_client hosts resolver 8192 session).answers)
handle_client-IsGuarded_example = handle_client-IsGuarded hosts resolver 8192 session
