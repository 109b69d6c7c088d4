-- ===== src/Proxy.antt =====
-- src/sns_media_list/network/connect_proxy.py and dns.py: the CONNECT proxy, through which the
-- extractor reaches the platforms, and its destination policy.
pub mod Guard
mod Examples
use sns_media_list.Errors.{AppError, Result, err, ok, app_error, unsafe_destination}
use sns_media_list.Media.Body.{max_str_digits}
use sns_media_list.Media.Fetch.{
  Failure, timeout_error, os_error, runtime_error, incomplete_read, limit_overrun, encode_error,
}
use sns_media_list.Media.Policy.{Address, is_dot}
use sns_media_list.Prelude.{
  ℕ, ◌+◌, ◌*◌, ◌-◌, ◌⊎◌, inl, inr, Bool, true, false, ◌&&◌, ◌||◌, not, Option, none, some, List, [],
  ◌∷◌, ◌++◌, length, any, if◌then◌else◌, ltb, leb, ◌==◌,
}
use sns_media_list.Text.{
  Text, codes, text_eq, one_of, partition, strip, rstrip, is_space, is_digit, lower, decimal,
}

pub record ValidatedTarget : Type 0 where
  pub hostname : Text
  pub port : ℕ
  pub address : Address

-- DestinationPolicy.validate, with the policy's hosts and resolver
unfoldable pub validate :
    List Text → (Text → ℕ → Result (List Address)) → Text → ℕ → Result ValidatedTarget
unfolding rstrip
validate allowed_hosts resolver hostname port =
    let normalized = rstrip is_dot (lower hostname) in
    if not (one_of allowed_hosts normalized) || not (port == 443)
    then err (app_error unsafe_destination "The upstream destination is not allowed.")
    else elim (resolver normalized port) [
      | err e ↦ err e
      | ok [] ↦ err (app_error unsafe_destination "The upstream destination is not public.")
      | ok (address ∷ addresses) ↦
          if any (λ a. not (a.is_global)) (address ∷ addresses)
          then err (app_error unsafe_destination "The upstream destination is not public.")
          else ok (record { hostname = normalized; port = port; address = address })
    ]

-- target.rsplit(":", 1): the parts around the last colon, if there is one
unfoldable pub rpartition : ℕ → Text → Option (Text × Text)
rpartition c [] = none
rpartition c (a ∷ s) = elim (rpartition c s) [
  | some (before, after) ↦ some (a ∷ before, after)
  | none ↦ if a == c then some ([], s) else none
]

-- the digits of a number that may have single underscores between them; `after_digit` tells
-- whether the character before is a digit
unfoldable pub plain_digits : Bool → Text → Option Text
plain_digits true [] = some []
plain_digits false [] = none
plain_digits after_digit (c ∷ s) =
    let more = plain_digits true s in
    let next = plain_digits false s in
    if is_digit c
    then elim more [ none ↦ none | some ds ↦ some (c ∷ ds) ]
    else if c == b'_' && after_digit
    then next
    else none

-- int(s) on ASCII text, where it is not negative: `none` is the ValueError, and `some none` a
-- negative number, or its zero
unfoldable pub int_of : Text → Option (Option ℕ)
unfolding plain_digits strip decimal
int_of s = elim (strip is_space s) [
  | [] ↦ none
  | c ∷ t ↦ elim (plain_digits false (if c == b'+' || c == b'-' then t else c ∷ t)) [
    | none ↦ none
    | some ds ↦
        if ltb max_str_digits (length ds)
        then none
        else if c == b'-'
        then some none
        else some (some (decimal 0 ds))
  ]
]

abbrev pub connect_error : AppError
connect_error = app_error unsafe_destination "Only HTTPS CONNECT targets are allowed."

-- the first line, up to CR LF if there is one
unfoldable pub first_line : Text → Text
first_line [] = []
first_line (a ∷ []) = a ∷ []
first_line (a ∷ b ∷ s) =
    let rest = first_line (b ∷ s) in if a == 0x0d && b == 0x0a then [] else a ∷ rest

-- request_line.split(" ", 2), of three parts
unfoldable pub split_words : Text → Option (Text × (Text × Text))
unfolding partition
split_words line =
    let (method, rest) = partition 0x20 line in
    elim rest [
      | none ↦ none
      | some more ↦
          let (target, version) = partition 0x20 more in
          elim version [ none ↦ none | some v ↦ some (method, (target, v)) ]
    ]

-- parse_connect_request
unfoldable pub parse_connect_request : Text → Result (Text × ℕ)
unfolding first_line split_words rpartition int_of
parse_connect_request request =
    let line = first_line request in
    if any (λ c. ltb 0x7f c) line then err connect_error else elim (split_words line) [
      | none ↦ err connect_error
      | some (method, (target, version)) ↦ elim (rpartition b':' target) [
        | none ↦ err connect_error
        | some (hostname, port_text) ↦ elim (int_of port_text) [
          | none ↦ err connect_error
          | some none ↦ err connect_error
          | some (some port) ↦
              if not (text_eq method (codes "CONNECT"))
                || not (text_eq version (codes "HTTP/1.1"))
                || text_eq hostname []
                || not (port == 443)
              then err connect_error
              else if any (λ c. one_of reserved (c ∷ [])) hostname
              then err (app_error unsafe_destination "The CONNECT hostname is invalid.")
              else ok (rstrip is_dot (lower hostname), port)
        ]
      ]
    ]
  where
    reserved : List Text
    reserved =
        codes "["
        ∷ codes "]"
        ∷ codes "/"
        ∷ codes "\\"
        ∷ codes "?"
        ∷ codes "#"
        ∷ codes "@"
        ∷ codes " "
        ∷ []

-- What happens to a client of the proxy: what it sends up to the empty line, and how the awaited
-- operations end, each `none` where it succeeds.
pub record Session : Type 0 where
  pub request : Failure ⊎ Text
  pub validated : Option Failure
  pub connected : Option Failure
  pub drained : Option Failure
  pub relayed : Option Failure

-- What the client is answered, the target of the tunnel, and an exception that is let through.
pub data Answer : Type 0 where
  established forbidden : Answer

pub record Handled : Type 0 where
  pub answers : List Answer
  pub target : Option ValidatedTarget
  pub raised : Option Failure

-- The except clause of `handle_client`, before a tunnel: a TimeoutError is an OSError.
unfoldable pub refuse : Failure → Handled
refuse runtime_error = record { answers = []; target = none; raised = some runtime_error }
refuse encode_error = record { answers = []; target = none; raised = some encode_error }
refuse timeout_error = record { answers = forbidden ∷ []; target = none; raised = none }
refuse os_error = record { answers = forbidden ∷ []; target = none; raised = none }
refuse incomplete_read = record { answers = forbidden ∷ []; target = none; raised = none }
refuse limit_overrun = record { answers = forbidden ∷ []; target = none; raised = none }

-- The same clause once the tunnel is established, when nothing more is answered.
abbrev pub ends : Failure → Option Failure
ends runtime_error = some runtime_error
ends encode_error = some encode_error
ends timeout_error = none
ends os_error = none
ends incomplete_read = none
ends limit_overrun = none

abbrev pub deny : Handled
deny = record { answers = forbidden ∷ []; target = none; raised = none }

abbrev pub tunnel : ValidatedTarget → Option Failure → Option Failure → Handled
tunnel target (some f) relayed = record {
  answers = established ∷ [];
  target = some target;
  raised = ends f;
}
tunnel target none none = record { answers = established ∷ []; target = some target; raised = none }
tunnel target none (some f) = record {
  answers = established ∷ [];
  target = some target;
  raised = ends f;
}

-- ConnectProxy.handle_client
unfoldable pub handle_client :
    List Text → (Text → ℕ → Result (List Address)) → ℕ → Session → Handled
unfolding parse_connect_request validate refuse
handle_client allowed_hosts resolver max_header_bytes session = elim (session.request) [
  | inl f ↦ refuse f
  | inr request ↦
      if ltb max_header_bytes (length request) then deny else elim (parse_connect_request request) [
        | err _ ↦ deny
        | ok (hostname, port) ↦ elim (session.validated) [
          | some f ↦ refuse f
          | none ↦ elim (validate allowed_hosts resolver hostname port) [
            | err _ ↦ deny
            | ok target ↦ elim (session.connected) [
              | some f ↦ refuse f
              | none ↦ tunnel target (session.drained) (session.relayed)
            ]
          ]
        ]
      ]
]
