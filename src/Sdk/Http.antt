-- ===== src/Sdk/Http.antt =====
-- packages/sdk/src/http.ts: the one place that talks to `fetch`.
pub mod Laws
use tagwise_identity_protoco.Prelude.{
  ℕ, ◌-◌, Text, codes, Bool, true, false, ◌&&◌, List, [], ◌∷◌, ◌++◌, Option, none, some, length,
  take, drop, ◌==◌, leb, ltb, text_eq, truthy, Result, ok, err, if◌then◌else◌,
}
use mathlib.Core.Option
use tagwise_identity_protoco.Api.Filter.{ErrorBody, no_body}
use tagwise_identity_protoco.Sdk.{
  TipError, tag_not_found, unauthorized, forbidden, rate_limited, insufficient_balance, validation,
  unexpected_api, network, syntax, HttpMethod, HttpRequest, HttpResponse, Platform,
}

pub record RequestParams : Type 0 where
  pub method : HttpMethod
  pub path : Text
  pub query : List (Text × Text)
  pub body : Option (List (Text × Option Text))
  pub token : Option Text

-- `baseUrl.endsWith("/") ? baseUrl.slice(0, -1) : baseUrl`
unfoldable pub trimmed_base : Text → Text
trimmed_base base =
    if text_eq (drop (length base - 1) base) (codes "/") then take (length base - 1) base else base

unfoldable pub build_url : (p : Platform) → Text → Text → List (Text × Text) → Option Text
unfolding trimmed_base
build_url p base path query = p.make_url (trimmed_base base ++ path) query

abbrev pub all_three {ℓ} : {A : Type ℓ} → Option A → Option A → Option A → Option (A × A × A)
all_three (some a) (some b) (some c) = some (a, b, c)
all_three (some a) (some b) none = none
all_three (some a) none o = none
all_three none o o' = none

-- The amounts, where the body has all three.
abbrev pub insufficient_balance_body : ErrorBody → Option (Text × Text × Text)
insufficient_balance_body body =
    all_three body.required_lamports body.current_lamports body.shortfall_lamports

-- The constructor of `InsufficientBalanceError`: `BigInt` throws on a text that is no integer.
abbrev pub balance_error : Option (ℕ × ℕ × ℕ) → TipError
balance_error none = syntax
balance_error (some (required, current, shortfall)) =
    insufficient_balance required current shortfall

abbrev pub payment_error : (Text → Option ℕ) → Option (Text × Text × Text) → TipError
payment_error big_int none = unexpected_api 402
payment_error big_int (some (r, c, s)) =
    balance_error (all_three (big_int r) (big_int c) (big_int s))

unfoldable pub map_error_response : (Text → Option ℕ) → ℕ → ErrorBody → TipError
map_error_response big_int status body =
    if status == 404
    then tag_not_found
    else if status == 401
    then unauthorized
    else if status == 403
    then forbidden
    else if status == 429
    then rate_limited
    else if status == 402
    then payment_error big_int (insufficient_balance_body body)
    else if status == 400
    then validation body.reason
    else unexpected_api status

abbrev pub is_ok : ℕ → Bool
is_ok status = leb 200 status && ltb status 300

abbrev pub bearer : Option Text → Option Text
bearer none = none
bearer (some token) = some (codes "Bearer " ++ token)

module _ (p : Platform) where
  abbrev pub http_request : RequestParams → Text → HttpRequest
  http_request params url = record {
    method = params.method;
    url = url;
    content_type = Option.map (λ _. codes "application/json") params.body;
    authorization = bearer (truthy params.token);
    body = Option.map p.stringify params.body;
  }

  abbrev pub json_or_syntax : Option p.Value → Result TipError p.Value
  json_or_syntax none = err syntax
  json_or_syntax (some v) = ok v

  abbrev pub error_body_of : Option p.Value → ErrorBody
  error_body_of none = no_body
  error_body_of (some v) = p.error_body v

  unfoldable pub answer_of : HttpResponse p.Value → Result TipError p.Value
  unfolding map_error_response
  answer_of response =
      if is_ok response.status
      then json_or_syntax response.json
      else err (map_error_response p.big_int response.status (error_body_of response.json))

  unfoldable pub received :
      Option (HttpResponse p.Value) × p.World → Result TipError p.Value × p.World
  unfolding answer_of
  received (none, w) = (err network, w)
  received (some response, w) = (answer_of response, w)

  unfoldable pub send : RequestParams → Option Text → p.World → Result TipError p.Value × p.World
  unfolding received
  send params none w = (err syntax, w)
  send params (some url) w = received (p.fetch (http_request params url) w)

  unfoldable pub request : Text → RequestParams → p.World → Result TipError p.Value × p.World
  unfolding send build_url
  request base_url params w = send params (build_url p base_url params.path params.query) w
