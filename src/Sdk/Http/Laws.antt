-- ===== src/Sdk/Http/Laws.antt =====
-- http.ts: what a client makes of the service's errors.
use tagwise_identity_protoco.Prelude.{ℕ, Text, Option, some, ◌≡◌, refl, arith}
use tagwise_identity_protoco.Api.{
  HttpError, invalid_tag, payment_required, bad_request, unauthorized, forbidden, not_found,
  conflict, too_many_requests, internal, service_unavailable,
}
use tagwise_identity_protoco.Api.Filter.{reason_code, status_of, body_of}
use tagwise_identity_protoco.Sdk.{
  TipError, tag_not_found, rate_limited, insufficient_balance, validation, unexpected_api,
}
use tagwise_identity_protoco.Sdk
use tagwise_identity_protoco.Sdk.Http.{map_error_response}

-- The client's error for each exception of the service.
abbrev pub client_error : HttpError → TipError
client_error (invalid_tag reason) = validation (some (reason_code reason))
client_error (bad_request reason) = validation reason
client_error unauthorized = Sdk.unauthorized
client_error (payment_required details) =
    insufficient_balance details.required_lamports details.current_lamports
      details.shortfall_lamports
client_error forbidden = Sdk.forbidden
client_error not_found = tag_not_found
client_error conflict = unexpected_api 409
client_error too_many_requests = rate_limited
client_error internal = unexpected_api 500
client_error service_unavailable = unexpected_api 503

-- From the response that the service makes of an exception, the client makes the error of its own
-- that belongs to it; the amounts of a 402 come back as the numbers that the service compared.
pub map_error_response-status_of :
    (to_string : ℕ → Text) (big_int : Text → Option ℕ)
    → ((n : ℕ) → big_int (to_string n) ≡ some n)
    → (e : HttpError)
    → map_error_response big_int (status_of e) (body_of to_string e) ≡ client_error e
unfolding map_error_response status_of body_of
map_error_response-status_of to_string big_int read (invalid_tag reason) = refl
map_error_response-status_of to_string big_int read (bad_request reason) = refl
map_error_response-status_of to_string big_int read unauthorized = refl
map_error_response-status_of to_string big_int read (payment_required details) = ground (
  arith,
  read details.required_lamports,
  read details.current_lamports,
  read details.shortfall_lamports,
)
map_error_response-status_of to_string big_int read forbidden = refl
map_error_response-status_of to_string big_int read not_found = refl
map_error_response-status_of to_string big_int read conflict = refl
map_error_response-status_of to_string big_int read too_many_requests = refl
map_error_response-status_of to_string big_int read internal = refl
map_error_response-status_of to_string big_int read service_unavailable = refl
