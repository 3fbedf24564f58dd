-- ===== src/Api/Filter.antt =====
-- apps/api/src/common/global-exception.filter.ts and register/insufficient-balance.exception.ts: the
-- response that a thrown exception becomes.
use tagwise_identity_protoco.Prelude.{ℕ, Text, codes, Option, none, some}
use tagwise_identity_protoco.Core.Normalize.{
  TagRejectionReason, empty, bad_at, too_short, too_long, invalid_char,
}
use tagwise_identity_protoco.Api.{
  HttpError, invalid_tag, payment_required, bad_request, unauthorized, forbidden, not_found,
  conflict, too_many_requests, internal, service_unavailable, InsufficientBalanceDetails,
}

-- The properties of the body that a client reads. The message, and the reason of a 403 or a 409, are
-- left out.
pub record ErrorBody : Type 0 where
  pub reason : Option Text
  pub required_lamports : Option Text
  pub current_lamports : Option Text
  pub shortfall_lamports : Option Text

abbrev pub no_body : ErrorBody
no_body = record {
  reason = none;
  required_lamports = none;
  current_lamports = none;
  shortfall_lamports = none;
}

abbrev pub reason_code : TagRejectionReason → Text
reason_code empty = codes "EMPTY"
reason_code bad_at = codes "BAD_AT"
reason_code too_short = codes "TOO_SHORT"
reason_code too_long = codes "TOO_LONG"
reason_code invalid_char = codes "INVALID_CHAR"

-- `getStatus`, and 500 for what is no HTTP exception.
unfoldable pub status_of : HttpError → ℕ
status_of (invalid_tag reason) = 400
status_of (bad_request reason) = 400
status_of unauthorized = 401
status_of (payment_required details) = 402
status_of forbidden = 403
status_of not_found = 404
status_of conflict = 409
status_of too_many_requests = 429
status_of internal = 500
status_of service_unavailable = 503

-- JSON has no bigint: the amounts are sent as their decimal texts, by `toString`.
abbrev pub balance_body : (ℕ → Text) → InsufficientBalanceDetails → ErrorBody
balance_body to_string details = record {
  reason = none;
  required_lamports = some (to_string details.required_lamports);
  current_lamports = some (to_string details.current_lamports);
  shortfall_lamports = some (to_string details.shortfall_lamports);
}

unfoldable pub body_of : (ℕ → Text) → HttpError → ErrorBody
body_of to_string (invalid_tag reason) = record no_body { reason = some (reason_code reason) }
body_of to_string (bad_request reason) = record no_body { reason = reason }
body_of to_string (payment_required details) = balance_body to_string details
body_of to_string unauthorized = no_body
body_of to_string forbidden = no_body
body_of to_string not_found = no_body
body_of to_string conflict = no_body
body_of to_string too_many_requests = no_body
body_of to_string internal = no_body
body_of to_string service_unavailable = no_body
