-- ===== src/Api.antt =====
-- apps/api/src: the HTTP service. A thrown HTTP exception is a value of `HttpError`.
pub mod Message
pub mod Auth
pub mod Resolve
pub mod Transactions
pub mod Register
pub mod Search
pub mod Profile
pub mod Naming
pub mod Flight
pub mod Filter
pub mod Routes
pub mod Validation
use tagwise_identity_protoco.Prelude.{
  ℕ, Text, CaseMap, codes, List, [], ◌∷◌, ◌++◌, Result, ok, err, Option,
}
use tagwise_identity_protoco.Core.Normalize.{
  TagRejectionReason, NormalizeTagResult, accepted, rejected, normalize_tag,
}

-- register/rent-check.ts
pub record InsufficientBalanceDetails : Type 0 where
  pub required_lamports : ℕ
  pub current_lamports : ℕ
  pub shortfall_lamports : ℕ

-- The exceptions by their status code, 400, 401, 402, 403, 404, 409, 429, 500 and 503. A 400 has
-- its reason, if any.
pub data HttpError : Type 0 where
  invalid_tag : TagRejectionReason → HttpError
  payment_required : InsufficientBalanceDetails → HttpError
  bad_request : Option Text → HttpError
  unauthorized forbidden not_found conflict too_many_requests : HttpError
  internal service_unavailable : HttpError

abbrev pub tag_or_throw : NormalizeTagResult → Result HttpError Text
tag_or_throw (rejected reason) = err (invalid_tag reason)
tag_or_throw (accepted tag) = ok tag

-- tags/tag-param.ts
unfoldable pub normalize_tag_param_or_throw : CaseMap → Text → Result HttpError Text
normalize_tag_param_or_throw u raw = tag_or_throw (normalize_tag u raw)

unfoldable pub present_tag : Text → Text
present_tag tag = codes "@" ++ tag

-- tags/links.ts
unfoldable pub build_payment_link : Text → Text → Text
build_payment_link base_url tag = base_url ++ (codes "/@" ++ tag)

unfoldable pub build_profile_link : Text → Text → Text
build_profile_link base_url tag = base_url ++ (codes "/@" ++ tag)

unfoldable pub build_qr_link : Text → Text → Text
build_qr_link base_url tag = base_url ++ (codes "/@" ++ (tag ++ codes "/qr"))
