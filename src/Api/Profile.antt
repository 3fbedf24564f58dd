-- ===== src/Api/Profile.antt =====
-- apps/api/src/tags/tags.service.ts: reading and updating the public identity of a tag.
pub mod Laws
use tagwise_identity_protoco.Prelude.{
  ℕ, Text, CaseMap, codes, Bool, true, false, not, ◌++◌, Option, none, some, text_eq, Result, ok,
  err, ◌>>=◌, ◌>>◌, if◌then◌else◌,
}
use tagwise_identity_protoco.Core.CacheKey.{build_resolve_cache_key}
use tagwise_identity_protoco.Moderation.Profanity.{
  Engine, BlockedNameResult, clean, is_blocked_name,
}
use tagwise_identity_protoco.Moderation.Profanity
use tagwise_identity_protoco.Mirror.{Identity, IdentityUpdate, IdentityTable, is_active}
use tagwise_identity_protoco.Redis.{Redis}
use tagwise_identity_protoco.Cache.{Json, cache_delete}
use tagwise_identity_protoco.Api.{
  HttpError, internal, forbidden, not_found, present_tag, build_payment_link,
}
use tagwise_identity_protoco.Api.Resolve.{Config, ResolveResponse}

pub record IdentityResponse : Type 0 where
  pub tag : Text
  pub owner : Text
  pub wallet : Text
  pub display_name : Option Text
  pub avatar : Option Text
  pub bio : Option Text
  pub preferred_token : Option Text
  pub verified : Bool
  pub merchant : Bool
  pub created_at : ℕ

-- The body of the request: a field that is null or missing is `none`.
pub record UpdateIdentityRequest : Type 0 where
  pub display_name : Option Text
  pub avatar : Option Text
  pub bio : Option Text
  pub preferred_token : Option Text

-- Which keys the body had.
pub record ProvidedFields : Type 0 where
  pub display_name : Bool
  pub avatar : Bool
  pub bio : Bool
  pub preferred_token : Bool

unfoldable pub active_only : Option Identity → Option Identity
active_only none = none
active_only (some row) = if is_active row then some row else none

unfoldable pub find_active_identity : (d : IdentityTable) → Text → d.Table → Option Identity
unfolding active_only
find_active_identity d tag table = active_only (d.find_unique table tag)

unfoldable pub to_identity_response : Text → Identity → IdentityResponse
to_identity_response tag row = record {
  tag = present_tag tag;
  owner = row.owner;
  wallet = row.wallet;
  display_name = row.display_name;
  avatar = row.avatar;
  bio = row.bio;
  preferred_token = row.preferred_token;
  verified = row.verified;
  merchant = row.merchant;
  created_at = row.created_at;
}

abbrev pub or_not_found : Option Identity → Result HttpError Identity
or_not_found none = err not_found
or_not_found (some row) = ok row

-- The cache does not hold identities: its reader answers their keys with a miss.
unfoldable pub identity : (d : IdentityTable) → Text → d.Table → Result HttpError IdentityResponse
unfolding find_active_identity to_identity_response
identity d tag table = do
  row ← or_not_found (find_active_identity d tag table)
  ok (to_identity_response tag row)

-- The tag, the wallet and the link of `qr` and `paymentLink`.
unfoldable pub payment_link :
    (d : IdentityTable) → Text → Text → d.Table → Result HttpError (Text × Text × Text)
unfolding find_active_identity
payment_link d base_url tag table = do
  row ← or_not_found (find_active_identity d tag table)
  ok (present_tag tag, row.wallet, build_payment_link base_url tag)

-- A free text that the profanity check blocks is refused; one that is absent is not checked.
unfoldable pub check_text : CaseMap → Engine → Option Text → Result HttpError (Unit {0})
check_text u engine none = ok tt
check_text u engine (some text) = elim (is_blocked_name u engine text) [
  | none ↦ err internal
  | some Profanity.blocked ↦ err forbidden
  | some Profanity.clean ↦ ok tt
]

abbrev pub given_if : Bool → Option Text → Option (Option Text)
given_if true value = some value
given_if false value = none

abbrev pub update_of : UpdateIdentityRequest → ProvidedFields → IdentityUpdate
update_of dto provided = record {
  owner = none;
  wallet = none;
  bump = none;
  display_name = given_if provided.display_name dto.display_name;
  avatar = given_if provided.avatar dto.avatar;
  bio = given_if provided.bio dto.bio;
  preferred_token = given_if provided.preferred_token dto.preferred_token;
  status = none;
  last_applied_slot = none;
}

abbrev pub require_owner : Text → Identity → Result HttpError (Unit {0})
require_owner owner_pubkey row =
    if not (text_eq row.owner owner_pubkey) then err forbidden else ok tt

abbrev pub or_internal {ℓ} : {A : Type ℓ} → Option A → Result HttpError A
or_internal none = err internal
or_internal (some a) = ok a

module _ (d : IdentityTable) (r : Redis) (json : Json ResolveResponse) (config : Config) where
  unfoldable pub update_identity :
      CaseMap
      → Engine
      → Text
      → Text
      → UpdateIdentityRequest
      → ProvidedFields
      → d.Table
      → r.Store
      → Result HttpError (IdentityResponse × d.Table × r.Store)
  unfolding find_active_identity check_text to_identity_response
  update_identity u engine tag owner_pubkey dto provided table s = do
    row ← or_not_found (find_active_identity d tag table)
    require_owner owner_pubkey row
    check_text u engine dto.display_name
    check_text u engine dto.bio
    (updated, table') ← or_internal (d.update tag (update_of dto provided) table)
    ok (
      to_identity_response tag updated,
      table',
      cache_delete r json config.redis_key_prefix config.resolve_cache_ttl_seconds
          (build_resolve_cache_key config.redis_key_prefix tag) s,
    )
