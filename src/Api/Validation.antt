-- ===== src/Api/Validation.antt =====
-- apps/api/src/tags/dto/update-identity-request.dto.ts, the validation of main.ts's pipe, and
-- `updateIdentity` of tags/tags.controller.ts on the raw body of its request.
pub mod Bounds
pub mod History
use tagwise_identity_protoco.Prelude.{
  ℕ, Text, CaseMap, Bool, true, false, ◌&&◌, Option, none, some, leb, length, all, trim, Result, ok,
  err, ◌>>=◌, ◌>>◌, if◌then◌else◌,
}
use tagwise_identity_protoco.Moderation.Profanity.{Engine}
use tagwise_identity_protoco.Mirror.{IdentityTable}
use tagwise_identity_protoco.Redis.{Redis}
use tagwise_identity_protoco.Cache.{Json}
use tagwise_identity_protoco.Api.{HttpError, bad_request}
use tagwise_identity_protoco.Api.Auth.{Platform}
use tagwise_identity_protoco.Api.Resolve.{Config, ResolveResponse}
use tagwise_identity_protoco.Api.Profile.{
  IdentityResponse, UpdateIdentityRequest, ProvidedFields, update_identity,
}
use tagwise_identity_protoco.Api.Routes.{guarded_tag}

-- A key of the body: missing, null, a string, or a value of another type.
pub data Field : Type 0 where
  absent null : Field
  text : Text → Field
  other : Field

-- The raw body, and whether it has keys that the class does not declare.
pub record Body : Type 0 where
  pub display_name : Field
  pub avatar : Field
  pub bio : Field
  pub preferred_token : Field
  pub has_unknown : Bool

-- class-validator: what `MinLength` and `MaxLength` count, and `IsUrl` with the options of the class.
pub record Validator : Type 0 where
  pub size : Text → ℕ
  pub is_url : Text → Bool

abbrev pub trim_if_string : Field → Field
trim_if_string absent = absent
trim_if_string null = null
trim_if_string (text t) = text (trim t)
trim_if_string other = other

abbrev pub has_size : Validator → ℕ → ℕ → Text → Bool
has_size v least most t = leb least (v.size t) && leb (v.size t) most

abbrev pub is_avatar : Validator → Text → Bool
is_avatar v t = v.is_url t && leb (v.size t) 2048

abbrev pub is_upper : ℕ → Bool
is_upper c = leb b'A' c && leb c b'Z'

-- `PREFERRED_TOKEN_PATTERN`, /^[A-Z]{2,10}$/
unfoldable pub is_preferred_token : Text → Bool
is_preferred_token t = leb 2 (length t) && leb (length t) 10 && all is_upper t

-- `IsOptional` and `IsString`, and then a test of the string.
unfoldable pub optional_string : (Text → Bool) → Field → Result HttpError (Option Text)
optional_string test absent = ok none
optional_string test null = ok none
optional_string test (text t) = if test t then ok (some t) else err (bad_request none)
optional_string test other = err (bad_request none)

abbrev pub no_unknown : Bool → Result HttpError (Unit {0})
no_unknown true = err (bad_request none)
no_unknown false = ok tt

-- The strings are trimmed before they are tested.
unfoldable pub validated : Validator → Body → Result HttpError UpdateIdentityRequest
unfolding optional_string
validated v body = do
  no_unknown body.has_unknown
  display_name ← optional_string (has_size v 1 50) (trim_if_string body.display_name)
  avatar ← optional_string (is_avatar v) body.avatar
  bio ← optional_string (has_size v 1 160) (trim_if_string body.bio)
  preferred_token ← optional_string is_preferred_token body.preferred_token
  ok record {
    display_name = display_name;
    avatar = avatar;
    bio = bio;
    preferred_token = preferred_token;
  }

abbrev pub is_present : Field → Bool
is_present absent = false
is_present null = true
is_present (text t) = true
is_present other = true

-- `EDITABLE_FIELDS` that the raw body has as keys.
abbrev pub provided_of : Body → ProvidedFields
provided_of body = record {
  display_name = is_present body.display_name;
  avatar = is_present body.avatar;
  bio = is_present body.bio;
  preferred_token = is_present body.preferred_token;
}

-- The pipe runs after the guards. They have normalised the tag, so that a malformed one is refused
-- before the body is looked at.
unfoldable pub patch_identity_route :
    (u : CaseMap) (d : IdentityTable) (r : Redis)
    → Json ResolveResponse
    → Config
    → Platform
    → (Text → Result HttpError (Unit {0}))
    → Validator
    → Engine
    → Option Text
    → Text
    → Body
    → d.Table
    → r.Store
    → Result HttpError (IdentityResponse × d.Table × r.Store)
unfolding validated
patch_identity_route u d r json config p throttle v engine header raw_tag body table s = do
  (pubkey, tag) ← guarded_tag u d r json config p throttle header raw_tag table
  dto ← validated v body
  update_identity d r json config u engine tag pubkey dto (provided_of body) table s
