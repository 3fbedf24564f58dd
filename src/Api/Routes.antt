-- ===== src/Api/Routes.antt =====
-- The controllers of apps/api/src: tags/tags.controller.ts, auth/auth.controller.ts and
-- register/register.controller.ts, with the guards of each route in their order. The throttler's
-- guard is a package: `throttle` is what it answers for a tracker.
pub mod Laws
use tagwise_identity_protoco.Prelude.{
  ℕ, Text, CaseMap, codes, Bool, List, [], ◌++◌, Option, none, some, Result, ok, err, ◌>>=◌, ◌>>◌,
}
use tagwise_identity_protoco.Solana.{Bytes, Solana}
use tagwise_identity_protoco.Moderation.Profanity.{Engine}
use tagwise_identity_protoco.Mirror.{IdentityTable}
use tagwise_identity_protoco.Redis.{Redis}
use tagwise_identity_protoco.Cache.{Json}
use tagwise_identity_protoco.Api.{HttpError, internal, normalize_tag_param_or_throw}
use tagwise_identity_protoco.Api.Auth.{
  Platform, AuthConfig, jwt_guard, ownership_guard, challenge, verify,
}
use tagwise_identity_protoco.Api.Resolve.{Config, ResolveResponse, resolve}
use tagwise_identity_protoco.Api.Profile.{
  IdentityResponse, UpdateIdentityRequest, ProvidedFields, identity, payment_link, update_identity,
}
use tagwise_identity_protoco.Api.Naming.{NamingReason, availability}
use tagwise_identity_protoco.Api.Search.{SearchResultItem, search}
use tagwise_identity_protoco.Api.Transactions.{Message, Params}
use tagwise_identity_protoco.Api.Register.{register, wallet_update}

-- `getTracker` of the two throttlers that know the caller.
abbrev pub or_text : Text → Option Text → Text
or_text default none = default
or_text default (some t) = t

unfoldable pub identity_update_tracker : Option Text → Text
identity_update_tracker pubkey = or_text (codes "unauthenticated") pubkey

unfoldable pub register_tracker : Option Text → Option Text → Text
register_tracker ip pubkey =
    or_text (codes "unknown-ip") ip ++ (codes ":" ++ or_text (codes "unauthenticated") pubkey)

-- A route whose parameter is normalised before its handler runs on the state.
abbrev pub on_tag {ν σ} :
    {V : Type ν} {S : Type σ}
    → (Text → S → Result HttpError V × S)
    → Result HttpError Text
    → S
    → Result HttpError V × S
on_tag handler (err e) s = (err e, s)
on_tag handler (ok tag) s = handler tag s

unfoldable pub tag_route {ν σ} :
    {V : Type ν} {S : Type σ}
    → CaseMap
    → (Text → S → Result HttpError V × S)
    → Text
    → S
    → Result HttpError V × S
unfolding normalize_tag_param_or_throw
tag_route u handler raw_tag s = on_tag handler (normalize_tag_param_or_throw u raw_tag) s

module _ (u : CaseMap) (d : IdentityTable) (r : Redis) (json : Json ResolveResponse)
    (config : Config) where
  unfoldable pub resolve_route :
      Solana
      → (Text → Option (Option Bytes))
      → d.Table
      → Text
      → r.Store
      → Result HttpError ResolveResponse × r.Store
  unfolding tag_route
  resolve_route sol rpc table raw_tag s =
      tag_route u (λ tag. resolve d r json config u sol rpc tag table) raw_tag s

  unfoldable pub identity_route : Text → d.Table → Result HttpError IdentityResponse
  unfolding normalize_tag_param_or_throw
  identity_route raw_tag table = do
    tag ← normalize_tag_param_or_throw u raw_tag
    identity d tag table

  -- `qr` and `paymentLink`
  unfoldable pub payment_link_route : Text → d.Table → Result HttpError (Text × Text × Text)
  unfolding normalize_tag_param_or_throw
  payment_link_route raw_tag table = do
    tag ← normalize_tag_param_or_throw u raw_tag
    payment_link d config.payment_link_base_url tag table

  unfoldable pub availability_route : Engine → Text → d.Table → Option (Text × NamingReason)
  availability_route engine raw_tag table = availability u engine d table raw_tag

  unfoldable pub search_route : (Text → Text → Bool) → Option Text → d.Table → List SearchResultItem
  search_route contains_insensitive query table =
      search u d contains_insensitive (or_text [] query) table

  module _ (p : Platform) (throttle : Text → Result HttpError (Unit {0})) where
    -- JwtAuthGuard, TagOwnershipGuard and IdentityUpdateThrottlerGuard, and then the parameter.
    unfoldable pub guarded_tag : Option Text → Text → d.Table → Result HttpError (Text × Text)
    unfolding normalize_tag_param_or_throw identity_update_tracker
    guarded_tag header raw_tag table = do
      pubkey ← jwt_guard p header
      ownership_guard u d (some pubkey) raw_tag table
      throttle (identity_update_tracker (some pubkey))
      tag ← normalize_tag_param_or_throw u raw_tag
      ok (pubkey, tag)

    unfoldable pub update_identity_route :
        Engine
        → Option Text
        → Text
        → UpdateIdentityRequest
        → ProvidedFields
        → d.Table
        → r.Store
        → Result HttpError (IdentityResponse × d.Table × r.Store)
    unfolding guarded_tag
    update_identity_route engine header raw_tag body provided table s = do
      (pubkey, tag) ← guarded_tag header raw_tag table
      update_identity d r json config u engine tag pubkey body provided table s

    unfoldable pub update_wallet_route :
        Params → Option Text → Text → Text → d.Table → Result HttpError (Message × Text × ℕ)
    unfolding guarded_tag
    update_wallet_route params header raw_tag new_wallet table = do
      (pubkey, tag) ← guarded_tag header raw_tag table
      wallet_update d table params tag pubkey new_wallet

    unfoldable pub register_route :
        Engine
        → Params
        → Option Text
        → Option Text
        → Text
        → Option Text
        → Option Text
        → d.Table
        → Result HttpError (Message × Text × ℕ)
    unfolding register_tracker
    register_route engine params header ip raw_tag wallet fee_payer table = do
      pubkey ← jwt_guard p header
      throttle (register_tracker ip (some pubkey))
      register u engine d table params raw_tag wallet fee_payer pubkey

module _ (p : Platform) (sol : Solana) (r : Redis) (config : AuthConfig)
    (throttled : Result HttpError (Unit {0})) where
  unfoldable pub challenge_route : Text → Text → ℕ → r.Store → Result HttpError (Text × r.Store)
  challenge_route pubkey nonce now s = do throttled; challenge p sol r config pubkey nonce now s

  abbrev pub unless_throttled :
      Result HttpError (Unit {0})
      → Result HttpError Text × r.Store
      → r.Store
      → Result HttpError Text × r.Store
  unless_throttled (err e) verified s = (err e, s)
  unless_throttled (ok _) verified s = verified

  unfoldable pub verify_route : Text → Text → Text → ℕ → r.Store → Result HttpError Text × r.Store
  verify_route pubkey message signature now s =
      unless_throttled throttled (verify p sol r config pubkey message signature now s) s

-- `AuthController.me`, with its guard.
unfoldable pub me_route : Platform → Option Text → Result HttpError Text
me_route p header = jwt_guard p header
