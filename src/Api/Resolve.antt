-- ===== src/Api/Resolve.antt =====
-- apps/api/src/tags/solana-chain-fallback.ts and the resolving of a tag in tags/tags.service.ts. One
-- request at a time: the map of lookups in flight is empty when a request begins.
pub mod Laws
pub mod Again
pub mod Overlap
pub mod Fresh
use tagwise_identity_protoco.Prelude.{
  ℕ, Text, CaseMap, Bool, true, false, [], Option, none, some, Result, ok, err, if◌then◌else◌,
}
use tagwise_identity_protoco.Solana.{Bytes, Solana}
use tagwise_identity_protoco.Core.Account.{
  TagAccount, TagAccountDecodeErrorReason, decode_tag_account,
}
use tagwise_identity_protoco.Core.Seeds.{PdaError, derive_tag_pda}
use tagwise_identity_protoco.Core.CacheKey.{build_resolve_cache_key}
use tagwise_identity_protoco.Mirror.{Identity, IdentityTable, IdentityStatus, is_active}
use tagwise_identity_protoco.Redis.{Redis}
use tagwise_identity_protoco.Cache.{
  Json, Cached, miss, negative, hit, Entry, cache_negative, value, cache_get, cache_set,
}
use tagwise_identity_protoco.Api.{
  HttpError, internal, not_found, present_tag, build_payment_link, build_profile_link,
  build_qr_link,
}

pub record Config : Type 0 where
  pub redis_key_prefix : Text
  pub payment_link_base_url : Text
  pub tip_registry_program_id : Text
  pub resolve_cache_ttl_seconds : ℕ
  pub resolve_cache_negative_ttl_seconds : ℕ

pub record ResolveResponse : Type 0 where
  pub tag : Text
  pub wallet : Text
  pub display_name : Option Text
  pub avatar : Option Text
  pub verified : Bool
  pub merchant : Bool
  pub preferred_token : Option Text
  pub payment_link : Text
  pub profile_link : Text
  pub qr_link : Text

unfoldable pub response_of : Text → Text → Identity → ResolveResponse
response_of base_url tag row = record {
  tag = present_tag tag;
  wallet = row.wallet;
  display_name = row.display_name;
  avatar = row.avatar;
  verified = row.verified;
  merchant = row.merchant;
  preferred_token = row.preferred_token;
  payment_link = build_payment_link base_url tag;
  profile_link = build_profile_link base_url tag;
  qr_link = build_qr_link base_url tag;
}

-- A row that is known from the chain only.
abbrev pub chain_row : TagAccount → Identity
chain_row decoded = record {
  id = [];
  tag = decoded.tag;
  owner = decoded.owner;
  wallet = decoded.wallet;
  bump = decoded.bump;
  display_name = none;
  avatar = none;
  bio = none;
  preferred_token = none;
  verified = false;
  merchant = false;
  status = IdentityStatus.active;
  last_applied_slot = 0;
  created_at = 0;
}

unfoldable pub decoded_row : Result TagAccountDecodeErrorReason TagAccount → Option Identity
decoded_row (err _) = none
decoded_row (ok decoded) = some (chain_row decoded)

-- The answer of `getAccountInfo`: a failed call, no account, or the account's data.
unfoldable pub account_row : CaseMap → Solana → Option (Option Bytes) → Option Identity
unfolding decoded_row
account_row u sol none = none
account_row u sol (some none) = none
account_row u sol (some (some raw)) = decoded_row (decode_tag_account u sol raw)

-- `rpc` is `getAccountInfo`, by the address. Deriving the address stands outside the `try`.
unfoldable pub lookup_at :
    CaseMap
    → Solana
    → (Text → Option (Option Bytes))
    → Result PdaError (Text × ℕ)
    → Result HttpError (Option Identity)
unfolding account_row
lookup_at u sol rpc (err _) = err internal
lookup_at u sol rpc (ok (pda, _)) = ok (account_row u sol (rpc pda))

unfoldable pub chain_lookup :
    CaseMap
    → Solana
    → (Text → Option (Option Bytes))
    → Text
    → Text
    → Result HttpError (Option Identity)
unfolding lookup_at
chain_lookup u sol rpc program_id tag = lookup_at u sol rpc (derive_tag_pda sol tag program_id)

-- What is to be answered: a row, with the lifetime that its entry is given where that is not the
-- usual one, or that there is none.
abbrev pub Choice : Type 0
Choice = Result HttpError (Option (Identity × Option ℕ))

-- An active row of the chain is kept for the shorter lifetime.
unfoldable pub from_chain : ℕ → Option Identity → Option (Identity × Option ℕ)
from_chain negative_ttl none = none
from_chain negative_ttl (some row) = if is_active row then some (row, some negative_ttl) else none

unfoldable pub choose_row :
    CaseMap → Solana → (Text → Option (Option Bytes)) → Config → Text → Option Identity → Choice
unfolding chain_lookup from_chain
choose_row u sol rpc config tag (some row) = ok (if is_active row then some (row, none) else none)
choose_row u sol rpc config tag none =
    elim (chain_lookup u sol rpc config.tip_registry_program_id tag) [
      | err e ↦ err e
      | ok found ↦ ok (from_chain config.resolve_cache_negative_ttl_seconds found)
    ]

module _ (d : IdentityTable) (r : Redis) (json : Json ResolveResponse) (config : Config) where
  -- The answer, and what it leaves in the cache.
  unfoldable pub answer : Text → Choice → r.Store → Result HttpError ResolveResponse × r.Store
  unfolding response_of
  answer tag (err e) s = (err e, s)
  answer tag (ok none) s = (
    err not_found,
    cache_set r json config.redis_key_prefix config.resolve_cache_ttl_seconds
        (build_resolve_cache_key config.redis_key_prefix tag) cache_negative
        (some config.resolve_cache_negative_ttl_seconds) s,
  )
  answer tag (ok (some (row, ttl))) s = (
    ok (response_of config.payment_link_base_url tag row),
    cache_set r json config.redis_key_prefix config.resolve_cache_ttl_seconds
        (build_resolve_cache_key config.redis_key_prefix tag)
        (value (response_of config.payment_link_base_url tag row)) ttl s,
  )

  unfoldable pub resolve_uncached :
      CaseMap
      → Solana
      → (Text → Option (Option Bytes))
      → Text
      → d.Table
      → r.Store
      → Result HttpError ResolveResponse × r.Store
  unfolding choose_row answer
  resolve_uncached u sol rpc tag table s =
      answer tag (choose_row u sol rpc config tag (d.find_unique table tag)) s

  unfoldable pub resolve_cached :
      Cached ResolveResponse
      → Result HttpError ResolveResponse × r.Store
      → r.Store
      → Result HttpError ResolveResponse × r.Store
  resolve_cached negative uncached s = (err not_found, s)
  resolve_cached (hit v) uncached s = (ok v, s)
  resolve_cached miss uncached s = uncached

  unfoldable pub resolve :
      CaseMap
      → Solana
      → (Text → Option (Option Bytes))
      → Text
      → d.Table
      → r.Store
      → Result HttpError ResolveResponse × r.Store
  unfolding resolve_uncached resolve_cached
  resolve u sol rpc tag table s =
      resolve_cached
        (cache_get r json config.redis_key_prefix config.resolve_cache_ttl_seconds
          (build_resolve_cache_key config.redis_key_prefix tag) s)
        (resolve_uncached u sol rpc tag table s) s
