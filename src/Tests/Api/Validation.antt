-- ===== src/Tests/Api/Validation.antt =====
-- Runs of the theorem on the bounds of profiles.
use tagwise_identity_protoco.Prelude.{
  codes, Bool, true, false, [], ◌∷◌, length, none, some, ok, ◌≡◌, refl, subst, text_eq,
  if◌then◌else◌,
}
use tagwise_identity_protoco.Mirror.{Identity}
use tagwise_identity_protoco.Mirror.Memory
use tagwise_identity_protoco.Redis.Memory.{memory}
use tagwise_identity_protoco.Cache.{redis_cache_invalidator}
use tagwise_identity_protoco.Api.Profile.{to_identity_response}
use tagwise_identity_protoco.Api.Validation.{
  Body, absent, null, text, Validator, is_preferred_token, optional_string, validated,
  patch_identity_route,
}
use tagwise_identity_protoco.Api.Validation.Bounds.{Bounded}
use tagwise_identity_protoco.Api.Validation.History.{AllBounded, Writes, Writes-Bounded}
use tagwise_identity_protoco.Tests.{ascii_case, alice, alice_row}
use tagwise_identity_protoco.Tests.Codec.{codec}
use tagwise_identity_protoco.Tests.Api.Auth.{platform}
use tagwise_identity_protoco.Tests.Api.Routes.{header, guarded}
use tagwise_identity_protoco.Tests.Api.Tags.{
  config, mild_engine, request, new_row, empty, full, updates,
}

-- Every text is a URL, and sizes are lengths.
abbrev validator : Validator
validator = record { size = length; is_url = λ t. true }

-- `{ "avatar": null, "preferredToken": "USDC" }`
abbrev body : Body
body = record {
  display_name = absent;
  avatar = null;
  bio = absent;
  preferred_token = text (codes "USDC");
  has_unknown = false;
}

passes : validated validator body ≡ ok request
unfolding validated optional_string is_preferred_token
passes = refl

patches :
    patch_identity_route ascii_case Memory.memory memory codec config platform
      (λ tracker. ok tt)
      validator
      mild_engine
      header
      (codes "@Alice")
      body
      (alice_row ∷ [])
      full
    ≡ ok (to_identity_response alice new_row, new_row ∷ [], empty)
unfolding patch_identity_route
patches = rw guarded (rw passes updates)

abbrev Kept : Memory.memory.Table → Type 0
Kept =
    AllBounded ascii_case Memory.memory Memory.memory_cursor
      (redis_cache_invalidator memory (codes "tip:")) memory codec config platform
      (λ tracker. ok tt) validator mild_engine

start : Kept (alice_row ∷ [])
unfolding Memory.find text_eq
start tag row h = by_tag (text_eq alice tag) h
  where
    bounded : Bounded validator alice_row
    bounded = record {
      display_name = λ t e. absurd (cc e);
      avatar = λ t e. absurd (cc e);
      bio = λ t e. absurd (cc e);
      preferred_token = λ t e. absurd (cc e);
    }

    by_tag : (b : Bool) → (if b then some alice_row else none) ≡ some row → Bounded validator row
    by_tag true e = subst (Bounded validator) (same e) bounded
      where
        same : {x y : Identity} → some x ≡ some y → x ≡ y
        same k = cc k
    by_tag false e = absurd (cc e)

found : Memory.find (new_row ∷ []) alice ≡ some new_row
unfolding Memory.find text_eq
found = refl

Writes-Bounded_example : Bounded validator new_row
Writes-Bounded_example =
    Writes-Bounded ascii_case Memory.memory Memory.memory_cursor
      (redis_cache_invalidator memory (codes "tip:")) memory codec config platform
      (λ tracker. ok tt) validator mild_engine (alice_row ∷ []) (new_row ∷ []) start
      (Writes.patched header (codes "@Alice") body full empty (to_identity_response alice new_row)
        Writes.nothing patches)
      alice new_row found
