-- ===== src/Tests/Api/Routes.antt =====
-- Runs of the theorems on the controllers.
use tagwise_identity_protoco.Prelude.{
  Text, codes, [], ◌∷◌, ◌++◌, Option, none, some, Result, ok, ◌≡◌, refl, text_eq, starts_with,
  lower_unit,
}
use tagwise_identity_protoco.Core.Constants.{matches_allowed, is_tag_unit}
use tagwise_identity_protoco.Core.Normalize.{normalize_tag}
use tagwise_identity_protoco.Mirror.{is_active}
use tagwise_identity_protoco.Mirror.Memory
use tagwise_identity_protoco.Redis.Memory.{memory}
use tagwise_identity_protoco.Api.{HttpError, normalize_tag_param_or_throw}
use tagwise_identity_protoco.Api.Auth.{jwt_guard, bearer_token, ownership_guard}
use tagwise_identity_protoco.Api.Register.Laws.{Registered}
use tagwise_identity_protoco.Api.Routes.{guarded_tag, register_route}
use tagwise_identity_protoco.Api.Routes.Laws.{SignedIn, register_route-SignedIn}
use tagwise_identity_protoco.Tests.{ascii_case, owner, wallet, alice, alice_row}
use tagwise_identity_protoco.Tests.Codec.{codec}
use tagwise_identity_protoco.Tests.Api.Auth.{platform}
use tagwise_identity_protoco.Tests.Api.Register
use tagwise_identity_protoco.Tests.Api.Tags.{config, mild_engine}

abbrev pub header : Option Text
header = some (codes "Bearer " ++ owner)

pub guarded :
    guarded_tag ascii_case Memory.memory memory codec config platform
      (λ tracker. ok tt)
      header
      (codes "@Alice")
      (alice_row ∷ [])
    ≡ ok (owner, alice)
unfolding guarded_tag jwt_guard bearer_token starts_with ownership_guard
    normalize_tag_param_or_throw normalize_tag lower_unit matches_allowed is_tag_unit Memory.find
    text_eq is_active
guarded = refl

guard_passed : jwt_guard platform header ≡ ok owner
unfolding jwt_guard bearer_token starts_with
guard_passed = refl

registered :
    register_route ascii_case Memory.memory memory codec config platform
      (λ tracker. ok tt)
      mild_engine
      Register.params
      header
      none
      (codes "@Bob")
      (some wallet)
      none
      (alice_row ∷ [])
    ≡ ok (Register.message, Register.bob_pda, 150)
unfolding register_route
registered = rw guard_passed Register.registers

register_route-SignedIn_example :
    (pubkey : Text) × SignedIn platform header pubkey
    × (◌≡◌ {A = Result HttpError (Unit {0})} (ok tt) (ok tt))
    × Registered ascii_case mild_engine Memory.memory
        (alice_row ∷ [])
        Register.params
        (codes "@Bob")
        (some wallet)
        none
        pubkey
        Register.message
        Register.bob_pda
        150
register_route-SignedIn_example =
    register_route-SignedIn ascii_case Memory.memory memory codec config platform (λ tracker. ok tt)
      mild_engine Register.params header none (codes "@Bob") (some wallet) none (alice_row ∷ [])
      Register.message Register.bob_pda 150 registered
