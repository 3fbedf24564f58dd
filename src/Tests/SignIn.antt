-- ===== src/Tests/SignIn.antt =====
-- A run of the theorem on signing in through client and service.
use tagwise_identity_protoco.Prelude.{
  ℕ, zero, suc, Text, codes, Option, none, some, [], ◌∷◌, ok, ◌≡◌, refl, arith, text_eq,
}
use tagwise_identity_protoco.Redis.Memory.{memory}
use tagwise_identity_protoco.Api.Filter.{ErrorBody, no_body}
use tagwise_identity_protoco.Api.Routes.{challenge_route, verify_route}
use tagwise_identity_protoco.Sdk.{HttpResponse, Platform, Signer}
use tagwise_identity_protoco.Sdk.Http.{build_url, trimmed_base}
use tagwise_identity_protoco.Sdk.Client.{Session, Client, connect}
use tagwise_identity_protoco.Sdk.Client.Laws.{response_of}
use tagwise_identity_protoco.Sdk.Client.SignIn.{in_object, first_of, connect-challenge}
use tagwise_identity_protoco.Tests.{ascii_case, program_id, plain_solana, owner}
use tagwise_identity_protoco.Tests.Api.Auth.{
  platform, config, message, signature, readable, stored, emptied, challenged, signed, answered,
}

abbrev Value : Type 0
Value = ErrorBody × Text

abbrev to_string : ℕ → Text
to_string n = n ∷ []

abbrev big_int : Text → Option ℕ
big_int [] = none
big_int (n ∷ t) = some n

abbrev encode : ErrorBody → Value
encode b = (b, [])

abbrev wrap : Text → Value
wrap t = (no_body, t)

-- The service answers the first request as a challenge and the next one as its verification.
abbrev answers : ℕ → Option (HttpResponse Value) × ℕ
answers zero = (
  some (
      response_of encode to_string (
        in_object wrap (
          first_of (
            challenge_route platform plain_solana memory config (ok tt) owner (codes "abc") 1000
              emptied)))),
  1,
)
answers (suc n) = (
  some (
      response_of encode to_string (
        in_object wrap
          (verify_route platform plain_solana memory config (ok tt) owner message signature 200000
            stored).0)),
  2,
)

abbrev network : Platform
network = record {
  World = ℕ;
  Value = Value;
  fetch = λ http n. answers n;
  make_url = λ url query. some url;
  stringify = λ fields. [];
  big_int = big_int;
  error_body = λ v. v.0;
  field = λ name v. v.1;
}

abbrev client : Client
client = record { base_url = codes "http://a"; program_id = program_id }

abbrev signer : Signer
signer = record { public_key = owner; sign_message = λ bytes. some signature }

abbrev nobody : Session
nobody = record { token = none; pubkey = none }

at_challenge :
    build_url network (codes "http://a") (codes "/v1/auth/challenge") []
    ≡ some (codes "http://a/v1/auth/challenge")
unfolding build_url trimmed_base text_eq
at_challenge = refl

at_verify :
    build_url network (codes "http://a") (codes "/v1/auth/verify") []
    ≡ some (codes "http://a/v1/auth/verify")
unfolding build_url trimmed_base text_eq
at_verify = refl

issued :
    challenge_route platform plain_solana memory config (ok tt) owner (codes "abc") 1000 emptied
    ≡ ok (message, stored)
unfolding challenge_route
issued = challenged

connect-challenge_example :
    connect network ascii_case client (λ t. t) (λ t. t) signer nobody 0
    ≡ (ok owner, record { token = some owner; pubkey = some owner }, 2)
connect-challenge_example =
    connect-challenge network ascii_case client encode to_string (λ b. refl) (λ n. refl) wrap wrap
      (λ t. refl) (λ t. refl) platform plain_solana memory config (λ t. t) (λ t. t) signer nobody
      (codes "abc") message (codes "http://a/v1/auth/challenge") (codes "http://a/v1/auth/verify")
      signature 1000 200000 0 1 2 emptied stored emptied (some (301000 ∷ [])) at_challenge at_verify
      refl refl issued readable (omega arith) refl signed answered
