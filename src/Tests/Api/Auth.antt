-- ===== src/Tests/Api/Auth.antt =====
-- Runs of the theorems on signing in.
use tagwise_identity_protoco.Prelude.{
  ℕ, Text, codes, Bool, true, [], ◌∷◌, List, replicate, Option, none, some, ok, ◌≡◌, ◌≢◌, refl,
  text_eq, starts_with, truthy, arith, length,
}
use tagwise_identity_protoco.Redis.{redis_key}
use tagwise_identity_protoco.Redis.Memory.{memory, set_ex, getdel, lookup, remove}
use tagwise_identity_protoco.Moderation.Leetspeak.{is_line_terminator}
use tagwise_identity_protoco.Api.Message.{
  SignInMessageFields, build_sign_in_message, parse_sign_in_message,
}
use tagwise_identity_protoco.Api.Message.Laws.{Readable, OneLine-of_all, parse-build}
use tagwise_identity_protoco.Api.Auth.{
  Platform, AuthConfig, nonce_key, verify_signature, challenge_fields, challenge, verify,
}
use tagwise_identity_protoco.Api.Auth.Laws.{Later, Verified, verify-Verified, verify-once}
use tagwise_identity_protoco.Api.Auth.Login.{verify-challenge}
use tagwise_identity_protoco.Tests.{plain_solana, owner}

abbrev time_of : Text → Option ℕ
time_of [] = none
time_of (n ∷ t) = some n

abbrev number_of : Text → ℕ
number_of [] = 0
number_of (n ∷ t) = n

abbrev pub platform : Platform
platform = record {
  to_iso = λ ms. ms ∷ [];
  get_time = time_of;
  get_time-to_iso = λ ms. refl;
  to_string = λ n. n ∷ [];
  to_number = number_of;
  encode_base58 = λ t. some t;
  encode_utf8 = λ t. t;
  verify_detached = λ message signature key. true;
  sign = λ sub. sub;
  verify = λ token. some token;
}

abbrev pub config : AuthConfig
config = record {
  redis_key_prefix = codes "tip:";
  auth_domain = codes "tagwise.me";
  auth_nonce_ttl_seconds = 300;
}

abbrev fields : SignInMessageFields
fields = challenge_fields platform plain_solana memory config owner (codes "abc") 1000

abbrev pub message : Text
message = build_sign_in_message fields

abbrev pub signature : Text
signature = replicate 64 5

pub readable : Readable fields
unfolding is_line_terminator truthy starts_with
readable = record {
  domain_line = refl;
  pubkey_line = OneLine-of_all owner refl;
  nonce_line = (refl, (refl, (refl, tt)));
  issued_at_line = (refl, tt);
  expiration_line = (refl, tt);
  domain_given = refl;
  pubkey_given = refl;
  domain_apart = (refl, refl, refl);
  pubkey_apart = (refl, refl, refl);
}

parse-build_example : parse_sign_in_message message ≡ some fields
parse-build_example = parse-build fields readable

abbrev pub stored : Bool × List (Text × Text)
stored = (true, (nonce_key config owner (codes "abc"), 301000 ∷ []) ∷ [])

abbrev pub emptied : Bool × List (Text × Text)
emptied = (true, [])

pub challenged :
    challenge platform plain_solana memory config owner (codes "abc") 1000 emptied
    ≡ ok (message, stored)
unfolding challenge set_ex
challenged = refl

pub signed : verify_signature platform plain_solana message signature owner ≡ true
unfolding verify_signature
signed = refl

pub answered :
    getdel (nonce_key config owner (codes "abc")) stored ≡ some (some (301000 ∷ []), emptied)
unfolding getdel lookup remove nonce_key redis_key text_eq
answered = refl

token_given :
    verify platform plain_solana memory config owner message signature 200000 stored
    ≡ (ok owner, emptied)
token_given =
    verify-challenge platform plain_solana memory config owner (codes "abc") message signature 1000
      200000 emptied stored emptied (some (301000 ∷ [])) readable challenged (omega arith) signed
      answered

verify-Verified_example :
    Verified platform plain_solana memory config owner message signature 200000 stored emptied
    × (owner ≡ owner)
verify-Verified_example =
    verify-Verified platform plain_solana memory config owner message signature 200000 stored
      emptied owner token_given

verify-once_example :
    verify platform plain_solana memory config owner message signature 200001 emptied
    ≢ (ok owner, emptied)
verify-once_example =
    verify-once platform plain_solana memory config owner message message signature signature 200000
      200001 stored emptied emptied emptied owner owner token_given parse-build_example
      parse-build_example refl Later.same

owner_given : length owner ≢ 0
owner_given h = ground arith
