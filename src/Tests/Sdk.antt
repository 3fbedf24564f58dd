-- ===== src/Tests/Sdk.antt =====
-- Runs of the theorems on the client library.
use tagwise_identity_protoco.Prelude.{
  ℕ, ◌+◌, Text, codes, [], ◌∷◌, ◌++◌, drop, Option, none, some, Result, ok, err, ◌≡◌, ◌⊎◌, refl,
  text_eq, lower_unit,
}
use tagwise_identity_protoco.Core.Constants.{matches_allowed, is_tag_unit}
use tagwise_identity_protoco.Core.Normalize.{TagRejectionReason, accepted, normalize_tag}
use tagwise_identity_protoco.Core.Normalize.Laws.{IsCanonical}
use tagwise_identity_protoco.Core.Account.Laws.{decoded}
use tagwise_identity_protoco.Program.{serialize}
use tagwise_identity_protoco.Program.Reach.{Reach}
use tagwise_identity_protoco.Api.Resolve.{chain_lookup}
use tagwise_identity_protoco.Sdk.Chain.{Rpc, identity_of, resolve_on_chain}
use tagwise_identity_protoco.Sdk.Chain.Laws.{
  resolve_on_chain-reachable, resolve_on_chain-chain_lookup, row_of,
}
use tagwise_identity_protoco.Api.{HttpError, invalid_tag}
use tagwise_identity_protoco.Api.Filter.{ErrorBody, no_body}
use tagwise_identity_protoco.Api.Routes.{tag_route}
use tagwise_identity_protoco.Sdk.{tag_invalid, HttpResponse, Platform, Signer}
use tagwise_identity_protoco.Sdk.Http.{build_url, trimmed_base}
use tagwise_identity_protoco.Sdk.Client.{
  Session, Client, resolve, register, update_wallet, update_profile,
}
use tagwise_identity_protoco.Sdk.Client.Laws.{response_of, client_result, resolve-served}
use tagwise_identity_protoco.Sdk.Client.Writes.{
  Guarded, asked_register, asked_wallet, asked_profile, writes-Guarded,
}
use tagwise_identity_protoco.Tests.Core.{registered, registers}
use tagwise_identity_protoco.Tests.{ascii_case, program_id, owner, wallet, alice, plain_solana}

abbrev to_string : ℕ → Text
to_string n = n ∷ []

abbrev big_int : Text → Option ℕ
big_int [] = none
big_int (n ∷ t) = some n

-- A service that knows one tag, and counts its requests.
abbrev handler : Text → ℕ → Result HttpError (ErrorBody × Text) × ℕ
handler tag n = (ok (no_body, tag), n + 1)

abbrev encode : ErrorBody → ErrorBody × Text
encode b = (b, [])

abbrev base : Text
base = codes "http://a/"

abbrev served_at : Text → Text
served_at tag = codes "http://a/v1/resolve/" ++ tag

abbrev answered :
    Result HttpError (ErrorBody × Text) × ℕ → Option (HttpResponse (ErrorBody × Text)) × ℕ
answered r = (some (response_of encode to_string r.0), r.1)

abbrev network : Platform
network = record {
  World = ℕ;
  Value = ErrorBody × Text;
  fetch = λ http n. answered (tag_route ascii_case handler (drop 20 http.url) n);
  make_url = λ url query. some url;
  stringify = λ fields. [];
  big_int = big_int;
  error_body = λ v. v.0;
  field = λ name v. v.1;
}

abbrev client : Client
client = record { base_url = base; program_id = program_id }

reachable :
    (tag : Text)
    → IsCanonical tag
    → build_url network base (codes "/v1/resolve/" ++ tag) [] ≡ some (served_at tag)
unfolding build_url trimmed_base text_eq
reachable tag c = refl

resolve-served_example :
    ((reason : TagRejectionReason) × (resolve network ascii_case client (codes "@Alice") 0
        ≡ (err (tag_invalid reason), 0))
      × (tag_route ascii_case handler (codes "@Alice") 0 ≡ (err (invalid_tag reason), 0)))
    ⊎ ((tag : Text) × (normalize_tag ascii_case (codes "@Alice") ≡ accepted tag)
        × (resolve network ascii_case client (codes "@Alice") 0 ≡ (
          client_result (tag_route ascii_case handler (codes "@Alice") 0).0,
          (tag_route ascii_case handler (codes "@Alice") 0).1,
        )))
resolve-served_example =
    resolve-served network ascii_case client encode to_string (λ b. refl) (λ n. refl) handler
      served_at reachable (λ tag n c. refl) (codes "@Alice") 0

abbrev session : Session
session = record { token = some (codes "t"); pubkey = some owner }

writes-Guarded_example :
    Guarded network ascii_case client
      (asked_register (some wallet) none)
      (codes "@Alice")
      session
      0
      (register network ascii_case client
        (record { tag = codes "@Alice"; wallet = some wallet; fee_payer = none })
        session
        0)
    × Guarded network ascii_case client
        (asked_wallet wallet)
        (codes "@Alice")
        session
        0
        (update_wallet network ascii_case client (codes "@Alice") wallet session 0)
    × Guarded network ascii_case client
        (asked_profile ((codes "bio", none) ∷ []))
        (codes "@Alice")
        session
        0
        (update_profile network ascii_case client
          (codes "@Alice")
          ((codes "bio", none) ∷ [])
          session
          0)
writes-Guarded_example =
    writes-Guarded network ascii_case client (codes "@Alice") session 0 (some wallet) none wallet
      ((codes "bio", none) ∷ [])

abbrev signer : Signer
signer = record { public_key = owner; sign_message = λ message. some message }

abbrev node : Rpc
node _ = some (some (serialize registered))

alice_normal : normalize_tag ascii_case (codes "@Alice") ≡ accepted alice
unfolding normalize_tag lower_unit matches_allowed is_tag_unit
alice_normal = refl

resolve_on_chain-reachable_example :
    resolve_on_chain ascii_case plain_solana (some node) program_id (codes "@Alice")
    ≡ ok (
        some (record {
          tag = alice;
          owner = plain_solana.decode_address registered.owner;
          wallet = plain_solana.decode_address registered.wallet;
          bump = registered.bump;
        }))
resolve_on_chain-reachable_example =
    resolve_on_chain-reachable ascii_case plain_solana node program_id (codes "@Alice") alice
      alice_normal refl owner 255 registered registered refl registers Reach.start refl

resolve_on_chain-chain_lookup_example :
    chain_lookup ascii_case plain_solana node program_id alice
    ≡ ok (
        some (
          row_of (record {
            tag = alice;
            owner = plain_solana.decode_address registered.owner;
            wallet = plain_solana.decode_address registered.wallet;
            bump = registered.bump;
          })))
resolve_on_chain-chain_lookup_example =
    resolve_on_chain-chain_lookup ascii_case plain_solana node program_id (codes "@Alice") alice
      alice_normal refl (some (identity_of (decoded plain_solana alice registered)))
      resolve_on_chain-reachable_example
