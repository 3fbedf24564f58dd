-- ===== src/Api/Auth.antt =====
-- apps/api/src/auth: redis-nonce-store.ts, ed25519.ts, auth.service.ts and the two guards. Random
-- bytes, the clock, tweetnacl, base58, UTF-8 and JWTs are parameters.
pub mod Laws
pub mod Ownership
pub mod Login
use tagwise_identity_protoco.Prelude.{
  ℕ, ◌+◌, ◌*◌, Text, CaseMap, codes, Bool, true, false, not, [], ◌∷◌, Option, none, some, ◌≡◌, ◌==◌,
  ltb, length, drop, text_eq, starts_with, Result, ok, err, ◌>>=◌, ◌>>◌, if◌then◌else◌,
}
use tagwise_identity_protoco.Solana.{Bytes, Solana}
use tagwise_identity_protoco.Mirror.{Identity, IdentityTable, is_active}
use tagwise_identity_protoco.Redis.{Redis, redis_key}
use tagwise_identity_protoco.Api.{
  HttpError, bad_request, unauthorized, forbidden, not_found, service_unavailable,
  normalize_tag_param_or_throw,
}
use tagwise_identity_protoco.Api.Message.{
  SignInMessageFields, build_sign_in_message, parse_sign_in_message,
}

-- What the service takes from the platform and from packages.
pub record Platform : Type 0 where
  -- `new Date(ms).toISOString()` and `new Date(text).getTime()`, which is `none` for NaN.
  pub to_iso : ℕ → Text
  pub get_time : Text → Option ℕ
  pub get_time-to_iso : (ms : ℕ) → get_time (to_iso ms) ≡ some ms
  -- `String(n)` and `Number(text)`
  pub to_string : ℕ → Text
  pub to_number : Text → ℕ
  -- base58, UTF-8 and `nacl.sign.detached.verify`
  pub encode_base58 : Text → Option Bytes
  pub encode_utf8 : Text → Bytes
  pub verify_detached : Bytes → Bytes → Bytes → Bool
  -- `JwtService`: a token for a subject, and the subject of a token that is valid.
  pub sign : Text → Text
  pub verify : Text → Option Text

pub record AuthConfig : Type 0 where
  pub redis_key_prefix : Text
  pub auth_domain : Text
  pub auth_nonce_ttl_seconds : ℕ

pub record NonceRecord : Type 0 where
  pub pubkey : Text
  pub nonce : Text
  pub expires_at : ℕ

unfoldable pub nonce_key : AuthConfig → Text → Text → Text
nonce_key config pubkey nonce =
    redis_key config.redis_key_prefix (codes "nonce") (pubkey ∷ nonce ∷ [])

abbrev or_unavailable {ℓ} : {A : Type ℓ} → Option A → Result HttpError A
or_unavailable none = err service_unavailable
or_unavailable (some a) = ok a

-- `nacl.sign.detached.verify` throws on a public key or a signature of the wrong length; both are
-- tested for or fixed by the encoding here.
unfoldable pub verify_signature : Platform → Solana → Text → Text → Text → Bool
verify_signature p sol message signature pubkey =
    if not (sol.is_address pubkey) then false else elim (p.encode_base58 signature) [
      | none ↦ false
      | some bytes ↦
          if not (length bytes == 64)
          then false
          else p.verify_detached (p.encode_utf8 message) bytes (sol.encode_address pubkey)
    ]

module _ (p : Platform) (sol : Solana) (r : Redis) (config : AuthConfig) where
  unfoldable pub put : Text → Text → ℕ → ℕ → r.Store → Result HttpError r.Store
  put pubkey nonce ttl_seconds now s = or_unavailable (
      r.set_ex (nonce_key config pubkey nonce) (p.to_string (now + ttl_seconds * 1000)) ttl_seconds
        s)

  unfoldable pub nonce_record : Text → Text → Option Text → Option NonceRecord
  nonce_record pubkey nonce none = none
  nonce_record pubkey nonce (some value) =
      some (record { pubkey = pubkey; nonce = nonce; expires_at = p.to_number value })

  unfoldable pub take_nonce :
      Text → Text → r.Store → Result HttpError (Option NonceRecord × r.Store)
  unfolding nonce_record
  take_nonce pubkey nonce s = do
    (value, s') ← or_unavailable (r.getdel (nonce_key config pubkey nonce) s)
    ok (nonce_record pubkey nonce value, s')

  abbrev pub challenge_fields : Text → Text → ℕ → SignInMessageFields
  challenge_fields pubkey nonce now = record {
    domain = config.auth_domain;
    pubkey = pubkey;
    nonce = nonce;
    issued_at = p.to_iso now;
    expiration_time = p.to_iso (now + config.auth_nonce_ttl_seconds * 1000);
  }

  -- `nonce` is the hexadecimal text of the random bytes, `now` the clock.
  unfoldable pub challenge : Text → Text → ℕ → r.Store → Result HttpError (Text × r.Store)
  unfolding put
  challenge pubkey nonce now s = if not (sol.is_address pubkey) then err (bad_request none) else do
    s' ← put pubkey nonce config.auth_nonce_ttl_seconds now s
    ok (build_sign_in_message (challenge_fields pubkey nonce now), s')

  -- `new Date(text).getTime() < Date.now()`, which is false for NaN.
  unfoldable pub expired : Text → ℕ → Bool
  expired text now = elim (p.get_time text) [ none ↦ false | some ms ↦ ltb ms now ]

  -- The tests after the nonce is consumed.
  unfoldable pub finish_verify :
      Text → Text → Text → Option NonceRecord × r.Store → Result HttpError Text × r.Store
  unfolding verify_signature
  finish_verify pubkey message signature (none, s) = (err unauthorized, s)
  finish_verify pubkey message signature (some consumed, s) = (
    if verify_signature p sol message signature pubkey
        then ok (p.sign pubkey)
        else err unauthorized,
    s,
  )

  unfoldable pub verify_fields :
      Text → Text → Text → SignInMessageFields → ℕ → r.Store → Result HttpError Text × r.Store
  unfolding take_nonce expired finish_verify
  verify_fields pubkey message signature parsed now s =
      if not (text_eq parsed.pubkey pubkey)
      then (err unauthorized, s)
      else if expired parsed.expiration_time now
      then (err unauthorized, s)
      else elim (take_nonce pubkey parsed.nonce s) [
        | err e ↦ (err e, s)
        | ok consumed ↦ finish_verify pubkey message signature consumed
      ]

  -- The token, and the store of nonces, which has changed also where the signature is refused.
  unfoldable pub verify : Text → Text → Text → ℕ → r.Store → Result HttpError Text × r.Store
  unfolding verify_fields
  verify pubkey message signature now s = elim (parse_sign_in_message message) [
    | none ↦ (err unauthorized, s)
    | some parsed ↦ verify_fields pubkey message signature parsed now s
  ]

abbrev pub bearer_prefix : Text
bearer_prefix = codes "Bearer "

-- A header that is not one string is `none`, and an empty token is falsy.
unfoldable pub bearer_token : Option Text → Option Text
bearer_token none = none
bearer_token (some header) =
    if starts_with header bearer_prefix
    then if length (drop 7 header) == 0 then none else some (drop 7 header)
    else none

-- `JwtAuthGuard`: the public key that it attaches to the request.
unfoldable pub jwt_guard : Platform → Option Text → Result HttpError Text
unfolding bearer_token
jwt_guard p header = elim (bearer_token header) [
  | none ↦ err unauthorized
  | some token ↦ elim (p.verify token) [ none ↦ err unauthorized | some sub ↦ ok sub ]
]

abbrev pub owned_by : Text → Option Identity → Result HttpError (Unit {0})
owned_by pubkey none = err not_found
owned_by pubkey (some row) =
    if not (is_active row)
    then err not_found
    else if not (text_eq row.owner pubkey)
    then err forbidden
    else ok tt

-- `TagOwnershipGuard`, with the public key that the guard before it attached, if any.
unfoldable pub ownership_guard :
    CaseMap → (d : IdentityTable) → Option Text → Text → d.Table → Result HttpError (Unit {0})
ownership_guard u d none raw table = err forbidden
ownership_guard u d (some pubkey) raw table =
    if length pubkey == 0
    then err forbidden
    else do tag ← normalize_tag_param_or_throw u raw; owned_by pubkey (d.find_unique table tag)
