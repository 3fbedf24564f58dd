-- ===== src/Sdk/Client.antt =====
-- packages/sdk/src/client.ts and validate.ts. A call returns its answer with the world and, where it
-- changes it, the session.
pub mod Laws
pub mod Writes
pub mod Connecting
pub mod SignIn
use tagwise_identity_protoco.Prelude.{
  ℕ, Text, CaseMap, codes, Bool, true, false, List, [], ◌∷◌, ◌++◌, Option, none, some, truthy,
  Result, ok, err,
}
use tagwise_identity_protoco.Solana.{Bytes}
use tagwise_identity_protoco.Core.Normalize.{NormalizeTagResult, accepted, rejected, normalize_tag}
use tagwise_identity_protoco.Sdk.{
  TipError, tag_invalid, no_session, signer_refused, HttpMethod, get, post, patch, Platform, Signer,
}
use tagwise_identity_protoco.Sdk.Http.{RequestParams, request}

abbrev pub default_base_url : Text
default_base_url = codes "https://tip.tagwise.me"

-- validate.ts
unfoldable pub normalize_tag_or_throw : CaseMap → Text → Result TipError Text
normalize_tag_or_throw u raw_tag = elim (normalize_tag u raw_tag) [
  | rejected reason ↦ err (tag_invalid reason)
  | accepted tag ↦ ok tag
]

pub record Session : Type 0 where
  pub token : Option Text
  pub pubkey : Option Text

-- The fields of the client that stay as they were constructed.
pub record Client : Type 0 where
  pub base_url : Text
  pub program_id : Text

pub record RegisterParams : Type 0 where
  pub tag : Text
  pub wallet : Option Text
  pub fee_payer : Option Text

-- The answer of `availability`: the client's own, for a malformed tag, or the server's.
pub data Availability (Value : Type 0) : Type 0 where
  invalid : Text → Availability Value
  answered : Value → Availability Value

abbrev pub get_of : Text → List (Text × Text) → RequestParams
get_of path query = record { method = get; path = path; query = query; body = none; token = none }

abbrev pub post_of : Text → List (Text × Option Text) → Option Text → RequestParams
post_of path body token = record {
  method = post;
  path = path;
  query = [];
  body = some body;
  token = token;
}

module _ (p : Platform) (u : CaseMap) (client : Client) where
  abbrev pub Answer : Type 0
  Answer = Result TipError p.Value × p.World

  -- A call whose tag is malformed sends nothing.
  abbrev pub with_tag : (Text → p.World → Answer) → Result TipError Text → p.World → Answer
  with_tag next (err e) w = (err e, w)
  with_tag next (ok tag) w = next tag w

  -- The reads that have the tag at the end of their path.
  abbrev pub read_tag : Text → Text → p.World → Answer
  read_tag path tag =
      with_tag (λ normalized. request p client.base_url (get_of (path ++ normalized) []))
        (normalize_tag_or_throw u tag)

  unfoldable pub resolve : Text → p.World → Answer
  resolve tag = read_tag (codes "/v1/resolve/") tag

  unfoldable pub identity : Text → p.World → Answer
  identity tag = read_tag (codes "/v1/identity/") tag

  unfoldable pub qr : Text → p.World → Answer
  qr tag = read_tag (codes "/v1/qr/") tag

  unfoldable pub payment_link : Text → p.World → Answer
  payment_link tag = read_tag (codes "/v1/payment-link/") tag

  abbrev pub as_answered : Answer → Result TipError (Availability p.Value) × p.World
  as_answered (err e, w) = (err e, w)
  as_answered (ok v, w) = (ok (answered v), w)

  unfoldable pub availability : Text → p.World → Result TipError (Availability p.Value) × p.World
  availability tag w = elim (normalize_tag u tag) [
    | rejected _ ↦ (ok (invalid (codes "@" ++ tag)), w)
    | accepted normalized ↦
        as_answered
          (request p client.base_url (get_of (codes "/v1/availability/" ++ normalized) []) w)
  ]

  unfoldable pub search : Text → p.World → Answer
  search q = request p client.base_url (get_of (codes "/v1/search") ((codes "q", q) ∷ []))

  abbrev pub texts : Text → Result TipError p.Value × p.World → Result TipError Text × p.World
  texts name (err e, w) = (err e, w)
  texts name (ok v, w) = (ok (p.field name v), w)

  unfoldable pub challenge : Text → p.World → Result TipError Text × p.World
  challenge pubkey w = texts (codes "message") (
      request p client.base_url
        (post_of (codes "/v1/auth/challenge") ((codes "pubkey", some pubkey) ∷ []) none) w)

  abbrev pub keep_token :
      Text → Session → Result TipError Text × p.World → Result TipError Text × Session × p.World
  keep_token pubkey s (err e, w) = (err e, s, w)
  keep_token pubkey s (ok token, w) =
      (ok token, record { token = some token; pubkey = some pubkey }, w)

  unfoldable pub verify :
      Text → Text → Text → Session → p.World → Result TipError Text × Session × p.World
  verify pubkey message signature s w = keep_token pubkey s (
      texts (codes "token") (
        request p client.base_url
          (post_of (codes "/v1/auth/verify")
            ((codes "pubkey", some pubkey)
              ∷ (codes "message", some message)
              ∷ (codes "signature", some signature)
              ∷ [])
            none)
          w))

  abbrev pub as_connected :
      Text → Result TipError Text × Session × p.World → Result TipError Text × Session × p.World
  as_connected pubkey (err e, s, w) = (err e, s, w)
  as_connected pubkey (ok token, s, w) = (ok pubkey, s, w)

  -- The rest of `connect`, from the signature on.
  abbrev pub with_signature :
      (Bytes → Text)
      → Text
      → Text
      → Session
      → Option Bytes
      → p.World
      → Result TipError Text × Session × p.World
  with_signature decode_base58 pubkey message s none w = (err signer_refused, s, w)
  with_signature decode_base58 pubkey message s (some signature) w =
      as_connected pubkey (verify pubkey message (decode_base58 signature) s w)

  -- `encode_utf8` is `TextEncoder`, `decode_base58` the base58 text of bytes.
  abbrev pub sign_and_verify :
      (Text → Bytes)
      → (Bytes → Text)
      → Signer
      → Session
      → Result TipError Text × p.World
      → Result TipError Text × Session × p.World
  sign_and_verify encode_utf8 decode_base58 signer s (err e, w) = (err e, s, w)
  sign_and_verify encode_utf8 decode_base58 signer s (ok message, w) =
      with_signature decode_base58 signer.public_key message s
        (signer.sign_message (encode_utf8 message)) w

  unfoldable pub connect :
      (Text → Bytes)
      → (Bytes → Text)
      → Signer
      → Session
      → p.World
      → Result TipError Text × Session × p.World
  unfolding challenge verify
  connect encode_utf8 decode_base58 signer s w =
      sign_and_verify encode_utf8 decode_base58 signer s (challenge signer.public_key w)

  abbrev pub set_session : Text → Text → Session → Session
  set_session token pubkey s = record { token = some token; pubkey = some pubkey }

  abbrev pub disconnect : Session → Session
  disconnect s = record { token = none; pubkey = none }

  abbrev pub token_or_throw : Option Text → Result TipError Text
  token_or_throw none = err no_session
  token_or_throw (some token) = ok token

  unfoldable pub require_session : Session → Result TipError Text
  require_session s = token_or_throw (truthy s.token)

  -- A write asks for the session first, and then for the tag.
  abbrev pub write_tag :
      (Text → Text → RequestParams) → Text → Result TipError Text → p.World → Answer
  write_tag params tag (err e) w = (err e, w)
  write_tag params tag (ok token) w =
      with_tag (λ normalized. request p client.base_url (params token normalized))
        (normalize_tag_or_throw u tag) w

  abbrev pub given_field : Text → Option Text → List (Text × Option Text)
  given_field name none = []
  given_field name (some value) = (name, some value) ∷ []

  unfoldable pub register : RegisterParams → Session → p.World → Answer
  register params s =
      write_tag
        (λ token normalized.
          post_of (codes "/v1/register")
            ((codes "tag", some normalized)
              ∷ (given_field (codes "wallet") (truthy params.wallet)
                  ++ given_field (codes "feePayer") (truthy params.fee_payer)))
            (some token))
        params.tag (require_session s)

  unfoldable pub update_wallet : Text → Text → Session → p.World → Answer
  update_wallet tag new_wallet s =
      write_tag
        (λ token normalized.
          post_of (codes "/v1/identity/" ++ (normalized ++ codes "/wallet"))
            ((codes "wallet", some new_wallet) ∷ []) (some token))
        tag (require_session s)

  -- `fields`: the keys that the caller gave, each with a text or null.
  unfoldable pub update_profile : Text → List (Text × Option Text) → Session → p.World → Answer
  update_profile tag fields s =
      write_tag
        (λ token normalized. record {
          method = patch;
          path = codes "/v1/identity/" ++ normalized;
          query = [];
          body = some fields;
          token = some token;
        })
        tag (require_session s)
