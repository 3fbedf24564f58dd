-- ===== src/Sdk/Client/SignIn.antt =====
-- client.ts `connect` against the routes of auth.controller.ts: signing in, from the challenge to the
-- session.
use tagwise_identity_protoco.Prelude.{
  ℕ, ◌+◌, ◌*◌, ◌≤◌, Text, CaseMap, codes, true, [], ◌∷◌, Option, none, some, Result, ok, err, ◌≡◌,
  ap, ◌∙◌,
}
use tagwise_identity_protoco.Solana.{Bytes, Solana}
use tagwise_identity_protoco.Redis.{Redis}
use tagwise_identity_protoco.Api.{HttpError}
use tagwise_identity_protoco.Api.Message.Laws.{Readable}
use tagwise_identity_protoco.Api.Auth
use tagwise_identity_protoco.Api.Auth.{AuthConfig, nonce_key, verify_signature, challenge_fields}
use tagwise_identity_protoco.Api.Auth.Login.{verify-challenge}
use tagwise_identity_protoco.Api.Filter.{ErrorBody}
use tagwise_identity_protoco.Api.Routes.{challenge_route, verify_route}
use tagwise_identity_protoco.Sdk.{Platform, Signer, TipError}
use tagwise_identity_protoco.Sdk.Http.{RequestParams, build_url, http_request}
use tagwise_identity_protoco.Sdk.Client.{
  Session, Client, post_of, texts, challenge, verify, keep_token, with_signature, sign_and_verify,
  as_connected, connect,
}
use tagwise_identity_protoco.Sdk.Client.Laws.{response_of, request-response_of}

abbrev pub challenge_params : Text → RequestParams
challenge_params pubkey =
    post_of (codes "/v1/auth/challenge") ((codes "pubkey", some pubkey) ∷ []) none

abbrev pub verify_params : Text → Text → Text → RequestParams
verify_params pubkey message signature =
    post_of (codes "/v1/auth/verify")
      ((codes "pubkey", some pubkey)
        ∷ (codes "message", some message)
        ∷ (codes "signature", some signature)
        ∷ [])
      none

-- The bodies of the two controllers: `{ message }` and `{ token }`.
abbrev pub in_object {ν} : {V : Type ν} → (Text → V) → Result HttpError Text → Result HttpError V
in_object wrap (err e) = err e
in_object wrap (ok t) = ok (wrap t)

abbrev pub first_of {ν} : {S : Type ν} → Result HttpError (Text × S) → Result HttpError Text
first_of (err e) = err e
first_of (ok (t, s)) = ok t

module _ (p : Platform) (u : CaseMap) (client : Client) (encode : ErrorBody → p.Value)
    (to_string : ℕ → Text) (read_back : (b : ErrorBody) → p.error_body (encode b) ≡ b)
    (read_number : (n : ℕ) → p.big_int (to_string n) ≡ some n)
    (wrap_message wrap_token : Text → p.Value)
    (message_read : (t : Text) → p.field (codes "message") (wrap_message t) ≡ t)
    (token_read : (t : Text) → p.field (codes "token") (wrap_token t) ≡ t) where
  challenge_served :
      (pubkey url message : Text) (w w' : p.World)
      → build_url p client.base_url (codes "/v1/auth/challenge") [] ≡ some url
      → p.fetch (http_request p (challenge_params pubkey) url) w
        ≡ (some (response_of encode to_string (ok (wrap_message message))), w')
      → challenge p u client pubkey w ≡ (ok message, w')
  unfolding challenge
  challenge_served pubkey url message w w' reachable served =
      ap (texts p u client (codes "message")) (
        request-response_of p u client encode to_string read_back read_number
          (challenge_params pubkey) url (ok (wrap_message message)) w w' reachable served)
      ∙ ap (λ (t : Text). (ok t, w')) (message_read message)

  abbrev signed_in : Text → p.World → Text → Result TipError Text × Session × p.World
  signed_in pubkey w token = (ok token, record { token = some token; pubkey = some pubkey }, w)

  verify_served :
      (pubkey message signature url token : Text) (session : Session) (w w' : p.World)
      → build_url p client.base_url (codes "/v1/auth/verify") [] ≡ some url
      → p.fetch (http_request p (verify_params pubkey message signature) url) w
        ≡ (some (response_of encode to_string (ok (wrap_token token))), w')
      → verify p u client pubkey message signature session w ≡ signed_in pubkey w' token
  unfolding verify
  verify_served pubkey message signature url token session w w' reachable served =
      ap
        (λ (a : Result TipError p.Value × p.World).
          keep_token p u client pubkey session (texts p u client (codes "token") a))
        (request-response_of p u client encode to_string read_back read_number
          (verify_params pubkey message signature) url (ok (wrap_token token)) w w' reachable
          served)
      ∙ ap (signed_in pubkey w') (token_read token)

  module _ (a : Auth.Platform) (sol : Solana) (r : Redis) (config : AuthConfig) where
    -- Signing in, through client and service: where `fetch` brings the answers of the two routes and
    -- the signature that the signer gives verifies, a challenge that is answered before it expires
    -- leaves the session with the service's token for the signer's key.
    pub connect-challenge :
        (encode_utf8 : Text → Bytes) (decode_base58 : Bytes → Text) (signer : Signer)
        (session : Session) (nonce message challenge_url verify_url : Text) (signature : Bytes)
        (now later : ℕ) (w w' w'' : p.World) (s s' s'' : r.Store) (v : Option Text)
        → build_url p client.base_url (codes "/v1/auth/challenge") [] ≡ some challenge_url
        → build_url p client.base_url (codes "/v1/auth/verify") [] ≡ some verify_url
        → p.fetch (http_request p (challenge_params signer.public_key) challenge_url) w ≡ (
          some (
              response_of encode to_string (
                in_object wrap_message (
                  first_of
                    (challenge_route a sol r config (ok tt) signer.public_key nonce now s)))),
          w',
        )
        → p.fetch
            (http_request p
              (verify_params signer.public_key message (decode_base58 signature))
              verify_url)
            w'
          ≡ (
            some (
                response_of encode to_string (
                  in_object wrap_token
                    (verify_route a sol r config
                      (ok tt)
                      signer.public_key
                      message
                      (decode_base58 signature)
                      later
                      s').0)),
            w'',
          )
        → challenge_route a sol r config (ok tt) signer.public_key nonce now s ≡ ok (message, s')
        → Readable (challenge_fields a sol r config signer.public_key nonce now)
        → later ≤ now + config.auth_nonce_ttl_seconds * 1000
        → signer.sign_message (encode_utf8 message) ≡ some signature
        → verify_signature a sol message (decode_base58 signature) signer.public_key ≡ true
        → r.getdel (nonce_key config signer.public_key nonce) s' ≡ some (v, s'')
        → connect p u client encode_utf8 decode_base58 signer session w ≡ (
          ok signer.public_key,
          record { token = some (a.sign signer.public_key); pubkey = some signer.public_key },
          w'',
        )
    unfolding connect challenge_route verify_route
    connect-challenge encode_utf8 decode_base58 signer session nonce message challenge_url
          verify_url signature now later w w' w'' s s' s'' v at_challenge at_verify asked shown
          issued readable in_time signs verifies answered =
        ap (sign_and_verify p u client encode_utf8 decode_base58 signer session) (
          challenge_served signer.public_key challenge_url message w w' at_challenge (
            asked
            ∙ ap
                (λ (x : Result HttpError (Text × r.Store)).
                  (some (response_of encode to_string (in_object wrap_message (first_of x))), w'))
                issued))
        ∙ ap
            (λ (x : Option Bytes).
              with_signature p u client decode_base58 signer.public_key message session x w')
            signs
        ∙ ap (as_connected p u client signer.public_key) (
            verify_served signer.public_key message (decode_base58 signature) verify_url
              (a.sign signer.public_key) session w' w'' at_verify
              (shown
                ∙ ap
                    (λ (x : Result HttpError Text × r.Store).
                      (some (response_of encode to_string (in_object wrap_token x.0)), w''))
                    (verify-challenge a sol r config signer.public_key nonce message
                      (decode_base58 signature) now later s s' s'' v readable issued in_time
                      verifies answered)))
