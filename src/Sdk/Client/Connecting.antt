-- ===== src/Sdk/Client/Connecting.antt =====
-- client.ts: what signing in does to the session.
use tagwise_identity_protoco.Prelude.{Text, CaseMap, Option, none, some, Result, ok, err, ◌≡◌, refl}
use tagwise_identity_protoco.Solana.{Bytes}
use tagwise_identity_protoco.Sdk.{TipError, Platform, Signer}
use tagwise_identity_protoco.Sdk.Client.{
  Session, Client, keep_token, challenge, verify, as_connected, with_signature, sign_and_verify,
  connect,
}

module _ (p : Platform) (u : CaseMap) (client : Client) where
  -- What a call that signs in leaves: its key's token after a success, and the session as it was
  -- after a failure.
  abbrev pub Connected : Signer → Session → Result TipError Text × Session × p.World → Type 0
  Connected signer s (ok pubkey, s', w) =
      (pubkey ≡ signer.public_key)
      × (s'.pubkey ≡ some signer.public_key)
      × ((token : Text) × (s'.token ≡ some token))
  Connected signer s (err e, s', w) = s' ≡ s

  as_connected-Connected :
      (signer : Signer) (s : Session) (a : Result TipError Text × p.World)
      → Connected signer s
          (as_connected p u client signer.public_key (keep_token p u client signer.public_key s a))
  as_connected-Connected signer s (err e, w) = refl
  as_connected-Connected signer s (ok token, w) = (refl, refl, (token, refl))

  signature-Connected :
      (decode_base58 : Bytes → Text) (signer : Signer) (message : Text) (s : Session)
      (signature : Option Bytes) (w : p.World)
      → Connected signer s
          (with_signature p u client decode_base58 signer.public_key message s signature w)
  unfolding verify
  signature-Connected decode_base58 signer message s none w = refl
  signature-Connected decode_base58 signer message s (some bytes) w =
      as_connected-Connected signer s _

  signed-Connected :
      (encode_utf8 : Text → Bytes) (decode_base58 : Bytes → Text) (signer : Signer) (s : Session)
      (a : Result TipError Text × p.World)
      → Connected signer s (sign_and_verify p u client encode_utf8 decode_base58 signer s a)
  signed-Connected encode_utf8 decode_base58 signer s (err e, w) = refl
  signed-Connected encode_utf8 decode_base58 signer s (ok message, w) =
      signature-Connected decode_base58 signer message s (signer.sign_message (encode_utf8 message))
        w

  -- Signing in gives the session a token of the signer's key, or leaves it as it was where any step
  -- fails.
  pub connect-Connected :
      (encode_utf8 : Text → Bytes) (decode_base58 : Bytes → Text) (signer : Signer) (s : Session)
      (w : p.World)
      → Connected signer s (connect p u client encode_utf8 decode_base58 signer s w)
  unfolding connect
  connect-Connected encode_utf8 decode_base58 signer s w =
      signed-Connected encode_utf8 decode_base58 signer s (challenge p u client signer.public_key w)
