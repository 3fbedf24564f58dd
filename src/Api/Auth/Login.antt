-- ===== src/Api/Auth/Login.antt =====
-- auth.service.ts: a challenge that is answered in time gives a token.
use tagwise_identity_protoco.Prelude.{
  ℕ, ◌+◌, ◌*◌, ◌≤◌, Text, true, false, Option, none, some, ◌≡◌, ap, sym, ◌∙◌, inl, inr, arith,
  text_eq, text_eq_refl, Result, ok, err, Bool-cases, Option-cases,
}
use tagwise_identity_protoco.Solana.{Solana}
use tagwise_identity_protoco.Redis.{Redis}
use tagwise_identity_protoco.Api.{HttpError, unauthorized}
use tagwise_identity_protoco.Api.Message.{
  SignInMessageFields, build_sign_in_message, parse_sign_in_message,
}
use tagwise_identity_protoco.Api.Message.Laws.{Readable, parse-build}
use tagwise_identity_protoco.Api.Auth.{
  Platform, AuthConfig, nonce_key, verify_signature, nonce_record, take_nonce, challenge_fields,
  challenge, expired, verify_fields, verify,
}

module _ (p : Platform) (sol : Solana) (r : Redis) (config : AuthConfig) where
  abbrev lifetime : ℕ
  lifetime = config.auth_nonce_ttl_seconds * 1000

  challenge_inv :
      (pubkey nonce : Text) (now : ℕ) (s : r.Store) {message : Text} {s' : r.Store}
      → challenge p sol r config pubkey nonce now s ≡ ok (message, s')
      → (message ≡ build_sign_in_message (challenge_fields p sol r config pubkey nonce now))
        × (r.read s' (nonce_key config pubkey nonce) ≡ some (p.to_string (now + lifetime)))
  unfolding challenge
  challenge_inv pubkey nonce now s {message} {s'} h = elim (Bool-cases (sol.is_address pubkey)) [
    | inr e ↦ absurd (ground (arith, h, e))
    | inl e ↦
        elim (Option-cases (
          r.set_ex (nonce_key config pubkey nonce) (p.to_string (now + lifetime))
            config.auth_nonce_ttl_seconds s)) [
              | inl k ↦ absurd (ground (arith, h, e, k))
              | inr (x, k) ↦
                  let built : build_sign_in_message
                        (challenge_fields p sol r config pubkey nonce now)
                      ≡ message =
                    ground (arith, h, e, k) in
                  let state : x ≡ s' = ground (arith, h, e, k) in
                  (
                    sym built,
                    ap (λ (y : r.Store). r.read y (nonce_key config pubkey nonce)) (sym state)
                        ∙ (r.set_ex_read (nonce_key config pubkey nonce) _
                            config.auth_nonce_ttl_seconds s k).0,
                  )
            ]
  ]

  take_hit :
      (pubkey nonce value : Text) (s : r.Store) {v : Option Text} {s' : r.Store}
      → r.getdel (nonce_key config pubkey nonce) s ≡ some (v, s')
      → v ≡ some value
      → take_nonce p sol r config pubkey nonce s
        ≡ ok (nonce_record p sol r config pubkey nonce (some value), s')
  unfolding take_nonce
  take_hit pubkey nonce value s e is = ground (arith, e, is)

  in_time :
      (now later : ℕ)
      → later ≤ now + lifetime
      → expired p sol r config (p.to_iso (now + lifetime)) later ≡ false
  unfolding expired
  in_time now later le = ground (arith, le, p.get_time-to_iso (now + lifetime))

  accepted_fields :
      (pubkey message signature value : Text) (f : SignInMessageFields) (now : ℕ) (s s' : r.Store)
      → text_eq f.pubkey pubkey ≡ true
      → expired p sol r config f.expiration_time now ≡ false
      → take_nonce p sol r config pubkey f.nonce s
        ≡ ok (nonce_record p sol r config pubkey f.nonce (some value), s')
      → verify_signature p sol message signature pubkey ≡ true
      → verify_fields p sol r config pubkey message signature f now s ≡ (ok (p.sign pubkey), s')
  unfolding verify_fields nonce_record
  accepted_fields pubkey message signature value f now s s' named fresh taken signed =
      simp (named, fresh, taken, signed)

  parsed_verify :
      (pubkey message signature : Text) (f : SignInMessageFields) (now : ℕ) (s : r.Store)
      → parse_sign_in_message message ≡ some f
      → verify p sol r config pubkey message signature now s
        ≡ verify_fields p sol r config pubkey message signature f now s
  unfolding verify
  parsed_verify pubkey message signature f now s e = ap cases e
    where
      cases : Option SignInMessageFields → Result HttpError Text × r.Store
      cases none = (err unauthorized, s)
      cases (some g) = verify_fields p sol r config pubkey message signature g now s

  -- A challenge can be answered: the message that it returned, with a signature that verifies, gives
  -- a token of its key up to its expiration, where the server answers.
  pub verify-challenge :
      (pubkey nonce message signature : Text) (now later : ℕ) (s s' s'' : r.Store) (v : Option Text)
      → Readable (challenge_fields p sol r config pubkey nonce now)
      → challenge p sol r config pubkey nonce now s ≡ ok (message, s')
      → later ≤ now + config.auth_nonce_ttl_seconds * 1000
      → verify_signature p sol message signature pubkey ≡ true
      → r.getdel (nonce_key config pubkey nonce) s' ≡ some (v, s'')
      → verify p sol r config pubkey message signature later s' ≡ (ok (p.sign pubkey), s'')
  verify-challenge pubkey nonce message signature now later s s' s'' v readable h le signed
        answered =
      let (built, kept) = challenge_inv pubkey nonce now s h in
      let found = (r.getdel_read (nonce_key config pubkey nonce) s' answered).0 ∙ kept in
      parsed_verify pubkey message signature (challenge_fields p sol r config pubkey nonce now)
        later s'
        (ap parse_sign_in_message built
          ∙ parse-build (challenge_fields p sol r config pubkey nonce now) readable)
      ∙ accepted_fields pubkey message signature (p.to_string (now + lifetime))
          (challenge_fields p sol r config pubkey nonce now) later s' s'' (text_eq_refl pubkey)
          (in_time now later le)
          (take_hit pubkey nonce (p.to_string (now + lifetime)) s' answered found) signed
