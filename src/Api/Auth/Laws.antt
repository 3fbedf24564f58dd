-- ===== src/Api/Auth/Laws.antt =====
-- auth.service.ts and redis-nonce-store.ts: who gets a token, and that a challenge is answered once.
use tagwise_identity_protoco.Prelude.{
  if◌then◌else◌, ℕ, ◌≤◌, ==_iff, length, Text, Bool, true, false, not, Option, none, some, ◌≡◌, ◌≢◌,
  refl, ap, sym, ◌∙◌, ◌⊎◌, inl, inr, arith, text_eq, text_eq_iff, Result, ok, err, Bool-cases,
  Option-cases, Result-cases,
}
use tagwise_identity_protoco.Solana.{Bytes, Solana}
use tagwise_identity_protoco.Redis.{Redis}
use tagwise_identity_protoco.Api.{HttpError, unauthorized}
use tagwise_identity_protoco.Api.Message.{SignInMessageFields, parse_sign_in_message}
use tagwise_identity_protoco.Api.Auth.{
  Platform, AuthConfig, NonceRecord, nonce_key, verify_signature, nonce_record, take_nonce, expired,
  finish_verify, verify_fields, verify,
}

-- A later state of the server, when no challenge has stored the key again: other keys are stored,
-- keys are taken, and keys go at the end of their lifetime.
pub data Later (r : Redis) (key : Text) (s : r.Store) : r.Store → Type 0 where
  same : Later r key s s
  stored :
      {a b : r.Store} (k v : Text) (ttl : ℕ)
      → Later r key s a
      → key ≢ k
      → r.set_ex k v ttl a ≡ some b
      → Later r key s b
  taken :
      {a b : r.Store} {v : Option Text} (k : Text)
      → Later r key s a
      → r.getdel k a ≡ some (v, b)
      → Later r key s b
  lapsed :
      {a b : r.Store}
      → Later r key s a
      → ((k : Text) → (r.read b k ≡ r.read a k) ⊎ (r.read b k ≡ none))
      → Later r key s b

still_none :
    (r : Redis) (key : Text) {s s' : r.Store}
    → r.read s key ≡ none
    → Later r key s s'
    → r.read s' key ≡ none
still_none r key h Later.same = h
still_none r key h (Later.stored {a} k v ttl before apart e) =
    (r.set_ex_read k v ttl a e).1 key apart ∙ still_none r key h before
still_none r key h (Later.taken {a} {b} k before e) = elim (Bool-cases (text_eq key k)) [
  | inl hit ↦ ap (r.read b) ((text_eq_iff key k).0 hit) ∙ (r.getdel_read k a e).1
  | inr miss ↦
      (r.getdel_read k a e).2 key (λ x. absurd (cc (miss, (text_eq_iff key k).1 x)))
      ∙ still_none r key h before
]
still_none r key h (Later.lapsed before gone) = elim (gone key) [
  | inl e ↦ e ∙ still_none r key h before
  | inr e ↦ e
]

peel_not :
    {A : Type 0} {S : Type 0} (b : Bool) (e : HttpError) (s : S) (x : Result HttpError A × S)
    {t : A} {s' : S}
    → (if not b then (err e, s) else x) ≡ (ok t, s')
    → (b ≡ true) × (x ≡ (ok t, s'))
peel_not true e s x h = (refl, h)
peel_not false e s x h = absurd (cc h)

peel_if :
    {A : Type 0} {S : Type 0} (b : Bool) (e : HttpError) (s : S) (x : Result HttpError A × S)
    {t : A} {s' : S}
    → (if b then (err e, s) else x) ≡ (ok t, s')
    → (b ≡ false) × (x ≡ (ok t, s'))
peel_if false e s x h = (refl, h)
peel_if true e s x h = absurd (cc h)

module _ (p : Platform) (sol : Solana) (r : Redis) (config : AuthConfig) where
  -- What a successful verification has established.
  pub record Verified (pubkey message signature : Text) (now : ℕ) (s s' : r.Store) : Type 0 where
    pub parsed : SignInMessageFields
    pub parses : parse_sign_in_message message ≡ some parsed
    pub pubkey_eq : parsed.pubkey ≡ pubkey
    pub not_expired : (ms : ℕ) → p.get_time parsed.expiration_time ≡ some ms → now ≤ ms
    pub pubkey_valid : sol.is_address pubkey ≡ true
    pub signature_bytes : Bytes
    pub signature_eq : p.encode_base58 signature ≡ some signature_bytes
    pub signature_size : length signature_bytes ≡ 64
    pub signed :
        p.verify_detached (p.encode_utf8 message) signature_bytes (sol.encode_address pubkey) ≡ true
    pub was_stored : r.read s (nonce_key config pubkey parsed.nonce) ≢ none
    pub consumed : r.read s' (nonce_key config pubkey parsed.nonce) ≡ none

  finish_inv :
      (pubkey message signature : Text) (c : Option NonceRecord) (s s' : r.Store) {t : Text}
      → finish_verify p sol r config pubkey message signature (c, s) ≡ (ok t, s')
      → (c ≢ none)
        × (verify_signature p sol message signature pubkey ≡ true)
        × (s ≡ s')
        × (t ≡ p.sign pubkey)
  unfolding finish_verify
  finish_inv pubkey message signature none s s' h = absurd (cc h)
  finish_inv pubkey message signature (some c) s s' h =
      elim (Bool-cases (verify_signature p sol message signature pubkey)) [
        | inl e ↦ (λ x. absurd (cc x), e, ground (arith, h, e), ground (arith, h, e))
        | inr e ↦ absurd (ground (arith, h, e))
      ]

  take_inv :
      (pubkey nonce : Text) (s : r.Store) {c : Option NonceRecord} {s' : r.Store}
      → take_nonce p sol r config pubkey nonce s ≡ ok (c, s')
      → (c ≢ none → r.read s (nonce_key config pubkey nonce) ≢ none)
        × (r.read s' (nonce_key config pubkey nonce) ≡ none)
  unfolding take_nonce nonce_record
  take_inv pubkey nonce s {c} {s'} h =
      elim (Option-cases (r.getdel (nonce_key config pubkey nonce) s)) [
        | inl e ↦ absurd (ground (arith, h, e))
        | inr ((v, b), e) ↦
            let (is, gone, _) = r.getdel_read (nonce_key config pubkey nonce) s e in
            let (got, left) = took v b e h in
            (
              λ some_c none_v.
                  some_c (sym got ∙ ap (nonce_record p sol r config pubkey nonce) (is ∙ none_v)),
              ap (λ (x : r.Store). r.read x (nonce_key config pubkey nonce)) (sym left) ∙ gone,
            )
      ]
    where
      took :
          {d : Option NonceRecord} {x : r.Store} (v : Option Text) (b : r.Store)
          → r.getdel (nonce_key config pubkey nonce) s ≡ some (v, b)
          → take_nonce p sol r config pubkey nonce s ≡ ok (d, x)
          → (nonce_record p sol r config pubkey nonce v ≡ d) × (b ≡ x)
      took v b e k = (ground (arith, e, k), ground (arith, e, k))

  not_expired_of :
      (text : Text) (now : ℕ)
      → expired p sol r config text now ≡ false
      → (ms : ℕ) → p.get_time text ≡ some ms
      → now ≤ ms
  unfolding expired
  not_expired_of text now h ms e = ground (arith, h, e)

  signature_inv :
      (message signature pubkey : Text)
      → verify_signature p sol message signature pubkey ≡ true
      → (sol.is_address pubkey ≡ true)
        × (bytes : Bytes) × (p.encode_base58 signature ≡ some bytes)
        × (length bytes ≡ 64)
        × (p.verify_detached (p.encode_utf8 message) bytes (sol.encode_address pubkey) ≡ true)
  unfolding verify_signature
  signature_inv message signature pubkey h = elim (Option-cases (p.encode_base58 signature)) [
    | inl e ↦ absurd (ground (arith, h, e))
    | inr (bytes, e) ↦ (
      ground (arith, h, e),
      bytes,
      e,
      (==_iff (length bytes) 64).0 (ground (arith, h, e)),
      ground (arith, h, e),
    )
  ]

  consume_inv :
      (pubkey message signature : Text) (f : SignInMessageFields) (now : ℕ) (s s' : r.Store)
      {t : Text}
      → parse_sign_in_message message ≡ some f
      → verify_fields p sol r config pubkey message signature f now s ≡ (ok t, s')
      → Verified pubkey message signature now s s' × (t ≡ p.sign pubkey)
  unfolding verify_fields
  consume_inv pubkey message signature f now s s' {t} parses h =
      let (named, h1) = peel_not (text_eq f.pubkey pubkey) unauthorized s _ h in
      let (fresh, h2) =
        peel_if (expired p sol r config f.expiration_time now) unauthorized s _ h1 in
      elim (Result-cases (take_nonce p sol r config pubkey f.nonce s)) [
        | inr (e, k) ↦ absurd (refused k h2)
        | inl ((c, b), k) ↦
            let (there, signed, left, token) =
              finish_inv pubkey message signature c b s' (reached k h2) in
            let (valid, bytes, spelled, size, checks) =
              signature_inv message signature pubkey signed in
            let (was, gone) = take_inv pubkey f.nonce s k in
            (
              record {
                parsed = f;
                parses = parses;
                pubkey_eq = (text_eq_iff f.pubkey pubkey).0 named;
                not_expired = not_expired_of f.expiration_time now fresh;
                pubkey_valid = valid;
                signature_bytes = bytes;
                signature_eq = spelled;
                signature_size = size;
                signed = checks;
                was_stored = was there;
                consumed =
                    ap (λ (x : r.Store). r.read x (nonce_key config pubkey f.nonce)) (sym left)
                    ∙ gone;
              },
              token,
            )
      ]
    where
      after : Result HttpError (Option NonceRecord × r.Store) → Result HttpError Text × r.Store
      after (err e) = (err e, s)
      after (ok c) = finish_verify p sol r config pubkey message signature c

      refused :
          {e : HttpError}
          → take_nonce p sol r config pubkey f.nonce s ≡ err e
          → after (take_nonce p sol r config pubkey f.nonce s) ≢ (ok t, s')
      refused k x = cc (ap after k, x)

      reached :
          {c : Option NonceRecord} {b : r.Store}
          → take_nonce p sol r config pubkey f.nonce s ≡ ok (c, b)
          → after (take_nonce p sol r config pubkey f.nonce s) ≡ (ok t, s')
          → finish_verify p sol r config pubkey message signature (c, b) ≡ (ok t, s')
      reached k x = sym (ap after k) ∙ x

  -- A token is given only for a message that names the requesting key, whose expiration time, where it
  -- can be read, is not past, with a signature of 64 bytes that verifies over the message under that
  -- key, and with a nonce that was stored for the key; the nonce is then gone, and the token is that
  -- of the key.
  pub verify-Verified :
      (pubkey message signature : Text) (now : ℕ) (s s' : r.Store) (t : Text)
      → verify p sol r config pubkey message signature now s ≡ (ok t, s')
      → Verified pubkey message signature now s s' × (t ≡ p.sign pubkey)
  unfolding verify
  verify-Verified pubkey message signature now s s' t h =
      elim (Option-cases (parse_sign_in_message message)) [
        | inl e ↦ absurd (ground (arith, h, e))
        | inr (f, e) ↦ consume_inv pubkey message signature f now s s' e (opened f e h)
      ]
    where
      opened :
          (f : SignInMessageFields)
          → parse_sign_in_message message ≡ some f
          → verify p sol r config pubkey message signature now s ≡ (ok t, s')
          → verify_fields p sol r config pubkey message signature f now s ≡ (ok t, s')
      opened f e k = sym (ap cases e) ∙ k
        where
          cases : Option SignInMessageFields → Result HttpError Text × r.Store
          cases none = (err unauthorized, s)
          cases (some g) = verify_fields p sol r config pubkey message signature g now s

  -- No replay: after a success, no request that carries the same nonce for the same key succeeds, in
  -- any later state in which that nonce was not issued again.
  pub verify-once :
      (pubkey message message' signature signature' : Text) (now now' : ℕ)
      (s s' later later' : r.Store) (t t' : Text) {f f' : SignInMessageFields}
      → verify p sol r config pubkey message signature now s ≡ (ok t, s')
      → parse_sign_in_message message ≡ some f
      → parse_sign_in_message message' ≡ some f'
      → f'.nonce ≡ f.nonce
      → Later r (nonce_key config pubkey f.nonce) s' later
      → verify p sol r config pubkey message' signature' now' later ≢ (ok t', later')
  verify-once pubkey message message' signature signature' now now' s s' later later' t t' {f} {f'}
        h parses parses' same_nonce after again =
      let (first, _) = verify-Verified pubkey message signature now s s' t h in
      let (second, _) = verify-Verified pubkey message' signature' now' later later' t' again in
      let same_first : first.parsed ≡ f = cc (first.parses, parses) in
      let same_second : second.parsed ≡ f' = cc (second.parses, parses') in
      let gone =
        ap (λ (x : SignInMessageFields). r.read s' (nonce_key config pubkey x.nonce))
          (sym same_first)
        ∙ first.consumed in
      second.was_stored (
        ap (λ (x : SignInMessageFields). r.read later (nonce_key config pubkey x.nonce)) same_second
        ∙ ap (λ (n : Text). r.read later (nonce_key config pubkey n)) same_nonce
        ∙ still_none r (nonce_key config pubkey f.nonce) gone after)
