-- ===== src/Tests/Codec.antt =====
-- A concrete codec for the cached responses.
use tagwise_identity_protoco.Prelude.{
  ℕ, zero, suc, Text, Bool, true, false, [], ◌∷◌, ◌++◌, Option, none, some, length, take, drop,
  take-append_left, drop-append_left, ◌≡◌, refl, text_eq,
}
use tagwise_identity_protoco.Cache.{Json, negative_sentinel}
use tagwise_identity_protoco.Api.Resolve.{ResolveResponse}

abbrev with_text : Text → Text → Text
with_text t rest = length t ∷ (t ++ rest)

abbrev take_text {ℓ} : {A : Type ℓ} → Text → A → (Text → Text → A) → A
take_text [] bad k = bad
take_text (n ∷ xs) bad k = k (take n xs) (drop n xs)

take_len : (t rest : Text) → take (length t) (t ++ rest) ≡ t
take_len t rest = take-append_left (length t) t rest refl

drop_len : (t rest : Text) → drop (length t) (t ++ rest) ≡ rest
drop_len t rest = drop-append_left (length t) t rest refl

abbrev flag : Bool → ℕ
flag true = 1
flag false = 0

abbrev unflag : ℕ → Bool
unflag zero = false
unflag (suc n) = true

flag_back : (b : Bool) → unflag (flag b) ≡ b
flag_back true = refl
flag_back false = refl

abbrev maybe : Option Text → Text
maybe none = []
maybe (some t) = 1 ∷ t

abbrev unmaybe : Text → Option Text
unmaybe [] = none
unmaybe (c ∷ t) = some t

maybe_back : (o : Option Text) → unmaybe (maybe o) ≡ o
maybe_back none = refl
maybe_back (some t) = refl

-- Seven texts, two flags and the text that is left.
abbrev pub written : ResolveResponse → Text
written v =
    123
    ∷ flag v.verified
    ∷ flag v.merchant
    ∷ with_text v.tag (
        with_text v.wallet (
          with_text (maybe v.display_name) (
            with_text (maybe v.avatar) (
              with_text (maybe v.preferred_token)
                (with_text v.payment_link (with_text v.profile_link v.qr_link))))))

abbrev read_fields : ℕ → ℕ → Text → Option ResolveResponse
read_fields a b t0 = take_text t0 none (λ tag t1. take_text t1 none (λ wallet t2.
    take_text t2 none (λ name t3. take_text t3 none (λ avatar t4. take_text t4 none (λ token t5.
      take_text t5 none (λ link t6. take_text t6 none (λ profile qr. some (record {
        tag = tag;
        wallet = wallet;
        display_name = unmaybe name;
        avatar = unmaybe avatar;
        verified = unflag a;
        merchant = unflag b;
        preferred_token = unmaybe token;
        payment_link = link;
        profile_link = profile;
        qr_link = qr;
      }))))))))

abbrev pub read_back : Text → Option ResolveResponse
read_back (_ ∷ a ∷ b ∷ t) = read_fields a b t
read_back _ = none

pub read-written : (v : ResolveResponse) → read_back (written v) ≡ some v
read-written v = simp (take_len, drop_len, flag_back, maybe_back)

pub written_object : (v : ResolveResponse) → text_eq (written v) negative_sentinel ≡ false
unfolding text_eq
written_object v = refl

abbrev pub codec : Json ResolveResponse
codec = record {
  stringify = written;
  parse = read_back;
  parse-stringify = read-written;
  stringify_object = written_object;
}
