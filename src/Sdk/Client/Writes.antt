-- ===== src/Sdk/Client/Writes.antt =====
-- client.ts: sessions, and what the writes send.
use tagwise_identity_protoco.Prelude.{
  Text, CaseMap, codes, List, [], ◌∷◌, ◌++◌, Option, none, some, truthy, subst, Result, ok, err,
  ◌≡◌, refl, ap, sym,
}
use tagwise_identity_protoco.Core.Normalize.{
  TagRejectionReason, NormalizeTagResult, accepted, rejected, normalize_tag,
}
use tagwise_identity_protoco.Sdk.{
  TipError, tag_invalid, no_session, syntax, HttpMethod, post, patch, HttpRequest, Platform,
}
use tagwise_identity_protoco.Sdk.Http.{
  RequestParams, build_url, bearer, http_request, received, send, request,
}
use tagwise_identity_protoco.Sdk.Client.{
  normalize_tag_or_throw, Session, Client, Answer, with_tag, write_tag, token_or_throw,
  require_session, given_field, register, update_wallet, update_profile,
}

-- The request that a write makes for a canonical tag.
pub record Asked : Type 0 where
  pub method : HttpMethod
  pub path : Text
  pub body : List (Text × Option Text)

-- A field that is left out where the caller gave none or an empty text.
abbrev pub optional_field : Text → Option Text → List (Text × Option Text)
optional_field name none = []
optional_field name (some []) = []
optional_field name (some (c ∷ t)) = (name, some (c ∷ t)) ∷ []

abbrev pub asked_register : Option Text → Option Text → Text → Asked
asked_register wallet fee_payer normalized = record {
  method = post;
  path = codes "/v1/register";
  body =
      (codes "tag", some normalized)
      ∷ (optional_field (codes "wallet") wallet ++ optional_field (codes "feePayer") fee_payer);
}

abbrev pub asked_wallet : Text → Text → Asked
asked_wallet new_wallet normalized = record {
  method = post;
  path = codes "/v1/identity/" ++ (normalized ++ codes "/wallet");
  body = (codes "wallet", some new_wallet) ∷ [];
}

abbrev pub asked_profile : List (Text × Option Text) → Text → Asked
asked_profile fields normalized = record {
  method = patch;
  path = codes "/v1/identity/" ++ normalized;
  body = fields;
}

module _ (p : Platform) (u : CaseMap) (client : Client) where
  -- The one request of a write, which carries the token of the session and is the one asked for the
  -- canonical form of the tag.
  pub record Sent (asked : Text → Asked) (tag : Text) (s : Session) (w : p.World)
      (answer : Answer p u client) : Type 0 where
    pub token : Text
    pub normalized : Text
    pub http : HttpRequest
    pub session : truthy s.token ≡ some token
    pub canonical : normalize_tag u tag ≡ accepted normalized
    pub method_eq : http.method ≡ (asked normalized).method
    pub url_eq : build_url p client.base_url (asked normalized).path [] ≡ some http.url
    pub body_eq : http.body ≡ some (p.stringify (asked normalized).body)
    pub bearer_eq : http.authorization ≡ some (codes "Bearer " ++ token)
    pub answer_eq : answer ≡ received p (p.fetch http w)

  -- What a write does: it throws and leaves the world as it is, or it sends its request.
  pub data Guarded (asked : Text → Asked) (tag : Text) (s : Session) (w : p.World)
      (answer : Answer p u client) : Type 0 where
    no_token : truthy s.token ≡ none → answer ≡ (err no_session, w) → Guarded asked tag s w answer
    malformed :
        (token : Text) (reason : TagRejectionReason)
        → truthy s.token ≡ some token
        → normalize_tag u tag ≡ rejected reason
        → answer ≡ (err (tag_invalid reason), w)
        → Guarded asked tag s w answer
    no_url :
        (normalized : Text)
        → normalize_tag u tag ≡ accepted normalized
        → build_url p client.base_url (asked normalized).path [] ≡ none
        → answer ≡ (err syntax, w)
        → Guarded asked tag s w answer
    sent : Sent asked tag s w answer → Guarded asked tag s w answer

  truthy_twice : (o : Option Text) {t : Text} → truthy o ≡ some t → truthy (some t) ≡ some t
  unfolding truthy
  truthy_twice none h = absurd (cc h)
  truthy_twice (some []) h = absurd (cc h)
  truthy_twice (some (c ∷ x)) h = subst (λ (y : Text). truthy (some y) ≡ some y) (same h) refl
    where
      same : {t : Text} → ◌≡◌ {A = Option Text} (some (c ∷ x)) (some t) → c ∷ x ≡ t
      same k = cc k

  abbrev shaped : Asked → Text → RequestParams
  shaped e token = record {
    method = e.method;
    path = e.path;
    query = [];
    body = some e.body;
    token = some token;
  }

  send-Guarded :
      (asked : Text → Asked) (tag token normalized : Text) (s : Session) (w : p.World)
      → truthy s.token ≡ some token
      → normalize_tag u tag ≡ accepted normalized
      → (o : Option Text) → build_url p client.base_url (asked normalized).path [] ≡ o
      → Guarded asked tag s w (send p (shaped (asked normalized) token) o w)
  unfolding send
  send-Guarded asked tag token normalized s w held named none e = no_url normalized named e refl
  send-Guarded asked tag token normalized s w held named (some url) e = sent record {
    token = token;
    normalized = normalized;
    http = http_request p (shaped (asked normalized) token) url;
    session = held;
    canonical = named;
    method_eq = refl;
    url_eq = e;
    body_eq = refl;
    bearer_eq = ap bearer (truthy_twice s.token held);
    answer_eq = refl;
  }

  abbrev Carries : (Text → Asked) → (Text → Text → RequestParams) → Type 0
  Carries asked params =
      (token normalized : Text) → params token normalized ≡ shaped (asked normalized) token

  request-Guarded :
      (asked : Text → Asked) (params : Text → Text → RequestParams) (tag token : Text) (s : Session)
      (w : p.World)
      → Carries asked params
      → truthy s.token ≡ some token
      → (n : NormalizeTagResult) → normalize_tag u tag ≡ n
      → Guarded asked tag s w (
          with_tag p u client
            (λ normalized. request p client.base_url (params token normalized))
            (elim n as (λ x. Result TipError Text) [
              | rejected reason ↦ err (tag_invalid reason)
              | accepted t ↦ ok t
            ])
            w)
  unfolding request
  request-Guarded asked params tag token s w carries held (rejected reason) e =
      malformed token reason held e refl
  request-Guarded asked params tag token s w carries held (accepted normalized) e =
      subst (λ (x : RequestParams). Guarded asked tag s w (request p client.base_url x w))
        (sym (carries token normalized))
        (send-Guarded asked tag token normalized s w held e
          (build_url p client.base_url (asked normalized).path []) refl)

  write_tag-Guarded :
      (asked : Text → Asked) (params : Text → Text → RequestParams) (tag : Text) (s : Session)
      (w : p.World)
      → Carries asked params
      → Guarded asked tag s w (write_tag p u client params tag (require_session p u client s) w)
  unfolding require_session normalize_tag_or_throw
  write_tag-Guarded asked params tag s w carries = by_token (truthy s.token) refl
    where
      by_token :
          (o : Option Text)
          → truthy s.token ≡ o
          → Guarded asked tag s w (write_tag p u client params tag (token_or_throw p u client o) w)
      by_token none e = no_token e refl
      by_token (some token) e =
          request-Guarded asked params tag token s w carries e (normalize_tag u tag) refl

  given_optional :
      (name : Text) (o : Option Text)
      → given_field p u client name (truthy o) ≡ optional_field name o
  unfolding truthy
  given_optional name none = refl
  given_optional name (some []) = refl
  given_optional name (some (c ∷ t)) = refl

  -- A registration, a change of the wallet and a change of the profile alike: without a session, with
  -- a malformed tag, or under a base URL that does not parse, they throw the error for it and leave
  -- the world as it is; otherwise they send one request, with the session's token. A registration
  -- posts the canonical form of the tag, with the wallet and the payer that were given; the others
  -- have the canonical form in their path, and the new wallet or the fields as their body.
  pub writes-Guarded :
      (tag : Text) (s : Session) (w : p.World) (wallet fee_payer : Option Text) (new_wallet : Text)
      (fields : List (Text × Option Text))
      → Guarded
          (asked_register wallet fee_payer)
          tag
          s
          w
          (register p u client (record { tag = tag; wallet = wallet; fee_payer = fee_payer }) s w)
        × Guarded (asked_wallet new_wallet) tag s w (update_wallet p u client tag new_wallet s w)
        × Guarded (asked_profile fields) tag s w (update_profile p u client tag fields s w)
  unfolding register update_wallet update_profile
  writes-Guarded tag s w wallet fee_payer new_wallet fields = (
    write_tag-Guarded (asked_register wallet fee_payer) _ tag s w (λ token normalized.
        ap
          (λ (x : List (Text × Option Text) × List (Text × Option Text)).
            shaped
              (record {
                method = post;
                path = codes "/v1/register";
                body = (codes "tag", some normalized) ∷ (x.0 ++ x.1);
              })
              token)
          (pair (given_optional (codes "wallet") wallet)
            (given_optional (codes "feePayer") fee_payer))),
    write_tag-Guarded (asked_wallet new_wallet) _ tag s w (λ token normalized. refl),
    write_tag-Guarded (asked_profile fields) _ tag s w (λ token normalized. refl),
  )
    where
      pair : {A : Type 0} {a b c e : A} → a ≡ b → c ≡ e → ◌≡◌ {A = A × A} (a, c) (b, e)
      pair h k = cc (h, k)
