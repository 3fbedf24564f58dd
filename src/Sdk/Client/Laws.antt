-- ===== src/Sdk/Client/Laws.antt =====
-- client.ts: the client against the service, and what it sends.
use tagwise_identity_protoco.Prelude.{
  ℕ, Text, CaseMap, codes, [], ◌++◌, Option, some, Result, ok, err, ◌≡◌, refl, ap, sym, ◌∙◌, arith,
  ◌⊎◌, inl, inr, false,
}
use tagwise_identity_protoco.Core.Normalize.{
  TagRejectionReason, NormalizeTagResult, accepted, rejected, normalize_tag,
}
use tagwise_identity_protoco.Core.Normalize.Laws.{
  IsCanonical, normalize_tag_fixed_iff, normalize_tag-IsCanonical,
}
use tagwise_identity_protoco.Api.{
  HttpError, invalid_tag, payment_required, bad_request, unauthorized, forbidden, not_found,
  conflict, too_many_requests, internal, service_unavailable, tag_or_throw,
  normalize_tag_param_or_throw,
}
use tagwise_identity_protoco.Api.Routes.{on_tag, tag_route}
use tagwise_identity_protoco.Api.Filter.{ErrorBody, status_of, body_of}
use tagwise_identity_protoco.Sdk.{TipError, tag_invalid, HttpResponse, Platform}
use tagwise_identity_protoco.Sdk.Http.{
  RequestParams, build_url, is_ok, http_request, answer_of, received, send, request,
}
use tagwise_identity_protoco.Sdk.Http.Laws.{client_error, map_error_response-status_of}
use tagwise_identity_protoco.Sdk.Client.{
  normalize_tag_or_throw, Client, get_of, with_tag, resolve, Answer,
}

-- What the service sends for an outcome of one of its routes.
abbrev pub response_of :
    {Value : Type 0}
    → (ErrorBody → Value)
    → (ℕ → Text)
    → Result HttpError Value
    → HttpResponse Value
response_of encode to_string (ok v) = record { status = 200; json = some v }
response_of encode to_string (err e) = record {
  status = status_of e;
  json = some (encode (body_of to_string e));
}

-- What the client gives its caller for an outcome of the service.
abbrev pub client_result {ν} : {V : Type ν} → Result HttpError V → Result TipError V
client_result (ok v) = ok v
client_result (err e) = err (client_error e)

module _ (p : Platform) (u : CaseMap) (client : Client) (encode : ErrorBody → p.Value)
    (to_string : ℕ → Text) (read_back : (b : ErrorBody) → p.error_body (encode b) ≡ b)
    (read_number : (n : ℕ) → p.big_int (to_string n) ≡ some n) where
  status_not_ok : (e : HttpError) → is_ok (status_of e) ≡ false
  unfolding status_of
  status_not_ok (invalid_tag reason) = refl
  status_not_ok (bad_request reason) = refl
  status_not_ok (payment_required details) = refl
  status_not_ok unauthorized = refl
  status_not_ok forbidden = refl
  status_not_ok not_found = refl
  status_not_ok conflict = refl
  status_not_ok too_many_requests = refl
  status_not_ok internal = refl
  status_not_ok service_unavailable = refl

  answer_of-response_of :
      (r : Result HttpError p.Value)
      → answer_of p (response_of encode to_string r) ≡ client_result r
  unfolding answer_of
  answer_of-response_of (ok v) = refl
  answer_of-response_of (err e) =
      ground (arith, status_not_ok e, read_back (body_of to_string e))
      ∙ ap (λ (x : TipError). err x)
          (map_error_response-status_of to_string p.big_int read_number e)

  -- A request whose URL parses, and to which `fetch` brings the response for an outcome.
  pub request-response_of :
      (params : RequestParams) (url : Text) (outcome : Result HttpError p.Value) (w w' : p.World)
      → build_url p client.base_url params.path params.query ≡ some url
      → p.fetch (http_request p params url) w ≡ (some (response_of encode to_string outcome), w')
      → request p client.base_url params w ≡ (client_result outcome, w')
  unfolding request send received
  request-response_of params url outcome w w' reachable served =
      ap (λ (o : Option Text). send p params o w) reachable
      ∙ ap (received p) served
      ∙ ap (λ (x : Result TipError p.Value). (x, w')) (answer_of-response_of outcome)

  -- `handler` is what the service does with a normalised tag. For every canonical tag, `fetch` of
  -- the URL under which the client asks brings the response of the service's route.
  module _ (handler : Text → p.World → Result HttpError p.Value × p.World) (url : Text → Text)
      (reachable : (tag : Text)
        → IsCanonical tag
        → build_url p client.base_url (codes "/v1/resolve/" ++ tag) [] ≡ some (url tag))
      (served : (tag : Text) (w : p.World)
        → IsCanonical tag
        → p.fetch (http_request p (get_of (codes "/v1/resolve/" ++ tag) []) (url tag)) w ≡ (
          some (response_of encode to_string (tag_route u handler tag w).0),
          (tag_route u handler tag w).1,
        )) where
    asked :
        (tag : Text) (w : p.World)
        → IsCanonical tag
        → request p client.base_url (get_of (codes "/v1/resolve/" ++ tag) []) w
          ≡ (client_result (tag_route u handler tag w).0, (tag_route u handler tag w).1)
    asked tag w c =
        request-response_of (get_of (codes "/v1/resolve/" ++ tag) []) (url tag)
          (tag_route u handler tag w).0 w (tag_route u handler tag w).1 (reachable tag c)
          (served tag w c)

    same_route :
        (raw tag : Text) (w : p.World)
        → normalize_tag u raw ≡ accepted tag
        → tag_route u handler tag w ≡ tag_route u handler raw w
    unfolding tag_route normalize_tag_param_or_throw
    same_route raw tag w h =
        ap (λ (n : NormalizeTagResult). on_tag handler (tag_or_throw n) w)
          ((normalize_tag_fixed_iff u tag).1 (normalize_tag-IsCanonical u raw h) ∙ sym h)

    -- The client's `resolve` answers for any text as the service's route would for the same text,
    -- with the client's error for the service's. A malformed one is refused with the reason that the
    -- service would give, and nothing is sent.
    pub resolve-served :
        (raw : Text) (w : p.World)
        → ((reason : TagRejectionReason) × (resolve p u client raw w
              ≡ (err (tag_invalid reason), w))
            × (tag_route u handler raw w ≡ (err (invalid_tag reason), w)))
          ⊎ ((tag : Text) × (normalize_tag u raw ≡ accepted tag)
              × (resolve p u client raw w
                  ≡ (client_result (tag_route u handler raw w).0, (tag_route u handler raw w).1)))
    unfolding resolve normalize_tag_or_throw tag_route normalize_tag_param_or_throw
    resolve-served raw w = by_tag (normalize_tag u raw) refl
      where
        with_name : NormalizeTagResult → Answer p u client
        with_name n =
            with_tag p u client
              (λ normalized.
                request p client.base_url (get_of (codes "/v1/resolve/" ++ normalized) []))
              (elim n as (λ x. Result TipError Text) [
                | rejected reason ↦ err (tag_invalid reason)
                | accepted tag ↦ ok tag
              ])
              w

        by_tag :
            (n : NormalizeTagResult)
            → normalize_tag u raw ≡ n
            → ((reason : TagRejectionReason) × (resolve p u client raw w
                  ≡ (err (tag_invalid reason), w))
                × (tag_route u handler raw w ≡ (err (invalid_tag reason), w)))
              ⊎ ((tag : Text) × (normalize_tag u raw ≡ accepted tag)
                  × (resolve p u client raw w ≡ (
                    client_result (tag_route u handler raw w).0,
                    (tag_route u handler raw w).1,
                  )))
        by_tag (rejected reason) e = inl (
          reason,
          ap with_name e,
          ap (λ (n : NormalizeTagResult). on_tag handler (tag_or_throw n) w) e,
        )
        by_tag (accepted tag) e = inr (
          tag,
          e,
          ap with_name e
              ∙ asked tag w (normalize_tag-IsCanonical u raw e)
              ∙ ap (λ (x : Result HttpError p.Value × p.World). (client_result x.0, x.1))
                  (same_route raw tag w e),
        )
