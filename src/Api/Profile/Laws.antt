-- ===== src/Api/Profile/Laws.antt =====
-- tags.service.ts: what an update of a profile does, and to whom it is open.
use tagwise_identity_protoco.Prelude.{
  Text, CaseMap, true, Option, none, some, ◌≡◌, ◌≢◌, refl, ap, sym, ◌∙◌, arith, inl, inr,
  text_eq_iff, Result, ok, >>=-eq-ok, Bool-cases,
}
use tagwise_identity_protoco.Core.CacheKey.{build_resolve_cache_key}
use tagwise_identity_protoco.Moderation.Profanity.{Engine, clean, is_blocked_name}
use tagwise_identity_protoco.Mirror.{Identity, IdentityTable, is_active, written}
use tagwise_identity_protoco.Redis.{Redis}
use tagwise_identity_protoco.Cache.{Json, cache_delete, invalidate}
use tagwise_identity_protoco.Cache.Laws.{delete_resolve}
use tagwise_identity_protoco.Api.{HttpError}
use tagwise_identity_protoco.Api.Resolve.{Config, ResolveResponse}
use tagwise_identity_protoco.Api.Profile.{
  IdentityResponse, UpdateIdentityRequest, ProvidedFields, active_only, find_active_identity,
  to_identity_response, or_not_found, check_text, update_of, require_owner, or_internal,
  update_identity,
}

active_inv :
    (o : Option Identity) {row : Identity}
    → or_not_found (active_only o) ≡ ok row
    → (o ≡ some row) × (is_active row ≡ true)
unfolding active_only
active_inv none h = absurd (cc h)
active_inv (some x) {row} h = elim (Bool-cases (is_active x)) [
  | inl e ↦ let same : x ≡ row = ground (arith, h, e) in (ap some same, sym (ap is_active same) ∙ e)
  | inr e ↦ absurd (ground (arith, h, e))
]

owner_inv :
    (owner : Text) (row : Identity) {x : Unit {0}}
    → require_owner owner row ≡ ok x
    → row.owner ≡ owner
owner_inv owner row h = (text_eq_iff row.owner owner).0 (ground (arith, h))

text_inv :
    (u : CaseMap) (engine : Engine) (o : Option Text) {x : Unit {0}}
    → check_text u engine o ≡ ok x
    → (t : Text) → o ≡ some t
    → is_blocked_name u engine t ≡ some clean
unfolding check_text
text_inv u engine none h t e = absurd (cc e)
text_inv u engine (some v) h t e = sym (ap (is_blocked_name u engine) (same e)) ∙ ground (arith, h)
  where
    same : some v ≡ some t → v ≡ t
    same k = cc k

written_inv : {A : Type 0} (o : Option A) {a b : A} → o ≡ some a → or_internal o ≡ ok b → a ≡ b
written_inv none e h = absurd (cc e)
written_inv (some x) e h = cc (e, h)

-- A profile update that succeeded.
pub record Updated (u : CaseMap) (engine : Engine) (d : IdentityTable) (r : Redis) (config : Config)
    (tag owner_pubkey : Text) (dto : UpdateIdentityRequest) (provided : ProvidedFields)
    (table : d.Table) (s : r.Store) (response : IdentityResponse) (table' : d.Table) (s' : r.Store)
    : Type 0 where
  pub row : Identity
  pub found : d.find_unique table tag ≡ some row
  pub live : is_active row ≡ true
  pub owned : row.owner ≡ owner_pubkey
  pub name_clean : (t : Text) → dto.display_name ≡ some t → is_blocked_name u engine t ≡ some clean
  pub bio_clean : (t : Text) → dto.bio ≡ some t → is_blocked_name u engine t ≡ some clean
  pub new_row : Identity
  pub after : d.find_unique table' tag ≡ some new_row
  pub new_eq : new_row ≡ written (update_of dto provided) row
  pub others : (other : Text) → other ≢ tag → d.find_unique table' other ≡ d.find_unique table other
  pub response_eq : response ≡ to_identity_response tag new_row
  pub cache_eq : s' ≡ invalidate r config.redis_key_prefix tag s

-- A profile update that succeeds was made by the owner of an active tag, with texts that the
-- profanity check passes; it wrote the profile columns that the request named, and no column of the
-- chain nor the status, in no other row; it answers with the new row and drops the tag's entry from
-- the resolve cache as the indexer does.
pub update_identity-Updated :
    (u : CaseMap) (engine : Engine) (d : IdentityTable) (r : Redis) (json : Json ResolveResponse)
    (config : Config) (tag owner_pubkey : Text) (dto : UpdateIdentityRequest)
    (provided : ProvidedFields) (table table' : d.Table) (s s' : r.Store)
    (response : IdentityResponse)
    → update_identity d r json config u engine tag owner_pubkey dto provided table s
      ≡ ok (response, table', s')
    → Updated u engine d r config tag owner_pubkey dto provided table s response table' s'
unfolding update_identity find_active_identity
update_identity-Updated u engine d r json config tag owner_pubkey dto provided table table' s s'
      response h =
    let (row, e1, h1) = >>=-eq-ok (or_not_found (find_active_identity d tag table)) _ h in
    let (_, e2, h2) = >>=-eq-ok (require_owner owner_pubkey row) _ h1 in
    let (_, e3, h3) = >>=-eq-ok (check_text u engine dto.display_name) _ h2 in
    let (_, e4, h4) = >>=-eq-ok (check_text u engine dto.bio) _ h3 in
    let (p, e5, h5) = >>=-eq-ok (or_internal (d.update tag (update_of dto provided) table)) _ h4 in
    let (found, live) = active_inv (d.find_unique table tag) e1 in
    let (s1, e6, kept, others) = d.update-found tag (update_of dto provided) table row found in
    let same : (written (update_of dto provided) row, s1) ≡ p =
      written_inv (d.update tag (update_of dto provided) table) e6 e5 in
    let (said, moved, dropped) = parts p h5 in
    record {
      row = row;
      found = found;
      live = live;
      owned = owner_inv owner_pubkey row e2;
      name_clean = text_inv u engine dto.display_name e3;
      bio_clean = text_inv u engine dto.bio e4;
      new_row = written (update_of dto provided) row;
      after =
          ap (λ (x : d.Table). d.find_unique x tag) (sym moved)
          ∙ ap (λ (x : Identity × d.Table). d.find_unique x.1 tag) (sym same)
          ∙ kept;
      new_eq = refl;
      others = λ other n.
          ap (λ (x : d.Table). d.find_unique x other) (sym moved)
          ∙ ap (λ (x : Identity × d.Table). d.find_unique x.1 other) (sym same)
          ∙ others other n;
      response_eq =
          sym said ∙ ap (λ (x : Identity × d.Table). to_identity_response tag x.0) (sym same);
      cache_eq =
          sym dropped
          ∙ delete_resolve r json config.redis_key_prefix config.resolve_cache_ttl_seconds tag s;
    }
  where
    cache_left : r.Store
    cache_left =
        cache_delete r json config.redis_key_prefix config.resolve_cache_ttl_seconds
          (build_resolve_cache_key config.redis_key_prefix tag) s

    parts :
        (p : Identity × d.Table)
        → ◌≡◌ {A = Result HttpError (IdentityResponse × d.Table × r.Store)}
            (ok (to_identity_response tag p.0, p.1, cache_left))
            (ok (response, table', s'))
        → (to_identity_response tag p.0 ≡ response) × (p.1 ≡ table') × (cache_left ≡ s')
    parts p k = (cc k, cc k, cc k)
