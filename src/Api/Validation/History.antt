-- ===== src/Api/Validation/History.antt =====
-- The writers of the mirror's rows, tags/tags.service.ts and apps/indexer/src/apply-change.ts, and
-- what every history of their writes keeps.
use tagwise_identity_protoco.Prelude.{
  Text, CaseMap, Option, some, Result, ok, >>=-eq-ok, ◌≡◌, ◌≢◌, ap, sym, ◌∙◌, inl, inr, Bool-cases,
  subst, text_eq, text_eq_iff,
}
use tagwise_identity_protoco.Moderation.Profanity.{Engine}
use tagwise_identity_protoco.Mirror.{Identity, IdentityTable, CursorTable}
use tagwise_identity_protoco.Redis.{Redis}
use tagwise_identity_protoco.Cache.{Json}
use tagwise_identity_protoco.Indexer.Apply.{
  VerifiedTagChange, ApplyOutcome, CacheInvalidator, World, should_block_tag, apply_change,
}
use tagwise_identity_protoco.Indexer.Apply.Laws.{row_after, Applied-of_run}
use tagwise_identity_protoco.Api.{HttpError}
use tagwise_identity_protoco.Api.Auth.{Platform}
use tagwise_identity_protoco.Api.Resolve.{Config, ResolveResponse}
use tagwise_identity_protoco.Api.Profile.{IdentityResponse}
use tagwise_identity_protoco.Api.Profile.Laws.{update_identity-Updated}
use tagwise_identity_protoco.Api.Routes.{guarded_tag}
use tagwise_identity_protoco.Api.Validation.{
  Body, Validator, validated, provided_of, patch_identity_route,
}
use tagwise_identity_protoco.Api.Validation.Bounds.{
  Bounded, validated-Valid, written-Bounded, row_after-Bounded,
}

-- A table whose row of one tag is new and whose other rows are as before.
replaced :
    (P : Identity → Type 0) (d : IdentityTable) (table table' : d.Table) (tag : Text)
    (new : Identity)
    → d.find_unique table' tag ≡ some new
    → ((other : Text) → other ≢ tag → d.find_unique table' other ≡ d.find_unique table other)
    → P new
    → ((t : Text) (row : Identity) → d.find_unique table t ≡ some row → P row)
    → (t : Text) (row : Identity) → d.find_unique table' t ≡ some row
    → P row
replaced P d table table' tag new after others fits h t row e = elim (Bool-cases (text_eq t tag)) [
  | inl hit ↦
      let at : d.find_unique table' tag ≡ some row =
        ap (d.find_unique table') (sym ((text_eq_iff t tag).0 hit)) ∙ e in
      let same : new ≡ row = cc (after, at) in subst P same fits
  | inr other ↦ h t row (sym (others t (λ x. absurd (cc (other, (text_eq_iff t tag).1 x)))) ∙ e)
]

module _ (u : CaseMap) (d : IdentityTable) (k : CursorTable) (c : CacheInvalidator) (r : Redis)
    (json : Json ResolveResponse) (config : Config) (p : Platform)
    (throttle : Text → Result HttpError (Unit {0})) (v : Validator) (engine : Engine) where
  -- The profile columns of all rows are within their bounds.
  abbrev pub AllBounded : d.Table → Type 0
  AllBounded table =
      (tag : Text) (row : Identity) → d.find_unique table tag ≡ some row → Bounded v row

  -- A history of answered profile requests and applied changes, in any order.
  pub data Writes (start : d.Table) : d.Table → Type 0 where
    nothing : Writes start start
    patched :
        {table table' : d.Table} (header : Option Text) (raw : Text) (body : Body) (s s' : r.Store)
        (response : IdentityResponse)
        → Writes start table
        → patch_identity_route u d r json config p throttle v engine header raw body table s
          ≡ ok (response, table', s')
        → Writes start table'
    changed :
        (change : VerifiedTagChange) (w w' : World d k c) (outcome : ApplyOutcome)
        → Writes start w.identities
        → apply_change d k c u engine change w ≡ some (outcome, w')
        → Writes start w'.identities

  patch-Bounded :
      (header : Option Text) (raw : Text) (body : Body) (table table' : d.Table) (s s' : r.Store)
      (response : IdentityResponse)
      → AllBounded table
      → patch_identity_route u d r json config p throttle v engine header raw body table s
        ≡ ok (response, table', s')
      → AllBounded table'
  unfolding patch_identity_route
  patch-Bounded header raw body table table' s s' response h e =
      let ((pubkey, tag), _, h1) =
        >>=-eq-ok (guarded_tag u d r json config p throttle header raw table) _ e in
      let (dto, e2, h2) = >>=-eq-ok (validated v body) _ h1 in
      let done =
        update_identity-Updated u engine d r json config tag pubkey dto (provided_of body) table
          table' s s' response h2 in
      replaced (Bounded v) d table table' tag done.new_row done.after done.others
        (subst (Bounded v) (sym done.new_eq) (
          written-Bounded v dto (provided_of body) done.row (validated-Valid v body e2)
            (h tag done.row done.found)))
        h

  change-Bounded :
      (change : VerifiedTagChange) (w w' : World d k c) (outcome : ApplyOutcome)
      → AllBounded w.identities
      → apply_change d k c u engine change w ≡ some (outcome, w')
      → AllBounded w'.identities
  change-Bounded change w w' outcome h e =
      let done = Applied-of_run d k c u engine change w w' outcome e in
      replaced (Bounded v) d w.identities w'.identities change.tag
        (row_after (should_block_tag u engine change.tag) change (d.fresh w.identities)
          (d.find_unique w.identities change.tag))
        done.row_eq done.other_eq
        (row_after-Bounded v (should_block_tag u engine change.tag) change (d.fresh w.identities)
          (d.find_unique w.identities change.tag) (h change.tag))
        h

  -- Whatever profiles are edited and whatever changes the indexer applies, in any order, the profile
  -- columns of every row stay null or within the bounds of the request's class: names of 1 to 50 and
  -- bios of 1 to 160 in class-validator's count, avatars that are URLs of at most 2048, and tokens of
  -- 2 to 10 upper case letters.
  pub Writes-Bounded :
      (start table : d.Table) → AllBounded start → Writes start table → AllBounded table
  Writes-Bounded start _ h nothing = h
  Writes-Bounded start _ h (patched {table} {table'} header raw body s s' response before e) =
      patch-Bounded header raw body table table' s s' response (Writes-Bounded start table h before)
        e
  Writes-Bounded start _ h (changed change w w' outcome before e) =
      change-Bounded change w w' outcome (Writes-Bounded start w.identities h before) e
