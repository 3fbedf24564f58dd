-- ===== src/Api/Validation/Bounds.antt =====
-- update-identity-request.dto.ts: the bounds that the profile columns of the mirror keep.
use tagwise_identity_protoco.Prelude.{
  ℕ, Text, Bool, true, false, Option, none, some, Result, ok, >>=-eq-ok, ◌≡◌, refl, ap, sym, ◌∙◌,
  arith, if◌then◌else◌, inl, inr, Bool-cases, subst,
}
use tagwise_identity_protoco.Mirror.{Identity, column, written}
use tagwise_identity_protoco.Indexer.Apply.{VerifiedTagChange, update_data, not_newer}
use tagwise_identity_protoco.Indexer.Apply.Laws.{row_after}
use tagwise_identity_protoco.Api.{HttpError}
use tagwise_identity_protoco.Api.Profile.{
  UpdateIdentityRequest, ProvidedFields, given_if, update_of,
}
use tagwise_identity_protoco.Api.Validation.{
  Field, absent, null, text, other, Body, Validator, trim_if_string, has_size, is_avatar,
  is_preferred_token, optional_string, no_unknown, validated,
}

-- A column that is null, or whose text passes the test.
abbrev pub Within : (Text → Bool) → Option Text → Type 0
Within test o = (t : Text) → o ≡ some t → test t ≡ true

-- The profile columns of a row.
pub record Bounded (v : Validator) (row : Identity) : Type 0 where
  pub display_name : Within (has_size v 1 50) row.display_name
  pub avatar : Within (is_avatar v) row.avatar
  pub bio : Within (has_size v 1 160) row.bio
  pub preferred_token : Within is_preferred_token row.preferred_token

optional_string-Within :
    (test : Text → Bool) (f : Field) {o : Option Text}
    → optional_string test f ≡ ok o
    → Within test o
unfolding optional_string
optional_string-Within test absent {o} h t e = absurd (cc (h, e))
optional_string-Within test null {o} h t e = absurd (cc (h, e))
optional_string-Within test other h t e = absurd (cc h)
optional_string-Within test (text x) {o} h t e = elim (Bool-cases (test x)) [
  | inr failed ↦ absurd (ground (arith, h, failed))
  | inl passed ↦
      let kept : ◌≡◌ {A = Result HttpError (Option Text)} (ok (some x)) (ok o) =
        ground (arith, h, passed) in
      let same : x ≡ t = cc (kept, e) in sym (ap test same) ∙ passed
]

column-Within :
    (test : Text → Bool) (provided : Bool) (given old : Option Text)
    → Within test given
    → Within test old
    → Within test (column (given_if provided given) old)
column-Within test true given old h k = h
column-Within test false given old h k = k

no_text : (test : Text → Bool) → Within test none
no_text test t e = absurd (cc e)

-- What the pipe lets through.
pub record Valid (v : Validator) (dto : UpdateIdentityRequest) : Type 0 where
  display_name : Within (has_size v 1 50) dto.display_name
  avatar : Within (is_avatar v) dto.avatar
  bio : Within (has_size v 1 160) dto.bio
  preferred_token : Within is_preferred_token dto.preferred_token

pub validated-Valid :
    (v : Validator) (body : Body) {dto : UpdateIdentityRequest}
    → validated v body ≡ ok dto
    → Valid v dto
unfolding validated
validated-Valid v body {dto} h =
    let (_, _, h1) = >>=-eq-ok (no_unknown body.has_unknown) _ h in
    let (name, e1, h2) =
      >>=-eq-ok (optional_string (has_size v 1 50) (trim_if_string body.display_name)) _ h1 in
    let (avatar, e2, h3) = >>=-eq-ok (optional_string (is_avatar v) body.avatar) _ h2 in
    let (bio, e3, h4) =
      >>=-eq-ok (optional_string (has_size v 1 160) (trim_if_string body.bio)) _ h3 in
    let (token, e4, h5) =
      >>=-eq-ok (optional_string is_preferred_token body.preferred_token) _ h4 in
    subst (Valid v) (same h5) (record {
      display_name = optional_string-Within (has_size v 1 50) (trim_if_string body.display_name) e1;
      avatar = optional_string-Within (is_avatar v) body.avatar e2;
      bio = optional_string-Within (has_size v 1 160) (trim_if_string body.bio) e3;
      preferred_token = optional_string-Within is_preferred_token body.preferred_token e4;
    })
  where
    same :
        {a : UpdateIdentityRequest}
        → ◌≡◌ {A = Result HttpError UpdateIdentityRequest} (ok a) (ok dto)
        → a ≡ dto
    same k = cc k

pub written-Bounded :
    (v : Validator) (dto : UpdateIdentityRequest) (provided : ProvidedFields) (row : Identity)
    → Valid v dto
    → Bounded v row
    → Bounded v (written (update_of dto provided) row)
written-Bounded v dto provided row valid h = record {
  display_name =
      column-Within (has_size v 1 50) provided.display_name dto.display_name row.display_name
        valid.display_name h.display_name;
  avatar = column-Within (is_avatar v) provided.avatar dto.avatar row.avatar valid.avatar h.avatar;
  bio = column-Within (has_size v 1 160) provided.bio dto.bio row.bio valid.bio h.bio;
  preferred_token =
      column-Within is_preferred_token provided.preferred_token dto.preferred_token
        row.preferred_token valid.preferred_token h.preferred_token;
}

-- The indexer writes no profile column, and creates rows that have none.
pub row_after-Bounded :
    (v : Validator) (blocked : Bool) (change : VerifiedTagChange) (fresh : Text × ℕ)
    (o : Option Identity)
    → ((row : Identity) → o ≡ some row → Bounded v row)
    → Bounded v (row_after blocked change fresh o)
unfolding row_after
row_after-Bounded v blocked change fresh none h = record {
  display_name = no_text (has_size v 1 50);
  avatar = no_text (is_avatar v);
  bio = no_text (has_size v 1 160);
  preferred_token = no_text is_preferred_token;
}
row_after-Bounded v blocked change fresh (some row) h =
    by_slot (not_newer change.slot row) (h row refl)
  where
    by_slot :
        (b : Bool)
        → Bounded v row
        → Bounded v (if b then written (update_data blocked change) row else row)
    by_slot true k = record {
      display_name = k.display_name;
      avatar = k.avatar;
      bio = k.bio;
      preferred_token = k.preferred_token;
    }
    by_slot false k = k
