-- ===== src/Indexer/Apply/Rows.antt =====
-- apply-change.ts: how one row changes under changes.
use tagwise_identity_protoco.Prelude.{
  ℕ, ◌≤◌, ◌<◌, Text, CaseMap, Bool, true, false, Option, none, some, if◌then◌else◌, ◌≡◌, refl, ap,
  sym, ◌∙◌, arith, Bool-cases, inl, inr, text_eq, text_eq_iff,
}
use tagwise_identity_protoco.Moderation.Profanity.{Engine}
use tagwise_identity_protoco.Mirror.{IdentityStatus, Identity, IdentityTable, CursorTable, written}
use tagwise_identity_protoco.Indexer.Apply.{
  VerifiedTagChange, ApplyOutcome, CacheInvalidator, World, should_block_tag, update_data,
  not_newer, apply_change,
}
use tagwise_identity_protoco.Indexer.Apply.Laws.{row_after, Applied, Applied-of_run}

-- What the indexer may do to a row: it moves forward in slots, a blocked row stays blocked, and the
-- columns that the API owns stay as they are.
pub record Evolves (row row' : Identity) : Type 0 where
  pub slot_le : row.last_applied_slot ≤ row'.last_applied_slot
  pub stays_blocked : row.status ≡ IdentityStatus.blocked → row'.status ≡ IdentityStatus.blocked
  pub id_eq : row'.id ≡ row.id
  pub tag_eq : row'.tag ≡ row.tag
  pub display_name_eq : row'.display_name ≡ row.display_name
  pub avatar_eq : row'.avatar ≡ row.avatar
  pub bio_eq : row'.bio ≡ row.bio
  pub preferred_token_eq : row'.preferred_token ≡ row.preferred_token
  pub verified_eq : row'.verified ≡ row.verified
  pub merchant_eq : row'.merchant ≡ row.merchant
  pub created_at_eq : row'.created_at ≡ row.created_at

pub Evolves-refl : (row : Identity) → Evolves row row
Evolves-refl row = record {
  slot_le = omega arith;
  stays_blocked = λ h. h;
  id_eq = refl;
  tag_eq = refl;
  display_name_eq = refl;
  avatar_eq = refl;
  bio_eq = refl;
  preferred_token_eq = refl;
  verified_eq = refl;
  merchant_eq = refl;
  created_at_eq = refl;
}

pub Evolves-trans : {a b c : Identity} → Evolves a b → Evolves b c → Evolves a c
Evolves-trans f g = record {
  slot_le = omega (arith, f.slot_le, g.slot_le);
  stays_blocked = λ h. g.stays_blocked (f.stays_blocked h);
  id_eq = g.id_eq ∙ f.id_eq;
  tag_eq = g.tag_eq ∙ f.tag_eq;
  display_name_eq = g.display_name_eq ∙ f.display_name_eq;
  avatar_eq = g.avatar_eq ∙ f.avatar_eq;
  bio_eq = g.bio_eq ∙ f.bio_eq;
  preferred_token_eq = g.preferred_token_eq ∙ f.preferred_token_eq;
  verified_eq = g.verified_eq ∙ f.verified_eq;
  merchant_eq = g.merchant_eq ∙ f.merchant_eq;
  created_at_eq = g.created_at_eq ∙ f.created_at_eq;
}

written-Evolves :
    (blocked : Bool) (change : VerifiedTagChange) (row : Identity)
    → not_newer change.slot row ≡ true
    → Evolves row (written (update_data blocked change) row)
written-Evolves blocked change row h = record {
  slot_le = ground arith;
  stays_blocked = kept blocked;
  id_eq = refl;
  tag_eq = refl;
  display_name_eq = refl;
  avatar_eq = refl;
  bio_eq = refl;
  preferred_token_eq = refl;
  verified_eq = refl;
  merchant_eq = refl;
  created_at_eq = refl;
}
  where
    kept :
        (b : Bool)
        → row.status ≡ IdentityStatus.blocked
        → (written (update_data b change) row).status ≡ IdentityStatus.blocked
    kept true h = refl
    kept false h = h

row_after-Evolves :
    (blocked : Bool) (change : VerifiedTagChange) (fresh : Text × ℕ) (row : Identity)
    → Evolves row (row_after blocked change fresh (some row))
unfolding row_after
row_after-Evolves blocked change fresh row = split (not_newer change.slot row) refl
  where
    split :
        (b : Bool)
        → not_newer change.slot row ≡ b
        → Evolves row (if b then written (update_data blocked change) row else row)
    split true h = written-Evolves blocked change row h
    split false h = Evolves-refl row

-- No change ever takes a row back: whatever tag is changed, every row of the table is still there
-- and has only evolved.
pub apply_change-Evolves :
    (d : IdentityTable) (k : CursorTable) (c : CacheInvalidator) (u : CaseMap) (engine : Engine)
    (change : VerifiedTagChange) (w w' : World d k c) (outcome : ApplyOutcome) (tag : Text)
    (row : Identity)
    → apply_change d k c u engine change w ≡ some (outcome, w')
    → d.find_unique w.identities tag ≡ some row
    → (row' : Identity) × (d.find_unique w'.identities tag ≡ some row') × Evolves row row'
apply_change-Evolves d k c u engine change w w' outcome tag row h found =
    elim (Bool-cases (text_eq tag change.tag)) [
      | inl e ↦
          let same : tag ≡ change.tag = (text_eq_iff _ _).0 e in
          let before : d.find_unique w.identities change.tag ≡ some row =
            ap (d.find_unique w.identities) (sym same) ∙ found in
          (
            row_after blocked change (d.fresh w.identities) (some row),
            ap (d.find_unique w'.identities) same
                ∙ run.row_eq
                ∙ ap
                    (λ (o : Option Identity).
                      some (row_after blocked change (d.fresh w.identities) o))
                    before,
            row_after-Evolves blocked change (d.fresh w.identities) row,
          )
      | inr e ↦ (
        row,
        run.other_eq tag (λ same. absurd (cc (e, (text_eq_iff _ _).1 same))) ∙ found,
        Evolves-refl row,
      )
    ]
  where
    blocked : Bool
    blocked = should_block_tag u engine change.tag

    run : Applied d k c (should_block_tag u engine change.tag) change w outcome w'
    run = Applied-of_run d k c u engine change w w' outcome h

-- The columns that come from the chain, and the status.
abbrev pub mirrored : Identity → Text × Text × ℕ × ℕ × IdentityStatus
mirrored row = (row.owner, row.wallet, row.bump, row.last_applied_slot, row.status)

pub row_after_comm :
    (blocked : Bool) (a b : VerifiedTagChange) (f g f' g' : Text × ℕ) (o : Option Identity)
    → a.slot < b.slot
    → mirrored (row_after blocked b g (some (row_after blocked a f o)))
      ≡ mirrored (row_after blocked a g' (some (row_after blocked b f' o)))
unfolding row_after
row_after_comm true a b f g f' g' none h = ground arith
row_after_comm false a b f g f' g' none h = ground arith
row_after_comm true a b f g f' g' (some row) h = ground arith
row_after_comm false a b f g f' g' (some row) h = ground arith

pub row_after-slot :
    (blocked : Bool) (a : VerifiedTagChange) (f : Text × ℕ) (o : Option Identity)
    → a.slot ≤ (row_after blocked a f o).last_applied_slot
unfolding row_after
row_after-slot blocked a f none = omega arith
row_after-slot blocked a f (some row) = ground arith

pub row_after-again :
    (blocked : Bool) (a : VerifiedTagChange) (f g : Text × ℕ) (o : Option Identity)
    → row_after blocked a g (some (row_after blocked a f o)) ≡ row_after blocked a f o
unfolding row_after
row_after-again true a f g none = ground arith
row_after-again false a f g none = ground arith
row_after-again true a f g (some row) = ground arith
row_after-again false a f g (some row) = ground arith
