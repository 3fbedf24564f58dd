-- ===== src/Indexer/Apply/Laws.antt =====
-- apply-change.ts: what one change does to the table, the cursor and the cache.
use tagwise_identity_protoco.Prelude.{
  subst, ℕ, Text, CaseMap, Bool, true, false, Option, none, some, if◌then◌else◌, ◌≡◌, ◌≢◌, refl, ap,
  sym, ◌∙◌, arith, Bool-cases, Option-cases, inl, inr,
}
use tagwise_identity_protoco.Moderation.Profanity.{Engine}
use tagwise_identity_protoco.Mirror.{Identity, IdentityTable, CursorTable, written, created_row}
use tagwise_identity_protoco.Indexer.Apply.{
  VerifiedTagChange, ApplyOutcome, CacheInvalidator, World, should_block_tag, status_if,
  update_data, create_data, not_newer, finish_create, create_or_skip, after_update, apply_change,
}
use tagwise_identity_protoco.Indexer.Apply

-- What a change makes of the row of its tag, without tables: `fresh` is what a new row gets.
unfoldable pub row_after : Bool → VerifiedTagChange → Text × ℕ → Option Identity → Identity
row_after blocked change fresh none = created_row fresh (create_data blocked change)
row_after blocked change fresh (some row) =
    if not_newer change.slot row then written (update_data blocked change) row else row

unfoldable pub outcome_of : VerifiedTagChange → Option Identity → ApplyOutcome
outcome_of change none = Apply.created
outcome_of change (some row) =
    if not_newer change.slot row then Apply.updated else Apply.skipped_stale

-- The cache is invalidated exactly when something was written.
unfoldable pub cache_after : (c : CacheInvalidator) → Text → ApplyOutcome → c.Cache → c.Cache
cache_after c tag Apply.skipped_stale cache = cache
cache_after c tag Apply.created cache = c.invalidate tag cache
cache_after c tag Apply.updated cache = c.invalidate tag cache

-- A run of `apply_change` on `w` that returned `outcome` and `w'`, as the abstract view has it.
pub record Applied (d : IdentityTable) (k : CursorTable) (c : CacheInvalidator) (blocked : Bool)
    (change : VerifiedTagChange) (w : World d k c) (outcome : ApplyOutcome) (w' : World d k c)
    : Type 0 where
  pub outcome_eq : outcome ≡ outcome_of change (d.find_unique w.identities change.tag)
  pub row_eq :
      d.find_unique w'.identities change.tag
      ≡ some
          (row_after blocked change (d.fresh w.identities) (d.find_unique w.identities change.tag))
  pub other_eq :
      (other : Text)
      → other ≢ change.tag
      → d.find_unique w'.identities other ≡ d.find_unique w.identities other
  pub cursor_eq : w'.cursor ≡ w.cursor
  pub cache_eq : w'.cache ≡ cache_after c change.tag outcome w.cache

module _ (d : IdentityTable) (k : CursorTable) (c : CacheInvalidator) (blocked : Bool)
    (change : VerifiedTagChange) (w : World d k c) where
  Returns : Type 0
  Returns =
      (outcome : ApplyOutcome) × (w' : World d k c) × (after_update d k c blocked change
          (d.update_many change.tag (not_newer change.slot) (update_data blocked change)
            w.identities)
          w
        ≡ some (outcome, w'))
      × Applied d k c blocked change w outcome w'

  outcome_some :
      (row : Identity) (b : Bool)
      → d.find_unique w.identities change.tag ≡ some row
      → not_newer change.slot row ≡ b
      → outcome_of change (d.find_unique w.identities change.tag)
        ≡ (if b then Apply.updated else Apply.skipped_stale)
  unfolding outcome_of
  outcome_some row b h e =
      ap (outcome_of change) h
      ∙ ap (λ (x : Bool). if x then Apply.updated else Apply.skipped_stale) e

  row_some :
      (row : Identity) (b : Bool)
      → d.find_unique w.identities change.tag ≡ some row
      → not_newer change.slot row ≡ b
      → row_after blocked change (d.fresh w.identities) (d.find_unique w.identities change.tag)
        ≡ (if b then written (update_data blocked change) row else row)
  unfolding row_after
  row_some row b h e =
      ap (row_after blocked change (d.fresh w.identities)) h
      ∙ ap (λ (x : Bool). if x then written (update_data blocked change) row else row) e

  when_newer :
      (row : Identity)
      → d.find_unique w.identities change.tag ≡ some row
      → not_newer change.slot row ≡ true
      → Returns
  unfolding Returns after_update cache_after
  when_newer row h e =
      let hit =
        d.update_many-match change.tag (not_newer change.slot) (update_data blocked change)
          w.identities row h e in
      let (count, found) = hit in
      (
        Apply.updated,
        record {
          identities =
              (d.update_many change.tag (not_newer change.slot) (update_data blocked change)
                w.identities).1;
          cursor = w.cursor;
          cache = c.invalidate change.tag w.cache;
        },
        ground (arith, count),
        record {
          outcome_eq = sym (outcome_some row true h e);
          row_eq = found ∙ ap some (sym (row_some row true h e));
          other_eq =
              d.update_many-other change.tag (not_newer change.slot) (update_data blocked change)
                w.identities;
          cursor_eq = refl;
          cache_eq = refl;
        },
      )

  -- The update that wrote nothing leaves the world as it was.
  missed :
      ((row : Identity)
        → d.find_unique w.identities change.tag ≡ some row
        → not_newer change.slot row ≡ false)
      → after_update d k c blocked change
          (d.update_many change.tag
            (not_newer change.slot)
            (update_data blocked change)
            w.identities)
          w
        ≡ create_or_skip d k c blocked change (d.find_unique w.identities change.tag) w
  unfolding after_update
  missed h =
      let (count, same) =
        d.update_many-miss change.tag (not_newer change.slot) (update_data blocked change)
          w.identities h in
      ap (λ (r : ℕ × d.Table). after_update d k c blocked change r w) (pair_eq _ count same)
    where
      pair_eq : (r : ℕ × d.Table) {n : ℕ} {s : d.Table} → r.0 ≡ n → r.1 ≡ s → r ≡ (n, s)
      pair_eq r e f = cc

  when_stale :
      (row : Identity)
      → d.find_unique w.identities change.tag ≡ some row
      → not_newer change.slot row ≡ false
      → Returns
  unfolding Returns create_or_skip cache_after
  when_stale row h e = (
    Apply.skipped_stale,
    w,
    missed (λ r g. same_row r (cc (g, h)) e)
        ∙ ap (λ (o : Option Identity). create_or_skip d k c blocked change o w) h,
    record {
      outcome_eq = sym (outcome_some row false h e);
      row_eq = h ∙ ap some (sym (row_some row false h e));
      other_eq = λ other _. refl;
      cursor_eq = refl;
      cache_eq = refl;
    },
  )
    where
      same_row :
          (r : Identity)
          → row ≡ r
          → not_newer change.slot row ≡ false
          → not_newer change.slot r ≡ false
      same_row r g f = sym (ap (not_newer change.slot) g) ∙ f

  when_absent : d.find_unique w.identities change.tag ≡ none → Returns
  unfolding Returns create_or_skip finish_create cache_after row_after outcome_of
  when_absent h =
      let made = d.create-absent (create_data blocked change) w.identities h in
      let (table, create_eq, found, other) = made in
      (
        Apply.created,
        record { identities = table; cursor = w.cursor; cache = c.invalidate change.tag w.cache },
        missed (λ r g. absurd (cc (g, h)))
            ∙ ap (λ (o : Option Identity). create_or_skip d k c blocked change o w) h
            ∙ ap (λ (o : Option d.Table). finish_create d k c change.tag o w) create_eq,
        record {
          outcome_eq = sym (ap (outcome_of change) h);
          row_eq = found ∙ ap some (sym (ap (row_after blocked change (d.fresh w.identities)) h));
          other_eq = other;
          cursor_eq = refl;
          cache_eq = refl;
        },
      )

  after_update-Returns : Returns
  unfolding Returns
  after_update-Returns = elim (Option-cases (d.find_unique w.identities change.tag)) [
    | inl h ↦ when_absent h
    | inr (row, h) ↦ elim (Bool-cases (not_newer change.slot row)) [
      | inl e ↦ when_newer row h e
      | inr e ↦ when_stale row h e
    ]
  ]

pub apply_change-Applied :
    (d : IdentityTable) (k : CursorTable) (c : CacheInvalidator) (u : CaseMap) (engine : Engine)
    (change : VerifiedTagChange) (w : World d k c)
    → (outcome : ApplyOutcome) × (w' : World d k c) × (apply_change d k c u engine change w
        ≡ some (outcome, w'))
      × Applied d k c (should_block_tag u engine change.tag) change w outcome w'
unfolding apply_change Returns
apply_change-Applied d k c u engine change w =
    after_update-Returns d k c (should_block_tag u engine change.tag) change w

-- The same of a run that is known to have returned.
pub Applied-of_run :
    (d : IdentityTable) (k : CursorTable) (c : CacheInvalidator) (u : CaseMap) (engine : Engine)
    (change : VerifiedTagChange) (w w' : World d k c) (outcome : ApplyOutcome)
    → apply_change d k c u engine change w ≡ some (outcome, w')
    → Applied d k c (should_block_tag u engine change.tag) change w outcome w'
Applied-of_run d k c u engine change w w' outcome h =
    let (o, v, e, applied) = apply_change-Applied d k c u engine change w in
    let same : (o, v) ≡ (outcome, w') = cc (e, h) in
    subst
      (λ (p : ApplyOutcome × World d k c).
        Applied d k c (should_block_tag u engine change.tag) change w p.0 p.1)
      same applied
