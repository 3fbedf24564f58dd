-- ===== src/Indexer/Pipeline/Sweep.antt =====
-- pipeline.ts and reconcile.ts: what an observation and a sweep do to the mirror.
use tagwise_identity_protoco.Prelude.{
  ℕ, ◌+◌, ◌≤◌, Text, CaseMap, true, none, List, [], ◌∷◌, Option, some, length, ◌≡◌, refl, ap, ◌∙◌,
  arith, All, subst,
}
use tagwise_identity_protoco.Solana.{Bytes, Solana}
use tagwise_identity_protoco.Moderation.Profanity.{Engine}
use tagwise_identity_protoco.Mirror.{IdentityTable, CursorTable}
use tagwise_identity_protoco.Indexer.Apply.{
  VerifiedTagChange, ApplyOutcome, created, updated, skipped_stale, CacheInvalidator, World,
  should_block_tag, apply_change,
}
use tagwise_identity_protoco.Indexer.Apply.Laws.{Applied, apply_change-Applied, row_after}
use tagwise_identity_protoco.Indexer.Apply.Rows.{Evolves-refl, apply_change-Evolves, row_after-slot}
use tagwise_identity_protoco.Indexer.Cursor.{advance_cursor, later, advance_cursor-later}
use tagwise_identity_protoco.Indexer.Pipeline.{
  DecodeVerifyResult, verified, decode_failed, pda_mismatch, Processed, applied, skipped,
  decode_and_verify, after_apply, process_result, process_account_observation, sweep, reconcile,
  reconcile_response, ReconcileResult,
}
use tagwise_identity_protoco.Indexer.Pipeline.Laws.{decode_and_verify_iff, decode_and_verify-total}
use tagwise_identity_protoco.Indexer.Pipeline.Advances.{
  Advances, Advances-refl, Advances-trans, MirroredAt, MirroredAt-kept,
}

module _ (d : IdentityTable) (k : CursorTable) (c : CacheInvalidator) (u : CaseMap) (sol : Solana)
    (engine : Engine) where
  abbrev moved : ℕ → World d k c → World d k c
  moved slot w = record {
    identities = w.identities;
    cursor = advance_cursor k slot w.cursor;
    cache = w.cache;
  }

  later_ge : (old slot : ℕ) → old ≤ later (some old) slot
  later_ge old slot = ground arith

  moved-Advances : (slot : ℕ) (w : World d k c) → Advances d k c u sol engine w (moved slot w)
  moved-Advances slot w = record {
    rows = λ tag row h. (row, h, Evolves-refl row);
    cursor = λ old h. (
      later (some old) slot,
      advance_cursor-later k slot w.cursor ∙ ap (λ (o : Option ℕ). some (later o slot)) h,
      later_ge old slot,
    );
  }

  after_apply-Advances :
      (slot : ℕ) (outcome : ApplyOutcome) (w : World d k c)
      → (p : Processed) × (w' : World d k c) × (after_apply d k c u sol engine slot (outcome, w)
          ≡ (p, w'))
        × (w'.identities ≡ w.identities)
        × Advances d k c u sol engine w w'
  unfolding after_apply
  after_apply-Advances slot skipped_stale w =
      (skipped, w, refl, refl, Advances-refl d k c u sol engine w)
  after_apply-Advances slot created w = (applied, moved slot w, refl, refl, moved-Advances slot w)
  after_apply-Advances slot updated w = (applied, moved slot w, refl, refl, moved-Advances slot w)

  Applied-Advances :
      (change : VerifiedTagChange) (w w' : World d k c) (outcome : ApplyOutcome)
      → apply_change d k c u engine change w ≡ some (outcome, w')
      → Applied d k c (should_block_tag u engine change.tag) change w outcome w'
      → Advances d k c u sol engine w w'
  Applied-Advances change w w' outcome e run = record {
    rows = λ tag row h. apply_change-Evolves d k c u engine change w w' outcome tag row e h;
    cursor = λ slot h. (slot, ap k.find_unique run.cursor_eq ∙ h, omega arith);
  }

  process_result-Advances :
      (slot : ℕ) (r : DecodeVerifyResult) (w : World d k c)
      → (p : Processed) × (w' : World d k c) × (process_result d k c u sol engine slot r w
          ≡ some (p, w'))
        × Advances d k c u sol engine w w'
        × ((change : VerifiedTagChange)
            → r ≡ verified change
            → MirroredAt d k c u sol engine change.tag change.slot w')
  unfolding process_result
  process_result-Advances slot (decode_failed _) w =
      (skipped, w, refl, Advances-refl d k c u sol engine w, λ change h. absurd (cc h))
  process_result-Advances slot pda_mismatch w =
      (skipped, w, refl, Advances-refl d k c u sol engine w, λ change h. absurd (cc h))
  process_result-Advances slot (verified change) w =
      let (outcome, v, e, run) = apply_change-Applied d k c u engine change w in
      let (p, w', f, kept, adv) = after_apply-Advances slot outcome v in
      (
        p,
        w',
        ground (arith, e, f),
        Advances-trans d k c u sol engine (Applied-Advances change w v outcome e run) adv,
        λ other h.
            subst (λ (x : VerifiedTagChange). MirroredAt d k c u sol engine x.tag x.slot w')
              (same h)
              (
                row_after (should_block_tag u engine change.tag) change (d.fresh w.identities)
                    (d.find_unique w.identities change.tag),
                ap (λ (t : d.Table). d.find_unique t change.tag) kept ∙ run.row_eq,
                row_after-slot (should_block_tag u engine change.tag) change (d.fresh w.identities)
                    (d.find_unique w.identities change.tag),
              ),
      )
    where
      same : {a b : VerifiedTagChange} → verified a ≡ verified b → a ≡ b
      same h = cc h

  module _ (program_id : Text) (valid : sol.is_address program_id ≡ true) where
    verified-slot :
        (address : Text) (bytes : Bytes) (slot : ℕ) (change : VerifiedTagChange)
        → decode_and_verify u sol address bytes slot program_id ≡ some (verified change)
        → change.slot ≡ slot
    verified-slot address bytes slot change h =
        let (a, _, _, _, same) =
          (decode_and_verify_iff u sol address bytes slot program_id change valid).0 h in
        ap (λ (x : VerifiedTagChange). x.slot) same

    -- Where the database answers, an observation returns; it only moves the mirror forward, and an account that verifies is
    -- mirrored at the slot of the observation or a later one.
    pub process-Advances :
        (address : Text) (bytes : Bytes) (slot : ℕ) (w : World d k c)
        → (p : Processed) × (w' : World d k c) × (process_account_observation d k c u sol engine
              program_id address bytes slot w
            ≡ some (p, w'))
          × Advances d k c u sol engine w w'
          × ((change : VerifiedTagChange)
              → decode_and_verify u sol address bytes slot program_id ≡ some (verified change)
              → MirroredAt d k c u sol engine change.tag slot w')
    unfolding process_account_observation
    process-Advances address bytes slot w =
        let (result, e) = decode_and_verify-total u sol address bytes slot program_id valid in
        let (p, w', f, adv, at) = process_result-Advances slot result w in
        (
          p,
          w',
          ground (arith, e, f),
          adv,
          λ change h.
              subst (λ (n : ℕ). MirroredAt d k c u sol engine change.tag n w')
                (verified-slot address bytes slot change h) (at change (cc (e, h))),
        )

    -- The accounts of a response that verify are mirrored.
    abbrev pub AllMirrored : ℕ → List (Text × Bytes) → World d k c → Type 0
    AllMirrored slot items w =
        All
          (λ (item : Text × Bytes).
            (change : VerifiedTagChange)
            → decode_and_verify u sol item.0 item.1 slot program_id ≡ some (verified change)
            → MirroredAt d k c u sol engine change.tag slot w)
          items

    abbrev counted : Processed → ℕ × ℕ → ℕ × ℕ
    counted applied (n, m) = (n + 1, m)
    counted skipped (n, m) = (n, m + 1)

    counted-sum :
        (p : Processed) (n m : ℕ) → (counted p (n, m)).0 + (counted p (n, m)).1 ≡ n + m + 1
    counted-sum applied n m = omega arith
    counted-sum skipped n m = omega arith

    sweep-step :
        (slot : ℕ) (address : Text) (bytes : Bytes) (items : List (Text × Bytes)) (n m : ℕ)
        (w v : World d k c) (p : Processed)
        → process_account_observation d k c u sol engine program_id address bytes slot w
          ≡ some (p, v)
        → sweep d k c u sol engine program_id slot ((address, bytes) ∷ items) n m w
          ≡ sweep d k c u sol engine program_id slot items
              (counted p (n, m)).0
              (counted p (n, m)).1
              v
    unfolding sweep
    sweep-step slot address bytes items n m w v applied e = ground (arith, e)
    sweep-step slot address bytes items n m w v skipped e = ground (arith, e)

    sweep-Advances :
        (slot : ℕ) (items : List (Text × Bytes)) (n m : ℕ) (w : World d k c)
        → (n' m' : ℕ) × (w' : World d k c) × (sweep d k c u sol engine program_id slot items n m w
            ≡ some (n', m', w'))
          × (n' + m' ≡ n + m + length items)
          × Advances d k c u sol engine w w'
          × AllMirrored slot items w'
    unfolding sweep
    sweep-Advances slot [] n m w =
        (n, m, w, refl, omega arith, Advances-refl d k c u sol engine w, tt)
    sweep-Advances slot ((address, bytes) ∷ items) n m w =
        let (p, v, e, first, at) = process-Advances address bytes slot w in
        let (n', m', w', f, sum, rest, all) =
          sweep-Advances slot items (counted p (n, m)).0 (counted p (n, m)).1 v in
        (
          n',
          m',
          w',
          sweep-step slot address bytes items n m w v p e ∙ f,
          omega (arith, sum, counted-sum p n m),
          Advances-trans d k c u sol engine first rest,
          (λ change h. MirroredAt-kept d k c u sol engine (at change h) rest, all),
        )

    -- Where the node does not answer, a sweep throws.
    pub reconcile-none : (w : World d k c) → reconcile d k c u sol engine program_id none w ≡ none
    unfolding reconcile reconcile_response
    reconcile-none w = ground (arith, valid)

    pub reconcile-Advances :
        (slot : ℕ) (items : List (Text × Bytes)) (w : World d k c)
        → (r : ReconcileResult d k c u sol engine) × (w' : World d k c) × (reconcile d k c u sol
              engine program_id
              (some (slot, items))
              w
            ≡ some (r, w'))
          × (r.scanned ≡ length items)
          × (r.applied + r.skipped ≡ r.scanned)
          × Advances d k c u sol engine w w'
          × AllMirrored slot items w'
    unfolding reconcile reconcile_response
    reconcile-Advances slot items w =
        let (n, m, w', e, sum, adv, all) = sweep-Advances slot items 0 0 w in
        (
          record { slot = slot; scanned = length items; applied = n; skipped = m },
          w',
          ground (arith, valid, e),
          refl,
          omega (arith, sum),
          adv,
          all,
        )
