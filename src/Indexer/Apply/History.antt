-- ===== src/Indexer/Apply/History.antt =====
-- apply-change.ts: two changes of one tag, one after the other: their order does not matter.
use tagwise_identity_protoco.Prelude.{
  ℕ, ◌≤◌, ◌<◌, Text, CaseMap, Bool, Option, none, some, ◌≡◌, refl, ap, sym, ◌∙◌, subst, arith,
}
use tagwise_identity_protoco.Moderation.Profanity.{Engine}
use tagwise_identity_protoco.Mirror.{Identity, IdentityTable, CursorTable}
use tagwise_identity_protoco.Indexer.Apply.{
  VerifiedTagChange, ApplyOutcome, CacheInvalidator, World, should_block_tag, apply_change,
}
use tagwise_identity_protoco.Indexer.Apply.Laws.{row_after, apply_change-Applied, Applied-of_run}
use tagwise_identity_protoco.Indexer.Apply.Rows.{
  mirrored, row_after_comm, row_after-slot, row_after-again,
}

-- Two changes of one tag, applied one after the other.
unfoldable pub apply_two :
    (d : IdentityTable) (k : CursorTable) (c : CacheInvalidator)
    → CaseMap
    → Engine
    → VerifiedTagChange
    → VerifiedTagChange
    → World d k c
    → Option (World d k c)
apply_two d k c u engine a b w = elim (apply_change d k c u engine a w) [
  | none ↦ none
  | some (_, mid) ↦ elim (apply_change d k c u engine b mid) [
    | none ↦ none
    | some (_, w') ↦ some w'
  ]
]

module _ (d : IdentityTable) (k : CursorTable) (c : CacheInvalidator) (u : CaseMap)
    (engine : Engine) where
  two_rows :
      (a b : VerifiedTagChange) (w : World d k c)
      → a.tag ≡ b.tag
      → (w' : World d k c) × (g : Text × ℕ) × (apply_two d k c u engine a b w ≡ some w')
        × (d.find_unique w'.identities a.tag
            ≡ some (
                row_after (should_block_tag u engine a.tag) b g (
                  some (
                    row_after
                      (should_block_tag u engine a.tag)
                      a
                      (d.fresh w.identities)
                      (d.find_unique w.identities a.tag)))))
  unfolding apply_two
  two_rows a b w same =
      let (o, mid, e, first) = apply_change-Applied d k c u engine a w in
      let (o', w', e', second) = apply_change-Applied d k c u engine b mid in
      (
        w',
        d.fresh mid.identities,
        ground (arith, e, e'),
        subst
              (λ (t : Text).
                d.find_unique w'.identities t
                ≡ some (
                    row_after (should_block_tag u engine t) b (d.fresh mid.identities)
                      (d.find_unique mid.identities t)))
              (sym same) second.row_eq
            ∙ ap
                (λ (r : Option Identity).
                  some (row_after (should_block_tag u engine a.tag) b (d.fresh mid.identities) r))
                first.row_eq,
      )

  -- Two changes of one tag with different slots, applied in either order, leave the same columns of
  -- the chain and the same status: the newer slot wins. Neither order throws.
  pub apply_two-order :
      (a b : VerifiedTagChange) (w : World d k c)
      → a.tag ≡ b.tag
      → a.slot < b.slot
      → (w' w'' : World d k c) × (row' row'' : Identity) × (apply_two d k c u engine a b w
          ≡ some w')
        × (apply_two d k c u engine b a w ≡ some w'')
        × (d.find_unique w'.identities a.tag ≡ some row')
        × (d.find_unique w''.identities a.tag ≡ some row'')
        × (mirrored row' ≡ mirrored row'')
        × (b.slot ≤ row'.last_applied_slot)
  apply_two-order a b w same lt =
      let (w', g, e, found) = two_rows a b w same in
      let (w'', g', e', found') = two_rows b a w (sym same) in
      let found_a =
        subst
          (λ (t : Text).
            d.find_unique w''.identities t
            ≡ some (
                row_after (should_block_tag u engine t) a g' (
                  some
                    (row_after (should_block_tag u engine t) b f (d.find_unique w.identities t)))))
          (sym same) found' in
      (
        w',
        w'',
        row_after (blocked_by a) b g (some (row_after (blocked_by a) a f (old a))),
        row_after (blocked_by a) a g' (some (row_after (blocked_by a) b f (old a))),
        e,
        e',
        found,
        found_a,
        row_after_comm (blocked_by a) a b f g f g' (old a) lt,
        row_after-slot (blocked_by a) b g (some (row_after (blocked_by a) a f (old a))),
      )
    where
      f : Text × ℕ
      f = d.fresh w.identities

      blocked_by : VerifiedTagChange → Bool
      blocked_by x = should_block_tag u engine x.tag

      old : VerifiedTagChange → Option Identity
      old x = d.find_unique w.identities x.tag

  -- A change that is delivered again changes nothing in the row.
  pub apply_two-again :
      (a : VerifiedTagChange) (w w' : World d k c) (outcome : ApplyOutcome)
      → apply_change d k c u engine a w ≡ some (outcome, w')
      → (w'' : World d k c) × (apply_two d k c u engine a a w ≡ some w'')
        × (d.find_unique w''.identities a.tag ≡ d.find_unique w'.identities a.tag)
  apply_two-again a w w' outcome h =
      let once = Applied-of_run d k c u engine a w w' outcome h in
      let (w'', g, e, found) = two_rows a a w refl in
      (
        w'',
        e,
        found
            ∙ ap some (
                row_after-again (should_block_tag u engine a.tag) a (d.fresh w.identities) g
                  (d.find_unique w.identities a.tag))
            ∙ sym once.row_eq,
      )
