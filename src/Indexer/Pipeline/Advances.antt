-- ===== src/Indexer/Pipeline/Advances.antt =====
-- pipeline.ts: what any observation may do to the mirror.
use tagwise_identity_protoco.Prelude.{ℕ, ◌≤◌, Text, CaseMap, some, ◌≡◌, arith}
use tagwise_identity_protoco.Solana.{Solana}
use tagwise_identity_protoco.Moderation.Profanity.{Engine}
use tagwise_identity_protoco.Mirror.{Identity, IdentityTable, CursorTable}
use tagwise_identity_protoco.Indexer.Apply.{CacheInvalidator, World}
use tagwise_identity_protoco.Indexer.Apply.Rows.{Evolves, Evolves-refl, Evolves-trans}

module _ (d : IdentityTable) (k : CursorTable) (c : CacheInvalidator) (u : CaseMap) (sol : Solana)
    (engine : Engine) where
  -- What any observation leaves: every row has only evolved, and the cursor is not behind.
  pub record Advances (w w' : World d k c) : Type 0 where
    pub rows :
        (tag : Text) (row : Identity)
        → d.find_unique w.identities tag ≡ some row
        → (row' : Identity) × (d.find_unique w'.identities tag ≡ some row') × Evolves row row'
    pub cursor :
        (slot : ℕ)
        → k.find_unique w.cursor ≡ some slot
        → (slot' : ℕ) × (k.find_unique w'.cursor ≡ some slot') × (slot ≤ slot')

  pub Advances-refl : (w : World d k c) → Advances w w
  Advances-refl w = record {
    rows = λ tag row h. (row, h, Evolves-refl row);
    cursor = λ slot h. (slot, h, omega arith);
  }

  pub Advances-trans : {a b e : World d k c} → Advances a b → Advances b e → Advances a e
  Advances-trans f g = record {
    rows = λ tag row h.
        let (r, at, x) = f.rows tag row h in
        let (r', at', y) = g.rows tag r at in (r', at', Evolves-trans x y);
    cursor = λ slot h.
        let (s, at, x) = f.cursor slot h in
        let (s', at', y) = g.cursor s at in (s', at', omega (arith, x, y));
  }

  -- The tag is mirrored at the slot, or at a later one.
  abbrev pub MirroredAt : Text → ℕ → World d k c → Type 0
  MirroredAt tag slot w =
      (row : Identity) × (d.find_unique w.identities tag ≡ some row)
      × (slot ≤ row.last_applied_slot)

  pub MirroredAt-kept :
      {tag : Text} {slot : ℕ} {w w' : World d k c}
      → MirroredAt tag slot w
      → Advances w w'
      → MirroredAt tag slot w'
  MirroredAt-kept {tag} (row, at, le) adv =
      let (row', at', e) = adv.rows tag row at in (row', at', omega (arith, le, e.slot_le))
