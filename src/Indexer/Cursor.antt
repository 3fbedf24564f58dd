-- ===== src/Indexer/Cursor.antt =====
-- apps/indexer/src/cursor.ts
use tagwise_identity_protoco.Prelude.{
  ℕ, Bool, false, Option, none, some, ltb, if◌then◌else◌, arith, ◌≡◌, Bool-cases, Option-cases, ◌∙◌,
  ap, inl, inr,
}
use tagwise_identity_protoco.Mirror.{CursorTable}

unfoldable pub create_if_absent : (k : CursorTable) → ℕ → Option ℕ → k.Table → k.Table
create_if_absent k slot (some existing) s = s
create_if_absent k slot none s = k.create slot s

unfoldable pub advance_cursor : (k : CursorTable) → ℕ → k.Table → k.Table
unfolding create_if_absent
advance_cursor k slot s =
    let update_result = k.update_many (λ old. ltb old slot) slot s in
    if ltb 0 update_result.0
    then update_result.1
    else create_if_absent k slot (k.find_unique update_result.1) update_result.1

-- The larger of the stored slot and the new one.
abbrev pub later : Option ℕ → ℕ → ℕ
later none slot = slot
later (some old) slot = if ltb old slot then slot else old

-- The cursor is never moved backward: after a call it stands at the larger of the slot that it held,
-- if any, and the slot given.
pub advance_cursor-later :
    (k : CursorTable) (slot : ℕ) (s : k.Table)
    → k.find_unique (advance_cursor k slot s) ≡ some (later (k.find_unique s) slot)
unfolding advance_cursor
advance_cursor-later k slot s = elim (Option-cases (k.find_unique s)) [
  | inl absent ↦
      let (count, same) = k.update_many-miss before slot s (λ old h. absurd (cc (h, absent))) in
      let found : k.find_unique (k.update_many before slot s).1 ≡ none =
        ap k.find_unique same ∙ absent in
      let made = k.create-absent slot (k.update_many before slot s).1 found in
      ground (arith, count, absent, found, made)
  | inr (old, stored) ↦ elim (Bool-cases (ltb old slot)) [
    | inl lt ↦
        let (count, found) = k.update_many-match before slot s old stored lt in
        ground (arith, count, found, stored, lt)
    | inr ge ↦
        let (count, same) = k.update_many-miss before slot s (λ o h. miss o ge (cc (h, stored))) in
        let found : k.find_unique (k.update_many before slot s).1 ≡ some old =
          ap k.find_unique same ∙ stored in
        ground (arith, count, found, stored, ge)
  ]
]
  where
    before : ℕ → Bool
    before old = ltb old slot

    miss : {old : ℕ} (o : ℕ) → ltb old slot ≡ false → o ≡ old → before o ≡ false
    miss o ge e = ground (arith, ge, e)
