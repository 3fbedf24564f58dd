-- ===== src/Mirror/Memory/Cursor.antt =====
-- The row of `indexer_state` in memory: that the laws of its interface can hold.
use tagwise_identity_protoco.Prelude.{
  ℕ, Bool, true, false, Option, none, some, ◌≡◌, refl, ap, ◌∙◌, if◌then◌else◌, arith,
}
use tagwise_identity_protoco.Mirror.{CursorTable}

unfoldable pub set_cursor : (ℕ → Bool) → ℕ → Option ℕ → ℕ × Option ℕ
set_cursor p slot none = (0, none)
set_cursor p slot (some old) = if p old then (1, some slot) else (0, some old)

pub set-match :
    (p : ℕ → Bool) (slot : ℕ) (s : Option ℕ) (old : ℕ)
    → s ≡ some old
    → p old ≡ true
    → ((set_cursor p slot s).0 ≡ 1) × ((set_cursor p slot s).1 ≡ some slot)
unfolding set_cursor
set-match p slot none old h k = absurd (cc h)
set-match p slot (some o) old h k =
    let same : o ≡ old = cc h in
    let hit : p o ≡ true = ap p same ∙ k in (ground (arith, hit), ground (arith, hit))

pub set-miss :
    (p : ℕ → Bool) (slot : ℕ) (s : Option ℕ)
    → ((old : ℕ) → s ≡ some old → p old ≡ false)
    → ((set_cursor p slot s).0 ≡ 0) × ((set_cursor p slot s).1 ≡ s)
unfolding set_cursor
set-miss p slot none h = (refl, refl)
set-miss p slot (some o) h =
    let differ = h o refl in (ground (arith, differ), ground (arith, differ))

abbrev pub memory_cursor : CursorTable
memory_cursor = record {
  Table = Option ℕ;
  find_unique = λ s. s;
  update_many = set_cursor;
  create = λ slot s. some slot;
  update_many-match = λ p slot s old h k. set-match p slot s old h k;
  update_many-miss = set-miss;
  create-absent = λ slot s h. refl;
}
