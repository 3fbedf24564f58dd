-- ===== src/Mirror/Memory.antt =====
-- The tables of the mirror as lists in memory: that the laws of their interfaces can hold.
mod Cursor
pub use Cursor.{memory_cursor}
use tagwise_identity_protoco.Prelude.{
  ℕ, Text, codes, Bool, true, false, List, [], ◌∷◌, Option, none, some, In, Any, ◌≡◌, refl, ap, sym,
  ◌∙◌, ◌↔◌, ◌≢◌, inl, inr, text_eq, text_eq_iff, text_eq_refl, Bool-cases, if◌then◌else◌, arith,
  length, filter, In-filter,
}
use tagwise_identity_protoco.Mirror.{
  Identity, IdentityUpdate, IdentityCreate, written, created_row, IdentityTable, CursorTable,
}

unfoldable pub find : List Identity → Text → Option Identity
find [] t = none
find (row ∷ rows) t = if text_eq row.tag t then some row else find rows t

unfoldable pub update :
    Text → (Identity → Bool) → IdentityUpdate → List Identity → ℕ × List Identity
update t p u [] = (0, [])
update t p u (row ∷ rows) =
    let rest = update t p u rows in
    if text_eq row.tag t
    then if p row then (1, written u row ∷ rows) else (0, row ∷ rows)
    else (rest.0, row ∷ rest.1)

unfoldable pub fresh : List Identity → Text × ℕ
fresh rows = (codes "id", length rows)

unfoldable pub create : IdentityCreate → List Identity → Option (List Identity)
unfolding find fresh
create given rows = elim (find rows given.tag) [
  | none ↦ some (created_row (fresh rows) given ∷ rows)
  | some _ ↦ none
]

unfoldable pub without : Text → List Identity → List Identity
without t [] = []
without t (row ∷ rows) = if text_eq row.tag t then without t rows else row ∷ without t rows

unfoldable pub visible : List Identity → List Identity
unfolding without
visible [] = []
visible (row ∷ rows) = row ∷ without row.tag (visible rows)

text_eq-false : (s t : Text) → text_eq s t ≡ false → s ≢ t
text_eq-false s t h e = absurd (cc (h, (text_eq_iff s t).1 e))

false_of_≢ : (s t : Text) → s ≢ t → text_eq s t ≡ false
false_of_≢ s t h = elim (Bool-cases (text_eq s t)) [
  | inl e ↦ absurd (h ((text_eq_iff s t).0 e))
  | inr e ↦ e
]

pub find-tag : (s : List Identity) (t : Text) (row : Identity) → find s t ≡ some row → row.tag ≡ t
unfolding find
find-tag [] t row h = absurd (cc h)
find-tag (x ∷ xs) t row h = elim (Bool-cases (text_eq x.tag t)) [
  | inl e ↦
      let same : x ≡ row = ground (arith, h, e) in
      sym (ap (λ (r : Identity). r.tag) same) ∙ (text_eq_iff _ _).0 e
  | inr e ↦ find-tag xs t row (ground (arith, h, e))
]

pub update-match :
    (t : Text) (p : Identity → Bool) (u : IdentityUpdate) (s : List Identity) (row : Identity)
    → find s t ≡ some row
    → p row ≡ true
    → ((update t p u s).0 ≡ 1) × (find (update t p u s).1 t ≡ some (written u row))
unfolding find update
update-match t p u [] row h k = absurd (cc h)
update-match t p u (x ∷ xs) row h k = elim (Bool-cases (text_eq x.tag t)) [
  | inl e ↦
      let same : x ≡ row = ground (arith, h, e) in
      let hit : p x ≡ true = ap p same ∙ k in
      let new : some (written u x) ≡ some (written u row) =
        ap (λ (r : Identity). some (written u r)) same in
      (ground (arith, e, hit), ground (arith, e, hit, new))
  | inr e ↦
      let (count, found) = update-match t p u xs row (ground (arith, h, e)) k in
      (ground (arith, e, count), ground (arith, e, found))
]

pub update-miss :
    (t : Text) (p : Identity → Bool) (u : IdentityUpdate) (s : List Identity)
    → ((row : Identity) → find s t ≡ some row → p row ≡ false)
    → ((update t p u s).0 ≡ 0) × ((update t p u s).1 ≡ s)
unfolding find update
update-miss t p u [] h = (refl, refl)
update-miss t p u (x ∷ xs) h = elim (Bool-cases (text_eq x.tag t)) [
  | inl e ↦ let no = h x (ground (arith, e)) in (ground (arith, e, no), ground (arith, e, no))
  | inr e ↦
      let (count, same) = update-miss t p u xs (λ row k. h row (ground (arith, e, k))) in
      (ground (arith, e, count), ground (arith, e, same))
]

pub update-other :
    (t : Text) (p : Identity → Bool) (u : IdentityUpdate) (s : List Identity) (other : Text)
    → other ≢ t
    → find (update t p u s).1 other ≡ find s other
unfolding find update
update-other t p u [] other h = refl
update-other t p u (x ∷ xs) other h = elim (Bool-cases (text_eq x.tag t)) [
  | inl e ↦
      let differ = false_of_≢ x.tag other (λ k. h (sym k ∙ (text_eq_iff _ _).0 e)) in
      ground (arith, e, differ)
  | inr e ↦ ground (arith, e, update-other t p u xs other h)
]

unfoldable pub update_one :
    Text → IdentityUpdate → List Identity → Option (Identity × List Identity)
unfolding find update
update_one t u rows = elim (find rows t) [
  | none ↦ none
  | some row ↦ some (written u row, (update t (λ _. true) u rows).1)
]

pub update-one :
    (t : Text) (u : IdentityUpdate) (s : List Identity) (row : Identity)
    → find s t ≡ some row
    → (s' : List Identity) × (update_one t u s ≡ some (written u row, s'))
      × (find s' t ≡ some (written u row))
      × ((other : Text) → other ≢ t → find s' other ≡ find s other)
unfolding update_one
update-one t u s row h = (
  (update t (λ _. true) u s).1,
  ground (arith, h),
  (update-match t (λ _. true) u s row h refl).1,
  λ other k. update-other t (λ _. true) u s other k,
)

pub create-fresh :
    (given : IdentityCreate) (s : List Identity)
    → find s given.tag ≡ none
    → (s' : List Identity) × (create given s ≡ some s')
      × (find s' given.tag ≡ some (created_row (fresh s) given))
      × ((other : Text) → other ≢ given.tag → find s' other ≡ find s other)
unfolding find create
create-fresh given s h = (
  created_row (fresh s) given ∷ s,
  ground (arith, h),
  ground (arith, text_eq_refl given.tag),
  λ other k. ground (arith, false_of_≢ given.tag other (λ e. k (sym e))),
)

without-In :
    (t : Text) (s : List Identity) (row : Identity)
    → In row (without t s) ↔ (In row s × (row.tag ≢ t))
unfolding without
without-In t [] row = (λ h. elim h [ ], λ (h, _). elim h [ ])
without-In t (x ∷ xs) row = split (without-In t xs row) (text_eq x.tag t) refl
  where
    differs : text_eq x.tag t ≡ false → x ≡ row → row.tag ≢ t
    differs h e k = text_eq-false _ _ h (ap (λ (r : Identity). r.tag) e ∙ k)

    split :
        (In row (without t xs) ↔ (In row xs × (row.tag ≢ t)))
        → (b : Bool) → text_eq x.tag t ≡ b
        → In row (if b then without t xs else x ∷ without t xs) ↔ (In row (x ∷ xs) × (row.tag ≢ t))
    split ih true h = (
      λ k. let (at, differ) = ih.0 k in (Any.there at, differ),
      λ (at, differ). elim at [
        | Any.here e ↦
            absurd (differ (sym (ap (λ (r : Identity). r.tag) e) ∙ (text_eq_iff _ _).0 h))
        | Any.there k ↦ ih.1 (k, differ)
      ],
    )
    split ih false h = (
      λ at. elim at [
        | Any.here e ↦ (Any.here e, differs h e)
        | Any.there k ↦ let (inside, differ) = ih.0 k in (Any.there inside, differ)
      ],
      λ (at, differ). elim at [
        | Any.here e ↦ Any.here e
        | Any.there k ↦ Any.there (ih.1 (k, differ))
      ],
    )

pub visible-In :
    (s : List Identity) (row : Identity) → In row (visible s) ↔ (find s row.tag ≡ some row)
unfolding visible find
visible-In [] row = (λ h. elim h [ ], λ h. absurd (cc h))
visible-In (x ∷ xs) row = split (visible-In xs row) (text_eq x.tag row.tag) refl
  where
    split :
        (In row (visible xs) ↔ (find xs row.tag ≡ some row))
        → (b : Bool) → text_eq x.tag row.tag ≡ b
        → In row (x ∷ without x.tag (visible xs))
          ↔ ((if b then some x else find xs row.tag) ≡ some row)
    split ih true h = (
      λ at. elim at [
        | Any.here e ↦ ap some e
        | Any.there k ↦
            absurd (((without-In x.tag (visible xs) row).0 k).1 (sym ((text_eq_iff _ _).0 h)))
      ],
      λ e. Any.here (cc e),
    )
    split ih false h = (
      λ at. elim at [
        | Any.here e ↦ absurd (text_eq-false _ _ h (ap (λ (r : Identity). r.tag) e))
        | Any.there k ↦ ih.0 (((without-In x.tag (visible xs) row).0 k).0)
      ],
      λ e.
          Any.there
            ((without-In x.tag (visible xs) row).1 (ih.1 e, λ k. text_eq-false _ _ h (sym k))),
    )

abbrev pub memory : IdentityTable
memory = record {
  Table = List Identity;
  find_unique = find;
  update_many = update;
  create = create;
  update = update_one;
  find_many = λ p s. filter p (visible s);
  fresh = fresh;
  find_unique-tag = find-tag;
  update_many-match = update-match;
  update_many-miss = update-miss;
  update_many-other = update-other;
  create-absent = create-fresh;
  update-found = update-one;
  find_many-In = λ p s row. (
    λ h. let (v, k) = (In-filter p row (visible s)).0 h in ((visible-In s row).0 v, k),
    λ (h, k). (In-filter p row (visible s)).1 ((visible-In s row).1 h, k),
  );
}
