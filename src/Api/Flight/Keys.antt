-- ===== src/Api/Flight/Keys.antt =====
-- The map of lookups in flight: its keys and numbers are different from one another.
use tagwise_identity_protoco.Prelude.{
  ℕ, suc, ◌+◌, Text, Bool, true, false, not, List, [], ◌∷◌, none, some, In, here, there, All,
  In-of_All, filter, put_if, length, text_eq, text_eq_iff, ◌≡◌, ◌≢◌, ap, sym, ◌∙◌, arith, inl, inr,
  Bool-cases,
}
use tagwise_identity_protoco.Api.Flight.{flight_of}

pub flight_of-some :
    (key : Text) (l : List (Text × ℕ)) {g : ℕ} → flight_of key l ≡ some g → In (key, g) l
unfolding flight_of
flight_of-some key [] h = absurd (cc h)
flight_of-some key ((k, f) ∷ l) {g} h = elim (Bool-cases (text_eq k key)) [
  | inl e ↦
      let same : f ≡ g = ground (arith, h, e) in
      here (ap (λ (t : Text). (t, f)) ((text_eq_iff k key).0 e) ∙ ap (λ (n : ℕ). (key, n)) same)
  | inr e ↦ there (flight_of-some key l (ground (arith, h, e)))
]

pub flight_of-none :
    (key : Text) (l : List (Text × ℕ)) → flight_of key l ≡ none → All (λ x. x.0 ≢ key) l
unfolding flight_of
flight_of-none key [] h = tt
flight_of-none key ((k, f) ∷ l) h = elim (Bool-cases (text_eq k key)) [
  | inl e ↦ absurd (ground (arith, h, e))
  | inr e ↦ (
    λ same. absurd (cc (e, (text_eq_iff k key).1 same)),
    flight_of-none key l (ground (arith, h, e)),
  )
]

-- Keys and numbers are different from one another.
abbrev pub Apart : List (Text × ℕ) → Type 0
Apart [] = Unit {0}
Apart (x ∷ l) = All (λ y. (y.0 ≢ x.0) × (y.1 ≢ x.1)) l × Apart l

pub same_key :
    (l : List (Text × ℕ)) {x y : Text × ℕ} → Apart l → In x l → In y l → x.0 ≡ y.0 → x.1 ≡ y.1
same_key [] a h k e = elim h [ ]
same_key (z ∷ l) a (here p) (here q) e = ap (λ (t : Text × ℕ). t.1) (sym p ∙ q)
same_key (z ∷ l) {x} {y} a (here p) (there k) e = absurd (
    (In-of_All (λ t. (t.0 ≢ z.0) × (t.1 ≢ z.1)) l a.0 k).0
      (sym e ∙ ap (λ (t : Text × ℕ). t.0) (sym p)))
same_key (z ∷ l) a (there h) (here q) e = absurd (
    (In-of_All (λ t. (t.0 ≢ z.0) × (t.1 ≢ z.1)) l a.0 h).0 (e ∙ ap (λ (t : Text × ℕ). t.0) (sym q)))
same_key (z ∷ l) a (there h) (there k) e = same_key l a.1 h k e

pub same_flight :
    (l : List (Text × ℕ)) {x y : Text × ℕ} → Apart l → In x l → In y l → x.1 ≡ y.1 → x.0 ≡ y.0
same_flight [] a h k e = elim h [ ]
same_flight (z ∷ l) a (here p) (here q) e = ap (λ (t : Text × ℕ). t.0) (sym p ∙ q)
same_flight (z ∷ l) a (here p) (there k) e = absurd (
    (In-of_All (λ t. (t.0 ≢ z.0) × (t.1 ≢ z.1)) l a.0 k).1
      (sym e ∙ ap (λ (t : Text × ℕ). t.1) (sym p)))
same_flight (z ∷ l) a (there h) (here q) e = absurd (
    (In-of_All (λ t. (t.0 ≢ z.0) × (t.1 ≢ z.1)) l a.0 h).1 (e ∙ ap (λ (t : Text × ℕ). t.1) (sym q)))
same_flight (z ∷ l) a (there h) (there k) e = same_flight l a.1 h k e

put_if-All {ℓ} :
    {A : Type ℓ} (P : A → Type 0) (b : Bool) (x : A) (xs : List A)
    → P x
    → All P xs
    → All P (put_if b x xs)
put_if-All P true x xs h hs = (h, hs)
put_if-All P false x xs h hs = hs

pub filter-All {ℓ} :
    {A : Type ℓ} (P : A → Type 0) (p : A → Bool) (xs : List A) → All P xs → All P (filter p xs)
filter-All P p [] h = tt
filter-All P p (x ∷ xs) (h, hs) = put_if-All P (p x) x (filter p xs) h (filter-All P p xs hs)

put_if-Apart :
    (b : Bool) (x : Text × ℕ) (l : List (Text × ℕ)) → Apart (x ∷ l) → Apart (put_if b x l)
put_if-Apart true x l h = h
put_if-Apart false x l h = h.1

pub filter-Apart : (p : Text × ℕ → Bool) (l : List (Text × ℕ)) → Apart l → Apart (filter p l)
filter-Apart p [] h = tt
filter-Apart p (x ∷ l) (h, hs) =
    put_if-Apart (p x) x (filter p l)
      (filter-All (λ y. (y.0 ≢ x.0) × (y.1 ≢ x.1)) p l h, filter-Apart p l hs)

split_if {ℓ} :
    {A : Type ℓ} (b : Bool) (x : A) (xs ys : List A)
    → length (put_if b x xs) + length (put_if (not b) x ys) ≡ suc (length xs + length ys)
split_if true x xs ys = omega arith
split_if false x xs ys = omega arith

pub split_length {ℓ} :
    {A : Type ℓ} (p : A → Bool) (xs : List A)
    → length (filter p xs) + length (filter (λ x. not (p x)) xs) ≡ length xs
split_length p [] = omega arith
split_length p (x ∷ xs) =
    split_if (p x) x (filter p xs) (filter (λ y. not (p y)) xs) ∙ ap suc (split_length p xs)
