-- ===== src/Prelude/Sort.antt =====
-- `filter`, and `sort` with a comparison: a stable sort, which is what ECMAScript asks for.
use Prim.Native.Nat.{ℕ, zero, suc}
use mathlib.Core.Path.{◌≡◌, refl, ap, subst, ◌∙◌}
use mathlib.Core.Bool.{Bool, true, false}
use mathlib.Core.Logic.{◌↔◌, ◌⊎◌, inl, inr}
use mathlib.Core.List.{List, [], ◌∷◌}
use tagwise_identity_protoco.Prelude.Lists.{All, In, here, there, length, take}

abbrev pub put_if {ℓ} : {A : Type ℓ} → Bool → A → List A → List A
put_if true x xs = x ∷ xs
put_if false x xs = xs

module _ {ℓ} {A : Type ℓ} where
  In-put_if_inv :
      {a x : A} (b : Bool) (xs : List A) → In a (put_if b x xs) → ((x ≡ a) × (b ≡ true)) ⊎ In a xs
  In-put_if_inv true xs (here e) = inl (e, refl)
  In-put_if_inv true xs (there h) = inr h
  In-put_if_inv false xs h = inr h

  In-put_if_there : {a : A} (x : A) (b : Bool) (xs : List A) → In a xs → In a (put_if b x xs)
  In-put_if_there x true xs h = there h
  In-put_if_there x false xs h = h

  In-put_if_here : {a x : A} (b : Bool) (xs : List A) → x ≡ a → b ≡ true → In a (put_if b x xs)
  In-put_if_here true xs e h = here e
  In-put_if_here false xs e h = absurd (cc h)

module _ {ℓ} {A : Type ℓ} (p : A → Bool) where
  abbrev pub filter : List A → List A
  filter [] = []
  filter (x ∷ xs) = put_if (p x) x (filter xs)

  filter_inv : {a : A} (xs : List A) → In a (filter xs) → In a xs × (p a ≡ true)
  filter_inv [] h = elim h [ ]
  filter_inv {a} (x ∷ xs) h = elim (In-put_if_inv (p x) (filter xs) h) [
    | inl (e, t) ↦ (here e, subst (λ (y : A). p y ≡ true) e t)
    | inr k ↦ let (more, t) = filter_inv xs k in (there more, t)
  ]

  filter_of : {a : A} {xs : List A} → In a xs → p a ≡ true → In a (filter xs)
  filter_of (here {x} {xs} e) t = In-put_if_here (p x) (filter xs) e (ap p e ∙ t)
  filter_of (there {x} {xs} h) t = In-put_if_there x (p x) (filter xs) (filter_of h t)

  pub In-filter : (a : A) (xs : List A) → In a (filter xs) ↔ (In a xs × (p a ≡ true))
  In-filter a xs = (filter_inv xs, λ (h, t). filter_of h t)

module _ {ℓ} {A : Type ℓ} where
  pub In-take : {a : A} (n : ℕ) (xs : List A) → In a (take n xs) → In a xs
  In-take zero xs h = elim h [ ]
  In-take (suc n) [] h = elim h [ ]
  In-take (suc n) (x ∷ xs) (here e) = here e
  In-take (suc n) (x ∷ xs) (there h) = there (In-take n xs h)

-- `before x y`: the comparison of `x` with `y` is not positive.
module _ {ℓ} {A : Type ℓ} where
  abbrev pub place : Bool → A → A → List A → List A → List A
  place true x y ys rest = x ∷ y ∷ ys
  place false x y ys rest = y ∷ rest

  In-place_inv :
      {a : A} (b : Bool) (x y : A) (ys rest : List A)
      → (In a rest → (x ≡ a) ⊎ In a ys)
      → In a (place b x y ys rest)
      → (x ≡ a) ⊎ In a (y ∷ ys)
  In-place_inv true x y ys rest f (here e) = inl e
  In-place_inv true x y ys rest f (there h) = inr h
  In-place_inv false x y ys rest f (here e) = inr (here e)
  In-place_inv false x y ys rest f (there h) = elim (f h) [ inl e ↦ inl e | inr k ↦ inr (there k) ]

  In-place_of :
      {a : A} (b : Bool) (x y : A) (ys rest : List A)
      → ((x ≡ a) ⊎ In a ys → In a rest)
      → (x ≡ a) ⊎ In a (y ∷ ys)
      → In a (place b x y ys rest)
  In-place_of true x y ys rest f (inl e) = here e
  In-place_of true x y ys rest f (inr h) = there h
  In-place_of false x y ys rest f (inl e) = there (f (inl e))
  In-place_of false x y ys rest f (inr (here e)) = here e
  In-place_of false x y ys rest f (inr (there h)) = there (f (inr h))

  pub All_of_In {κ} : (P : A → Type κ) (xs : List A) → ((a : A) → In a xs → P a) → All P xs
  All_of_In P [] f = tt
  All_of_In P (x ∷ xs) f = (f x (here refl), All_of_In P xs (λ a h. f a (there h)))

  pub In-of_All {κ} : (P : A → Type κ) {a : A} (xs : List A) → All P xs → In a xs → P a
  In-of_All P [] h k = elim k [ ]
  In-of_All P (x ∷ xs) h (here e) = subst P e h.0
  In-of_All P (x ∷ xs) h (there k) = In-of_All P xs h.1 k

module _ {ℓ} {A : Type ℓ} (before : A → A → Bool) where
  abbrev pub insert : A → List A → List A
  insert x [] = x ∷ []
  insert x (y ∷ ys) = place (before x y) x y ys (insert x ys)

  abbrev pub sort : List A → List A
  sort [] = []
  sort (x ∷ xs) = insert x (sort xs)

  abbrev pub IsSorted : List A → Type ℓ
  IsSorted [] = Unit
  IsSorted (x ∷ xs) = All (λ y. before x y ≡ true) xs × IsSorted xs

  insert_inv : {a : A} (x : A) (ys : List A) → In a (insert x ys) → (x ≡ a) ⊎ In a ys
  insert_inv x [] (here e) = inl e
  insert_inv x [] (there h) = inr h
  insert_inv x (y ∷ ys) h = In-place_inv (before x y) x y ys (insert x ys) (insert_inv x ys) h

  insert_of : {a : A} (x : A) (ys : List A) → (x ≡ a) ⊎ In a ys → In a (insert x ys)
  insert_of x [] (inl e) = here e
  insert_of x [] (inr h) = there h
  insert_of x (y ∷ ys) h = In-place_of (before x y) x y ys (insert x ys) (insert_of x ys) h

  sort_inv : {a : A} (xs : List A) → In a (sort xs) → In a xs
  sort_inv [] h = h
  sort_inv (x ∷ xs) h = elim (insert_inv x (sort xs) h) [
    | inl e ↦ here e
    | inr k ↦ there (sort_inv xs k)
  ]

  sort_of : {a : A} {xs : List A} → In a xs → In a (sort xs)
  sort_of (here {x} {xs} e) = insert_of x (sort xs) (inl e)
  sort_of (there {x} {xs} h) = insert_of x (sort xs) (inr (sort_of h))

  pub In-sort : (a : A) (xs : List A) → In a (sort xs) ↔ In a xs
  In-sort a xs = (sort_inv xs, sort_of)

  module _ (total : (x y : A) → before x y ≡ false → before y x ≡ true)
      (trans : (x y z : A) → before x y ≡ true → before y z ≡ true → before x z ≡ true) where
    before_all :
        (x y : A) (ys : List A)
        → before x y ≡ true
        → All (λ z. before y z ≡ true) ys
        → All (λ z. before x z ≡ true) ys
    before_all x y [] e h = tt
    before_all x y (z ∷ ys) e (h, hs) = (trans x y z e h, before_all x y ys e hs)

    place-IsSorted :
        (b : Bool) (x y : A) (ys : List A)
        → before x y ≡ b
        → IsSorted (y ∷ ys)
        → IsSorted (insert x ys)
        → IsSorted (place b x y ys (insert x ys))
    place-IsSorted true x y ys e s rest = ((e, before_all x y ys e s.0), s)
    place-IsSorted false x y ys e s rest = (
      All_of_In (λ z. before y z ≡ true) (insert x ys)
          (λ z h. elim (insert_inv x ys h) [
            | inl same ↦ subst (λ (t : A). before y t ≡ true) same (total x y e)
            | inr k ↦ In-of_All (λ z. before y z ≡ true) ys s.0 k
          ]),
      rest,
    )

    insert-IsSorted : (x : A) (ys : List A) → IsSorted ys → IsSorted (insert x ys)
    insert-IsSorted x [] s = (tt, tt)
    insert-IsSorted x (y ∷ ys) s =
        place-IsSorted (before x y) x y ys refl s (insert-IsSorted x ys s.1)

    pub sort-IsSorted : (xs : List A) → IsSorted (sort xs)
    sort-IsSorted [] = tt
    sort-IsSorted (x ∷ xs) = insert-IsSorted x (sort xs) (sort-IsSorted xs)

    take-All : (n : ℕ) (P : A → Type 0) (xs : List A) → All P xs → All P (take n xs)
    take-All zero P xs h = tt
    take-All (suc n) P [] h = tt
    take-All (suc n) P (x ∷ xs) h = (h.0, take-All n P xs h.1)

    pub take-IsSorted : (n : ℕ) (xs : List A) → IsSorted xs → IsSorted (take n xs)
    take-IsSorted zero xs s = tt
    take-IsSorted (suc n) [] s = tt
    take-IsSorted (suc n) (x ∷ xs) s =
        (take-All n (λ y. before x y ≡ true) xs s.0, take-IsSorted n xs s.1)

    -- What a cut of a sorted list leaves out comes after all that it keeps.
    pub take_best :
        (n : ℕ) (xs : List A) {a : A}
        → IsSorted xs
        → In a xs
        → In a (take n xs) ⊎ ((length (take n xs) ≡ n) × All (λ y. before y a ≡ true) (take n xs))
    take_best zero xs s h = inr (refl, tt)
    take_best (suc n) [] s h = elim h [ ]
    take_best (suc n) (x ∷ xs) s (here e) = inl (here e)
    take_best (suc n) (x ∷ xs) s (there h) = elim (take_best n xs s.1 h) [
      | inl k ↦ inl (there k)
      | inr (full, best) ↦ inr (ap suc full, (In-of_All (λ y. before x y ≡ true) xs s.0 h, best))
    ]
