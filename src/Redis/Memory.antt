-- ===== src/Redis/Memory.antt =====
-- A Redis server in memory that answers while it is up: that the laws of the interface can hold.
use tagwise_identity_protoco.Prelude.{
  ℕ, Text, Bool, true, false, List, [], ◌∷◌, Option, none, some, ◌≡◌, ◌≢◌, refl, sym, subst, ◌∙◌,
  arith, text_eq, text_eq_iff, text_eq_refl, Bool-cases, inl, inr, if◌then◌else◌,
}
use tagwise_identity_protoco.Redis.{Redis}

abbrev pub Entries : Type 0
Entries = List (Text × Text)

unfoldable pub lookup : Entries → Text → Option Text
lookup [] k = none
lookup (e ∷ es) k = if text_eq e.0 k then some e.1 else lookup es k

unfoldable pub remove : Text → Entries → Entries
remove k [] = []
remove k (e ∷ es) = if text_eq e.0 k then remove k es else e ∷ remove k es

lookup-remove : (k : Text) (es : Entries) → lookup (remove k es) k ≡ none
unfolding lookup remove
lookup-remove k [] = refl
lookup-remove k (e ∷ es) = ground (arith, lookup-remove k es)

lookup-remove_other :
    (k other : Text) (es : Entries) → other ≢ k → lookup (remove k es) other ≡ lookup es other
unfolding lookup remove
lookup-remove_other k other [] h = refl
lookup-remove_other k other (e ∷ es) h = elim (Bool-cases (text_eq e.0 k)) [
  | inl hit ↦
      let no_other = differ e.0 (λ x. h (sym x ∙ (text_eq_iff _ _).0 hit)) in
      ground (arith, hit, no_other, lookup-remove_other k other es h)
  | inr miss ↦ ground (arith, miss, lookup-remove_other k other es h)
]
  where
    differ : (x : Text) → x ≢ other → text_eq x other ≡ false
    differ x n = elim (Bool-cases (text_eq x other)) [
      | inl e ↦ absurd (n ((text_eq_iff _ _).0 e))
      | inr e ↦ e
    ]

-- What a write of the key leaves, for every key.
abbrev pub Wrote : Text → Option Text → Entries → Bool × Entries → Type 0
Wrote k v es s =
    (lookup s.1 k ≡ v) × ((other : Text) → other ≢ k → lookup s.1 other ≡ lookup es other)

set-Wrote : (k v : Text) (up : Bool) (es : Entries) → Wrote k (some v) es (up, (k, v) ∷ es)
unfolding lookup
set-Wrote k v up es =
    (ground (arith, text_eq_refl k), λ other h. ground (arith, differ other (λ e. h (sym e))))
  where
    differ : (other : Text) → k ≢ other → text_eq k other ≡ false
    differ other n = elim (Bool-cases (text_eq k other)) [
      | inl e ↦ absurd (n ((text_eq_iff _ _).0 e))
      | inr e ↦ e
    ]

unfoldable pub set_ex : Text → Text → ℕ → Bool × Entries → Option (Bool × Entries)
set_ex k v ttl (true, es) = some (true, (k, v) ∷ es)
set_ex k v ttl (false, es) = none

unfoldable pub del : Text → Bool × Entries → Option (Bool × Entries)
del k (true, es) = some (true, remove k es)
del k (false, es) = none

unfoldable pub getdel : Text → Bool × Entries → Option (Option Text × (Bool × Entries))
getdel k (true, es) = some (lookup es k, (true, remove k es))
getdel k (false, es) = none

unfoldable pub get : Text → Bool × Entries → Option (Option Text)
get k (true, es) = some (lookup es k)
get k (false, es) = none

pub get-read :
    (k : Text) (s : Bool × Entries) {v : Option Text} → get k s ≡ some v → v ≡ lookup s.1 k
unfolding get
get-read k (true, es) h = cc
get-read k (false, es) h = absurd (cc h)

pub set-read :
    (k v : Text) (ttl : ℕ) (s : Bool × Entries) {s' : Bool × Entries}
    → set_ex k v ttl s ≡ some s'
    → Wrote k (some v) s.1 s'
unfolding set_ex
set-read k v ttl (true, es) {s'} h =
    let same : (true, (k, v) ∷ es) ≡ s' = cc h in
    subst (Wrote k (some v) es) same (set-Wrote k v true es)
set-read k v ttl (false, es) h = absurd (cc h)

pub del-read :
    (k : Text) (s : Bool × Entries) {s' : Bool × Entries} → del k s ≡ some s' → Wrote k none s.1 s'
unfolding del
del-read k (true, es) {s'} h =
    let same : (true, remove k es) ≡ s' = cc h in
    subst (Wrote k none es) same (lookup-remove k es, λ other n. lookup-remove_other k other es n)
del-read k (false, es) h = absurd (cc h)

pub getdel-read :
    (k : Text) (s : Bool × Entries) {v : Option Text} {s' : Bool × Entries}
    → getdel k s ≡ some (v, s')
    → (v ≡ lookup s.1 k) × Wrote k none s.1 s'
unfolding getdel
getdel-read k (true, es) {v} {s'} h =
    let same : (true, remove k es) ≡ s' = cc h in
    (
      cc h,
      subst (Wrote k none es) same
          (lookup-remove k es, λ other n. lookup-remove_other k other es n),
    )
getdel-read k (false, es) h = absurd (cc h)

abbrev pub memory : Redis
memory = record {
  Store = Bool × Entries;
  read = λ s k. lookup s.1 k;
  get = get;
  set_ex = set_ex;
  del = del;
  getdel = getdel;
  get_read = λ k s h. get-read k s h;
  set_ex_read = λ k v ttl s h. set-read k v ttl s h;
  del_read = λ k s h. del-read k s h;
  getdel_read = λ k s h. let (a, b) = getdel-read k s h in (a, b.0, b.1);
}
