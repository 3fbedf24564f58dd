-- ===== src/Prelude/Strings.antt =====
-- A JavaScript string as the list of its UTF-16 code units, with the string methods that the
-- program calls.
use Prim.Native.Nat.{ℕ, ◌+◌, ◌<◌}
use Prim.Native.Char.{code}
use Prim.Native.String.{String}
use mathlib.Core.Path.{◌≡◌, refl}
use mathlib.Core.Bool.{Bool, true, false, ◌&&◌, ◌||◌}
use mathlib.Core.Logic.{◌↔◌, inl, inr}
use mathlib.Core.Option.{Option, none, some}
use mathlib.Core.List.{List, [], ◌∷◌, ◌++◌, map, reverse}
use native.Mathlib.Omega.{arith}
use tagwise_identity_protoco.Prelude.Tests.{leb, ◌==◌, if◌then◌else◌, Bool-cases}
use tagwise_identity_protoco.Prelude.Lists.{All, In, here, there}

abbrev pub Text : Type 0
Text = List ℕ

-- The code units of a literal with ASCII characters only.
abbrev pub codes : String → Text
codes String.[] = []
codes (String.◌∷◌ c s) = code c ∷ codes s

-- `===` on strings
unfoldable pub text_eq : Text → Text → Bool
text_eq [] [] = true
text_eq (x ∷ xs) (y ∷ ys) = x == y && text_eq xs ys
text_eq _ _ = false

pub text_eq_iff : (s t : Text) → (text_eq s t ≡ true) ↔ (s ≡ t)
unfolding text_eq
text_eq_iff [] [] = (λ _. refl, λ _. refl)
text_eq_iff [] (y ∷ ys) = (λ h. cc, λ h. cc)
text_eq_iff (x ∷ xs) [] = (λ h. cc, λ h. cc)
text_eq_iff (x ∷ xs) (y ∷ ys) =
    (λ h. ground (arith, text_eq_iff xs ys), λ h. ground (arith, text_eq_iff xs ys))

pub text_eq_refl : (s : Text) → text_eq s s ≡ true
text_eq_refl s = (text_eq_iff s s).1 refl

-- `startsWith` and `includes`
unfoldable pub starts_with : Text → Text → Bool
starts_with s [] = true
starts_with [] (y ∷ ys) = false
starts_with (x ∷ xs) (y ∷ ys) = x == y && starts_with xs ys

unfoldable pub includes : Text → Text → Bool
unfolding starts_with
includes [] t = starts_with [] t
includes (x ∷ xs) t = starts_with (x ∷ xs) t || includes xs t

pub starts_with-append : (s t : Text) → starts_with (s ++ t) s ≡ true
unfolding starts_with
starts_with-append [] t = refl
starts_with-append (x ∷ xs) t = ground (arith, starts_with-append xs t)

-- A set of strings, by its members in order.
unfoldable pub member : Text → List Text → Bool
member t [] = false
member t (s ∷ ss) = text_eq s t || member t ss

abbrev pub IsAscii : Text → Type 0
IsAscii = All (λ c. c < 128)

-- Lower case of an ASCII code unit.
unfoldable pub lower_unit : ℕ → ℕ
lower_unit c = if leb b'A' c && leb c b'Z' then c + 32 else c

-- `toLowerCase`. Its Unicode tables are data that the repository does not hold: the function is a
-- parameter, with what ECMAScript fixes on ASCII text.
pub record CaseMap : Type 0 where
  pub lower : Text → Text
  pub lower_ascii : (s : Text) → IsAscii s → lower s ≡ map lower_unit s

pub member_of_In : (t : Text) {ts : List Text} → In t ts → member t ts ≡ true
unfolding member
member_of_In t (here {x = s} e) = ground (arith, (text_eq_iff s t).1 e)
member_of_In t (there h) = ground (arith, member_of_In t h)

pub In-of_member : (t : Text) (ts : List Text) → member t ts ≡ true → In t ts
unfolding member
In-of_member t [] h = cc
In-of_member t (s ∷ ss) h = elim (Bool-cases (text_eq s t)) [
  | inl e ↦ here ((text_eq_iff s t).0 e)
  | inr e ↦ there (In-of_member t ss (ground (arith, h, e)))
]

pub member_iff : (t : Text) (ts : List Text) → (member t ts ≡ true) ↔ In t ts
member_iff t ts = (In-of_member t ts, member_of_In t)

-- A text that is given and not empty, which is what a test of a text that may be missing asks for.
unfoldable pub truthy : Option Text → Option Text
truthy none = none
truthy (some []) = none
truthy (some (c ∷ t)) = some (c ∷ t)

-- `trim`: the white space and the line terminators of ECMAScript.
abbrev pub is_white_space : ℕ → Bool
is_white_space c =
    (leb 9 c && leb c 13)
    || (c == 32)
    || (c == 160)
    || (c == 0x1680)
    || (leb 0x2000 c && leb c 0x200a)
    || (c == 0x2028)
    || (c == 0x2029)
    || (c == 0x202f)
    || (c == 0x205f)
    || (c == 0x3000)
    || (c == 0xfeff)

unfoldable pub trim_start : Text → Text
trim_start [] = []
trim_start (c ∷ t) = if is_white_space c then trim_start t else c ∷ t

unfoldable pub trim : Text → Text
unfolding trim_start
trim t = reverse (trim_start (reverse (trim_start t)))
