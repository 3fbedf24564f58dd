-- ===== src/Moderation/Leetspeak.antt =====
-- packages/moderation/src/leetspeak.ts. The regular expressions and `Set` are written out over code
-- units; a character outside the table has one option, so it does not matter that `for … of` takes
-- the two units of a surrogate pair together.
pub mod Expand
pub mod Complete
use tagwise_identity_protoco.Prelude.{
  ℕ, Text, CaseMap, Bool, true, false, not, List, [], ◌∷◌, ◌++◌, ◌&&◌, ◌||◌, ◌==◌, leb, length, map,
  member, Option, none, some, if◌then◌else◌,
}

unfoldable pub leetspeak_substitutions : ℕ → Option (List ℕ)
leetspeak_substitutions c =
    if c == b'0'
    then some (b'o' ∷ [])
    else if c == b'1'
    then some (b'i' ∷ b'l' ∷ [])
    else if c == b'2'
    then some (b'z' ∷ [])
    else if c == b'3'
    then some (b'e' ∷ [])
    else if c == b'4'
    then some (b'a' ∷ [])
    else if c == b'5'
    then some (b's' ∷ [])
    else if c == b'6'
    then some (b'g' ∷ [])
    else if c == b'7'
    then some (b't' ∷ [])
    else if c == b'8'
    then some (b'b' ∷ [])
    else if c == b'9'
    then some (b'g' ∷ [])
    else none

abbrev pub max_variants : ℕ
max_variants = 4096

unfoldable pub options_of : ℕ → List ℕ
unfolding leetspeak_substitutions
options_of c = elim (leetspeak_substitutions c) [ none ↦ c ∷ [] | some options ↦ options ]

-- `replace(/_/g, "")`
unfoldable pub strip_underscores : Text → Text
strip_underscores [] = []
strip_underscores (c ∷ t) = let rest = strip_underscores t in if c == b'_' then rest else c ∷ rest

-- The inner loop over the options of one character: it breaks once `next` is full.
unfoldable pub push_options : ℕ → Text → List ℕ → List Text → List Text
push_options cap variant [] next = next
push_options cap variant (option ∷ options) next =
    let next' = next ++ (variant ++ option ∷ []) ∷ [] in
    let rest = push_options cap variant options next' in
    if leb cap (length next') then next' else rest

-- The loop over the variants so far: it breaks too.
unfoldable pub push_variants : ℕ → List ℕ → List Text → List Text → List Text
unfolding push_options
push_variants cap options [] next = next
push_variants cap options (variant ∷ variants) next =
    let next' = push_options cap variant options next in
    let rest = push_variants cap options variants next' in
    if leb cap (length next') then next' else rest

-- The loop over the characters.
unfoldable pub expand : ℕ → Text → List Text → List Text
unfolding push_variants options_of
expand cap [] variants = variants
expand cap (char ∷ chars) variants =
    expand cap chars (push_variants cap (options_of char) variants [])

-- `.` of a regular expression matches no line terminator.
unfoldable pub is_line_terminator : ℕ → Bool
is_line_terminator c = c == 10 || c == 13 || c == 0x2028 || c == 0x2029

unfoldable pub begins_with : ℕ → Text → Bool
begins_with c [] = false
begins_with c (d ∷ t) = c == d

-- `replace(/(.)\1+/g, "$1")`
unfoldable pub collapse : Text → Text
unfolding is_line_terminator begins_with
collapse [] = []
collapse (c ∷ t) =
    let rest = collapse t in
    if begins_with c t && not (is_line_terminator c) then rest else c ∷ rest

-- `Array.from(new Set(…))`: each string once, at its first place.
unfoldable pub dedup : List Text → List Text → List Text
dedup seen [] = []
dedup seen (t ∷ ts) =
    let old = dedup seen ts in
    let new = t ∷ dedup (t ∷ seen) ts in if member t seen then old else new

unfoldable pub prepare : CaseMap → Text → Text
unfolding strip_underscores
prepare u tag = strip_underscores (u.lower tag)

unfoldable pub generate_profanity_check_variants : CaseMap → Text → List Text
unfolding prepare expand collapse dedup
generate_profanity_check_variants u tag =
    dedup [] (map collapse (expand max_variants (prepare u tag) ([] ∷ [])))
