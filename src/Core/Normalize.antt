-- ===== src/Core/Normalize.antt =====
-- packages/core/src/normalize.ts: the canonical form of a tag. A string is a list of UTF-16 code
-- units, and `toLowerCase` is the parameter `u`.
pub mod Laws
use tagwise_identity_protoco.Prelude.{
  ℕ, Text, CaseMap, Bool, true, false, [], ◌∷◌, ◌==◌, ltb, any, length, drop, if◌then◌else◌,
}
use tagwise_identity_protoco.Core.Constants.{min_tag_length, max_tag_length, matches_allowed}

pub data TagRejectionReason : Type 0 where
  empty bad_at too_short too_long invalid_char : TagRejectionReason

pub data NormalizeTagResult : Type 0 where
  accepted : Text → NormalizeTagResult
  rejected : TagRejectionReason → NormalizeTagResult

abbrev pub is_at : ℕ → Bool
is_at c = c == b'@'

-- `raw[0] === "@" ? raw.slice(1) : raw`
unfoldable pub strip_at : Text → Text
strip_at [] = []
strip_at (c ∷ rest) = if is_at c then rest else c ∷ rest

-- The tests on the lowered text.
unfoldable pub check_lowered : Text → NormalizeTagResult
check_lowered lowered =
    if length lowered == 0
    then rejected empty
    else if ltb (length lowered) min_tag_length
    then rejected too_short
    else if ltb max_tag_length (length lowered)
    then rejected too_long
    else if matches_allowed lowered
    then accepted lowered
    else rejected invalid_char

unfoldable pub normalize_tag : CaseMap → Text → NormalizeTagResult
unfolding strip_at check_lowered
normalize_tag u raw =
    if length raw == 0
    then rejected empty
    else if any is_at (drop 1 raw)
    then rejected bad_at
    else check_lowered (u.lower (strip_at raw))

unfoldable pub is_valid_tag : CaseMap → Text → Bool
unfolding normalize_tag
is_valid_tag u raw = elim (normalize_tag u raw) [ accepted _ ↦ true | rejected _ ↦ false ]
