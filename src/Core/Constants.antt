-- ===== src/Core/Constants.antt =====
-- packages/core/src/constants.ts
use tagwise_identity_protoco.Prelude.{ℕ, Text, codes, Bool, ◌&&◌, ◌||◌, not, ◌==◌, leb, all, length}

abbrev pub tag_seed_prefix : Text
tag_seed_prefix = codes "tag"

abbrev pub min_tag_length : ℕ
min_tag_length = 3

abbrev pub max_tag_length : ℕ
max_tag_length = 20

-- One character of the class `[a-z0-9_]`.
unfoldable pub is_tag_unit : ℕ → Bool
is_tag_unit c = (leb b'a' c && leb c b'z') || (leb b'0' c && leb c b'9') || c == b'_'

-- `ALLOWED_TAG_CHARACTERS_PATTERN.test`: one or more such characters, from end to end.
unfoldable pub matches_allowed : Text → Bool
matches_allowed t = not (length t == 0) && all is_tag_unit t

abbrev pub tip_registry_program_id : Text
tip_registry_program_id = codes "4vcgrBuzoWw3kBanVTtx7Pi1v9WyTJBJQsFAQMqjJZjx"
