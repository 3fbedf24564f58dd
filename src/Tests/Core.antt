-- ===== src/Tests/Core.antt =====
-- Runs of the theorems on tags, accounts and names.
use tagwise_identity_protoco.Prelude.{
  ◌≤◌, Text, codes, Bool, true, false, [], ◌∷◌, ◌++◌, replicate, some, ok, ◌≡◌, ◌↔◌, ◌⊎◌, refl,
  member, all, text_eq, lower_unit, ltb, arith, IsAscii,
}
use tagwise_identity_protoco.Core.Constants.{matches_allowed, is_tag_unit}
use tagwise_identity_protoco.Core.Normalize.{normalize_tag, accepted}
use tagwise_identity_protoco.Core.Normalize.Laws.{IsCanonical, Spells, normalize_tag_ascii_iff}
use tagwise_identity_protoco.Core.Account.{decode_tag_account}
use tagwise_identity_protoco.Core.Account.Laws.{decoded, decode_reachable}
use tagwise_identity_protoco.Core.Account.Exact.{decode_exact}
use tagwise_identity_protoco.Program.{
  TagState, register_tag, validate_canonical_tag, serialize, update_wallet,
}
use tagwise_identity_protoco.Program.Reach.{validate_iff_normalize_fixed, Stores, Step, Reach}
use tagwise_identity_protoco.Moderation.Leetspeak.{
  generate_profanity_check_variants, prepare, strip_underscores, collapse,
}
use tagwise_identity_protoco.Moderation.Leetspeak.Expand.{count_ones}
use tagwise_identity_protoco.Moderation.Leetspeak.Complete.{Reads, variants_exact}
use tagwise_identity_protoco.Moderation.Profanity.{is_blocked_name, blocked, allowlist}
use tagwise_identity_protoco.Moderation.Profanity.Laws.{total, is_blocked_name_iff}
use tagwise_identity_protoco.Tests.{ascii_case, plain_solana, owner, wallet, alice}

IsAscii-of_small : (t : Text) → all (λ c. ltb c 128) t ≡ true → IsAscii t
IsAscii-of_small [] h = tt
IsAscii-of_small (c ∷ t) h = (ground arith, IsAscii-of_small t (ground arith))

normalize_tag_ascii_iff_example :
    (normalize_tag ascii_case (codes "@ALICE") ≡ accepted alice)
    ↔ (IsCanonical alice × Spells (codes "@ALICE") alice)
normalize_tag_ascii_iff_example =
    normalize_tag_ascii_iff ascii_case (codes "@ALICE") alice
      (IsAscii-of_small (codes "@ALICE") refl)

validate_iff_normalize_fixed_example :
    (validate_canonical_tag alice ≡ ok tt) ↔ (normalize_tag ascii_case alice ≡ accepted alice)
validate_iff_normalize_fixed_example = validate_iff_normalize_fixed ascii_case alice

abbrev pub registered : TagState
registered = record {
  owner = owner;
  wallet = owner;
  tag = alice ++ replicate 15 0;
  tag_len = 5;
  bump = 255;
}

abbrev pub moved : TagState
moved = record registered { wallet = wallet }

pub registers : register_tag alice owner 255 ≡ ok registered
unfolding register_tag validate_canonical_tag is_tag_unit
registers = refl

pub moves : update_wallet owner wallet registered ≡ ok moved
unfolding update_wallet text_eq
moves = refl

decode_reachable_example :
    decode_tag_account ascii_case plain_solana (serialize moved)
    ≡ ok (decoded plain_solana alice moved)
decode_reachable_example =
    decode_reachable ascii_case plain_solana alice owner 255 refl registers
      (Reach.next Reach.start (Step.wallet_updated owner wallet refl moves))

decode_exact_example :
    (a : TagState) × Stores alice a
    × (serialize moved ≡ serialize a)
    × (decoded plain_solana alice moved ≡ decoded plain_solana alice a)
decode_exact_example =
    decode_exact ascii_case plain_solana (serialize moved) decode_reachable_example

pub alice_normal : normalize_tag ascii_case (codes "@Alice") ≡ accepted alice
unfolding normalize_tag lower_unit matches_allowed is_tag_unit
alice_normal = refl

few_ones : count_ones (prepare ascii_case (codes "b4d")) ≤ 12
unfolding count_ones prepare strip_underscores lower_unit
few_ones = omega arith

variants_exact_example :
    (member (codes "bad") (generate_profanity_check_variants ascii_case (codes "b4d")) ≡ true)
    ↔ ((v : Text) × Reads (prepare ascii_case (codes "b4d")) v × (codes "bad" ≡ collapse v))
variants_exact_example = variants_exact ascii_case (codes "b4d") (codes "bad") few_ones

abbrev bad_words : Text → Bool
bad_words t = text_eq t (codes "bad")

few_lowered : count_ones (prepare ascii_case (ascii_case.lower (codes "B4d"))) ≤ 12
unfolding count_ones prepare strip_underscores lower_unit
few_lowered = omega arith

is_blocked_name_iff_example :
    (is_blocked_name ascii_case (total bad_words) (codes "B4d") ≡ some blocked) ↔ (
      (member (ascii_case.lower (codes "B4d")) allowlist ≡ false)
      × ((bad_words (ascii_case.lower (codes "B4d")) ≡ true)
          ⊎ ((v : Text) × Reads (prepare ascii_case (ascii_case.lower (codes "B4d"))) v
              × (bad_words (collapse v) ≡ true))))
is_blocked_name_iff_example = is_blocked_name_iff bad_words ascii_case (codes "B4d") few_lowered
