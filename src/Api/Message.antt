-- ===== src/Api/Message.antt =====
-- apps/api/src/auth/message.ts: the text that a wallet signs.
pub mod Laws
use tagwise_identity_protoco.Prelude.{
  ℕ, ◌-◌, Text, codes, Bool, true, false, not, ◌||◌, List, [], ◌∷◌, ◌++◌, Option, none, some, ◌==◌,
  any, leb, length, take, drop, get_elem?, text_eq, starts_with, truthy, if◌then◌else◌,
}
use tagwise_identity_protoco.Redis.{join}
use tagwise_identity_protoco.Moderation.Leetspeak.{is_line_terminator}

infixl 5 ◌>>=◌
abbrev ◌>>=◌ {ℓ κ} : {A : Type ℓ} {B : Type κ} → Option A → (A → Option B) → Option B
none >>= f = none
some a >>= f = f a

abbrev pub statement : Text
statement =
    codes
      "Sign in to authenticate with the TIP API. This request will not trigger a blockchain transaction or cost any fees."

abbrev pub domain_suffix : Text
domain_suffix = codes " wants you to sign in with your Solana account:"

abbrev pub nonce_prefix : Text
nonce_prefix = codes "Nonce: "

abbrev pub issued_at_prefix : Text
issued_at_prefix = codes "Issued At: "

abbrev pub expiration_prefix : Text
expiration_prefix = codes "Expiration Time: "

pub record SignInMessageFields : Type 0 where
  pub domain : Text
  pub pubkey : Text
  pub nonce : Text
  pub issued_at : Text
  pub expiration_time : Text

abbrev pub newline : ℕ
newline = 10

unfoldable pub message_lines : SignInMessageFields → List Text
message_lines f =
    (f.domain ++ domain_suffix)
    ∷ f.pubkey
    ∷ []
    ∷ statement
    ∷ []
    ∷ (nonce_prefix ++ f.nonce)
    ∷ (issued_at_prefix ++ f.issued_at)
    ∷ (expiration_prefix ++ f.expiration_time)
    ∷ []

unfoldable pub build_sign_in_message : SignInMessageFields → Text
unfolding message_lines
build_sign_in_message f = join (newline ∷ []) (message_lines f)

-- `message.split("\n")`, which has at least one part.
unfoldable pub add_to_first : ℕ → List Text → List Text
add_to_first c [] = (c ∷ []) ∷ []
add_to_first c (line ∷ lines) = (c ∷ line) ∷ lines

unfoldable pub split_lines : Text → List Text
unfolding add_to_first
split_lines [] = [] ∷ []
split_lines (c ∷ rest) =
    let lines = split_lines rest in if c == newline then [] ∷ lines else add_to_first c lines

-- `DOMAIN_LINE_PATTERN`: anything without a line terminator, and the suffix at the end.
unfoldable pub match_before : Text → Text → Option Text
match_before suffix line =
    let domain = take (length line - length suffix) line in
    if text_eq (drop (length line - length suffix) line) suffix
    then if any is_line_terminator domain then none else some domain
    else none

unfoldable pub match_domain_line : Text → Option Text
unfolding match_before
match_domain_line line = match_before domain_suffix line

unfoldable pub find_line : Text → List Text → Option Text
find_line prefix [] = none
find_line prefix (line ∷ lines) =
    if starts_with line prefix then some line else find_line prefix lines

unfoldable pub first_domain : List Text → Option Text
unfolding match_domain_line
first_domain [] = none
first_domain (line ∷ lines) = match_domain_line line

unfoldable pub parse_lines : List Text → Option SignInMessageFields
unfolding first_domain find_line truthy
parse_lines lines = do
  domain_match ← first_domain lines
  pubkey ← truthy (get_elem? lines 1)
  nonce_line ← truthy (find_line nonce_prefix lines)
  issued_at_line ← truthy (find_line issued_at_prefix lines)
  expiration_line ← truthy (find_line expiration_prefix lines)
  domain ← truthy (some domain_match)
  some (record {
    domain = domain;
    pubkey = pubkey;
    nonce = drop (length nonce_prefix) nonce_line;
    issued_at = drop (length issued_at_prefix) issued_at_line;
    expiration_time = drop (length expiration_prefix) expiration_line;
  })

unfoldable pub parse_sign_in_message : Text → Option SignInMessageFields
unfolding split_lines parse_lines
parse_sign_in_message message = parse_lines (split_lines message)
