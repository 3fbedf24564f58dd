-- ===== src/Program.antt =====
-- programs/tip-registry: the instructions of the on-chain program on one tag account, and the bytes
-- that Anchor stores for it (the discriminator, then the fields in order).
pub mod Reach
use tagwise_identity_protoco.Prelude.{
  ℕ, ◌-◌, ◌%◌, Bool, true, false, not, List, [], ◌∷◌, ◌++◌, ◌&&◌, ◌||◌, ltb, length, all, replicate,
  text_eq, Result, ok, err, ◌>>=◌, ◌>>◌, if◌then◌else◌,
}
use tagwise_identity_protoco.Solana.{Bytes}
use tagwise_identity_protoco.Core.Constants.{min_tag_length, max_tag_length, is_tag_unit}
use tagwise_identity_protoco.Core.Account.{tag_account_discriminator}

pub record TagState : Type 0 where
  pub owner : Bytes
  pub wallet : Bytes
  pub tag : Bytes
  pub tag_len : ℕ
  pub bump : ℕ

pub data TagRegistryError : Type 0 where
  tag_too_short tag_too_long tag_invalid_char unauthorized : TagRegistryError

-- validation.rs; `is_canonical_byte` tests for the same class as the client's pattern.
unfoldable pub validate_canonical_tag : Bytes → Result TagRegistryError (Unit {0})
validate_canonical_tag tag =
    if ltb (length tag) min_tag_length
    then err tag_too_short
    else if ltb max_tag_length (length tag)
    then err tag_too_long
    else if not (all is_tag_unit tag)
    then err tag_invalid_char
    else ok tt

-- register_tag.rs; the bump is the one that the runtime found for the account's address.
unfoldable pub register_tag : Bytes → Bytes → ℕ → Result TagRegistryError TagState
register_tag tag owner bump = do
  validate_canonical_tag tag
  ok (record {
    owner = owner;
    wallet = owner;
    tag = tag ++ replicate (max_tag_length - length tag) 0;
    tag_len = length tag % 256;
    bump = bump;
  })

-- update_wallet.rs and transfer_ownership.rs, with the constraint `has_one = owner`.
unfoldable pub update_wallet : Bytes → Bytes → TagState → Result TagRegistryError TagState
update_wallet signer new_wallet a =
    if text_eq a.owner signer then ok (record a { wallet = new_wallet }) else err unauthorized

unfoldable pub transfer_ownership : Bytes → Bytes → TagState → Result TagRegistryError TagState
transfer_ownership signer new_owner a =
    if text_eq a.owner signer then ok (record a { owner = new_owner }) else err unauthorized

unfoldable pub serialize : TagState → Bytes
serialize a =
    tag_account_discriminator ++ (a.owner ++ (a.wallet ++ (a.tag ++ a.tag_len ∷ a.bump ∷ [])))
