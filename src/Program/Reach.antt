-- ===== src/Program/Reach.antt =====
-- The accounts that the instructions can produce.
use tagwise_identity_protoco.Prelude.{
  ℕ, ◌-◌, Text, CaseMap, true, ◌++◌, ◌≡◌, ◌↔◌, length, all, All_of_all, all_of_All, replicate, ok,
  arith,
}
use tagwise_identity_protoco.Solana.{Bytes, pubkey_length}
use tagwise_identity_protoco.Core.Constants.{max_tag_length, is_tag_unit}
use tagwise_identity_protoco.Core.Normalize.{accepted, normalize_tag}
use tagwise_identity_protoco.Core.Normalize.Laws.{IsCanonical, normalize_tag_fixed_iff}
use tagwise_identity_protoco.Program.{
  TagState, validate_canonical_tag, register_tag, update_wallet, transfer_ownership,
}

pub validate-IsCanonical : (tag : Bytes) → (validate_canonical_tag tag ≡ ok tt) ↔ IsCanonical tag
unfolding validate_canonical_tag
validate-IsCanonical tag = (
  λ h.
      let good : all is_tag_unit tag ≡ true = ground arith in
      record { min = ground arith; max = ground arith; allowed = All_of_all is_tag_unit tag good },
  λ c. ground (arith, c.min, c.max, all_of_All is_tag_unit tag c.allowed),
)

-- The program's validation accepts a tag exactly when the client's `normalize_tag` leaves that tag
-- as it is: the two implementations of the tag rules agree.
pub validate_iff_normalize_fixed :
    (u : CaseMap) (tag : Bytes)
    → (validate_canonical_tag tag ≡ ok tt) ↔ (normalize_tag u tag ≡ accepted tag)
validate_iff_normalize_fixed u tag = (
  λ h. (normalize_tag_fixed_iff u tag).1 ((validate-IsCanonical tag).0 h),
  λ h. (validate-IsCanonical tag).1 ((normalize_tag_fixed_iff u tag).0 h),
)

-- One instruction on an existing account, signed by anybody.
pub data Step (a b : TagState) : Type 0 where
  wallet_updated :
      (signer new_wallet : Bytes)
      → length new_wallet ≡ pubkey_length
      → update_wallet signer new_wallet a ≡ ok b
      → Step a b
  ownership_transferred :
      (signer new_owner : Bytes)
      → length new_owner ≡ pubkey_length
      → transfer_ownership signer new_owner a ≡ ok b
      → Step a b

pub data Reach (a : TagState) : TagState → Type 0 where
  start : Reach a a
  next : {b c : TagState} → Reach a b → Step b c → Reach a c

-- The account stores `tag`, zero-padded, and two keys.
pub record Stores (tag : Text) (a : TagState) : Type 0 where
  pub canonical : IsCanonical tag
  pub owner_length : length a.owner ≡ pubkey_length
  pub wallet_length : length a.wallet ≡ pubkey_length
  pub padded : a.tag ≡ tag ++ replicate (max_tag_length - length tag) 0
  pub counted : a.tag_len ≡ length tag

pub register_tag-Stores :
    (tag owner : Bytes) (bump : ℕ) {a : TagState}
    → length owner ≡ pubkey_length
    → register_tag tag owner bump ≡ ok a
    → Stores tag a
unfolding register_tag
register_tag-Stores tag owner bump o h =
    let c = (validate-IsCanonical tag).0 (ground arith) in
    record {
      canonical = c;
      owner_length = ground arith;
      wallet_length = ground arith;
      padded = ground arith;
      counted = ground (arith, c.max);
    }

Step-Stores : {tag : Text} {a b : TagState} → Step a b → Stores tag a → Stores tag b
unfolding update_wallet transfer_ownership
Step-Stores (wallet_updated signer w l h) s = record {
  canonical = s.canonical;
  owner_length = ground arith;
  wallet_length = ground arith;
  padded = ground arith;
  counted = ground arith;
}
Step-Stores (ownership_transferred signer o l h) s = record {
  canonical = s.canonical;
  owner_length = ground arith;
  wallet_length = ground arith;
  padded = ground arith;
  counted = ground arith;
}

pub Reach-Stores : {tag : Text} {a b : TagState} → Stores tag a → Reach a b → Stores tag b
Reach-Stores s start = s
Reach-Stores s (next r st) = Step-Stores st (Reach-Stores s r)
