-- ===== src/Api/Transactions/Laws.antt =====
-- transaction-builder.ts: what the message of a registration holds.
use tagwise_identity_protoco.Prelude.{
  ℕ, Text, codes, Bool, true, false, List, [], ◌∷◌, ◌≡◌, ap, sym, ◌∙◌, arith, text_eq, Result, ok,
  err, >>=-eq-ok, if◌then◌else◌, ◌>>◌,
}
use tagwise_identity_protoco.Solana.{Solana}
use tagwise_identity_protoco.Core.Seeds.{PdaError, derive_tag_pda}
use tagwise_identity_protoco.Api.{HttpError}
use tagwise_identity_protoco.Api.Transactions.{
  Instruction, Message, Params, require_address, pda_or_internal, wallet_instruction,
  wallet_instructions, writable, readonly_signer, writable_signer, readonly,
  encode_update_wallet_instruction_data, encode_register_tag_instruction_data,
  build_register_tag_transaction,
}

pub address_inv :
    (sol : Solana) (a : Text) {x : Unit {0}}
    → require_address sol a ≡ ok x
    → sol.is_address a ≡ true
address_inv sol a h = ground (arith, h)

pub pda_inv :
    (r : Result PdaError (Text × ℕ)) {pda : Text}
    → pda_or_internal r ≡ ok pda
    → (bump : ℕ) × (r ≡ ok (pda, bump))
pda_inv (err e) h = absurd (cc h)
pda_inv (ok (a, bump)) {pda} h = (bump, ap (λ (x : Text). ok (x, bump)) same)
  where
    same : a ≡ pda
    same = cc h

-- The account of the tag is written, its owner signs, and the payer signs and is written.
abbrev pub registration : Params → Text → Text → Text → Text → Instruction
registration p tag pda owner payer = record {
  program_address = p.program_id;
  accounts =
      (pda, writable)
      ∷ (owner, readonly_signer)
      ∷ (payer, writable_signer)
      ∷ (codes "11111111111111111111111111111111", readonly)
      ∷ [];
  content = 74 ∷ 29 ∷ 15 ∷ 99 ∷ 244 ∷ 166 ∷ 160 ∷ 42 ∷ p.encode_tag tag;
}

-- The account of the tag is written, and its owner signs.
abbrev pub wallet_change : Params → Text → Text → Text → Instruction
wallet_change p pda owner new_wallet = record {
  program_address = p.program_id;
  accounts = (pda, writable) ∷ (owner, readonly_signer) ∷ [];
  content = 30 ∷ 233 ∷ 126 ∷ 238 ∷ 58 ∷ 16 ∷ 215 ∷ 184 ∷ p.sol.encode_address new_wallet;
}

-- The instruction that sets the wallet, where it is not the owner.
abbrev pub wallet_part : Params → Text → Text → Text → Bool → List Instruction
wallet_part p pda owner wallet true = []
wallet_part p pda owner wallet false = wallet_change p pda owner wallet ∷ []

wallets_inv :
    (p : Params) (pda owner wallet : Text) {more : List Instruction}
    → wallet_instructions p pda owner wallet ≡ ok more
    → more ≡ wallet_part p pda owner wallet (text_eq wallet owner)
unfolding wallet_instructions encode_update_wallet_instruction_data
wallets_inv p pda owner wallet = either (text_eq wallet owner) (require_address p.sol wallet)
  where
    either :
        (same : Bool) (required : Result HttpError (Unit {0})) {more : List Instruction}
        → (if same then ok [] else do required; ok (wallet_instruction p pda owner wallet ∷ []))
          ≡ ok more
        → more ≡ wallet_part p pda owner wallet same
    either true required h = cc h
    either false (err e) h = absurd (cc h)
    either false (ok x) h = cc h

-- What a transaction for registering holds.
pub record Built (p : Params) (tag owner payer wallet blockhash : Text) (message : Message)
    (pda : Text) : Type 0 where
  pub bump : ℕ
  pub derived : derive_tag_pda p.sol tag p.program_id ≡ ok (pda, bump)
  pub owner_valid : p.sol.is_address owner ≡ true
  pub payer_pays : message.fee_payer ≡ payer
  pub lifetime : message.blockhash ≡ blockhash
  pub instructions_eq :
      message.instructions
      ≡ registration p tag pda owner payer ∷ wallet_part p pda owner wallet (text_eq wallet owner)

pub build_register_tag_transaction-Built :
    (p : Params) (tag owner payer wallet blockhash : Text) (message : Message) (pda : Text)
    → build_register_tag_transaction p tag owner payer wallet blockhash ≡ ok (message, pda)
    → Built p tag owner payer wallet blockhash message pda
unfolding build_register_tag_transaction encode_register_tag_instruction_data
build_register_tag_transaction-Built p tag owner payer wallet blockhash message pda h =
    let (a, e1, h1) = >>=-eq-ok (pda_or_internal (derive_tag_pda p.sol tag p.program_id)) _ h in
    let (_, e2, h2) = >>=-eq-ok (require_address p.sol owner) _ h1 in
    let (_, e3, h3) = >>=-eq-ok (require_address p.sol payer) _ h2 in
    let (_, e4, h4) = >>=-eq-ok (require_address p.sol p.program_id) _ h3 in
    let (more, e5, h5) = >>=-eq-ok (wallet_instructions p a owner wallet) _ h4 in
    let (bump, found) = pda_inv (derive_tag_pda p.sol tag p.program_id) e1 in
    let (pays, lives, holds, same) = parts a more h5 in
    record {
      bump = bump;
      derived = found ∙ ap (λ (x : Text). ok (x, bump)) same;
      owner_valid = address_inv p.sol owner e2;
      payer_pays = sym pays;
      lifetime = sym lives;
      instructions_eq =
          sym holds
          ∙ ap (λ (x : List Instruction). registration p tag a owner payer ∷ x)
              (wallets_inv p a owner wallet e5)
          ∙ ap
              (λ (x : Text).
                registration p tag x owner payer
                ∷ wallet_part p x owner wallet (text_eq wallet owner))
              same;
    }
  where
    parts :
        (a : Text) (more : List Instruction)
        → ◌≡◌ {A = Result HttpError (Message × Text)}
            (ok (
              record {
                fee_payer = payer;
                blockhash = blockhash;
                instructions = registration p tag a owner payer ∷ more;
              },
              a,
            ))
            (ok (message, pda))
        → (payer ≡ message.fee_payer)
          × (blockhash ≡ message.blockhash)
          × (registration p tag a owner payer ∷ more ≡ message.instructions)
          × (a ≡ pda)
    parts a more k = (cc k, cc k, cc k, cc k)
