-- ===== src/Api/Register/Wallet.antt =====
-- wallet-update.service.ts: for whom a wallet update is built, and what it holds.
use tagwise_identity_protoco.Prelude.{
  ℕ, Text, codes, true, [], ◌∷◌, Option, none, some, ◌≡◌, ap, sym, ◌∙◌, arith, inl, inr,
  text_eq_iff, Result, ok, >>=-eq-ok, Bool-cases, refl,
}
use tagwise_identity_protoco.Core.Seeds.{derive_tag_pda}
use tagwise_identity_protoco.Mirror.{Identity, IdentityTable, is_active}
use tagwise_identity_protoco.Api.{HttpError}
use tagwise_identity_protoco.Api.Transactions.{
  Message, Params, require_address, pda_or_internal, encode_update_wallet_instruction_data,
  build_update_wallet_transaction,
}
use tagwise_identity_protoco.Api.Transactions.Laws.{pda_inv, wallet_change}
use tagwise_identity_protoco.Api.Register.{or_internal, require_valid, owned_active, wallet_update}
use tagwise_identity_protoco.Api.Register.Laws.{some_inv, valid_inv}

owned_inv :
    (owner : Text) (o : Option Identity) {x : Unit {0}}
    → owned_active owner o ≡ ok x
    → (row : Identity) × (o ≡ some row) × (is_active row ≡ true) × (row.owner ≡ owner)
owned_inv owner none h = absurd (cc h)
owned_inv owner (some row) h = elim (Bool-cases (is_active row)) [
  | inl e ↦ (row, refl, e, (text_eq_iff row.owner owner).0 (ground (arith, h, e)))
  | inr e ↦ absurd (ground (arith, h, e))
]

-- A wallet update that was answered with a transaction.
pub record Permitted (d : IdentityTable) (table : d.Table) (p : Params)
    (tag owner new_wallet : Text) (message : Message) (pda : Text) (last_block : ℕ) : Type 0 where
  pub row : Identity
  pub found : d.find_unique table tag ≡ some row
  pub live : is_active row ≡ true
  pub owned : row.owner ≡ owner
  pub wallet_valid : p.sol.is_address new_wallet ≡ true
  pub bump : ℕ
  pub derived : derive_tag_pda p.sol tag p.program_id ≡ ok (pda, bump)
  pub blockhash : Text
  pub current : p.rpc.latest_blockhash ≡ some (blockhash, last_block)
  pub message_eq : message ≡ record {
    fee_payer = owner;
    blockhash = blockhash;
    instructions = wallet_change p pda owner new_wallet ∷ [];
  }

update_inv :
    (p : Params) (tag owner new_wallet blockhash : Text) {pair : Message × Text}
    → build_update_wallet_transaction p tag owner new_wallet blockhash ≡ ok pair
    → (bump : ℕ) × (derive_tag_pda p.sol tag p.program_id ≡ ok (pair.1, bump))
      × (pair.0 ≡ record {
        fee_payer = owner;
        blockhash = blockhash;
        instructions = wallet_change p pair.1 owner new_wallet ∷ [];
      })
unfolding build_update_wallet_transaction encode_update_wallet_instruction_data
update_inv p tag owner new_wallet blockhash {pair} h =
    let (a, e1, h1) = >>=-eq-ok (pda_or_internal (derive_tag_pda p.sol tag p.program_id)) _ h in
    let (_, e2, h2) = >>=-eq-ok (require_address p.sol owner) _ h1 in
    let (_, e3, h3) = >>=-eq-ok (require_address p.sol new_wallet) _ h2 in
    let (_, e4, h4) = >>=-eq-ok (require_address p.sol p.program_id) _ h3 in
    let (bump, found) = pda_inv (derive_tag_pda p.sol tag p.program_id) e1 in
    let same = whole a h4 in
    (
      bump,
      found ∙ ap (λ (x : Message × Text). ok (x.1, bump)) same,
      sym (ap (λ (x : Message × Text). x.0) same) ∙ ap (λ (x : Message × Text). of x.1) same,
    )
  where
    of : Text → Message
    of pda = record {
      fee_payer = owner;
      blockhash = blockhash;
      instructions = wallet_change p pda owner new_wallet ∷ [];
    }

    whole :
        (a : Text)
        → ◌≡◌ {A = Result HttpError (Message × Text)} (ok (of a, a)) (ok pair)
        → (of a, a) ≡ pair
    whole a k = cc k

-- A wallet update that is answered with a transaction was asked for by the owner of an active tag,
-- with a valid address; its message, with the latest blockhash and paid by the owner, has one
-- instruction, which the owner signs, which writes the account derived from the tag and carries the
-- bytes of the new wallet.
pub wallet_update-Permitted :
    (d : IdentityTable) (table : d.Table) (p : Params) (tag owner new_wallet : Text)
    (message : Message) (pda : Text) (last_block : ℕ)
    → wallet_update d table p tag owner new_wallet ≡ ok (message, pda, last_block)
    → Permitted d table p tag owner new_wallet message pda last_block
unfolding wallet_update
wallet_update-Permitted d table p tag owner new_wallet message pda last_block h =
    let (_, e1, h1) = >>=-eq-ok (owned_active owner (d.find_unique table tag)) _ h in
    let (_, e2, h2) = >>=-eq-ok (require_valid p.sol (codes "INVALID_WALLET") new_wallet) _ h1 in
    let (hash, e3, h3) = >>=-eq-ok (or_internal p.rpc.latest_blockhash) _ h2 in
    let (pair, e4, h4) =
      >>=-eq-ok (build_update_wallet_transaction p tag owner new_wallet hash.0) _ h3 in
    let (row, found, live, owned) = owned_inv owner (d.find_unique table tag) e1 in
    let (bump, derived, holds) = update_inv p tag owner new_wallet hash.0 e4 in
    let (same, at, until) = parts pair hash h4 in
    record {
      row = row;
      found = found;
      live = live;
      owned = owned;
      wallet_valid = valid_inv p.sol (codes "INVALID_WALLET") new_wallet e2;
      bump = bump;
      derived = derived ∙ ap (λ (x : Text). ok (x, bump)) at;
      blockhash = hash.0;
      current = some_inv p.rpc.latest_blockhash e3 ∙ ap (λ (x : ℕ). some (hash.0, x)) until;
      message_eq = sym same ∙ holds ∙ ap (sent hash.0) at;
    }
  where
    sent : Text → Text → Message
    sent blockhash pda = record {
      fee_payer = owner;
      blockhash = blockhash;
      instructions = wallet_change p pda owner new_wallet ∷ [];
    }

    parts :
        (pair : Message × Text) (hash : Text × ℕ)
        → ◌≡◌ {A = Result HttpError (Message × Text × ℕ)}
            (ok (pair.0, pair.1, hash.1))
            (ok (message, pda, last_block))
        → (pair.0 ≡ message) × (pair.1 ≡ pda) × (hash.1 ≡ last_block)
    parts pair hash k = (cc k, cc k, cc k)
