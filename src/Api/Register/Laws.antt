-- ===== src/Api/Register/Laws.antt =====
-- register.service.ts and wallet-update.service.ts: for whom a transaction is built, and which
-- instructions it holds.
use tagwise_identity_protoco.Prelude.{
  ℕ, ◌+◌, ◌≤◌, Text, codes, CaseMap, true, Option, none, some, ◌≡◌, refl, ap, sym, ◌∙◌, arith,
  leb→le, Result, ok, >>=-eq-ok,
}
use tagwise_identity_protoco.Solana.{Solana}
use tagwise_identity_protoco.Core.Account.{tag_account_size}
use tagwise_identity_protoco.Core.Normalize.{NormalizeTagResult, accepted, rejected, normalize_tag}
use tagwise_identity_protoco.Moderation.Profanity.{Engine}
use tagwise_identity_protoco.Mirror.{IdentityTable}
use tagwise_identity_protoco.Api.{HttpError, tag_or_throw}
use tagwise_identity_protoco.Api.Naming.{
  NamingReason, available, reserved, inappropriate, already_registered, invalid, check_naming_gate,
}
use tagwise_identity_protoco.Api.Transactions.{Message, Rpc, Params, build_register_tag_transaction}
use tagwise_identity_protoco.Api.Transactions.Laws.{Built, build_register_tag_transaction-Built}
use tagwise_identity_protoco.Api.Register.{
  or_internal, fee_or_fallback, check_sufficient_balance, gate_or_throw, given_or, require_valid,
  require_valid_if, register,
}

tag_inv : (n : NormalizeTagResult) {tag : Text} → tag_or_throw n ≡ ok tag → n ≡ accepted tag
tag_inv (rejected reason) h = absurd (cc h)
tag_inv (accepted tag) h = cc h

gate_inv : (o : Option NamingReason) {x : Unit {0}} → gate_or_throw o ≡ ok x → o ≡ some available
gate_inv none h = absurd (cc h)
gate_inv (some available) h = refl
gate_inv (some already_registered) h = absurd (cc h)
gate_inv (some reserved) h = absurd (cc h)
gate_inv (some inappropriate) h = absurd (cc h)
gate_inv (some invalid) h = absurd (cc h)

pub some_inv : {A : Type 0} (o : Option A) {a : A} → or_internal o ≡ ok a → o ≡ some a
some_inv none h = absurd (cc h)
some_inv (some x) h = cc h

-- The payer's balance covers the rent and the fee that the node asks for.
pub record Covered (rpc : Rpc) (payer : Text) (message : Message) : Type 0 where
  pub rent : ℕ
  pub fee : Option ℕ
  pub balance : ℕ
  pub rent_eq : rpc.minimum_balance tag_account_size ≡ some rent
  pub fee_eq : rpc.fee_for_message message ≡ some fee
  pub balance_eq : rpc.balance payer ≡ some balance
  pub enough : rent + fee_or_fallback fee ≤ balance

check_sufficient_balance-Covered :
    (rpc : Rpc) (payer : Text) (message : Message) {x : Unit {0}}
    → check_sufficient_balance rpc payer message ≡ ok x
    → Covered rpc payer message
unfolding check_sufficient_balance
check_sufficient_balance-Covered rpc payer message h =
    let (rent, e1, h1) = >>=-eq-ok (or_internal (rpc.minimum_balance tag_account_size)) _ h in
    let (fee, e2, h2) = >>=-eq-ok (or_internal (rpc.fee_for_message message)) _ h1 in
    let (balance, e3, h3) = >>=-eq-ok (or_internal (rpc.balance payer)) _ h2 in
    record {
      rent = rent;
      fee = fee;
      balance = balance;
      rent_eq = some_inv (rpc.minimum_balance tag_account_size) e1;
      fee_eq = some_inv (rpc.fee_for_message message) e2;
      balance_eq = some_inv (rpc.balance payer) e3;
      enough = leb→le (rent + fee_or_fallback fee) balance (ground (arith, h3));
    }

pub valid_inv :
    (sol : Solana) (reason a : Text) {x : Unit {0}}
    → require_valid sol reason a ≡ ok x
    → sol.is_address a ≡ true
valid_inv sol reason a h = ground (arith, h)

payer_inv :
    (sol : Solana) (fee_payer : Option Text) (owner : Text) {x : Unit {0}}
    → require_valid_if sol fee_payer ≡ ok x
    → sol.is_address owner ≡ true
    → sol.is_address (given_or fee_payer owner) ≡ true
payer_inv sol none owner h e = e
payer_inv sol (some a) owner h e = valid_inv sol (codes "INVALID_FEE_PAYER") a h

ok_pair :
    (r : Result HttpError (Message × Text)) (pair : Message × Text) {message : Message} {pda : Text}
    → r ≡ ok pair
    → pair.0 ≡ message
    → pair.1 ≡ pda
    → r ≡ ok (message, pda)
ok_pair r pair {message} found same at =
    found ∙ ap (λ (x : Message). ok (x, pair.1)) same ∙ ap (λ (x : Text). ok (message, x)) at

-- A registration that was answered with a transaction.
pub record Registered (u : CaseMap) (engine : Engine) (d : IdentityTable) (table : d.Table)
    (p : Params) (raw_tag : Text) (wallet fee_payer : Option Text) (owner : Text)
    (message : Message) (pda : Text) (last_block : ℕ) : Type 0 where
  pub tag : Text
  pub canonical : normalize_tag u raw_tag ≡ accepted tag
  pub name_free : check_naming_gate u engine d table tag ≡ some available
  pub wallet_valid : p.sol.is_address (given_or wallet owner) ≡ true
  pub payer_valid : p.sol.is_address (given_or fee_payer owner) ≡ true
  pub blockhash : Text
  pub current : p.rpc.latest_blockhash ≡ some (blockhash, last_block)
  pub built :
      Built p tag owner (given_or fee_payer owner) (given_or wallet owner) blockhash message pda
  pub covered : Covered p.rpc (given_or fee_payer owner) message

-- A registration that is answered with a transaction names a tag that is canonical and that the
-- naming gate finds available, and a valid owner, wallet and payer; its message, with the latest
-- blockhash and paid by the payer, registers the account derived from the tag for the owner, and
-- sets the wallet exactly when it is not the owner; the payer's balance covers rent and fee.
pub register-Registered :
    (u : CaseMap) (engine : Engine) (d : IdentityTable) (table : d.Table) (p : Params)
    (raw_tag : Text) (wallet fee_payer : Option Text) (owner : Text) (message : Message)
    (pda : Text) (last_block : ℕ)
    → register u engine d table p raw_tag wallet fee_payer owner ≡ ok (message, pda, last_block)
    → Registered u engine d table p raw_tag wallet fee_payer owner message pda last_block
unfolding register
register-Registered u engine d table p raw_tag wallet fee_payer owner message pda last_block h =
    let (tag, e1, h1) = >>=-eq-ok (tag_or_throw (normalize_tag u raw_tag)) _ h in
    let (_, e2, h2) = >>=-eq-ok (gate_or_throw (check_naming_gate u engine d table tag)) _ h1 in
    let (_, e3, h3) =
      >>=-eq-ok (require_valid p.sol (codes "INVALID_WALLET") (given_or wallet owner)) _ h2 in
    let (_, e4, h4) = >>=-eq-ok (require_valid_if p.sol fee_payer) _ h3 in
    let (hash, e5, h5) = >>=-eq-ok (or_internal p.rpc.latest_blockhash) _ h4 in
    let (pair, e6, h6) =
      >>=-eq-ok
        (build_register_tag_transaction p tag owner (given_or fee_payer owner)
          (given_or wallet owner) hash.0)
        _ h5 in
    let (_, e7, h7) =
      >>=-eq-ok (check_sufficient_balance p.rpc (given_or fee_payer owner) pair.0) _ h6 in
    let (same, at, until) = parts pair hash h7 in
    let built =
      build_register_tag_transaction-Built p tag owner (given_or fee_payer owner)
        (given_or wallet owner) hash.0 message pda
        (ok_pair
          (build_register_tag_transaction p tag owner (given_or fee_payer owner)
            (given_or wallet owner) hash.0)
          pair e6 same at) in
    record {
      tag = tag;
      canonical = tag_inv (normalize_tag u raw_tag) e1;
      name_free = gate_inv (check_naming_gate u engine d table tag) e2;
      wallet_valid = valid_inv p.sol (codes "INVALID_WALLET") (given_or wallet owner) e3;
      payer_valid = payer_inv p.sol fee_payer owner e4 built.owner_valid;
      blockhash = hash.0;
      current = some_inv p.rpc.latest_blockhash e5 ∙ ap (λ (x : ℕ). some (hash.0, x)) until;
      built = built;
      covered =
          check_sufficient_balance-Covered p.rpc (given_or fee_payer owner) message
            (ap (check_sufficient_balance p.rpc (given_or fee_payer owner)) (sym same) ∙ e7);
    }
  where
    parts :
        (pair : Message × Text) (hash : Text × ℕ)
        → ◌≡◌ {A = Result HttpError (Message × Text × ℕ)}
            (ok (pair.0, pair.1, hash.1))
            (ok (message, pda, last_block))
        → (pair.0 ≡ message) × (pair.1 ≡ pda) × (hash.1 ≡ last_block)
    parts pair hash k = (cc k, cc k, cc k)
