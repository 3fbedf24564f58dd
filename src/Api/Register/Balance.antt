-- ===== src/Api/Register/Balance.antt =====
-- rent-check.ts: when a payer's balance is enough, and the answer 402 where it is not.
use tagwise_identity_protoco.Prelude.{
  ℕ, ◌+◌, ◌≤◌, ◌<◌, Text, true, false, Option, some, ◌≡◌, ◌∙◌, arith, ◌⊎◌, inl, inr, ◌-◌, leb,
  leb→le, ok, err, Bool-cases,
}
use tagwise_identity_protoco.Core.Account.{tag_account_size}
use tagwise_identity_protoco.Api.{payment_required}
use tagwise_identity_protoco.Api.Transactions.{Message, Rpc}
use tagwise_identity_protoco.Api.Register.{
  fee_or_fallback, check_sufficient_balance, compare_balance,
}

answered :
    (rpc : Rpc) (payer : Text) (message : Message) (rent balance : ℕ) (fee : Option ℕ)
    → rpc.minimum_balance tag_account_size ≡ some rent
    → rpc.fee_for_message message ≡ some fee
    → rpc.balance payer ≡ some balance
    → check_sufficient_balance rpc payer message
      ≡ compare_balance (rent + fee_or_fallback fee) balance
unfolding check_sufficient_balance
answered rpc payer message rent balance fee e1 e2 e3 = ground (arith, e1, e2, e3)

enough :
    (required balance : ℕ) → leb required balance ≡ true → compare_balance required balance ≡ ok tt
enough required balance h = ground (arith, h)

lacking :
    (required balance : ℕ)
    → leb required balance ≡ false
    → compare_balance required balance
      ≡ err (
          payment_required (record {
            required_lamports = required;
            current_lamports = balance;
            shortfall_lamports = required - balance;
          }))
lacking required balance h = ground (arith, h)

-- Where the node answers, the check passes exactly when the balance covers rent and fee, the fee
-- being 5000 where the node gives none; otherwise it fails with 402, and current balance and
-- shortfall add up to what is required.
pub check_sufficient_balance_lem :
    (rpc : Rpc) (payer : Text) (message : Message) (rent balance : ℕ) (fee : Option ℕ)
    → rpc.minimum_balance tag_account_size ≡ some rent
    → rpc.fee_for_message message ≡ some fee
    → rpc.balance payer ≡ some balance
    → ((check_sufficient_balance rpc payer message ≡ ok tt)
        × (rent + fee_or_fallback fee ≤ balance))
      ⊎ ((shortfall : ℕ) × (0 < shortfall)
          × (balance + shortfall ≡ rent + fee_or_fallback fee)
          × (check_sufficient_balance rpc payer message
              ≡ err (
                  payment_required (record {
                    required_lamports = rent + fee_or_fallback fee;
                    current_lamports = balance;
                    shortfall_lamports = shortfall;
                  }))))
check_sufficient_balance_lem rpc payer message rent balance fee e1 e2 e3 =
    let required = rent + fee_or_fallback fee in
    let sum = answered rpc payer message rent balance fee e1 e2 e3 in
    elim (Bool-cases (leb required balance)) [
      | inl e ↦ inl (sum ∙ enough required balance e, leb→le required balance e)
      | inr e ↦ inr (
        required - balance,
        less required balance e,
        adds required balance e,
        sum ∙ lacking required balance e,
      )
    ]
  where
    less : (required balance : ℕ) → leb required balance ≡ false → 0 < required - balance
    less required balance e = ground arith

    adds :
        (required balance : ℕ)
        → leb required balance ≡ false
        → balance + (required - balance) ≡ required
    adds required balance e = ground arith
