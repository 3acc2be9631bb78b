-- ===== src/Payout/Outcome.antt =====
-- What a payout has done to the session, by how it ended: the steps after the debit row is inserted.
use autopay.Base.{
  ℕ, ◌-◌, ◌+◌, ◌≡◌, refl, ◌⊎◌, inl, inr, Bool, false, true, some, String, ◌∷◌, ◌++◌, not, ◌||◌,
  arith, put, truthy, Bool-cases,
}
use autopay.Models.{TransactionStatus}
use autopay.Session.{Exn, Result, ok, err, Transfer, World}
use autopay.Money.{ngn_to_kobo, numeric}
use autopay.Provider.{PaymentProvider, ResolvedAccount, TransferResult}
use autopay.Payout.{PayoutResult, count_failure}
use autopay.Payout.Charge.{
  Payout, transfer_of, after_transfer, on_transfer, is_insufficient, is_name_mismatch,
  is_invalid_account,
}
use autopay.Payout.Execute.{on_recipient, on_resolved, resolve}

-- An amount that the column holds is converted exactly.
pub ngn_to_kobo-numeric : (k : ℕ) → ngn_to_kobo (numeric k) ≡ k
unfolding ngn_to_kobo
ngn_to_kobo-numeric k = omega arith

-- The failure is recorded: the bill's attempt is counted, and the debit row is marked failed.
abbrev pub Recorded : Payout → World → World → Type 0
Recorded p w w' =
    (reason : String) × (w'.work.bills ≡ put p.bill_id (count_failure p.bill) w.work.bills)
    × (w'.work.transactions
        ≡ put p.debit_id
            (record p.debit { status = TransactionStatus.failed; failure_reason = some reason })
            w.work.transactions)

abbrev pub is_payment : Exn → Bool
is_payment (Exn.payment e) = true
is_payment _ = false

abbrev pub says_invalid : Exn → Bool
says_invalid (Exn.payment e) = is_invalid_account e.kind
says_invalid _ = false

-- An error of the gateway that `execute_payout` does not handle: any but `InvalidAccount` of the
-- account's resolution, and what is no `PaymentError` of the two later calls.
abbrev pub PassedOn : PaymentProvider → Exn → Type 0
PassedOn provider e =
    ((number : String) × (code : String) × (provider.resolve_account number code ≡ err e)
      × (says_invalid e ≡ false))
    ⊎ ((number : String) × (code : String) × (name : String) × (provider.create_transfer_recipient
            number code name
          ≡ err e)
        × (is_payment e ≡ false))
    ⊎ ((t : Transfer) × (provider.initiate_transfer t ≡ err e) × (is_payment e ≡ false))

-- The gateway was asked for no transfer, or for one, which it did not confirm.
abbrev pub AskedAtMost : String → ℕ → World → World → Type 0
AskedAtMost reference amount w w' =
    (w'.asked ≡ w.asked)
    ⊎ ((t : Transfer) × (w'.asked ≡ t ∷ w.asked)
        × (t.reference ≡ reference)
        × (t.amount_kobo ≡ amount))

abbrev pub Unrecorded : World → World → Type 0
Unrecorded w w' = (w'.work.bills ≡ w.work.bills) × (w'.work.transactions ≡ w.work.transactions)

-- On a raise no wallet has changed and no transfer is confirmed; the failure is recorded unless it
-- is passed on from the gateway. On a
-- return one transfer has been
-- sent and the wallet of the bill's user is charged.
abbrev pub Ended : PaymentProvider → ℕ → Payout → World → Result PayoutResult × World → Type 0
Ended provider total p w (ok r, w') =
    (t : Transfer) × (w'.sent ≡ t ∷ w.sent)
    × (w'.asked ≡ t ∷ w.asked)
    × (t.reference ≡ p.reference)
    × (t.amount_kobo ≡ p.bill.amount)
    × (w'.work.users
        ≡ put p.bill.user_id (record p.user { balance = p.user.balance - total }) w.work.users)
    × (w'.work.bills ≡ w.work.bills)
    × (w'.work.transactions
        ≡ put p.debit_id (record p.debit { status = TransactionStatus.processing })
            w.work.transactions)
    × (w'.committed ≡ w.committed)
    × (w'.next_transaction ≡ w.next_transaction)
    × (r.reference ≡ p.reference)
    × (r.success ≡ true)
Ended provider total p w (err e, w') =
    (w'.work.users ≡ w.work.users)
    × (w'.sent ≡ w.sent)
    × (w'.committed ≡ w.committed)
    × ((PassedOn provider e × Unrecorded w w') ⊎ Recorded p w w')
    × AskedAtMost p.reference p.bill.amount w w'

pub on_transfer-Ended :
    (provider : PaymentProvider) (total : ℕ) (p : Payout) (t : Transfer) (r : Result TransferResult)
    (w : World)
    → t.reference ≡ p.reference
    → t.amount_kobo ≡ p.bill.amount
    → provider.initiate_transfer t ≡ r
    → Ended provider total p w (on_transfer total p t r w)
unfolding on_transfer after_transfer
on_transfer-Ended provider total p t (ok _) w er ea same =
    (t, refl, refl, er, ea, refl, refl, refl, refl, refl, refl, refl)
on_transfer-Ended provider total p t (err (Exn.payment e)) w er ea same =
    elim (Bool-cases (is_insufficient e.kind)) [
      | inl h ↦ rw h (
        refl,
        refl,
        refl,
        inr ("provider_insufficient_funds: " ++ e.message, refl, refl),
        inr (t, refl, er, ea),
      )
      | inr h ↦ rw h (
        refl,
        refl,
        refl,
        inr ("transfer_failed: " ++ e.message, refl, refl),
        inr (t, refl, er, ea),
      )
    ]
on_transfer-Ended provider total p t (err _) w er ea same =
    (refl, refl, refl, inl (inr (inr (t, same, refl)), (refl, refl)), inr (t, refl, er, ea))

module _ (provider : PaymentProvider) (fee : ℕ) (p : Payout) (w : World) where
  on_recipient-Ended :
      (resolved : ResolvedAccount) (r : Result String)
      → (number code name : String) → provider.create_transfer_recipient number code name ≡ r
      → Ended provider (p.bill.amount + fee) p w (on_recipient provider fee p resolved r w)
  unfolding on_recipient
  on_recipient-Ended resolved (ok code) number bank name same =
      on_transfer-Ended provider (p.bill.amount + fee) p (transfer_of p resolved code)
        (provider.initiate_transfer (transfer_of p resolved code)) w (unfold transfer_of in refl)
        (unfold transfer_of in ngn_to_kobo-numeric p.bill.amount) refl
  on_recipient-Ended resolved (err (Exn.payment e)) number code name same =
      elim (Bool-cases (is_name_mismatch e.kind)) [
        | inl h ↦
            rw h (refl, refl, refl, inr ("name_mismatch: " ++ e.message, refl, refl), inl refl)
        | inr h ↦
            rw h (refl, refl, refl, inr ("recipient_failed: " ++ e.message, refl, refl), inl refl)
      ]
  on_recipient-Ended resolved (err _) number code name same =
      (refl, refl, refl, inl (inr (inl (number, code, name, same, refl)), (refl, refl)), inl refl)

  on_resolved-Ended :
      (r : Result ResolvedAccount) (number code : String)
      → provider.resolve_account number code ≡ r
      → Ended provider (p.bill.amount + fee) p w (on_resolved provider fee p r w)
  unfolding on_resolved
  on_resolved-Ended (ok resolved) number code same = on_recipient-Ended resolved _ _ _ _ refl
  on_resolved-Ended (err (Exn.payment e)) number code same =
      elim (Bool-cases (is_invalid_account e.kind)) [
        | inl h ↦
            rw h (refl, refl, refl, inr ("invalid_account: " ++ e.message, refl, refl), inl refl)
        | inr h ↦ rw h (refl, refl, refl, inl (inl (number, code, same, h), (refl, refl)), inl refl)
      ]
  on_resolved-Ended (err _) number code same =
      (refl, refl, refl, inl (inl (number, code, same, refl), (refl, refl)), inl refl)

  pub resolve-Ended : Ended provider (p.bill.amount + fee) p w (resolve provider fee p w)
  unfolding resolve
  resolve-Ended =
      elim (Bool-cases (not (truthy p.bill.account_number) || not (truthy p.bill.bank_code))) [
        | inl h ↦
            rw h
              (refl, refl, refl, inr ("missing account_number or bank_code", refl, refl), inl refl)
        | inr h ↦ rw h (on_resolved-Ended _ _ _ refl)
      ]
