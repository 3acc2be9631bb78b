-- ===== src/Conversation/Final.antt =====
-- What a final confirmation does: `handle_final_confirm` of app/handlers/bill_conversation.py.
use autopay.Base.{ℕ, suc, ◌≡◌, refl, ◌⊎◌, inl, inr, none, some, String}
use autopay.Session.{Exn, Result, ok, err, World, with_session}
use autopay.Provider.{PaymentProvider}
use autopay.Payout.{PayoutResult}
use autopay.Payout.Execute.{execute_payout}
use autopay.Payout.Whole.{Executed, Asked, raised-Asked, execute_payout_outcome}
use autopay.Conversation.{cleared, Talk}
use autopay.Conversation.Confirm.{pay_in_session, commit_paid, final_from, handle_final_confirm}

module _ (provider : PaymentProvider) (fee : ℕ) (hex : String) (bill_id : ℕ) where
  abbrev opened : World → World
  opened w = record w { work = w.committed }

  -- The payout `x` returned, and what it did is committed; or it raised, nothing is committed, and no
  -- call for a transfer returned.
  abbrev pub PaidOrNot : Result PayoutResult × World → World → World → Type 0
  PaidOrNot x w w' =
      ((r : PayoutResult) × (x.0 ≡ ok r)
        × Executed provider fee bill_id hex (opened w) (ok r, x.1)
        × (w'.committed ≡ x.1.work)
        × (w'.sent ≡ x.1.sent)
        × (w'.asked ≡ x.1.asked))
      ⊎ ((e : Exn) × (x.0 ≡ err e)
          × (w'.committed ≡ w.committed)
          × (w'.sent ≡ w.sent)
          × Asked provider fee bill_id hex (opened w) w')

  -- The end of the session, from the payout.
  ended-PaidOrNot :
      (w : World) (x : Result PayoutResult × World)
      → Executed provider fee bill_id hex (opened w) x
      → PaidOrNot x w (with_session (λ w'. commit_paid x) w).1
  unfolding commit_paid
  ended-PaidOrNot w (ok r, w₁) h = inl (r, refl, h, refl, refl, refl)
  ended-PaidOrNot w (err e', w₁) (a, sent, committed, b) = inr (
    e',
    refl,
    committed,
    sent,
    raised-Asked provider fee bill_id hex (opened w) e' w₁ (a, sent, committed, b),
  )

module _ (provider : PaymentProvider) (fee : ℕ) (hex : String) (k : ℕ) where
  -- A final confirmation of the bill that the dialogue holds ends the dialogue and clears its data,
  -- however the payout ends. If the payout returns, what it did to the session is committed, with
  -- exactly one transfer asked for and confirmed; if it raises, nothing is committed, no call for a
  -- transfer returned, and the gateway was asked for none, or for one of the bill's amount under the
  -- new reference, whose call raised.
  pub handle_final_confirm_outcome :
      (t : Talk)
      → t.user_data.bill_id ≡ some (suc k)
      → let x = handle_final_confirm provider fee hex t in
        (x.0 ≡ ok none)
        × (x.1.user_data ≡ cleared)
        × PaidOrNot provider fee hex
            (suc k)
            (execute_payout provider fee (suc k) hex (record t.world { work = t.world.committed }))
            t.world
            x.1.world
  unfolding handle_final_confirm final_from pay_in_session
  handle_final_confirm_outcome t held =
      let paid =
        ended-PaidOrNot provider fee hex (suc k) t.world
          (execute_payout provider fee (suc k) hex (opened provider fee hex (suc k) t.world))
          (execute_payout_outcome provider fee (suc k) hex
            (opened provider fee hex (suc k) t.world)) in
      rw held (refl, refl, paid)
