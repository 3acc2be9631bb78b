-- ===== src/Requests/Reached.antt =====
-- Sequences of requests and jobs as a step relation, and what holds in every world that they reach.
use autopay.Base.{inl, ℕ, String, Bool, Option}
use autopay.Models.{User}
use autopay.Session.{Result, World}
use autopay.Provider.{PaymentProvider}
use autopay.Bills.{BillCreateRequest, create_bill, pay_bill, cancel_bill}
use autopay.Bills.Upload.{Extraction, IsWhole, upload_bill}
use autopay.Conversation.Confirm.{pay_in_session}
use autopay.Requests.Uploads.{confirm-Consistent, confirm-Traced, upload-Consistent, upload-Traced}
use autopay.Webhooks.{WebhookEvent, nomba_webhook}
use autopay.Scheduler.{process_scheduled_bills, process_recurring_bills}
use autopay.Requests.Keys.{Consistent, pay_bill-Consistent, nomba_webhook-Consistent}
use autopay.Requests.Sent.{
  Traced, quiet-Traced, pay_bill-Traced, create-Quiet, cancel-Quiet, webhook-Quiet,
  reevaluate_all-Silent, spawn_all-Silent,
}
use autopay.Requests.Jobs.{
  create_bill-Consistent, cancel_bill-Consistent, reevaluate_all-Consistent, spawn_all-Consistent,
}

-- One request, one final confirmation in the bot's dialogue or one run of a job, with whatever
-- arguments; the amount that an upload extracts is of whole kobo.
pub data Step : World → World → Type 0 where
  create :
      {w : World} (user_id : ℕ) (payload : BillCreateRequest)
      → Step w (create_bill user_id payload w).1
  pay :
      {w : World} (provider : PaymentProvider) (fee user_id bill_id : ℕ) (hex : String)
      → Step w (pay_bill provider fee user_id bill_id hex w).1
  confirm :
      {w : World} (provider : PaymentProvider) (fee : ℕ) (hex : String) (bill_id : ℕ)
      → Step w (pay_in_session provider fee hex bill_id w).1
  upload :
      {w : World} (provider : PaymentProvider) (fee : ℕ) (hex : String) (now user_id : ℕ)
      (user : User) (has_file : Bool) (request_bill : Option String) (extraction : Extraction)
      → IsWhole extraction
      → Step w (upload_bill provider fee hex now user_id user has_file request_bill extraction w).1
  cancel : {w : World} (user_id bill_id : ℕ) → Step w (cancel_bill user_id bill_id w).1
  webhook :
      {w : World} (provider : String) (parsed : Result WebhookEvent)
      → Step w (nomba_webhook provider parsed w).1
  scheduled : {w : World} (fee now : ℕ) → Step w (process_scheduled_bills fee now w)
  recurring : {w : World} (now : ℕ) → Step w (process_recurring_bills now w)

-- Some requests and job runs, one after another.
pub data Reaches : World → World → Type 0 where
  here : {w : World} → Reaches w w
  then : {u v w : World} → Reaches u v → Step v w → Reaches u w

step-Consistent : {w w' : World} → Step w w' → Consistent w → Consistent w'
unfolding process_scheduled_bills process_recurring_bills
step-Consistent (Step.create user_id payload) c = create_bill-Consistent _ c user_id payload
step-Consistent (Step.pay provider fee user_id bill_id hex) c =
    pay_bill-Consistent _ c provider fee hex user_id bill_id
step-Consistent (Step.confirm provider fee hex bill_id) c =
    confirm-Consistent provider fee hex bill_id _ c
step-Consistent
      (Step.upload provider fee hex now user_id user has_file request_bill extraction whole) c =
    upload-Consistent provider fee hex now user_id user _ c has_file request_bill extraction
step-Consistent (Step.cancel user_id bill_id) c = cancel_bill-Consistent _ c user_id bill_id
step-Consistent (Step.webhook provider parsed) c = nomba_webhook-Consistent _ c provider parsed
step-Consistent (Step.scheduled fee now) c = reevaluate_all-Consistent fee now _ _ c
step-Consistent (Step.recurring now) c = spawn_all-Consistent _ _ c

-- If the ids of bills and of transactions are unique and below their sequences, then they are so
-- after any number of requests and job runs, in any order and with any arguments.
pub reaches-Consistent : {w w' : World} → Reaches w w' → Consistent w → Consistent w'
reaches-Consistent Reaches.here c = c
reaches-Consistent (Reaches.then r s) c = step-Consistent s (reaches-Consistent r c)

step-Traced : {w w' : World} → Step w w' → Consistent w → Traced w → Traced w'
unfolding process_scheduled_bills process_recurring_bills
step-Traced {w} (Step.create user_id payload) c t =
    quiet-Traced w c t _ (create-Quiet w user_id payload)
step-Traced {w} (Step.pay provider fee user_id bill_id hex) c t =
    pay_bill-Traced w c t provider fee hex user_id bill_id
step-Traced {w} (Step.confirm provider fee hex bill_id) c t =
    confirm-Traced provider fee hex bill_id w c t
step-Traced {w}
      (Step.upload provider fee hex now user_id user has_file request_bill extraction whole) c t =
    upload-Traced provider fee hex now user_id user w c has_file request_bill extraction t
step-Traced {w} (Step.cancel user_id bill_id) c t =
    quiet-Traced w c t _ (cancel-Quiet w user_id bill_id)
step-Traced {w} (Step.webhook provider parsed) c t =
    quiet-Traced w c t _ (webhook-Quiet w provider parsed)
step-Traced {w} (Step.scheduled fee now) c t =
    let (sent, txns) = reevaluate_all-Silent fee now _ w in quiet-Traced w c t _ (sent, inl txns)
step-Traced {w} (Step.recurring now) c t =
    let (sent, txns) = spawn_all-Silent _ w in quiet-Traced w c t _ (sent, inl txns)

-- If ids are unique and below their sequences, every transfer whose call returned has a committed
-- transaction with its reference, and no two of them have the same, then this is so after any number
-- of requests that create, upload, pay or cancel a bill, of final confirmations in the bot's
-- dialogue, of webhooks and of job runs, in any order and with any arguments. (The amount that
-- an upload extracts is of whole kobo. Of a call that raised the gateway may have accepted the
-- transfer; no row is kept for it.)
pub reaches-Traced : {w w' : World} → Reaches w w' → Consistent w → Traced w → Traced w'
reaches-Traced Reaches.here c t = t
reaches-Traced (Reaches.then r s) c t =
    step-Traced s (reaches-Consistent r c) (reaches-Traced r c t)
