-- ===== src/Session.antt =====
-- app/core/database.py and the SQLAlchemy session: a handler runs in one transaction. `work` is the
-- database as the open transaction sees it, flushes included; `committed` is what other
-- transactions and the next request see. A raise keeps `work` as it is: undoing it is the
-- handler's own rollback, or the close of the session.
use autopay.Base.{ℕ, ◌+◌, Bool, Option, none, some, List, ◌∷◌, String, if◌then◌else◌, put}
use autopay.Models.{User, Bill, Transaction, AuditLog, Db}

-- app/services/payments/exceptions.py: the subclasses of `PaymentError`.
pub data PaymentErrorKind : Type 0 where
  authentication insufficient_funds invalid_account account_name_mismatch : PaymentErrorKind
  kyc_required webhook_signature provider_error : PaymentErrorKind

pub record PaymentError : Type 0 where
  pub kind : PaymentErrorKind
  pub message : String

-- What a handler raises: an `HTTPException` with its status and detail, a `PaymentError`, or
-- another exception (the database's `IntegrityError`, SQLAlchemy's `InvalidRequestError`, or one
-- from a library).
pub data Exn : Type 0 where
  http : ℕ → String → Exn
  payment : PaymentError → Exn
  integrity_error invalid_request unexpected : Exn

pub data Result (A : Type 0) : Type 0 where
  ok : A → Result A
  err : Exn → Result A

-- A transfer, as the gateway is asked for it.
pub record Transfer : Type 0 where
  pub amount_kobo : ℕ
  pub recipient_code : String
  pub reference : String
  pub reason : String
  pub account_number : String
  pub bank_code : String
  pub account_name : String

-- `asked` holds the transfers that the gateway was asked for, and `sent` those of them whose call
-- returned: a call that raised may have reached the gateway. Both are outside the database, so that no
-- rollback takes a transfer back; the sequences of the
-- primary keys are not rolled back either.
pub record World : Type 0 where
  pub committed : Db
  pub work : Db
  pub asked : List Transfer
  pub sent : List Transfer
  pub next_bill : ℕ
  pub next_transaction : ℕ
  pub next_virtual_account : ℕ
  pub next_user : ℕ
  pub next_refresh_token : ℕ
  pub next_link_code : ℕ
  pub next_kyc_record : ℕ

abbrev pub Action : Type 0 → Type 0
Action A = World → Result A × World

module _ {A : Type 0} where
  abbrev pub pure : A → Action A
  pure a w = (ok a, w)

  abbrev pub raise : Exn → Action A
  raise e w = (err e, w)

  abbrev pub gets : (Db → A) → Action A
  gets f w = (ok (f w.work), w)

  -- `if x is None: raise e`
  abbrev pub or_raise : Option A → Exn → Action A
  or_raise none e = raise e
  or_raise (some a) e = pure a

infixl 5 ◌>>=◌ ◌>>◌
abbrev pub ◌>>=◌ : {A B : Type 0} → Action A → (A → Action B) → Action B
◌>>=◌ m f w = let (r, w') = m w in elim r [ ok a ↦ f a w' | err e ↦ raise e w' ]

abbrev pub ◌>>◌ : {B : Type 0} → Action (Unit {0}) → Action B → Action B
m >> k = m >>= λ _. k

module _ {A B : Type 0} (P : World → Type 0) (f : A → Action B) where
  holds_from :
      (x : Result A × World) (w : World)
      → P x.1
      → ((a : A) (w' : World) → P w' → P (f a w').1)
      → P (((λ _. x) >>= f) w).1
  holds_from (ok a, w') w h next = next a w' h
  holds_from (err e, w') w h next = h

  -- What each of two actions keeps true of the world, both in sequence keep true.
  pub sequence_holds :
      (m : Action A) (w : World)
      → P (m w).1
      → ((a : A) (w' : World) → P w' → P (f a w').1)
      → P ((m >>= f) w).1
  sequence_holds m w h next = holds_from (m w) w h next

-- `if c: raise e`
abbrev pub raise_if : Bool → Exn → Action (Unit {0})
raise_if c e w = (if c then err e else ok tt, w)

-- A flushed change of the rows.
abbrev pub modify : (Db → Db) → Action (Unit {0})
modify f w = (ok tt, record w { work = f w.work })

abbrev pub commit : Action (Unit {0})
commit w = (ok tt, record w { committed = w.work })

abbrev pub rollback : Action (Unit {0})
rollback w = (ok tt, record w { work = w.committed })

-- `with Session(engine) as session:` around a whole handler (`get_session`, `session_scope`): the
-- session begins with what is committed, and its close drops what is not.
abbrev pub with_session : {A : Type 0} → Action A → Action A
with_session m w =
    let (r, w') = m (record w { work = w.committed }) in (r, record w' { work = w'.committed })

abbrev pub put_user : ℕ → User → Db → Db
put_user k u d = record d { users = put k u d.users }

abbrev pub put_bill : ℕ → Bill → Db → Db
put_bill k b d = record d { bills = put k b d.bills }

abbrev pub put_transaction : ℕ → Transaction → Db → Db
put_transaction k t d = record d { transactions = put k t d.transactions }

-- `session.add(row); session.flush()` of a new row: the sequence gives the key.
abbrev pub insert_bill : Bill → Action ℕ
insert_bill b w =
    (ok w.next_bill, record w { work = put_bill w.next_bill b w.work; next_bill = w.next_bill + 1 })

abbrev pub add_audit : AuditLog → Db → Db
add_audit row d = record d { audit_logs = row ∷ d.audit_logs }
