-- ===== src/Scheduler/Reevaluate.antt =====
-- `_process_scheduled_bills`, bill by bill: the job against a description of its effect.
use autopay.Base.{
  ℕ, ◌+◌, ◌≡◌, refl, ◌∙◌, Bool, true, false, ◌&&◌, Option, none, some, List, [], ◌∷◌, arith, leb,
  ◌==◌, if◌then◌else◌, get, select, Table, UniqueKeys, has_key, get-put, Option-cases, inl, inr,
}
use autopay.Base.Int.{days_between}
use autopay.Models.{User, Bill, BillStatus, bill_status_eq}
use autopay.Session.{World}
use autopay.Agent.{run_agent}
use autopay.Scheduler.{keys, is_due, pays_now, reevaluate, reevaluate_all, process_scheduled_bills}

module _ (fee now : ℕ) (users : Table User) where
  abbrev agrees : Option User → Bill → Bool
  agrees none b = false
  agrees (some user) b = pays_now fee now user b

  abbrev hand_over : Bool → Bill → Bill
  hand_over true b = record b { status = BillStatus.pending }
  hand_over false b = b

  -- What one session does to its bill.
  abbrev acted : Option Bill → Option Bill
  acted none = none
  acted (some b) =
      some (
        hand_over (bill_status_eq b.status BillStatus.scheduled && agrees (get b.user_id users) b)
          b)

-- The wallets, the transactions, and what the gateway was asked for.
pub record SameMoney (w w' : World) : Type 0 where
  pub users : w'.committed.users ≡ w.committed.users
  pub transactions : w'.committed.transactions ≡ w.committed.transactions
  pub asked : w'.asked ≡ w.asked
  pub sent : w'.sent ≡ w.sent

module _ (fee now : ℕ) where
  reevaluate-SameMoney : (k : ℕ) (w : World) → SameMoney w (reevaluate fee now k w)
  unfolding reevaluate
  reevaluate-SameMoney k w = ground arith

  reevaluate_step :
      (k i : ℕ) (w : World)
      → get i (reevaluate fee now k w).committed.bills ≡ (
          if k == i
          then acted fee now w.committed.users (get i w.committed.bills)
          else get i w.committed.bills)
  unfolding reevaluate
  reevaluate_step k i w = elim (Option-cases (get k w.committed.bills)) [
    | inl e ↦ ground arith
    | inr (b, e) ↦ elim (Option-cases (get b.user_id w.committed.users)) [
      | inl e' ↦ ground arith
      | inr (u, e') ↦
          ground (arith, get-put k i (record b { status = BillStatus.pending }) w.committed.bills)
    ]
  ]

  reevaluate_all-SameMoney : (ks : List ℕ) (w : World) → SameMoney w (reevaluate_all fee now ks w)
  unfolding reevaluate_all
  reevaluate_all-SameMoney [] w = record {
    users = refl;
    transactions = refl;
    asked = refl;
    sent = refl;
  }
  reevaluate_all-SameMoney (k ∷ ks) w =
      let one = reevaluate-SameMoney k w in
      let rest = reevaluate_all-SameMoney ks (reevaluate fee now k w) in
      record {
        users = rest.users ∙ one.users;
        transactions = rest.transactions ∙ one.transactions;
        asked = rest.asked ∙ one.asked;
        sent = rest.sent ∙ one.sent;
      }

  -- A bill that was acted on is not acted on again.
  acted_idem :
      (us : Table User) (o : Option Bill)
      → acted fee now us (acted fee now us o) ≡ acted fee now us o
  acted_idem us o = ground arith

abbrev is_among : ℕ → List ℕ → Bool
is_among i [] = false
is_among i (k ∷ ks) = if k == i then true else is_among i ks

module _ (fee now : ℕ) where
  reevaluate_all-get :
      (i : ℕ) (ks : List ℕ) (w : World)
      → get i (reevaluate_all fee now ks w).committed.bills ≡ (
          if is_among i ks
          then acted fee now w.committed.users (get i w.committed.bills)
          else get i w.committed.bills)
  unfolding reevaluate_all
  reevaluate_all-get i [] w = refl
  reevaluate_all-get i (k ∷ ks) w = ground (
    arith,
    reevaluate_all-get i ks (reevaluate fee now k w),
    reevaluate_step fee now k i w,
    (reevaluate-SameMoney fee now k w).users,
    acted_idem fee now w.committed.users (get i w.committed.bills),
  )

absent :
    (test : Bill → Bool) (i : ℕ) (t : Table Bill)
    → has_key i t ≡ false
    → is_among i (keys (select test t)) ≡ false
absent test i [] h = refl
absent test i ((j, b) ∷ t) h = ground (arith, absent test i t)

-- The query finds the key of a row exactly if the row passes.
among-select :
    (test : Bill → Bool) (i : ℕ) (b : Bill) (t : Table Bill)
    → UniqueKeys t
    → get i t ≡ some b
    → is_among i (keys (select test t)) ≡ test b
among-select test i b [] u h = cc
among-select test i b ((j, c) ∷ t) u h =
    ground (arith, among-select test i b t u.1, absent test j t u.0)

-- The balance covers the bill and the fee.
abbrev pub is_covered : ℕ → Option User → Bill → Bool
is_covered fee none b = false
is_covered fee (some user) b = leb (b.amount + fee) user.balance

-- For a due bill the agent's rule is the balance test: it never schedules again.
pays_now-due :
    (fee now : ℕ) (user : User) (b : Bill)
    → leb b.due_date now ≡ true
    → pays_now fee now user b ≡ leb (b.amount + fee) user.balance
unfolding run_agent days_between
pays_now-due fee now user b h = ground arith

module _ (fee now : ℕ) (w : World) where
  abbrev pub after : World
  after = process_scheduled_bills fee now w

  abbrev pub settled_bill : Bill → Bill
  settled_bill b =
      if is_due now b && is_covered fee (get b.user_id w.committed.users) b
      then record b { status = BillStatus.pending }
      else b

  acted_due :
      (b : Bill)
      → (if is_due now b then acted fee now w.committed.users (some b) else some b)
        ≡ some (settled_bill b)
  acted_due b = elim (Option-cases (get b.user_id w.committed.users)) [
    | inl e ↦ ground arith
    | inr (user, e) ↦ ground (arith, pays_now-due fee now user b)
  ]

  -- The job turns exactly the bills that are scheduled, due and covered with their fee by their
  -- user's wallet to pending, and leaves every other bill as it was, whatever is due first; no
  -- wallet and no transaction changes, and the gateway is asked for no transfer. (The ids of bills are
  -- unique.)
  pub process_scheduled_bills_outcome :
      UniqueKeys w.committed.bills
      → (bill_id : ℕ) (b : Bill) → get bill_id w.committed.bills ≡ some b
      → (get bill_id after.committed.bills ≡ some (settled_bill b)) × SameMoney w after
  unfolding process_scheduled_bills
  process_scheduled_bills_outcome unique bill_id b e = (
    ground (
      arith,
      reevaluate_all-get fee now bill_id (keys (select (is_due now) w.committed.bills)) w,
      among-select (is_due now) bill_id b w.committed.bills unique e,
      acted_due b,
    ),
    reevaluate_all-SameMoney fee now _ w,
  )
