-- ===== src/Requests/Kept.antt =====
-- The recurrence job keeps every bill that there is, but for the date of its next recurrence.
use autopay.Base.{
  ℕ, ◌≤◌, ◌≡◌, inl, inr, refl, ◌∙◌, not, ◌||◌, none, some, List, [], ◌∷◌, arith, Table, get, put,
  get-put, truthy, get_of_KeysBelow, Option-cases, Bool-cases,
}
use autopay.Models.{Bill}
use autopay.Session.{World}
use autopay.Payout.Recurrence.{next_of}
use autopay.Scheduler.{spawn, spawn_all, process_recurring_bills}
use autopay.Scheduler.Recurring.{moved, spawn_effect}
use autopay.Requests.Keys.{Consistent}
use autopay.Requests.Jobs.{spawn_missing, spawn_once, recurring, spawn-Consistent}
use autopay.Requests.Sent.{spawn_all-Silent}
use autopay.Requests.Lifecycle.{Follow, in_process, Balanced}
use autopay.Requests.Balance.{Onwards, bills-Onwards}

-- Every bill is still there, with its status, amount and owner.
abbrev Kept : Table Bill → Table Bill → Type 0
Kept t t' =
    (k : ℕ) (b : Bill)
    → get k t ≡ some b
    → (b' : Bill) × (get k t' ≡ some b')
      × (b'.status ≡ b.status)
      × (b'.amount ≡ b.amount)
      × (b'.user_id ≡ b.user_id)

Kept-trans : (t t' t'' : Table Bill) → Kept t t' → Kept t' t'' → Kept t t''
Kept-trans t t' t'' first second k b e =
    let (b', e', s, a, u) = first k b e in
    let (b'', e'', s', a', u') = second k b' e' in (b'', e'', s' ∙ s, a' ∙ a, u' ∙ u)

spawned-Kept :
    (j n : ℕ) (b new : Bill) (t : Table Bill)
    → get j t ≡ some b
    → get n t ≡ none
    → Kept t (put n new (put j (moved b) t))
spawned-Kept j n b new t e free k c h =
    let second = get-put n k new (put j (moved b) t) in ground (arith, get-put j k (moved b) t)

spawn-Kept : (j : ℕ) (w : World) → Consistent w → Kept w.committed.bills (spawn j w).committed.bills
spawn-Kept j w c = elim (Option-cases (get j w.committed.bills)) [
  | inl e ↦ rw (spawn_missing w c j e).0 (λ k b h. (b, h, refl, refl, refl))
  | inr (b, e) ↦ elim (Bool-cases (not b.is_recurring || not (truthy b.recurrence_interval))) [
    | inl once ↦ rw (spawn_once w c j b e once).0 (λ k b h. (b, h, refl, refl, refl))
    | inr more ↦
        let (bills, _, _, _, _) = spawn_effect j b w c.bills.0 e (recurring w c j b e more) in
        let free =
          get_of_KeysBelow w.next_bill w.next_bill w.committed.bills c.bills.0 (omega arith) in
        rw bills (spawned-Kept j w.next_bill b (next_of b) w.committed.bills e free)
  ]
]

spawn_all-Kept :
    (ks : List ℕ) (w : World)
    → Consistent w
    → Kept w.committed.bills (spawn_all ks w).committed.bills
unfolding spawn_all
spawn_all-Kept [] w c = λ k b e. (b, e, refl, refl, refl)
spawn_all-Kept (j ∷ ks) w c =
    Kept-trans _ _ _ (spawn-Kept j w c) (spawn_all-Kept ks (spawn j w) (spawn-Consistent w c j))

Kept-Follow : (t t' : Table Bill) → Kept t t' → Follow t t'
Kept-Follow t t' kept k b e =
    let (b', e', s, a, u) = kept k b e in
    (b', e', record { status = inl s; amount = a; user_id = u })

Kept-more : (t t' : Table Bill) → Kept t t' → (k : ℕ) → in_process (get k t) ≤ in_process (get k t')
Kept-more t t' kept k = elim (Option-cases (get k t)) [
  | inl e ↦ rw e (omega arith)
  | inr (b, e) ↦ let (b', e', s, _, _) = kept k b e in rw (e, e', s) (omega arith)
]

pub recurring-Ahead :
    (w : World) (now : ℕ)
    → Consistent w
    → Balanced w.committed.bills w.committed.transactions
    → Onwards w.committed (process_recurring_bills now w).committed
unfolding process_recurring_bills
recurring-Ahead w now c balanced =
    let kept = spawn_all-Kept _ w c in
    bills-Onwards w.committed (process_recurring_bills now w).committed c.transactions.1 balanced
      (Kept-Follow _ _ kept) (Kept-more _ _ kept) (spawn_all-Silent _ w).1
