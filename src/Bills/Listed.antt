-- ===== src/Bills/Listed.antt =====
-- `list_bills`: which bills it answers, and in which order.
use autopay.Base.{
  ℕ, ◌≤◌, ◌≡◌, ◌∙◌, ap, refl, Bool, false, Option, none, some, [], ◌∷◌, String, arith,
  if◌then◌else◌, ◌==◌, get, select, has_key, UniqueKeys, Table,
}
use autopay.Models.{Bill}
use autopay.Session.{ok, World}
use autopay.Bills.{is_listed, insert_by_due, order_by_due, list_bills}

-- No row is due before the moment.
abbrev pub NoneBefore : ℕ → Table Bill → Type 0
NoneBefore d [] = Unit {0}
NoneBefore d ((k, b) ∷ t) = (d ≤ b.due_date) × NoneBefore d t

-- Each row is followed by rows that are due no earlier.
abbrev pub IsAscending : Table Bill → Type 0
IsAscending [] = Unit {0}
IsAscending ((k, b) ∷ t) = NoneBefore b.due_date t × IsAscending t

-- A row that passes a test, or none.
abbrev pub keep : (Bill → Bool) → Option Bill → Option Bill
keep test none = none
keep test (some b) = if test b then some b else none

NoneBefore-mono : (d e : ℕ) (t : Table Bill) → d ≤ e → NoneBefore e t → NoneBefore d t
NoneBefore-mono d e [] le h = tt
NoneBefore-mono d e ((k, b) ∷ t) le h = ground (arith, NoneBefore-mono d e t le h.1)

NoneBefore-insert_by_due :
    (d k : ℕ) (b : Bill) (t : Table Bill)
    → d ≤ b.due_date
    → NoneBefore d t
    → NoneBefore d (insert_by_due (k, b) t)
unfolding insert_by_due
NoneBefore-insert_by_due d k b [] le h = (le, tt)
NoneBefore-insert_by_due d k b ((j, c) ∷ t) le h =
    ground (arith, NoneBefore-insert_by_due d k b t le h.1)

IsAscending-insert_by_due :
    (k : ℕ) (b : Bill) (t : Table Bill) → IsAscending t → IsAscending (insert_by_due (k, b) t)
unfolding insert_by_due
IsAscending-insert_by_due k b [] h = (tt, tt)
IsAscending-insert_by_due k b ((j, c) ∷ t) h = ground (
  arith,
  IsAscending-insert_by_due k b t h.1,
  NoneBefore-insert_by_due c.due_date k b t,
  NoneBefore-mono b.due_date c.due_date t,
)

order_by_due-IsAscending : (t : Table Bill) → IsAscending (order_by_due t)
unfolding order_by_due
order_by_due-IsAscending [] = tt
order_by_due-IsAscending ((k, b) ∷ t) =
    IsAscending-insert_by_due k b (order_by_due t) (order_by_due-IsAscending t)

get_missing : (k : ℕ) (t : Table Bill) → has_key k t ≡ false → get k t ≡ none
get_missing k [] h = refl
get_missing k ((j, c) ∷ t) h = ground (arith, get_missing k t)

get-insert_by_due :
    (i k : ℕ) (b : Bill) (t : Table Bill)
    → get k t ≡ none
    → get i (insert_by_due (k, b) t) ≡ (if k == i then some b else get i t)
unfolding insert_by_due
get-insert_by_due i k b [] h = ground arith
get-insert_by_due i k b ((j, c) ∷ t) h = ground (arith, get-insert_by_due i k b t)

get-order_by_due : (i : ℕ) (t : Table Bill) → UniqueKeys t → get i (order_by_due t) ≡ get i t
unfolding order_by_due
get-order_by_due i [] u = refl
get-order_by_due i ((k, b) ∷ t) u =
    get-insert_by_due i k b (order_by_due t) (get-order_by_due k t u.1 ∙ get_missing k t u.0)
    ∙ ap (λ (o : Option Bill). if k == i then some b else o) (get-order_by_due i t u.1)

has_key-select :
    (test : Bill → Bool) (k : ℕ) (t : Table Bill)
    → has_key k t ≡ false
    → has_key k (select test t) ≡ false
has_key-select test k [] h = refl
has_key-select test k ((j, c) ∷ t) h = ground (arith, has_key-select test k t)

UniqueKeys-select :
    (test : Bill → Bool) (t : Table Bill) → UniqueKeys t → UniqueKeys (select test t)
UniqueKeys-select test [] u = tt
UniqueKeys-select test ((j, c) ∷ t) u =
    ground (arith, UniqueKeys-select test t u.1, has_key-select test j t)

get-select :
    (test : Bill → Bool) (i : ℕ) (t : Table Bill)
    → UniqueKeys t
    → get i (select test t) ≡ keep test (get i t)
get-select test i [] u = refl
get-select test i ((j, c) ∷ t) u = ground (arith, get-select test i t u.1, get_missing j t u.0)

module _ (user_id : ℕ) (status_filter : Option String) (w : World) where
  -- The answer contains exactly the committed bills of the user, with the status that the filter
  -- names if it names one, each as it is in the database, by due date from the earliest on; nothing
  -- committed changes. (The ids of bills are unique.)
  pub list_bills_outcome :
      UniqueKeys w.committed.bills
      → (rows : Table Bill) × (list_bills user_id status_filter w
          ≡ (ok rows, record w { work = w.committed }))
        × IsAscending rows
        × ((i : ℕ) → get i rows ≡ keep (is_listed user_id status_filter) (get i w.committed.bills))
  unfolding list_bills
  list_bills_outcome unique =
      let test = is_listed user_id status_filter in
      let rows = select test w.committed.bills in
      (
        order_by_due rows,
        refl,
        order_by_due-IsAscending rows,
        λ i.
            get-order_by_due i rows (UniqueKeys-select test w.committed.bills unique)
            ∙ get-select test i w.committed.bills unique,
      )
