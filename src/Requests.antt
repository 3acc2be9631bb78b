-- ===== src/Requests.antt =====
-- The requests and jobs that touch bills and transactions, one after another on the committed
-- database: which keys its tables have.
pub mod Sequences
pub mod Paid
pub mod Payments
pub mod Effects
pub mod Rewrites
pub mod Keys
pub mod Jobs
pub mod References
pub mod Sent
pub mod Lifecycle
pub mod Balance
pub mod Ahead
pub mod Kept
pub mod Uploads
pub mod Reached
pub mod Refined
use autopay.Base.{
  ℕ, ◌+◌, ◌≤◌, ◌<◌, ◌≡◌, String, Bool, none, some, arith, get, put, first, Table, KeysBelow,
  UniqueKeys, KeysBelow-put, KeysBelow-mono, UniqueKeys-put, key_below, get_of_first,
}

-- The keys are unique and come from a sequence that has reached `n`.
abbrev pub Fits {ℓ} : {V : Type ℓ} → ℕ → Table V → Type 0
Fits n t = KeysBelow n t × UniqueKeys t

module _ {ℓ} {V : Type ℓ} where
  pub Fits-put : (n k : ℕ) (v : V) (t : Table V) → Fits n t → k < n → Fits n (put k v t)
  Fits-put n k v t (below, unique) lt =
      (KeysBelow-put n k v t below lt, UniqueKeys-put k v t unique)

  pub Fits-mono : (n m : ℕ) (t : Table V) → Fits n t → n ≤ m → Fits m t
  Fits-mono n m t (below, unique) le = (KeysBelow-mono n m t below le, unique)

  pub Fits-put_known :
      (n k : ℕ) (v v' : V) (t : Table V) → Fits n t → get k t ≡ some v → Fits n (put k v' t)
  Fits-put_known n k v v' t fits e = Fits-put n k v' t fits (key_below n k v t fits.0 e)

  pub Fits-put-first :
      (n k : ℕ) (test : V → Bool) (v v' : V) (t : Table V)
      → Fits n t
      → first test t ≡ some (k, v)
      → Fits n (put k v' t)
  Fits-put-first n k test v v' t fits e =
      Fits-put_known n k v v' t fits (get_of_first test k v t fits.1 e)

  -- A new row takes the next key.
  pub Fits-put_new : (n m : ℕ) (v : V) (t : Table V) → Fits n t → n < m → Fits m (put n v t)
  Fits-put_new n m v t fits lt = Fits-put m n v t (Fits-mono n m t fits (omega arith)) lt
