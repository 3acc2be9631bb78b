-- ===== src/Base/Tables.antt =====
-- A database table: rows under their primary keys.
use Prim.Native.Nat.{ℕ, ◌+◌, ◌≤◌, ◌<◌}
use mathlib.Core.Path.{◌≡◌, refl}
use mathlib.Core.Logic.{◌≢◌}
use mathlib.Core.Bool.{Bool, true, false}
use mathlib.Core.Option.{Option, none, some}
use mathlib.Core.List.{List, [], ◌∷◌}
use native.Mathlib.Omega.{arith}
use autopay.Base.Tests.{◌==◌, if◌then◌else◌}

abbrev pub Table {ℓ} : Type ℓ → Type ℓ
Table V = List (ℕ × V)

module _ {ℓ} {V : Type ℓ} where
  -- `session.get(Model, k)`
  abbrev pub get : ℕ → Table V → Option V
  get k [] = none
  get k ((j, v) ∷ t) = if j == k then some v else get k t

  -- An update of the row `k`, or an insertion under a key that no row has.
  abbrev pub put : ℕ → V → Table V → Table V
  put k v [] = (k, v) ∷ []
  put k v ((j, w) ∷ t) = if j == k then (j, v) ∷ t else (j, w) ∷ put k v t

  -- `select(Model).where(test)`, in the order of the rows.
  abbrev pub select : (V → Bool) → Table V → Table V
  select test [] = []
  select test ((j, v) ∷ t) = let rest = select test t in if test v then (j, v) ∷ rest else rest

  -- `select(Model).where(test).first()`
  abbrev pub first : (V → Bool) → Table V → Option (ℕ × V)
  first test [] = none
  first test ((j, v) ∷ t) = if test v then some (j, v) else first test t

  -- The keys are below `n`, as a sequence that has reached `n` has given them out.
  abbrev pub KeysBelow : ℕ → Table V → Type 0
  KeysBelow n [] = Unit
  KeysBelow n ((j, v) ∷ t) = (j < n) × KeysBelow n t

  pub get-put_self : (k : ℕ) (v : V) (t : Table V) → get k (put k v t) ≡ some v
  get-put_self k v [] = ground arith
  get-put_self k v ((j, w) ∷ t) = ground (arith, get-put_self k v t)

  pub get-put_ne : (k i : ℕ) (v : V) (t : Table V) → k ≢ i → get i (put k v t) ≡ get i t
  get-put_ne k i v [] h = ground arith
  get-put_ne k i v ((j, w) ∷ t) h = ground (arith, get-put_ne k i v t h)

  pub get-put :
      (k i : ℕ) (v : V) (t : Table V) → get i (put k v t) ≡ (if k == i then some v else get i t)
  get-put k i v [] = refl
  get-put k i v ((j, w) ∷ t) = ground (arith, get-put k i v t)

  pub put-put : (k : ℕ) (v w : V) (t : Table V) → put k v (put k w t) ≡ put k v t
  put-put k v w [] = ground arith
  put-put k v w ((j, u) ∷ t) = ground (arith, put-put k v w t)

  pub put-get : (k : ℕ) (v : V) (t : Table V) → get k t ≡ some v → put k v t ≡ t
  put-get k v [] h = ground arith
  put-get k v ((j, w) ∷ t) h = ground (arith, put-get k v t)

  pub KeysBelow-put :
      (n k : ℕ) (v : V) (t : Table V) → KeysBelow n t → k < n → KeysBelow n (put k v t)
  KeysBelow-put n k v [] h lt = ground arith
  KeysBelow-put n k v ((j, w) ∷ t) h lt = ground (arith, KeysBelow-put n k v t h.1)

  pub KeysBelow-mono : (n m : ℕ) (t : Table V) → KeysBelow n t → n ≤ m → KeysBelow m t
  KeysBelow-mono n m [] h le = tt
  KeysBelow-mono n m ((j, w) ∷ t) h le = ground (arith, KeysBelow-mono n m t h.1)

  pub key_below : (n k : ℕ) (v : V) (t : Table V) → KeysBelow n t → get k t ≡ some v → k < n
  key_below n k v [] h e = absurd (cc)
  key_below n k v ((j, w) ∷ t) h e = ground (arith, key_below n k v t h.1)

  pub get_of_KeysBelow : (n k : ℕ) (t : Table V) → KeysBelow n t → n < k + 1 → get k t ≡ none
  get_of_KeysBelow n k [] h lt = refl
  get_of_KeysBelow n k ((j, w) ∷ t) h lt = ground (arith, get_of_KeysBelow n k t h.1 lt)

  abbrev pub has_key : ℕ → Table V → Bool
  has_key k [] = false
  has_key k ((j, v) ∷ t) = if j == k then true else has_key k t

  -- The primary key is unique.
  abbrev pub UniqueKeys : Table V → Type 0
  UniqueKeys [] = Unit
  UniqueKeys ((j, v) ∷ t) = (has_key j t ≡ false) × UniqueKeys t

  has_key-put_ne : (k i : ℕ) (v : V) (t : Table V) → k ≢ i → has_key i (put k v t) ≡ has_key i t
  has_key-put_ne k i v [] h = ground arith
  has_key-put_ne k i v ((j, w) ∷ t) h = ground (arith, has_key-put_ne k i v t h)

  get_of_has_key : (k : ℕ) (t : Table V) → has_key k t ≡ false → get k t ≡ none
  get_of_has_key k [] h = refl
  get_of_has_key k ((j, w) ∷ t) h = ground (arith, get_of_has_key k t)

  pub first-has_key :
      (test : V → Bool) (k : ℕ) (v : V) (t : Table V)
      → first test t ≡ some (k, v)
      → has_key k t ≡ true
  first-has_key test k v [] h = cc
  first-has_key test k v ((j, w) ∷ t) h = ground (arith, first-has_key test k v t)

  pub UniqueKeys-put : (k : ℕ) (v : V) (t : Table V) → UniqueKeys t → UniqueKeys (put k v t)
  UniqueKeys-put k v [] h = ground arith
  UniqueKeys-put k v ((j, w) ∷ t) h =
      ground (arith, UniqueKeys-put k v t h.1, has_key-put_ne k j v t)

  -- What a query finds is the row under its key.
  pub get_of_first :
      (test : V → Bool) (k : ℕ) (v : V) (t : Table V)
      → UniqueKeys t
      → first test t ≡ some (k, v)
      → get k t ≡ some v
  get_of_first test k v [] u h = cc
  get_of_first test k v ((j, w) ∷ t) u h =
      ground (arith, get_of_first test k v t u.1, first-has_key test k v t)

  pub first_passes :
      (test : V → Bool) (k : ℕ) (v : V) (t : Table V) → first test t ≡ some (k, v) → test v ≡ true
  first_passes test k v [] h = cc
  first_passes test k v ((j, w) ∷ t) h = ground (arith, first_passes test k v t)

  -- A row that is updated and still passes the test is still the first one.
  pub first-put_self :
      (test : V → Bool) (k : ℕ) (v v' : V) (t : Table V)
      → first test t ≡ some (k, v)
      → get k t ≡ some v
      → test v' ≡ true
      → first test (put k v' t) ≡ some (k, v')
  first-put_self test k v v' [] h g p = cc
  first-put_self test k v v' ((j, w) ∷ t) h g p =
      ground (arith, first-put_self test k v v' t, first_passes test k v ((j, w) ∷ t) h)

  -- A new row that alone passes the test is found.
  pub first-put_new :
      (test : V → Bool) (k : ℕ) (v : V) (t : Table V)
      → first test t ≡ none
      → get k t ≡ none
      → test v ≡ true
      → first test (put k v t) ≡ some (k, v)
  first-put_new test k v [] h g p = ground arith
  first-put_new test k v ((j, w) ∷ t) h g p = ground (arith, first-put_new test k v t)

  -- A new row behind the first one that passes the test.
  pub first-put_keep :
      (test : V → Bool) (k n : ℕ) (v x : V) (t : Table V)
      → first test t ≡ some (k, v)
      → get n t ≡ none
      → first test (put n x t) ≡ some (k, v)
  first-put_keep test k n v x [] h g = cc
  first-put_keep test k n v x ((j, w) ∷ t) h g = ground (arith, first-put_keep test k n v x t)
