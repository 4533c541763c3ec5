-- ===== src/ScopedMap.antt =====
-- base/src/scoped_map.rs: a map in which a key may be bound at several scope levels.
-- A `Vec` that the code uses as a stack (the values of a key, the scopes) is a list whose head is
-- the vector's last element. The hash map is an association list, and a key that was bound once
-- keeps its entry there with an empty vector, as in the code.
mod Assoc
pub mod Trail
pub mod Laws
pub mod Leaving
pub mod Nesting
mod Tests
use mathlib.Core.Option
use embed_lang.Prelude.{
  ℕ, zero, suc, ◌+◌, ite, Bool, true, false, List, [], ◌∷◌, reverse, head?, tail, Option, none,
  some, length, Outcome, returns, panics, ◌>>=◌,
}
use Assoc.{Table, find, adjust, alter}

pub record ScopedMap {ℓ} (K V : Type ℓ) : Type ℓ where
  pub map : Table K V
  pub scopes : List (Option K)

unfoldable pub new {ℓ} : {K V : Type ℓ} → ScopedMap K V
new = record { map = []; scopes = [] }

-- The number of markers in the scopes.
markers {ℓ} : {K : Type ℓ} → List (Option K) → ℕ
markers [] = 0
markers (none ∷ s) = suc (markers s)
markers (some k ∷ s) = markers s

module _ {ℓ} {K V : Type ℓ} where
  unfoldable pub num_scopes : ScopedMap K V → ℕ
  unfolding markers
  num_scopes m = markers m.scopes + 1

  unfoldable pub enter_scope : ScopedMap K V → ScopedMap K V
  enter_scope m = record m { scopes = none ∷ m.scopes }

  -- `map.values().map(|v| v.len()).sum()`
  total : Table K V → ℕ
  total [] = 0
  total ((k, vs) ∷ t) = length vs + total t

  unfoldable pub len : ScopedMap K V → ℕ
  unfolding total
  len m = total m.map

  unfoldable pub is_empty : ScopedMap K V → Bool
  is_empty m = elim m.map [ [] ↦ true | e ∷ t ↦ false ]

  unfoldable pub clear : ScopedMap K V → ScopedMap K V
  clear m = record m { map = []; scopes = [] }

  -- The keys that have a value, with the last one.
  entries : Table K V → List (K × V)
  entries [] = []
  entries ((k, []) ∷ t) = entries t
  entries ((k, v ∷ vs) ∷ t) = (k, v) ∷ entries t

  unfoldable pub iter : ScopedMap K V → List (K × V)
  unfolding entries
  iter m = entries m.map

module _ {ℓ} {K : Type ℓ} (dec : Discrete K) where
  -- The loop of `in_current_scope`.
  pub in_scope : List (Option K) → K → Bool
  in_scope [] k = false
  in_scope (none ∷ s) k = false
  in_scope (some j ∷ s) k = elim (dec j k) [ yes p ↦ true | no p ↦ in_scope s k ]

  -- The loop of `remove`, from the innermost scope: `expect` panics at a marker.
  pub remove_scope : List (Option K) → K → Outcome (List (Option K))
  remove_scope [] k = returns []
  remove_scope (none ∷ s) k = panics
  remove_scope (some j ∷ s) k =
      ite (dec j k) (returns s) (do s' ← remove_scope s k; returns (some j ∷ s'))

  -- The loop of `pop`, which has no `break`.
  pub remove_scopes : List (Option K) → K → List (Option K)
  remove_scopes [] k = []
  remove_scopes (none ∷ s) k = none ∷ remove_scopes s k
  remove_scopes (some j ∷ s) k = let rest = remove_scopes s k in ite (dec j k) rest (some j ∷ rest)

module _ {ℓ} {K V : Type ℓ} (dec : Discrete K) where
  unfoldable pub get : ScopedMap K V → K → Option V
  get m k = Option.bind (find dec k m.map) head?

  -- The slice of a key's vector, in the vector's order.
  unfoldable pub get_all : ScopedMap K V → K → Option (List V)
  get_all m k = Option.map reverse (find dec k m.map)

  unfoldable pub contains_key : ScopedMap K V → K → Bool
  unfolding get
  contains_key m k = elim (get m k) [ none ↦ false | some v ↦ true ]

  unfoldable pub in_current_scope : ScopedMap K V → K → Bool
  unfolding in_scope
  in_current_scope m k = in_scope dec m.scopes k

  -- `current_scope`: a key without a value is a panic.
  listed : ScopedMap K V → List (Option K) → Outcome (List (K × V))
  listed m [] = returns []
  listed m (none ∷ s) = returns []
  listed m (some k ∷ s) = elim (get m k) [
    | none ↦ panics
    | some v ↦ do rest ← listed m s; returns ((k, v) ∷ rest)
  ]

  unfoldable pub current_scope : ScopedMap K V → Outcome (List (K × V))
  unfolding listed get
  current_scope m = listed m m.scopes

  -- `insert`, with the `insert` of a vacant and of an occupied entry: all of them push the key on
  -- the scopes and the value on the key's vector. The result is whether the key had a value.
  unfoldable pub insert : ScopedMap K V → K → V → ScopedMap K V × Bool
  unfolding contains_key
  insert m k v = (
    record m { map = alter dec k (λ vs. v ∷ vs) m.map; scopes = some k ∷ m.scopes },
    contains_key m k,
  )

  unfoldable pub extend : ScopedMap K V → List (K × V) → ScopedMap K V
  unfolding insert
  extend m [] = m
  extend m ((k, v) ∷ es) = extend (insert m k v).0 es

  -- `entry(k).or_insert(default)`
  unfoldable pub or_insert : ScopedMap K V → K → V → ScopedMap K V × V
  unfolding insert get
  or_insert m k default = elim (get m k) [
    | none ↦ ((insert m k default).0, default)
    | some v ↦ (m, v)
  ]

  unfoldable pub swap : ScopedMap K V → K → V → ScopedMap K V × Option V
  unfolding get
  swap m k v = elim (get m k) [
    | none ↦ (record m { map = alter dec k (λ vs. v ∷ vs) m.map; scopes = some k ∷ m.scopes }, none)
    | some r ↦ (record m { map = alter dec k (λ vs. v ∷ tail vs) m.map }, some r)
  ]

  unfoldable pub remove : ScopedMap K V → K → Outcome (ScopedMap K V × Option V)
  unfolding remove_scope
  remove m k = elim (find dec k m.map) [
    | none ↦ returns (m, none)
    | some vs ↦ do
      s ← remove_scope dec m.scopes k
      returns (record m { map = adjust dec k tail m.map; scopes = s }, head? vs)
  ]

  unfoldable pub pop : ScopedMap K V → K → ScopedMap K V × Option V
  unfolding remove_scopes get
  pop m k = elim (get m k) [
    | none ↦ (m, none)
    | some v ↦
        (record m { map = adjust dec k tail m.map; scopes = remove_scopes dec m.scopes k }, some v)
  ]

  -- One `next` of `ExitScopeIter`: the pair that is removed, the map, and `done`.
  take_scope : ScopedMap K V → List (Option K) → Option (K × V) × ScopedMap K V × Bool
  take_scope m [] = (none, m, true)
  take_scope m (none ∷ s) = (none, record m { scopes = s }, true)
  take_scope m (some k ∷ s) =
      let m' = record m { map = adjust dec k tail m.map; scopes = s } in
      elim (get m k) [ none ↦ (none, m', true) | some v ↦ (some (k, v), m', false) ]

  next : ScopedMap K V → Bool → Option (K × V) × ScopedMap K V × Bool
  unfolding take_scope get
  next m true = (none, m, true)
  next m false = take_scope m m.scopes

  -- The loop of the iterator's `drop`, on fuel.
  drain : ℕ → ScopedMap K V → Bool → List (K × V) × ScopedMap K V
  drain zero m done = ([], m)
  drain (suc fuel) m done =
      let (item, m', done') = next m done in
      elim item [
        | none ↦ ([], m')
        | some e ↦ let (rest, end) = drain fuel m' done' in (e ∷ rest, end)
      ]

  -- `exit_scope`, with the iterator run to its end: each call takes a scope off, and the fuel
  -- counts the scopes.
  unfoldable pub exit_scope : ScopedMap K V → List (K × V) × ScopedMap K V
  unfolding drain next
  exit_scope m = drain (suc (length m.scopes)) m false
