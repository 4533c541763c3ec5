-- ===== src/ScopedMap/Trail.antt =====
-- The specification of base/src/scoped_map.rs: a trail of bindings and scope markers, the latest
-- first. A map represents a trail if its scopes are the trail's keys and markers, and if the vector
-- of each key holds the key's values in the trail.
use embed_lang.Prelude.{◌≡◌, refl, ite, Bool, true, false, List, [], ◌∷◌, head?, Option, none, some}
use embed_lang.ScopedMap.Assoc.{values_of}
use embed_lang.ScopedMap.{ScopedMap}

abbrev pub Trail {ℓ} : Type ℓ → Type ℓ → Type ℓ
Trail K V = List (Option (K × V))

module _ {ℓ} {K V : Type ℓ} where
  -- The scopes that record a trail.
  abbrev pub marks : Trail K V → List (Option K)
  marks [] = []
  marks (none ∷ t) = none ∷ marks t
  marks (some (k, v) ∷ t) = some k ∷ marks t

  -- To leave a scope: the bindings of the innermost scope, the latest first, and what is below it.
  abbrev pub leave : Trail K V → List (K × V) × Trail K V
  leave [] = ([], [])
  leave (none ∷ t) = ([], t)
  leave (some e ∷ t) = let (es, rest) = leave t in (e ∷ es, rest)

module _ {ℓ} {K V : Type ℓ} (dec : Discrete K) where
  -- The values bound to a key, the latest first.
  abbrev pub values : K → Trail K V → List V
  values k [] = []
  values k (none ∷ t) = values k t
  values k (some (j, v) ∷ t) = ite (dec j k) (v ∷ values k t) (values k t)

  -- The latest value bound to a key, in any scope.
  abbrev pub latest : K → Trail K V → Option V
  latest k [] = none
  latest k (none ∷ t) = latest k t
  latest k (some (j, v) ∷ t) = ite (dec j k) (some v) (latest k t)

  -- Whether the innermost scope binds a key.
  abbrev pub bound_here : K → Trail K V → Bool
  bound_here k [] = false
  bound_here k (none ∷ t) = false
  bound_here k (some (j, v) ∷ t) = elim (dec j k) [ yes p ↦ true | no p ↦ bound_here k t ]

  -- Gives the latest binding of a key another value.
  abbrev pub rebind : K → V → Trail K V → Trail K V
  rebind k v [] = []
  rebind k v (none ∷ t) = none ∷ rebind k v t
  rebind k v (some (j, w) ∷ t) = ite (dec j k) (some (j, v) ∷ t) (some (j, w) ∷ rebind k v t)

  -- Drops the latest binding of a key.
  abbrev pub forget : K → Trail K V → Trail K V
  forget k [] = []
  forget k (none ∷ t) = none ∷ forget k t
  forget k (some (j, w) ∷ t) = ite (dec j k) t (some (j, w) ∷ forget k t)

  -- The trail without any binding of a key.
  abbrev pub forget_all : K → Trail K V → Trail K V
  forget_all k [] = []
  forget_all k (none ∷ t) = none ∷ forget_all k t
  forget_all k (some (j, w) ∷ t) =
      let rest = forget_all k t in ite (dec j k) rest (some (j, w) ∷ rest)

  pub record Represents (m : ScopedMap K V) (t : Trail K V) : Type ℓ where
    pub scopes_eq : m.scopes ≡ marks t
    pub values_eq : (k : K) → values_of dec k m.map ≡ values k t

  pub latest-values : (k : K) (t : Trail K V) → head? (values k t) ≡ latest k t
  latest-values k [] = refl
  latest-values k (none ∷ t) = latest-values k t
  latest-values k (some (j, v) ∷ t) =
      elim (dec j k)
        as (λ d. head? (ite d (v ∷ values k t) (values k t)) ≡ ite d (some v) (latest k t)) [
          | yes p ↦ refl
          | no p ↦ latest-values k t
        ]
