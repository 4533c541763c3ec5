-- ===== src/ScopedMap/Laws.antt =====
-- base/src/scoped_map.rs: the operations of the map against its trail of bindings.
use mathlib.Core.Option
use embed_lang.Prelude.{
  ◌≡◌, refl, ◌≢◌, ◌∙◌, ap, sym, true, List, [], ◌∷◌, head?, tail, none, some, returns, arith, inl,
  inr, Option-cases,
}
use embed_lang.ScopedMap.Assoc.{
  find, alter, adjust, values_of, values_of-find-some, values_of-find-none, values_of-alter_self,
  values_of-alter_ne, values_of-adjust_self, values_of-adjust_ne,
}
use embed_lang.ScopedMap.{
  ScopedMap, new, enter_scope, get, contains_key, in_scope, in_current_scope, insert, swap,
  remove_scope,
}
use embed_lang.ScopedMap.Trail.{
  Trail, marks, values, latest, bound_here, rebind, forget, Represents, latest-values,
}

module _ {ℓ} {K V : Type ℓ} (dec : Discrete K) where
  get-values_of : (m : ScopedMap K V) (k : K) → get dec m k ≡ head? (values_of dec k m.map)
  unfolding get Option.bind
  get-values_of m k = elim (Option-cases (find dec k m.map)) [
    | inl e ↦ rw (values_of-find-none dec k m.map e, e)
    | inr (vs, e) ↦ rw (values_of-find-some dec k m.map vs e, e)
  ]

  -- In a map that represents a trail, `get` returns the latest binding of the key.
  pub get-latest :
      (m : ScopedMap K V) (t : Trail K V)
      → Represents dec m t
      → (k : K) → get dec m k ≡ latest dec k t
  get-latest m t r k = get-values_of m k ∙ ap head? (r.values_eq k) ∙ latest-values dec k t

  pub new-Represents : Represents {V = V} dec new []
  unfolding new values_of
  new-Represents = record { scopes_eq = refl; values_eq = λ k. refl }

  -- The new map represents the empty trail, and `enter_scope` adds a marker.
  pub enter_scope-Represents :
      (m : ScopedMap K V) (t : Trail K V)
      → Represents dec m t
      → Represents {V = V} dec new [] × Represents dec (enter_scope m) (none ∷ t)
  unfolding enter_scope
  enter_scope-Represents m t r =
      (new-Represents, record { scopes_eq = ap (◌∷◌ none) r.scopes_eq; values_eq = r.values_eq })

  values_of-bind :
      (m : ScopedMap K V) (t : Trail K V) (k : K) (v : V)
      → Represents dec m t
      → (q : K)
      → values_of dec q (alter dec k (λ vs. v ∷ vs) m.map) ≡ values dec q (some (k, v) ∷ t)
  values_of-bind m t k v r q =
      let push : List V → List V = λ vs. v ∷ vs in
      ground (
        arith,
        values_of-alter_self dec k push m.map,
        values_of-alter_ne dec k q push m.map,
        r.values_eq k,
        r.values_eq q,
      )

  pub insert-Represents :
      (m : ScopedMap K V) (t : Trail K V) (k : K) (v : V)
      → Represents dec m t
      → Represents dec (insert dec m k v).0 (some (k, v) ∷ t)
        × ((insert dec m k v).1 ≡ contains_key dec m k)
  unfolding insert
  insert-Represents m t k v r = (
    record { scopes_eq = ap (◌∷◌ (some k)) r.scopes_eq; values_eq = values_of-bind m t k v r },
    refl,
  )

  in_scope-bound_here : (k : K) (t : Trail K V) → in_scope dec (marks t) k ≡ bound_here dec k t
  unfolding in_scope
  in_scope-bound_here k [] = refl
  in_scope-bound_here k (none ∷ t) = refl
  in_scope-bound_here k (some (j, v) ∷ t) = ground (arith, in_scope-bound_here k t)

  -- In a map that represents a trail, `in_current_scope` tells whether the innermost scope binds the key.
  pub in_current_scope-bound_here :
      (m : ScopedMap K V) (t : Trail K V)
      → Represents dec m t
      → (k : K) → in_current_scope dec m k ≡ bound_here dec k t
  unfolding in_current_scope
  in_current_scope-bound_here m t r k = rw r.scopes_eq (in_scope-bound_here k t)

  marks-rebind : (k : K) (v : V) (t : Trail K V) → marks (rebind dec k v t) ≡ marks t
  marks-rebind k v [] = refl
  marks-rebind k v (none ∷ t) = ap (◌∷◌ none) (marks-rebind k v t)
  marks-rebind k v (some (j, w) ∷ t) = ground (arith, marks-rebind k v t)

  values-rebind_self :
      (k : K) (v w : V) (t : Trail K V)
      → latest dec k t ≡ some w
      → values dec k (rebind dec k v t) ≡ v ∷ tail (values dec k t)
  values-rebind_self k v w [] h = cc
  values-rebind_self k v w (none ∷ t) h = values-rebind_self k v w t h
  values-rebind_self k v w (some (j, u) ∷ t) h = ground (arith, values-rebind_self k v w t)

  values-rebind_ne :
      (k q : K) (v : V) (t : Trail K V) → k ≢ q → values dec q (rebind dec k v t) ≡ values dec q t
  values-rebind_ne k q v [] h = refl
  values-rebind_ne k q v (none ∷ t) h = values-rebind_ne k q v t h
  values-rebind_ne k q v (some (j, u) ∷ t) h = ground (arith, values-rebind_ne k q v t)

  values_of-rebind :
      (m : ScopedMap K V) (t : Trail K V) (k : K) (v w : V)
      → Represents dec m t
      → latest dec k t ≡ some w
      → (q : K)
      → values_of dec q (alter dec k (λ vs. v ∷ tail vs) m.map) ≡ values dec q (rebind dec k v t)
  values_of-rebind m t k v w r h q =
      let put : List V → List V = λ vs. v ∷ tail vs in
      elim (dec k q) [
        | yes p ↦ ground (
          arith,
          values_of-alter_self dec k put m.map,
          r.values_eq k,
          values-rebind_self k v w t h,
        )
        | no p ↦
            ground
              (arith, values_of-alter_ne dec k q put m.map, r.values_eq q, values-rebind_ne k q v t)
      ]

  -- In a map that represents a trail, `swap` replaces the latest binding of a key, which keeps its scope, and returns the old value.
  -- A key without a binding is bound in the innermost scope.
  pub swap-Represents :
      (m : ScopedMap K V) (t : Trail K V) (k : K) (v : V)
      → Represents dec m t
      → ((swap dec m k v).1 ≡ latest dec k t)
        × Represents dec
            (swap dec m k v).0
            (elim (latest dec k t) [ none ↦ some (k, v) ∷ t | some w ↦ rebind dec k v t ])
  unfolding swap
  swap-Represents m t k v r = elim (Option-cases (latest dec k t)) [
    | inl e ↦
        rw (get-latest m t r k, e, swap)
          (
            refl,
            record {
              scopes_eq = ap (◌∷◌ (some k)) r.scopes_eq;
              values_eq = values_of-bind m t k v r;
            },
          )
    | inr (w, e) ↦
        rw (get-latest m t r k, e, swap)
          (
            refl,
            record {
              scopes_eq = r.scopes_eq ∙ sym (marks-rebind k v t);
              values_eq = values_of-rebind m t k v w r e;
            },
          )
  ]

  pub marks-forget :
      (k : K) (t : Trail K V)
      → bound_here dec k t ≡ true
      → remove_scope dec (marks t) k ≡ returns (marks (forget dec k t))
  unfolding remove_scope
  marks-forget k [] h = cc
  marks-forget k (none ∷ t) h = cc
  marks-forget k (some (j, w) ∷ t) h = ground (arith, marks-forget k t)

  pub values-forget_self :
      (k : K) (t : Trail K V) → values dec k (forget dec k t) ≡ tail (values dec k t)
  values-forget_self k [] = refl
  values-forget_self k (none ∷ t) = values-forget_self k t
  values-forget_self k (some (j, u) ∷ t) = ground (arith, values-forget_self k t)

  values-forget_ne :
      (k q : K) (t : Trail K V) → k ≢ q → values dec q (forget dec k t) ≡ values dec q t
  values-forget_ne k q [] h = refl
  values-forget_ne k q (none ∷ t) h = values-forget_ne k q t h
  values-forget_ne k q (some (j, u) ∷ t) h = ground (arith, values-forget_ne k q t)

  pub values_of-forget :
      (m : ScopedMap K V) (t : Trail K V) (k : K)
      → Represents dec m t
      → (q : K) → values_of dec q (adjust dec k tail m.map) ≡ values dec q (forget dec k t)
  values_of-forget m t k r q = elim (dec k q) [
    | yes p ↦
        ground
          (arith, values_of-adjust_self dec k tail m.map, r.values_eq k, values-forget_self k t)
    | no p ↦
        ground
          (arith, values_of-adjust_ne dec k q tail m.map, r.values_eq q, values-forget_ne k q t)
  ]
