-- ===== src/ScopedMap/Leaving.antt =====
-- base/src/scoped_map.rs: `remove`, `pop` and `exit_scope` against the trail of bindings.
use embed_lang.Prelude.{
  ℕ, zero, suc, ◌<◌, ◌≡◌, refl, ◌≢◌, ◌∙◌, ap, sym, subst, if_pos, true, false, List, [], ◌∷◌, head?,
  tail, Option, none, some, length, returns, panics, arith, inl, inr, Option-cases,
}
use embed_lang.ScopedMap.Assoc.{
  Table, find, adjust, values_of, values_of-find-some, values_of-find-none,
}
use embed_lang.ScopedMap.{
  ScopedMap, get, remove_scope, remove, remove_scopes, pop, take_scope, next, drain, exit_scope,
}
use embed_lang.ScopedMap.Trail.{
  Trail, marks, leave, values, latest, bound_here, forget, forget_all, Represents, latest-values,
}
use embed_lang.ScopedMap.Laws.{get-latest, marks-forget, values-forget_self, values_of-forget}

module _ {ℓ} {K : Type ℓ} (dec : Discrete K) where
  -- How often the scopes name a key.
  abbrev count : List (Option K) → K → ℕ
  count [] k = 0
  count (none ∷ s) k = count s k
  count (some j ∷ s) k = elim (dec j k) [ yes p ↦ suc (count s k) | no p ↦ count s k ]

module _ {ℓ} {K V : Type ℓ} (dec : Discrete K) where
  latest_of_bound_here : (k : K) (t : Trail K V) → bound_here dec k t ≡ true → latest dec k t ≢ none
  latest_of_bound_here k [] h = cc
  latest_of_bound_here k (none ∷ t) h = cc
  latest_of_bound_here k (some (j, w) ∷ t) h = ground (arith, latest_of_bound_here k t)

  panics_of_outer :
      (k : K) (t : Trail K V)
      → bound_here dec k t ≡ false
      → latest dec k t ≢ none
      → remove_scope dec (marks t) k ≡ panics
  unfolding remove_scope
  panics_of_outer k [] h l = absurd (l refl)
  panics_of_outer k (none ∷ t) h l = refl
  panics_of_outer k (some (j, w) ∷ t) h l = ground (arith, panics_of_outer k t)

  module _ (m : ScopedMap K V) (t : Trail K V) (k : K) (r : Represents dec m t) where
    head?-find : (vs : List V) → find dec k m.map ≡ some vs → head? vs ≡ latest dec k t
    head?-find vs e =
        ap head? (sym (values_of-find-some dec k m.map vs e) ∙ r.values_eq k)
        ∙ latest-values dec k t

    latest-find : find dec k m.map ≡ none → latest dec k t ≡ none
    latest-find e =
        sym (latest-values dec k t)
        ∙ ap head? (sym (r.values_eq k) ∙ values_of-find-none dec k m.map e)

    -- `remove` of a key that the innermost scope binds drops its latest binding, returns the value,
    -- and does not panic.
    pub remove-Represents :
        bound_here dec k t ≡ true
        → (m' : ScopedMap K V) × (remove dec m k ≡ returns (m', latest dec k t))
          × Represents dec m' (forget dec k t)
    unfolding remove
    remove-Represents h =
        let m' = record m { map = adjust dec k tail m.map; scopes = marks (forget dec k t) } in
        (
          m',
          elim (Option-cases (find dec k m.map)) [
            | inl e ↦ absurd (latest_of_bound_here k t h (latest-find e))
            | inr (vs, e) ↦
                rw (e, r.scopes_eq, remove) (rw (marks-forget dec k t h, head?-find vs e))
          ],
          record { scopes_eq = refl; values_eq = values_of-forget dec m t k r },
        )

    -- `remove` of a key that is bound, but not by the innermost scope, panics.
    pub remove-outer : bound_here dec k t ≡ false → latest dec k t ≢ none → remove dec m k ≡ panics
    unfolding remove
    remove-outer h l = elim (Option-cases (find dec k m.map)) [
      | inl e ↦ absurd (l (latest-find e))
      | inr (vs, e) ↦ rw (e, r.scopes_eq, remove) (rw (panics_of_outer k t h l))
    ]

  count-marks : (t : Trail K V) (k : K) → count dec (marks t) k ≡ length (values dec k t)
  count-marks [] k = refl
  count-marks (none ∷ t) k = count-marks t k
  count-marks (some (j, v) ∷ t) k = ground (arith, count-marks t k)

  count-zero :
      (k : K) (t : Trail K V) → values dec k t ≡ [] → remove_scopes dec (marks t) k ≡ marks t
  unfolding remove_scopes
  count-zero k [] h = refl
  count-zero k (none ∷ t) h = ap (◌∷◌ none) (count-zero k t h)
  count-zero k (some (j, v) ∷ t) h = ground (arith, count-zero k t)

  marks-forget_once :
      (k : K) (t : Trail K V) (v : V)
      → values dec k t ≡ v ∷ []
      → remove_scopes dec (marks t) k ≡ marks (forget dec k t)
  unfolding remove_scopes
  marks-forget_once k [] v h = cc
  marks-forget_once k (none ∷ t) v h = ap (◌∷◌ none) (marks-forget_once k t v h)
  marks-forget_once k (some (j, w) ∷ t) v h =
      ground (arith, marks-forget_once k t v, count-zero k t)

  values-forget_all : (k : K) (t : Trail K V) → values dec k (forget_all dec k t) ≡ []
  values-forget_all k [] = refl
  values-forget_all k (none ∷ t) = values-forget_all k t
  values-forget_all k (some (j, v) ∷ t) = ground (arith, values-forget_all k t)

  remove_scopes-marks :
      (k : K) (t : Trail K V) → remove_scopes dec (marks t) k ≡ marks (forget_all dec k t)
  unfolding remove_scopes
  remove_scopes-marks k [] = refl
  remove_scopes-marks k (none ∷ t) = ap (◌∷◌ none) (remove_scopes-marks k t)
  remove_scopes-marks k (some (j, v) ∷ t) = ground (arith, remove_scopes-marks k t)

  -- What `pop` of a bound key does to the scopes and to the values.
  pop-bound :
      (m : ScopedMap K V) (t : Trail K V) (k : K) (v : V) (vs : List V)
      → Represents dec m t
      → values dec k t ≡ v ∷ vs
      → let (m', popped) = pop dec m k in
        (popped ≡ some v)
        × (m'.scopes ≡ marks (forget_all dec k t))
        × ((q : K) → values_of dec q m'.map ≡ values dec q (forget dec k t))
  unfolding pop
  pop-bound m t k v vs r h =
      let here : get dec m k ≡ some v =
        get-latest dec m t r k ∙ sym (latest-values dec k t) ∙ ap head? h in
      rw (here, pop)
        (
          refl,
          ap (λ s. remove_scopes dec s k) r.scopes_eq ∙ remove_scopes-marks k t,
          values_of-forget dec m t k r,
        )

  -- In a map that represents a trail that binds a key at least twice, `pop` of the key returns its
  -- latest value. The scopes are then those of the trail without any binding of the key, but the
  -- values are those of the trail without its latest binding, so that the key keeps the others; and
  -- the map represents no trail at all.
  pub pop-shadowed :
      (m : ScopedMap K V) (t : Trail K V) (k : K) (v w : V) (vs : List V)
      → Represents dec m t
      → values dec k t ≡ v ∷ w ∷ vs
      → let (m', popped) = pop dec m k in
        (popped ≡ some v)
        × (m'.scopes ≡ marks (forget_all dec k t))
        × ((q : K) → values_of dec q m'.map ≡ values dec q (forget dec k t))
        × (values_of dec k m'.map ≡ w ∷ vs)
        × ¬ ((t' : Trail K V) × Represents dec m' t')
  pop-shadowed m t k v w vs r h =
      let (popped, scopes, kept) = pop-bound m t k v (w ∷ vs) r h in
      let left = kept k ∙ values-forget_self dec k t ∙ ap tail h in
      (
        popped,
        scopes,
        kept,
        left,
        λ (t', r'). omega (
          arith,
          ap length (sym (r'.values_eq k) ∙ left),
          count-marks t' k,
          count-marks (forget_all dec k t) k,
          ap length (values-forget_all k t),
          ap (λ s. count dec s k) (sym r'.scopes_eq ∙ scopes),
        ),
      )

  -- `pop` of a key that was bound exactly once drops its binding, in whatever scope it is.
  pub pop-Represents :
      (m : ScopedMap K V) (t : Trail K V) (k : K) (v : V)
      → Represents dec m t
      → values dec k t ≡ v ∷ []
      → ((pop dec m k).1 ≡ some v) × Represents dec (pop dec m k).0 (forget dec k t)
  unfolding pop
  pop-Represents m t k v r h =
      let here : get dec m k ≡ some v =
        get-latest dec m t r k ∙ sym (latest-values dec k t) ∙ ap head? h in
      rw (here, pop)
        (
          refl,
          record {
            scopes_eq = ap (λ s. remove_scopes dec s k) r.scopes_eq ∙ marks-forget_once k t v h;
            values_eq = values_of-forget dec m t k r;
          },
        )

  -- Each call of `next` takes the top of the trail, so the drain leaves the innermost scope.
  drain_step :
      (fuel : ℕ) (m m' : ScopedMap K V) (e : K × V)
      → next dec m false ≡ (some e, m', false)
      → drain dec (suc fuel) m false
        ≡ (e ∷ (drain dec fuel m' false).0, (drain dec fuel m' false).1)
  unfolding drain
  drain_step fuel m m' e h = ground (arith, h)

  drain-leave :
      (fuel : ℕ) (table : Table K V) (t : Trail K V)
      → length (marks t) < fuel
      → ((k : K) → values_of dec k table ≡ values dec k t)
      → let (es, m) = drain dec fuel (record { map = table; scopes = marks t }) false in
        (es ≡ (leave t).0) × Represents dec m (leave t).1
  unfolding drain next take_scope
  drain-leave zero table t h r = absurd (omega arith)
  drain-leave (suc fuel) table [] h r = (refl, record { scopes_eq = refl; values_eq = r })
  drain-leave (suc fuel) table (none ∷ t) h r = (refl, record { scopes_eq = refl; values_eq = r })
  drain-leave (suc fuel) table (some (k, v) ∷ t) h r =
      let m : ScopedMap K V = record { map = table; scopes = some k ∷ marks t } in
      let valid : Represents dec m (some (k, v) ∷ t) = record { scopes_eq = refl; values_eq = r } in
      let here : get dec m k ≡ some v = get-latest dec m _ valid k ∙ if_pos (dec k k) refl _ _ in
      let below : (q : K) → values_of dec q (adjust dec k tail table) ≡ values dec q t =
        λ q. values_of-forget dec m _ k valid q ∙ ap (values dec q) (if_pos (dec k k) refl _ _) in
      let (es, rest) = drain-leave fuel (adjust dec k tail table) t (omega arith) below in
      rw
        (drain_step fuel m (record { map = adjust dec k tail table; scopes = marks t }) (k, v)
          (rw (here, next, take_scope)))
        (ap (◌∷◌ (k, v)) es, rest)

  -- In a map that represents a trail, `exit_scope` returns the bindings of the innermost scope, the latest first, and removes them
  -- and nothing else: the map represents the trail below the scope's marker.
  pub exit_scope-Represents :
      (m : ScopedMap K V) (t : Trail K V)
      → Represents dec m t
      → ((exit_scope dec m).0 ≡ (leave t).0) × Represents dec (exit_scope dec m).1 (leave t).1
  unfolding exit_scope
  exit_scope-Represents m t r =
      let same : m ≡ record { map = m.map; scopes = marks t } =
        λ i. record { map = m.map; scopes = r.scopes_eq i } in
      subst
        (λ (n : ScopedMap K V).
          let (es, n') = drain dec (suc (length n.scopes)) n false in
          (es ≡ (leave t).0) × Represents dec n' (leave t).1)
        (sym same) (drain-leave (suc (length (marks t))) m.map t (omega arith) r.values_eq)
