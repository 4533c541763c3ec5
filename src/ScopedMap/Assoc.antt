-- ===== src/ScopedMap/Assoc.antt =====
-- The `FnvMap<K, Vec<V>>` of base/src/scoped_map.rs, as an association list.
use embed_lang.Prelude.{
  ◌≡◌, refl, ◌≢◌, ite, if_pos, if_neg, List, [], ◌∷◌, Option, none, some, arith,
}

abbrev pub Table {ℓ} : Type ℓ → Type ℓ → Type ℓ
Table K V = List (K × List V)

module _ {ℓ} {K V : Type ℓ} (dec : Discrete K) where
  -- `map.get(k)`
  unfoldable pub find : K → Table K V → Option (List V)
  find k [] = none
  find k ((j, vs) ∷ t) = ite (dec j k) (some vs) (find k t)

  -- `map.get_mut(k).map(f)`: changes the vector of a key that is present.
  unfoldable pub adjust : K → (List V → List V) → Table K V → Table K V
  adjust k f [] = []
  adjust k f ((j, vs) ∷ t) = ite (dec j k) ((j, f vs) ∷ t) ((j, vs) ∷ adjust k f t)

  -- `f(map.entry(k).or_default())`: changes the vector of a key, which is made if it is missing.
  unfoldable pub alter : K → (List V → List V) → Table K V → Table K V
  alter k f [] = (k, f []) ∷ []
  alter k f ((j, vs) ∷ t) = ite (dec j k) ((j, f vs) ∷ t) ((j, vs) ∷ alter k f t)

  -- The values that a key is bound to, the innermost first; none for a missing key.
  unfoldable pub values_of : K → Table K V → List V
  values_of k [] = []
  values_of k ((j, vs) ∷ t) = ite (dec j k) vs (values_of k t)

  pub values_of-find-some :
      (k : K) (t : Table K V) (vs : List V) → find k t ≡ some vs → values_of k t ≡ vs
  unfolding find values_of
  values_of-find-some k [] vs h = ground arith
  values_of-find-some k ((j, ws) ∷ t) vs h = ground (arith, values_of-find-some k t vs)

  pub values_of-find-none : (k : K) (t : Table K V) → find k t ≡ none → values_of k t ≡ []
  unfolding find values_of
  values_of-find-none k [] h = refl
  values_of-find-none k ((j, ws) ∷ t) h = ground (arith, values_of-find-none k t)

  pub values_of-alter_self :
      (k : K) (f : List V → List V) (t : Table K V) → values_of k (alter k f t) ≡ f (values_of k t)
  unfolding values_of alter
  values_of-alter_self k f [] = if_pos (dec k k) refl _ _
  values_of-alter_self k f ((j, vs) ∷ t) = ground (arith, values_of-alter_self k f t)

  pub values_of-alter_ne :
      (k q : K) (f : List V → List V) (t : Table K V)
      → k ≢ q
      → values_of q (alter k f t) ≡ values_of q t
  unfolding values_of alter
  values_of-alter_ne k q f [] h = if_neg (dec k q) h _ _
  values_of-alter_ne k q f ((j, vs) ∷ t) h = ground (arith, values_of-alter_ne k q f t)

  pub values_of-adjust_self :
      (k : K) (f : List V → List V) (t : Table K V)
      → f [] ≡ []
      → values_of k (adjust k f t) ≡ f (values_of k t)
  unfolding values_of adjust
  values_of-adjust_self k f [] h = ground arith
  values_of-adjust_self k f ((j, vs) ∷ t) h = ground (arith, values_of-adjust_self k f t)

  pub values_of-adjust_ne :
      (k q : K) (f : List V → List V) (t : Table K V)
      → k ≢ q
      → values_of q (adjust k f t) ≡ values_of q t
  unfolding values_of adjust
  values_of-adjust_ne k q f [] h = refl
  values_of-adjust_ne k q f ((j, vs) ∷ t) h = ground (arith, values_of-adjust_ne k q f t)
