-- ===== src/Merge/Collect.antt =====
-- base/src/merge.rs: what `MergeIter` gives, item by item, if the closures only write the state.
use embed_lang.Prelude.{
  ℕ, zero, suc, ◌+◌, ◌≡◌, refl, sym, ap, subst, ◌<◌, ◌∙◌, List, [], ◌∷◌, ◌++◌, map, ◌⊎◌, inl, inr,
  Option-cases, Option, none, some, length, arith,
}
use embed_lang.Merge.{
  MergeIter, Found, find_map, branch, refilled, next_item, collect, merge_collect, begin, collected,
  collect_all,
}

-- The value of an item: the changed one, or the copy.
abbrev pub merged : {A U : Type 0} → (A → Option U) → (A → U) → A → U
merged f g x = elim (f x) [ none ↦ g x | some u ↦ u ]

-- The values of all items, if one of them changes.
abbrev pub merge_all : {A U : Type 0} → (A → Option U) → (A → U) → List A → Option (List U)
merge_all f g [] = none
merge_all f g (x ∷ xs) = elim (f x) [
  | some u ↦ some (u ∷ map (merged f g) xs)
  | none ↦ elim (merge_all f g xs) [ none ↦ none | some us ↦ some (g x ∷ us) ]
]

module _ {A U S : Type 0} (action : S → A → S × Option U) (converter : S → A → S × U)
    (f : A → Option U) (g : A → U) (acts : (s : S) (x : A) → (action s x).1 ≡ f x)
    (converts : (s : S) (x : A) → (converter s x).1 ≡ g x) where
  abbrev Gives : ℕ → MergeIter A U S → List U → Type 0
  Gives fuel m us = (s : S) × (collect action converter fuel m ≡ some (s, us))

  abbrev iter : List A → List A → ℕ → Option U → S → MergeIter A U S
  iter ts xs k typ s = record {
    types = ts;
    clone_types_iter = xs;
    clone_types = k;
    next = typ;
    state = s;
  }

  -- To collect is to take an item and to collect the rest.
  collect-item :
      (fuel : ℕ) (m m' : MergeIter A U S) (u : U) (us : List U)
      → next_item action converter 2 m ≡ some (some u, m')
      → Gives fuel m' us
      → Gives (suc fuel) m (u ∷ us)
  collect-item fuel m m' u us h (s, e) = (s, (rw (collect, h, e) refl))

  -- Behind the last item that changes, all are converted.
  rest-converted :
      (xs : List A) (k : ℕ) (s : S) → Gives (suc (length xs)) (iter [] xs k none s) (map g xs)
  rest-converted [] zero s = (s, refl)
  rest-converted [] (suc k) s = (s, refl)
  rest-converted (x ∷ xs) zero s =
      let r = converter s x in
      collect-item (suc (length xs)) (iter [] (x ∷ xs) zero none s)
        (iter [] xs 18446744073709551614 none r.0) (g x) (map g xs)
        (ap (λ u. some (some u, iter [] xs 18446744073709551614 none r.0)) (converts s x))
        (rest-converted xs 18446744073709551614 r.0)
  rest-converted (x ∷ xs) (suc k) s =
      let r = converter s x in
      collect-item (suc (length xs)) (iter [] (x ∷ xs) (suc k) none s) (iter [] xs k none r.0) (g x)
        (map g xs) (ap (λ u. some (some u, iter [] xs k none r.0)) (converts s x))
        (rest-converted xs k r.0)

  -- An iterator that goes on as another gives what that one gives.
  Gives-next :
      (fuel : ℕ) (m m' : MergeIter A U S) (us : List U)
      → next_item action converter 2 m ≡ next_item action converter 2 m'
      → Gives (suc fuel) m' us
      → Gives (suc fuel) m us
  Gives-next fuel m m' us h (s, e) = (s, (rw (collect, h) e))

  -- A search ends behind the last item, or stops at an item behind unchanged ones.
  abbrev Unchanged : S → List A → Type 0
  Unchanged s xs =
      (s' : S) × ((i : ℕ)
        → find_map action converter i s xs ≡ record { state = s'; left = []; found = none })
      × (merge_all f g xs ≡ none)
      × (map (merged f g) xs ≡ map g xs)

  -- The items in front of the one that changes, those behind, and the value of that one.
  abbrev Changes : S → List A → Type 0
  Changes s xs =
      (pre : List A) × (x : A) × (post : List A) × (u : U) × (s' : S) × (xs ≡ pre ++ x ∷ post)
      × ((i : ℕ)
          → find_map action converter i s xs
            ≡ record { state = s'; left = post; found = some (i + length pre, u) })
      × (merge_all f g xs ≡ some (map g pre ++ u ∷ map (merged f g) post))
      × (map (merged f g) xs ≡ map g pre ++ u ∷ map (merged f g) post)

  abbrev stopped : S → List A → U → ℕ → Found A U S
  stopped s left u i = record { state = s; left = left; found = some (i, u) }

  -- The index that a search from 0 on stops at.
  from_start :
      {r : Found A U S} (s : S) (left : List A) (u : U) (i : ℕ)
      → r ≡ stopped s left u (0 + i)
      → r ≡ stopped s left u i
  from_start s left u i h = h ∙ ap (stopped s left u) (let e : 0 + i ≡ i = omega arith in e)

  find_map-cases : (s : S) (xs : List A) → Unchanged s xs ⊎ Changes s xs
  find_map-cases s [] = inl (s, (λ i. refl), refl, refl)
  find_map-cases s (x ∷ xs) = elim (Option-cases (f x)) [
    | inl h ↦ elim (find_map-cases (action s x).0 xs) [
      | inl (s', eq, all, maps) ↦ inl (
        s',
        (λ i. rw (find_map, acts s x, h) (eq (suc i))),
        (rw (merge_all, h, all) refl),
        (rw (map, merged, h, maps) refl),
      )
      | inr (pre, y, post, u, s', split, eq, all, maps) ↦ inr (
        x ∷ pre,
        y,
        post,
        u,
        s',
        ap (λ ys. x ∷ ys) split,
        (λ i.
            rw (find_map, acts s x, h)
              (eq (suc i)
                ∙ (let e : suc i + length pre ≡ i + length (x ∷ pre) = omega arith in
                    ap (stopped s' post u) e))),
        (rw (merge_all, h, all) refl),
        (rw (map, merged, h, maps) refl),
      )
    ]
    | inr (u, h) ↦ inr (
      [],
      x,
      xs,
      u,
      (action s x).0,
      refl,
      (λ i.
          rw (find_map, acts s x, h)
            (let e : i ≡ i + 0 = omega arith in ap (stopped (action s x).0 xs u) e)),
      (rw (merge_all, h) refl),
      (rw (map, merged, h) refl),
    )
  ]

  -- The items in front of the one that changes are converted, then that one is given.
  found-given :
      (post : List A)
      → ((s : S) → Gives (suc (length post)) (iter post post 0 none s) (map (merged f g) post))
      → (pre : List A) (x : A) (u : U) (s : S)
      → Gives
          (suc (length (pre ++ x ∷ post)))
          (iter post (pre ++ x ∷ post) (length pre) (some u) s)
          (map g pre ++ u ∷ map (merged f g) post)
  found-given post more [] x u s =
      collect-item (suc (length post)) (iter post (x ∷ post) 0 (some u) s) (iter post post 0 none s)
        u (map (merged f g) post) refl (more s)
  found-given post more (y ∷ pre) x u s =
      let r = converter s y in
      collect-item (suc (length (pre ++ x ∷ post)))
        (iter post (y ∷ pre ++ x ∷ post) (suc (length pre)) (some u) s)
        (iter post (pre ++ x ∷ post) (length pre) (some u) r.0) (g y)
        (map g pre ++ u ∷ map (merged f g) post)
        (ap (λ v. some (some v, iter post (pre ++ x ∷ post) (length pre) (some u) r.0))
          (converts s y))
        (found-given post more pre x u r.0)

  shorter : (pre : List A) (x : A) (post : List A) → length post < length (pre ++ x ∷ post)
  shorter [] x post = omega arith
  shorter (y ∷ pre) x post = omega (arith, shorter pre x post)

  -- With a value at hand, `next` does not call itself.
  branch_at_hand :
      (k : ℕ) (u : U) (m : MergeIter A U S) (a b : Option (Option U × MergeIter A U S))
      → branch action converter k (some u) m a ≡ branch action converter k (some u) m b
  branch_at_hand zero u m a b = refl
  branch_at_hand (suc k) u m a b = refl

  -- From any item on, the iterator gives the values of the items.
  resumed :
      (n : ℕ) (xs : List A) (s : S)
      → length xs < n
      → Gives (suc (length xs)) (iter xs xs 0 none s) (map (merged f g) xs)
  resumed zero xs s lt = absurd (omega arith)
  resumed (suc n) xs s lt =
      let refills : Found A U S → Option (Option U × MergeIter A U S) =
        λ r. next_item action converter 1 (refilled action converter (iter xs xs 0 none s) r) in
      elim (find_map-cases s xs) [
        | inl (s', eq, all, maps) ↦
            subst (Gives (suc (length xs)) (iter xs xs 0 none s)) (sym maps) (
              Gives-next (length xs) (iter xs xs 0 none s) (iter [] xs 18446744073709551615 none s')
                (map g xs) (ap refills (eq 0)) (rest-converted xs 18446744073709551615 s'))
        | inr (pre, x, post, u, s', split, eq, all, maps) ↦
            subst (Gives (suc (length xs)) (iter xs xs 0 none s)) (sym maps) (
              Gives-next (length xs) (iter xs xs 0 none s) (iter post xs (length pre) (some u) s')
                (map g pre ++ u ∷ map (merged f g) post)
                (ap refills (from_start s' post u (length pre) (eq 0))
                  ∙ branch_at_hand (length pre) u (iter post xs (length pre) (some u) s') _ _)
                (subst
                  (λ ys.
                    Gives (suc (length ys)) (iter post ys (length pre) (some u) s')
                      (map g pre ++ u ∷ map (merged f g) post))
                  (sym split)
                  (found-given post
                    (λ s. resumed n post s (omega (arith, lt, shorter pre x post, ap length split)))
                    pre x u s')))
      ]

  -- If what the closures return does not depend on the state, merge_collect does not run out of
  -- the fuel it counts, and gives the values of all items, those that action leaves unchanged
  -- converted, if action changes one of them, and none if it changes none.
  pub merge_collect-merge_all :
      (s : S) (xs : List A)
      → (s' : S) × (merge_collect action converter s xs ≡ some (s', merge_all f g xs))
  merge_collect-merge_all s xs =
      let collects : Found A U S → Option (S × Option (List U)) =
        λ r. collect_all action converter xs (begin action converter xs r) in
      elim (find_map-cases s xs) [
        | inl (s', eq, all, maps) ↦ (s', ap collects (eq 0) ∙ ap (λ us. some (s', us)) (sym all))
        | inr (pre, x, post, u, s', split, eq, all, maps) ↦
            let given =
              subst
                (λ ys.
                  Gives (suc (length ys)) (iter post ys (length pre) (some u) s')
                    (map g pre ++ u ∷ map (merged f g) post))
                (sym split)
                (found-given post (λ s. resumed (suc (length post)) post s (omega arith)) pre x u
                  s') in
            (
              given.0,
              ap collects (from_start s' post u (length pre) (eq 0))
                  ∙ ap (collected action converter) given.1
                  ∙ ap (λ us. some (given.0, us)) (sym all),
            )
      ]
