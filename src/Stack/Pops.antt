-- ===== src/Stack/Pops.antt =====
-- vm/src/stack.rs: the operations that take values from a stack, against what a frame protects.
use embed_lang.Prelude.{
  ℕ, zero, suc, ◌+◌, ◌-◌, ◌≤◌, ◌<◌, ◌≡◌, refl, ◌∙◌, ap, sym, subst, leb→le, Bool, true, false, ltb,
  leb, if◌then◌else◌, List, [], ◌∷◌, ◌++◌, some, none, length, take, drop, get_elem?, set,
  length-take, length-drop, length-append, length-set, arith, ◌>>=◌, returns, panics, unwrap,
}
use embed_lang.Stack.Data.{Frame, Stack}
use embed_lang.Stack.Ops
use embed_lang.Stack.Valid.{IsValid, protected, Fits-resize}

module _ {V : Type 0} where
  take-set :
      (xs : List V) (i : ℕ) (v : V)
      → i < length xs
      → take (suc i) (set xs i v) ≡ take i xs ++ v ∷ []
  take-set [] i v h = elim h [ ]
  take-set (x ∷ xs) zero v h = refl
  take-set (x ∷ xs) (suc i) v h = ap (◌∷◌ x) (take-set xs i v (omega arith))

  -- A list has a value at every index below its length.
  get_elem?_total : (xs : List V) (i : ℕ) → i < length xs → (v : V) × (get_elem? xs i ≡ some v)
  get_elem?_total [] i h = elim h [ ]
  get_elem?_total (x ∷ xs) zero h = (x, refl)
  get_elem?_total (x ∷ xs) (suc i) h = get_elem?_total xs i (omega arith)

  get_elem?-none : (xs : List V) (i : ℕ) → length xs ≤ i → get_elem? xs i ≡ none
  get_elem?-none [] i h = refl
  get_elem?-none (x ∷ xs) zero h = absurd (omega arith)
  get_elem?-none (x ∷ xs) (suc i) h = get_elem?-none xs i (omega arith)

  -- On a valid stack `assert_pop` passes exactly if the values that are left cover what the last
  -- frame protects.
  pub assert_pop-protected :
      (s : Stack V) (count : ℕ) (f : Frame V) (fs : List (Frame V))
      → s.frames ≡ f ∷ fs
      → IsValid s
      → Ops.assert_pop s count
        ≡ (if leb (protected s.frames + count) (length s.values) then returns tt else panics)
  unfolding Ops.assert_pop
  assert_pop-protected s count f fs e h = rw (e) (ground arith)

  module _ (s : Stack V) (f : Frame V) (fs : List (Frame V)) (e : s.frames ≡ f ∷ fs)
      (h : IsValid s) where
    -- On a valid stack with a frame, `pop_many` removes the last `count` values, and panics if there
    -- are fewer or the last frame protects one of them.
    pub pop_many-eq :
        (count : ℕ)
        → Ops.pop_many s count ≡ (
            if leb (protected s.frames + count) (length s.values)
            then returns (record s { values = take (length s.values - count) s.values })
            else panics)
    unfolding Ops.pop_many
    pop_many-eq count = ground (arith, assert_pop-protected s count f fs e h)

    -- On a valid stack with a frame, `pop` removes and returns the last value, and panics if the last
    -- frame protects it.
    pub pop-eq : Ops.pop s ≡ (
        if ltb (protected s.frames) (length s.values)
        then (unwrap (get_elem? s.values (length s.values - 1)) >>= λ v.
            returns (record s { values = take (length s.values - 1) s.values }, v))
        else panics)
    unfolding Ops.pop
    pop-eq = ground (arith, assert_pop-protected s 1 f fs e h)

    -- On a valid stack with a frame and more than `count` values, `slide` keeps the last value and
    -- removes the `count` values before it, or panics if the last frame protects one of the last
    -- `count` values.
    pub slide-eq :
        (count : ℕ) (v : V)
        → get_elem? s.values (length s.values - 1) ≡ some v
        → count < length s.values
        → Ops.slide s count ≡ (
            if leb (protected s.frames + count) (length s.values)
            then returns
                (record s { values = take (length s.values - 1 - count) s.values ++ v ∷ [] })
            else panics)
    unfolding Ops.slide Ops.set_index Ops.index Ops.copy_value Ops.pop_many Ops.assert_pop
    slide-eq count v g c = ground (
      arith,
      h,
      length-set s.values (length s.values - 1 - count) v,
      take-set s.values (length s.values - 1 - count) v,
    )

    -- On a valid stack with a frame, `remove_range` of a range inside the stack removes its values,
    -- or panics if fewer values than it removes lie above what the last frame protects.
    pub remove_range-eq :
        (from to : ℕ)
        → from ≤ to
        → to ≤ length s.values
        → Ops.remove_range s from to ≡ (
            if leb (protected s.frames + (to - from)) (length s.values)
            then returns (record s { values = take from s.values ++ drop to s.values })
            else panics)
    unfolding Ops.remove_range
    remove_range-eq from to p q = ground (arith, assert_pop-protected s (to - from) f fs e h)

    -- On a valid stack whose last frame protects some values, a `slide` over all the values above
    -- them passes its check, and overwrites the last protected value by the stack's last value.
    pub slide_overwrites :
        (count : ℕ) (v : V)
        → get_elem? s.values (length s.values - 1) ≡ some v
        → protected s.frames + count ≡ length s.values
        → 0 < protected s.frames
        → Ops.slide s count
          ≡ returns (record s { values = take (protected s.frames - 1) s.values ++ v ∷ [] })
    slide_overwrites count v g c p = ground (arith, slide-eq count v g)

-- What an operation of the last frame keeps: the frames, the validity, and the protected values.
pub record Keeps {V : Type 0} (s t : Stack V) : Type 0 where
  pub same_frames : t.frames ≡ s.frames
  pub valid : IsValid t
  pub prefix : take (protected s.frames) t.values ≡ take (protected s.frames) s.values

module _ {V : Type 0} where
  take-take_le : (n m : ℕ) (xs : List V) → n ≤ m → take n (take m xs) ≡ take n xs
  take-take_le zero m xs h = refl
  take-take_le (suc n) zero xs h = elim h [ ]
  take-take_le (suc n) (suc m) [] h = refl
  take-take_le (suc n) (suc m) (x ∷ xs) h = ap (◌∷◌ x) (take-take_le n m xs (omega arith))

  take-take-append :
      (n m : ℕ) (xs ys : List V) → n ≤ m → m ≤ length xs → take n (take m xs ++ ys) ≡ take n xs
  take-take-append zero m xs ys h k = refl
  take-take-append (suc n) zero xs ys h k = elim h [ ]
  take-take-append (suc n) (suc m) [] ys h k = absurd (omega arith)
  take-take-append (suc n) (suc m) (x ∷ xs) ys h k =
      ap (◌∷◌ x) (take-take-append n m xs ys (omega arith) (omega arith))

  if_returns :
      {b : Bool} {x t : Stack V}
      → (if b then returns x else panics) ≡ returns t
      → (b ≡ true) × (x ≡ t)
  if_returns {b = true} h = (refl, ground arith)
  if_returns {b = false} h = cc

  remove_range_bounds :
      (s : Stack V) (from to : ℕ) (t : Stack V)
      → Ops.remove_range s from to ≡ returns t
      → (from ≤ to) × (to ≤ length s.values)
  unfolding Ops.remove_range
  remove_range_bounds s from to t r = ground arith

  module _ (s : Stack V) (f : Frame V) (fs : List (Frame V)) (e : s.frames ≡ f ∷ fs)
      (h : IsValid s) where
    shrunk-Keeps :
        (vs : List V)
        → take (protected s.frames) vs ≡ take (protected s.frames) s.values
        → protected s.frames ≤ length vs
        → length vs ≤ length s.values
        → Keeps s (record s { values = vs })
    shrunk-Keeps vs p q r = record {
      same_frames = refl;
      valid = record {
        fits = Fits-resize (length s.values) (length vs) s.frames h.fits q;
        small = omega arith;
      };
      prefix = p;
    }

    -- A successful `pop_many` keeps the frames, the validity and the protected values.
    pub pop_many-Keeps : (count : ℕ) (t : Stack V) → Ops.pop_many s count ≡ returns t → Keeps s t
    pop_many-Keeps count t r =
        let (b, x) = if_returns (sym (pop_many-eq s f fs e h count) ∙ r) in
        let room : protected s.frames + count ≤ length s.values = leb→le _ _ b in
        subst (Keeps s) x (
          shrunk-Keeps (take (length s.values - count) s.values)
            (take-take_le _ _ s.values (omega arith))
            (omega (arith, length-take (length s.values - count) s.values))
            (omega (arith, length-take (length s.values - count) s.values)))

    -- A successful `slide` over fewer values than the last frame may pop keeps the frames, the
    -- validity and the protected values.
    pub slide-Keeps :
        (count : ℕ) (t : Stack V)
        → protected s.frames + count < length s.values
        → Ops.slide s count ≡ returns t
        → Keeps s t
    slide-Keeps count t c r =
        let n = length s.values - 1 in
        let (v, g) = get_elem?_total s.values n (omega arith) in
        let (b, x) = if_returns (sym (slide-eq s f fs e h count v g (omega arith)) ∙ r) in
        subst (Keeps s) x (
          shrunk-Keeps (take (n - count) s.values ++ v ∷ [])
            (take-take-append _ (n - count) s.values (v ∷ []) (omega arith) (omega arith))
            (omega (
              arith,
              length-take (n - count) s.values,
              length-append (take (n - count) s.values) (v ∷ []),
            ))
            (omega (
              arith,
              length-take (n - count) s.values,
              length-append (take (n - count) s.values) (v ∷ []),
            )))

    -- A successful `remove_range` of a range above the protected values keeps the frames, the
    -- validity and the protected values.
    pub remove_range-Keeps :
        (from to : ℕ) (t : Stack V)
        → protected s.frames ≤ from
        → Ops.remove_range s from to ≡ returns t
        → Keeps s t
    remove_range-Keeps from to t c r =
        let (p, q) = remove_range_bounds s from to t r in
        let (b, x) = if_returns (sym (remove_range-eq s f fs e h from to p q) ∙ r) in
        let rest = drop to s.values in
        subst (Keeps s) x (
          shrunk-Keeps (take from s.values ++ rest)
            (take-take-append _ from s.values rest c (omega arith))
            (omega (arith, length-take from s.values, length-append (take from s.values) rest))
            (omega (
              arith,
              length-take from s.values,
              length-drop to s.values,
              length-append (take from s.values) rest,
            )))
