-- ===== src/Interp/Heights.antt =====
-- vm/src/thread.rs, vm/src/stack.rs: how the operations of a frame that an instruction uses change
-- the number of values on the stack.
use embed_lang.Prelude.{
  ℕ, suc, ◌+◌, ◌-◌, ◌≤◌, ◌<◌, ◌≡◌, ap, arith, Option, none, some, length, length-append,
  length-take, length-set, get_elem?, returns, bind_returns, returns_injective, List, [], ◌∷◌,
  checked_sub, unwrap, zero,
}
use embed_lang.Stack.Data.{Stack, StackFrame}
use embed_lang.Stack.Ops
use embed_lang.Stack.Frames

checked_sub_returns : (a b n : ℕ) → checked_sub a b ≡ returns n → (b ≤ a) × (n ≡ a - b)
checked_sub_returns a b n h = ground arith

unwrap_returns : {A : Type 0} (o : Option A) {a : A} → unwrap o ≡ returns a → o ≡ some a
unwrap_returns none h = absurd (ground arith)
unwrap_returns (some b) h = ground arith

get_elem?-lt : {A : Type 0} (xs : List A) (i : ℕ) {x : A} → get_elem? xs i ≡ some x → i < length xs
get_elem?-lt [] i h = absurd (ground arith)
get_elem?-lt (y ∷ xs) zero h = omega arith
get_elem?-lt (y ∷ xs) (suc i) h = omega (arith, get_elem?-lt xs i h)

module _ {V : Type 0} where
  abbrev pub height : StackFrame V → ℕ
  height f = length f.stack.values

  pub pop_many-height :
      (f f' : StackFrame V) (n : ℕ) → Frames.pop_many f n ≡ returns f' → height f' + n ≡ height f
  unfolding Frames.pop_many
  pop_many-height f f' n h =
      let (u, a, k) = bind_returns (Frames.assert_pop f n) _ h in
      let (m, b, l) = bind_returns (checked_sub (length f.stack.values) n) _ k in
      let (le, eq) = checked_sub_returns (length f.stack.values) n m b in
      omega (arith, le, eq, ap height (returns_injective l), length-take m f.stack.values)

  pub pop-height :
      (f f' : StackFrame V) (v : V) → Frames.pop f ≡ returns (f', v) → height f' + 1 ≡ height f
  unfolding Frames.pop Ops.pop_last
  pop-height f f' v h =
      let (u, a, k) = bind_returns (Frames.assert_pop f 1) _ h in
      let ((vs, w), b, l) = bind_returns (Ops.pop_last f.stack.values) _ k in
      let (x, c, r) =
        bind_returns (unwrap (get_elem? f.stack.values (length f.stack.values - 1))) _ b in
      let lt = get_elem?-lt f.stack.values (length f.stack.values - 1) (unwrap_returns _ c) in
      omega (
        arith,
        lt,
        ap (λ (y : List V × V). length y.0) (returns_injective r),
        ap (λ (y : StackFrame V × V). height y.0) (returns_injective l),
        length-take (length f.stack.values - 1) f.stack.values,
      )

  pub push-height : (f : StackFrame V) (v : V) → height (Frames.push f v) ≡ height f + 1
  unfolding Frames.push Ops.push
  push-height f v = length-append f.stack.values (v ∷ [])

  set_index-height :
      (s t : Stack V) (i : ℕ) (v : V)
      → Ops.set_index s i v ≡ returns t
      → length t.values ≡ length s.values
  unfolding Ops.set_index
  set_index-height s t i v h = ground (arith, length-set s.values i v)

  copy_value-height :
      (s t : Stack V) (from to : ℕ)
      → Ops.copy_value s from to ≡ returns t
      → length t.values ≡ length s.values
  unfolding Ops.copy_value
  copy_value-height s t from to h =
      let (v, a, k) = bind_returns (Ops.index s from) _ h in set_index-height s t to v k

  stack_pop_many-height :
      (s t : Stack V) (n : ℕ) → Ops.pop_many s n ≡ returns t → length t.values + n ≡ length s.values
  unfolding Ops.pop_many
  stack_pop_many-height s t n h =
      let (u, a, k) = bind_returns (Ops.assert_pop s n) _ h in
      let (m, b, l) = bind_returns (checked_sub (length s.values) n) _ k in
      let (le, eq) = checked_sub_returns (length s.values) n m b in
      omega (arith, le, eq, ap (λ x. length x.values) (returns_injective l), length-take m s.values)

  pub slide-height :
      (f f' : StackFrame V) (n : ℕ) → Frames.slide f n ≡ returns f' → height f' + n ≡ height f
  unfolding Frames.slide Ops.slide
  slide-height f f' n h =
      let (s, a, k) = bind_returns (Ops.slide f.stack n) _ h in
      let (last, b, l) = bind_returns (checked_sub (Ops.len f.stack) 1) _ a in
      let (i, c, o) = bind_returns (checked_sub last n) _ l in
      let (t, d, q) = bind_returns (Ops.copy_value f.stack last i) _ o in
      omega (
        arith,
        copy_value-height f.stack t last i d,
        stack_pop_many-height t s n q,
        ap height (returns_injective k),
      )
