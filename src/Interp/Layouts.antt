-- ===== src/Interp/Layouts.antt =====
-- vm/src/stack.rs: the operations of a frame on a stack that is known as a list of parts.
use embed_lang.Prelude.{
  ℕ, ◌+◌, ◌-◌, ◌≤◌, ◌<◌, ◌≡◌, refl, sym, ap, ◌∙◌, arith, length, length-append, get_elem?, take,
  drop, List, [], ◌∷◌, ◌++◌, append_assoc, some, returns, checked_add-small, checked_sub-le,
  u32_mod,
}
use embed_lang.Stack.Data.{StackFrame, locked_args}
use embed_lang.Stack.Ops
use embed_lang.Stack.Frames

module _ {A : Type 0} where
  pub get_elem?-middle :
      (xs : List A) (v : A) (ys : List A) → get_elem? (xs ++ v ∷ ys) (length xs) ≡ some v
  get_elem?-middle [] v ys = refl
  get_elem?-middle (x ∷ xs) v ys = get_elem?-middle xs v ys

  pub take-length : (xs ys : List A) → take (length xs) (xs ++ ys) ≡ xs
  take-length [] ys = refl
  take-length (x ∷ xs) ys = ap (◌∷◌ x) (take-length xs ys)

  pub drop-length : (xs ys : List A) → drop (length xs) (xs ++ ys) ≡ ys
  drop-length [] ys = refl
  drop-length (x ∷ xs) ys = drop-length xs ys

  pub length-middle :
      (xs : List A) (v : A) (ys : List A) → length (xs ++ v ∷ ys) ≡ length xs + 1 + length ys
  length-middle xs v ys = omega (arith, length-append xs (v ∷ ys))

module _ {V : Type 0} where
  -- The view with other values.
  abbrev pub holding : StackFrame V → List V → StackFrame V
  holding f vs = record f { stack = record f.stack { values = vs } }

  pub len-holding :
      (f : StackFrame V) (vs : List V)
      → f.frame.offset ≤ length vs
      → length vs < u32_mod
      → Frames.len (holding f vs) ≡ returns (length vs - f.frame.offset)
  unfolding Frames.len
  len-holding f vs h k = ground arith

  pub index-holding :
      (f : StackFrame V) (base : List V) (v : V) (ys : List V)
      → f.frame.offset ≤ length base
      → length base < u32_mod
      → Frames.index (holding f (base ++ v ∷ ys)) (length base - f.frame.offset) ≡ returns v
  unfolding Frames.index Ops.index
  index-holding f base v ys h k = ground (arith, get_elem?-middle base v ys)

  -- To insert behind a part.
  pub insert-holding :
      (f : StackFrame V) (front back vs : List V) (i : ℕ)
      → f.frame.offset + i ≡ length front
      → length front < u32_mod
      → Frames.insert_slice (holding f (front ++ back)) i vs
        ≡ returns (holding f (front ++ (vs ++ back)))
  unfolding Frames.insert_slice
  insert-holding f front back vs i h k =
      ground (arith, length-append front back, take-length front back, drop-length front back)

  pub slice_from-holding :
      (f : StackFrame V) (front back : List V) (i : ℕ)
      → f.frame.offset + i ≡ length front
      → length front < u32_mod
      → Frames.slice_from (holding f (front ++ back)) i ≡ returns back
  unfolding Frames.slice_from Ops.slice_from
  slice_from-holding f front back i h k =
      ground (arith, length-append front back, drop-length front back)

  pub pop_many-holding :
      (f : StackFrame V) (front back : List V)
      → f.frame.offset + locked_args f.frame.state ≤ length front
      → length front + length back < u32_mod
      → Frames.pop_many (holding f (front ++ back)) (length back) ≡ returns (holding f front)
  unfolding Frames.pop_many Frames.assert_pop
  pop_many-holding f front back h k =
      let total = length-append front back in
      let rest : length (front ++ back) - length back ≡ length front = omega (arith, total) in
      rw (len-holding f (front ++ back) (omega (arith, total)) (omega (arith, total))) (
        rw
          (
            checked_add-small (length back) (locked_args f.frame.state) (omega arith),
            checked_sub-le (length (front ++ back)) (length back) (omega (arith, total)),
            rest,
            take-length front back,
          )
          (ground (arith, total)))

  -- To insert on top of one value.
  pub insert-middle :
      (f : StackFrame V) (base : List V) (v : V) (ys vs : List V) (i : ℕ)
      → f.frame.offset + i ≡ length base + 1
      → length base + 1 < u32_mod
      → Frames.insert_slice (holding f (base ++ v ∷ ys)) i vs
        ≡ returns (holding f (base ++ v ∷ (vs ++ ys)))
  insert-middle f base v ys vs i h k =
      let count : length (base ++ v ∷ []) ≡ length base + 1 =
        omega (arith, length-append base (v ∷ [])) in
      ap (λ b. Frames.insert_slice (holding f b) i vs) (sym (append_assoc base (v ∷ []) ys))
      ∙ insert-holding f (base ++ v ∷ []) ys vs i (omega (arith, count)) (omega (arith, count))
      ∙ ap (λ b. returns (holding f b)) (append_assoc base (v ∷ []) (vs ++ ys))

  -- The values on top of one value.
  pub slice_from-middle :
      (f : StackFrame V) (base : List V) (v : V) (ys : List V) (i : ℕ)
      → f.frame.offset + i ≡ length base + 1
      → length base + 1 < u32_mod
      → Frames.slice_from (holding f (base ++ v ∷ ys)) i ≡ returns ys
  slice_from-middle f base v ys i h k =
      let count : length (base ++ v ∷ []) ≡ length base + 1 =
        omega (arith, length-append base (v ∷ [])) in
      ap (λ b. Frames.slice_from (holding f b) i) (sym (append_assoc base (v ∷ []) ys))
      ∙ slice_from-holding f (base ++ v ∷ []) ys i (omega (arith, count)) (omega (arith, count))

  -- To pop a value and those on top of it.
  pub pop_many-middle :
      (f : StackFrame V) (base : List V) (v : V) (ys : List V)
      → f.frame.offset + locked_args f.frame.state ≤ length base
      → length base + 1 + length ys < u32_mod
      → Frames.pop_many (holding f (base ++ v ∷ ys)) (length ys + 1) ≡ returns (holding f base)
  pop_many-middle f base v ys h k =
      ap (Frames.pop_many (holding f (base ++ v ∷ ys))) (omega arith)
      ∙ pop_many-holding f base (v ∷ ys) h (omega arith)
