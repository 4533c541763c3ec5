-- ===== src/Interp/Moves.antt =====
-- vm/src/thread.rs: how the instructions that make objects change the number of values.
use embed_lang.Prelude.{ℕ, ◌+◌, ◌≡◌, ap, arith, get_elem?, List, ◌==◌}
use embed_lang.Stack.Frames
use embed_lang.Interp.Data.{
  Value, DataStruct, Closure, Machine, Context, BytecodeFunction, done, ◌>>=◌, lift, need,
  bind_done, lift_done, done_injective, if_done,
}
use embed_lang.Interp.Objects.{
  replace_top, top_slice, alloc_data, alloc_array, alloc_closure, unfilled, construct_variant,
  construct_poly_variant, construct_record, construct_array, push_value, new_variant, new_record,
  make_closure, new_closure,
}
use embed_lang.Interp.Heights.{height, pop_many-height, push-height}

module _ {Fl : Type 0} where
  -- A context has so many values less and so many more than another.
  abbrev pub Moves : Context Fl → Context Fl → ℕ → ℕ → Type 0
  Moves c c' taken given = height c'.stack + taken ≡ height c.stack + given

  replace_top-Moves :
      (c c' : Context Fl) (n : ℕ) (v : Value Fl) → replace_top c n v ≡ done c' → Moves c c' n 1
  unfolding replace_top
  replace_top-Moves c c' n v h =
      let (s, a, k) = bind_done (lift (Frames.pop_many c.stack n)) _ h in
      omega (
        arith,
        pop_many-height c.stack s n (lift_done _ a),
        push-height s v,
        ap (λ (x : Context Fl). height x.stack) (done_injective k),
      )

  pub push_value-Moves : (c : Context Fl) (v : Value Fl) → Moves c (push_value c v) 0 1
  push_value-Moves c v = omega (arith, push-height c.stack v)

  pub pushed : (c c' : Context Fl) (v : Value Fl) → done (push_value c v) ≡ done c' → Moves c c' 0 1
  pushed c c' v h =
      omega
        (arith, push_value-Moves c v, ap (λ (x : Context Fl). height x.stack) (done_injective h))

  alloc_data-stack :
      (m : Machine Fl) (c c' : Context Fl) (d : DataStruct Fl) (v : Value Fl)
      → alloc_data m c d ≡ done (c', v)
      → height c'.stack ≡ height c.stack
  unfolding alloc_data
  alloc_data-stack m c c' d v h = ground (arith, h)

  alloc_array-stack :
      (m : Machine Fl) (c c' : Context Fl) (vs : List (Value Fl)) (v : Value Fl)
      → alloc_array m c vs ≡ done (c', v)
      → height c'.stack ≡ height c.stack
  unfolding alloc_array
  alloc_array-stack m c c' vs v h = ground (arith, h)

  alloc_closure-stack :
      (m : Machine Fl) (c c' : Context Fl) (f : Closure Fl) (v : Value Fl)
      → alloc_closure m c f ≡ done (c', v)
      → height c'.stack ≡ height c.stack
  unfolding alloc_closure
  alloc_closure-stack m c c' f v h = ground (arith, h)

  -- To allocate a data value, and then to replace the arguments by it or to push it.
  data_replaces :
      (m : Machine Fl) (c c' : Context Fl) (d : DataStruct Fl) (n : ℕ)
      → (alloc_data m c d >>= λ r. replace_top r.0 n r.1) ≡ done c'
      → Moves c c' n 1
  data_replaces m c c' d n h =
      let ((x, v), a, k) = bind_done (alloc_data m c d) _ h in
      omega (arith, alloc_data-stack m c x d v a, replace_top-Moves x c' n v k)

  data_pushes :
      (m : Machine Fl) (c c' : Context Fl) (d : DataStruct Fl)
      → (alloc_data m c d >>= λ r. done (push_value r.0 r.1)) ≡ done c'
      → Moves c c' 0 1
  data_pushes m c c' d h =
      let ((x, v), a, k) = bind_done (alloc_data m c d) _ h in
      omega (arith, alloc_data-stack m c x d v a, pushed x c' v k)

  pub construct_array-Moves :
      (m : Machine Fl) (c c' : Context Fl) (n : ℕ)
      → construct_array m c n ≡ done c'
      → Moves c c' n 1
  unfolding construct_array
  construct_array-Moves m c c' n h =
      let (vs, a, k) = bind_done (top_slice c n) _ h in
      let ((x, v), b, l) = bind_done (alloc_array m c vs) _ k in
      omega (arith, alloc_array-stack m c x vs v b, replace_top-Moves x c' n v l)

  pub construct_variant-Moves :
      (m : Machine Fl) (c c' : Context Fl) (t n : ℕ)
      → construct_variant m c t n ≡ done c'
      → Moves c c' n 1
  unfolding construct_variant
  construct_variant-Moves m c c' t n h =
      if_done (n == 0) _ _ h (Moves c c' n 1) (replace_top-Moves c c' n _)
        (λ k. let (vs, a, l) = bind_done (top_slice c n) _ k in data_replaces m c c' _ n l)

  pub construct_poly_variant-Moves :
      (m : Machine Fl) (f : BytecodeFunction Fl) (c c' : Context Fl) (t n : ℕ)
      → construct_poly_variant m f c t n ≡ done c'
      → Moves c c' n 1
  unfolding construct_poly_variant
  construct_poly_variant-Moves m f c c' t n h =
      let (name, a, k) = bind_done (need (get_elem? f.strings t)) _ h in
      let (vs, b, l) = bind_done (top_slice c n) _ k in data_replaces m c c' _ n l

  pub construct_record-Moves :
      (m : Machine Fl) (f : BytecodeFunction Fl) (c c' : Context Fl) (r n : ℕ)
      → construct_record m f c r n ≡ done c'
      → Moves c c' n 1
  unfolding construct_record
  construct_record-Moves m f c c' r n h =
      if_done (n == 0) _ _ h (Moves c c' n 1) (replace_top-Moves c c' n _) (λ k.
        let (vs, a, l) = bind_done (top_slice c n) _ k in
        let (names, b, j) = bind_done (need (get_elem? f.records r)) _ l in
        data_replaces m c c' _ n j)

  pub new_variant-Moves :
      (m : Machine Fl) (c c' : Context Fl) (t n : ℕ)
      → new_variant m c t n ≡ done c'
      → Moves c c' 0 1
  unfolding new_variant
  new_variant-Moves m c c' t n h =
      if_done (n == 0) _ _ h (Moves c c' 0 1) (pushed c c' _) (data_pushes m c c' _)

  pub new_record-Moves :
      (m : Machine Fl) (f : BytecodeFunction Fl) (c c' : Context Fl) (r n : ℕ)
      → new_record m f c r n ≡ done c'
      → Moves c c' 0 1
  unfolding new_record
  new_record-Moves m f c c' r n h = if_done (n == 0) _ _ h (Moves c c' 0 1) (pushed c c' _) (λ k.
      let (names, a, l) = bind_done (need (get_elem? f.records r)) _ k in data_pushes m c c' _ l)

  pub make_closure-Moves :
      (m : Machine Fl) (f : BytecodeFunction Fl) (c c' : Context Fl) (i n : ℕ)
      → make_closure m f c i n ≡ done c'
      → Moves c c' n 1
  unfolding make_closure
  make_closure-Moves m f c c' i n h =
      let (vs, a, k) = bind_done (top_slice c n) _ h in
      let (g, b, l) = bind_done (need (get_elem? f.inner_functions i)) _ k in
      let ((x, v), e, j) =
        bind_done (alloc_closure m c (record { function = g; upvars = vs })) _ l in
      omega (arith, alloc_closure-stack m c x _ v e, replace_top-Moves x c' n v j)

  pub new_closure-Moves :
      (m : Machine Fl) (f : BytecodeFunction Fl) (c c' : Context Fl) (i n : ℕ)
      → new_closure m f c i n ≡ done c'
      → Moves c c' 0 1
  unfolding new_closure
  new_closure-Moves m f c c' i n h =
      let (g, a, k) = bind_done (need (get_elem? f.inner_functions i)) _ h in
      let ((x, v), b, l) =
        bind_done (alloc_closure m c (record { function = g; upvars = unfilled n })) _ k in
      omega (arith, alloc_closure-stack m c x _ v b, pushed x c' v l)
