-- ===== src/Interp/Reads.antt =====
-- vm/src/thread.rs: how the instructions that read objects, and the operations on two values, change
-- the number of values.
use embed_lang.Prelude.{
  ℕ, ◌+◌, ◌-◌, ◌≡◌, ap, arith, Bool, length-set, get_elem?, leb, returns, assert,
}
use embed_lang.Stack.Data.{StackFrame}
use embed_lang.Stack.Frames
use embed_lang.Interp.Data.{
  Value, DataStruct, Context, BytecodeFunction, Exec, done, lift, need, bind_done, lift_done,
  done_injective, fails_done,
}
use embed_lang.Interp.Arith.{binop, set_last}
use embed_lang.Interp.Objects.{offset_of, push_value}
use embed_lang.Interp.Access.{
  Shape, data_shape, tag_shape, other_shape, shape_of, get_offset, get_field, test_tag,
  test_poly_tag, pop_condition,
}
use embed_lang.Interp.Heights.{height, pop-height}
use embed_lang.Interp.Moves.{Moves, pushed}

module _ {Fl : Type 0} where
  -- A match on the shape of a value, with a result.
  shape_done :
      {A : Type 0} (shape : Shape Fl) (f : ℕ → DataStruct Fl → Exec A) (g : ℕ → Exec A) (o : Exec A)
      {a : A}
      → elim shape [ data_shape p d ↦ f p d | tag_shape t ↦ g t | other_shape ↦ o ] ≡ done a
      → {P : Type 0} → ((p : ℕ) (d : DataStruct Fl) → f p d ≡ done a → P)
      → ((t : ℕ) → g t ≡ done a → P)
      → (o ≡ done a → P)
      → P
  shape_done (data_shape p d) f g o h x y z = x p d h
  shape_done (tag_shape t) f g o h x y z = y t h
  shape_done other_shape f g o h x y z = z h

  -- One value is popped and another is pushed.
  exchanged :
      (c c' : Context Fl) (s : StackFrame (Value Fl)) (v x : Value Fl)
      → Frames.pop c.stack ≡ returns (s, v)
      → done (push_value (record c { stack = s }) x) ≡ done c'
      → Moves c c' 0 0
  exchanged c c' s v x a k =
      omega (arith, pop-height c.stack s v a, pushed (record c { stack = s }) c' x k)

  pub get_offset-Moves : (c c' : Context Fl) (i : ℕ) → get_offset c i ≡ done c' → Moves c c' 0 0
  unfolding get_offset
  get_offset-Moves c c' i h =
      let ((s, v), a, k) = bind_done (lift (Frames.pop c.stack)) _ h in
      let (shape, b, l) = bind_done (shape_of c.heap v) _ k in
      shape_done shape _ _ _ l
        (λ p d e.
          let (x, g, j) = bind_done (need (get_elem? d.fields i)) _ e in
          exchanged c c' s v x (lift_done _ a) j)
        (λ t e. fails_done e) (λ e. fails_done e)

  pub get_field-Moves :
      (f : BytecodeFunction Fl) (c c' : Context Fl) (i : ℕ)
      → get_field f c i ≡ done c'
      → Moves c c' 0 0
  unfolding get_field
  get_field-Moves f c c' i h =
      let (field, q, m) = bind_done (need (get_elem? f.strings i)) _ h in
      let ((s, v), a, k) = bind_done (lift (Frames.pop c.stack)) _ m in
      let (shape, b, l) = bind_done (shape_of c.heap v) _ k in
      shape_done shape _ _ _ l
        (λ p d e.
          let (o, g, j) = bind_done (need (offset_of field d.names)) _ e in
          let (x, r, n) = bind_done (need (get_elem? d.fields o)) _ j in
          exchanged c c' s v x (lift_done _ a) n)
        (λ t e. fails_done e) (λ e. fails_done e)

  pub test_tag-Moves : (c c' : Context Fl) (t : ℕ) → test_tag c t ≡ done c' → Moves c c' 0 1
  unfolding test_tag
  test_tag-Moves c c' t h =
      let (v, a, k) = bind_done (lift (Frames.top c.stack)) _ h in
      let (shape, b, l) = bind_done (shape_of c.heap v) _ k in
      shape_done shape _ _ _ l (λ p d. pushed c c' _) (λ u. pushed c c' _) (λ e. fails_done e)

  pub test_poly_tag-Moves :
      (f : BytecodeFunction Fl) (c c' : Context Fl) (i : ℕ)
      → test_poly_tag f c i ≡ done c'
      → Moves c c' 0 1
  unfolding test_poly_tag
  test_poly_tag-Moves f c c' i h =
      let (expected, q, m) = bind_done (need (get_elem? f.strings i)) _ h in
      let (v, a, k) = bind_done (lift (Frames.top c.stack)) _ m in
      let (shape, b, l) = bind_done (shape_of c.heap v) _ k in
      shape_done shape _ _ _ l
        (λ p d e. let (found, g, j) = bind_done (need d.poly_tag) _ e in pushed c c' _ j)
        (λ u e. fails_done e) (λ e. fails_done e)

  pub pop_condition-Moves :
      (c c' : Context Fl) (b : Bool) → pop_condition c ≡ done (c', b) → Moves c c' 1 0
  unfolding pop_condition
  pop_condition-Moves c c' b h =
      let ((s, v), a, k) = bind_done (lift (Frames.pop c.stack)) _ h in
      omega (
        arith,
        pop-height c.stack s v (lift_done _ a),
        ap (λ (x : Context Fl × Bool). height x.0.stack) (done_injective k),
      )

  set_last-height :
      (s s' : StackFrame (Value Fl)) (v : Value Fl)
      → set_last s v ≡ returns s'
      → height s' ≡ height s
  unfolding set_last
  set_last-height s s' v h = ground (arith, length-set s.stack.values (height s - 1) v)

  pub binop-height :
      {A : Type 0} (from : Value Fl → Exec A) (f : A → A → Exec (Value Fl))
      (s s' : StackFrame (Value Fl))
      → binop from f s ≡ done s'
      → height s' + 1 ≡ height s
  unfolding binop
  binop-height from f s s' h =
      let (n, a, k) = bind_done (lift (Frames.len s)) _ h in
      let (u, b, l) = bind_done (lift (assert (leb 2 n))) _ k in
      let (rv, d, j) = bind_done (lift (Frames.get_variant s (n - 1))) _ l in
      let (rr, e, i) = bind_done (need rv) _ j in
      let (r, g, o) = bind_done (from rr) _ i in
      let (lv, p, q) = bind_done (lift (Frames.get_variant s (n - 2))) _ o in
      let (ll, t, w) = bind_done (need lv) _ q in
      let (x, y, z) = bind_done (from ll) _ w in
      let (result, a', k') = bind_done (f x r) _ z in
      let ((m, v), b', l') = bind_done (lift (Frames.pop s)) _ k' in
      omega (arith, pop-height s m v (lift_done _ b'), set_last-height m s' result (lift_done _ l'))
