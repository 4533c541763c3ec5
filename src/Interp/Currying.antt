-- ===== src/Interp/Currying.antt =====
-- vm/src/thread.rs: partial applications. A call of one is a call of its function with the arguments
-- that it holds in front.
use embed_lang.Prelude.{
  ℕ, ◌+◌, ◌-◌, ◌≤◌, ◌<◌, ◌≡◌, refl, sym, ap, ◌∙◌, arith, true, length, get_elem?, List, [], ◌∷◌,
  ◌++◌, some, checked_add-small, checked_sub-le, mod_u32-small, u32_mod,
}
use embed_lang.Stack.Data.{locked_args}
use embed_lang.Stack.Ops
use embed_lang.Stack.Frames
use embed_lang.Interp.Data.{
  Value, closure_at, function_at, partial_application_at, Callable, PartialApplicationData, Machine,
  Context, done, ◌>>=◌,
}
use embed_lang.Interp.Objects.{top_slice, replace_top}
use embed_lang.Interp.Calls.{
  callable_args, call_function_with_upvars, call_value, do_call, apply_partially, alloc_application,
}
use embed_lang.Interp.Layouts.{
  holding, get_elem?-middle, length-middle, len-holding, index-holding, pop_many-middle,
  slice_from-middle, insert-middle,
}

module _ {Fl : Type 0} where
  -- A context with other values on its stack.
  abbrev pub with_values : Context Fl → List (Value Fl) → Context Fl
  with_values c vs = record c { stack = holding c.stack vs }

  -- The value that calls a function or an extern function.
  abbrev pub callable_value : Callable → Value Fl
  callable_value (Callable.closure p) = closure_at p
  callable_value (Callable.extern p) = function_at p

  do_call-value :
      (m : Machine Fl) (c : Context Fl) (base : List (Value Fl)) (v : Value Fl)
      (ys : List (Value Fl))
      → c.stack.frame.offset ≤ length base
      → length base + 1 + length ys < u32_mod
      → do_call m (with_values c (base ++ v ∷ ys)) (length ys)
        ≡ call_value m (with_values c (base ++ v ∷ ys)) (length ys) v
  unfolding do_call
  do_call-value m c base v ys h k =
      let total = length-middle base v ys in
      let o = c.stack.frame.offset in
      let n = length (base ++ v ∷ ys) - o in
      let below : n - 1 - length ys ≡ length base - o = omega (arith, total) in
      rw (
        len-holding c.stack (base ++ v ∷ ys) (omega (arith, total)) (omega (arith, total)),
        checked_sub-le n 1 (omega (arith, total)),
        checked_sub-le (n - 1) (length ys) (omega (arith, total)),
        below,
        index-holding c.stack base v ys h (omega arith),
      )

  -- The match of a call on a function, with the arguments that it needs.
  call_callable :
      (m : Machine Fl) (c : Context Fl) (n : ℕ) (f : Callable)
      → (callable_args m c.heap f >>= λ required. call_function_with_upvars m c n required f)
        ≡ call_value m c n (callable_value f)
  unfolding call_value
  call_callable m c n (Callable.closure p) = refl
  call_callable m c n (Callable.extern p) = refl

  call_value-application :
      (m : Machine Fl) (c : Context Fl) (base ys : List (Value Fl)) (p : ℕ)
      (app : PartialApplicationData Fl)
      → get_elem? c.heap.applications p ≡ some app
      → c.stack.frame.offset ≤ length base
      → length base + 1 + length app.args + length ys < u32_mod
      → call_value m
          (with_values c (base ++ partial_application_at p ∷ ys))
          (length ys)
          (partial_application_at p)
        ≡ call_value m
            (with_values c (base ++ partial_application_at p ∷ (app.args ++ ys)))
            (length app.args + length ys)
            (callable_value app.function)
  unfolding call_value
  call_value-application m c base ys p app e h k =
      let v : Value Fl = partial_application_at p in
      let total = length-middle base v ys in
      let n = length (base ++ v ∷ ys) - c.stack.frame.offset in
      rw
        (
          e,
          mod_u32-small (length app.args) (omega arith),
          checked_add-small (length app.args) (length ys) (omega arith),
          len-holding c.stack (base ++ v ∷ ys) (omega (arith, total)) (omega (arith, total)),
          checked_sub-le n (length ys) (omega (arith, total)),
          insert-middle c.stack base v ys app.args (n - length ys) (omega (arith, total))
              (omega arith),
        )
        (call_callable m (with_values c (base ++ v ∷ (app.args ++ ys)))
          (length app.args + length ys) app.function)

  abbrev stored : Context Fl → PartialApplicationData Fl → Context Fl
  stored c app = record c {
    heap = record c.heap { applications = c.heap.applications ++ app ∷ [] };
  }

  apply_partially-eq :
      (m : Machine Fl) (c : Context Fl) (base : List (Value Fl)) (v : Value Fl)
      (xs : List (Value Fl)) (f : Callable)
      → m.has_room c.heap (length xs) ≡ true
      → c.stack.frame.offset + locked_args c.stack.frame.state ≤ length base
      → length base + 1 + length xs < u32_mod
      → apply_partially m (with_values c (base ++ v ∷ xs)) (length xs) f
        ≡ done (
            with_values
              (stored c (record { function = f; args = xs }))
              (base ++ partial_application_at (length c.heap.applications) ∷ []))
  unfolding apply_partially top_slice alloc_application replace_top Frames.push Ops.push
  apply_partially-eq m c base v xs f r h k =
      let total = length-middle base v xs in
      let n = length (base ++ v ∷ xs) - c.stack.frame.offset in
      rw (
        len-holding c.stack (base ++ v ∷ xs) (omega (arith, total)) (omega (arith, total)),
        checked_sub-le n (length xs) (omega (arith, total)),
        slice_from-middle c.stack base v xs (n - length xs) (omega (arith, total)) (omega arith),
        r,
        checked_add-small (length xs) 1 (omega arith),
        pop_many-middle c.stack base v xs h k,
      )

  too_few :
      (m : Machine Fl) (c : Context Fl) (args required : ℕ) (f : Callable)
      → args < required
      → call_function_with_upvars m c args required f ≡ apply_partially m c args f
  unfolding call_function_with_upvars
  too_few m c args required f h = ground arith

  call_value-few :
      (m : Machine Fl) (c : Context Fl) (args required : ℕ) (f : Callable)
      → callable_args m c.heap f ≡ done required
      → args < required
      → call_value m c args (callable_value f) ≡ apply_partially m c args f
  call_value-few m c args required f e h =
      sym (call_callable m c args f)
      ∙ ap (λ r. r >>= λ required. call_function_with_upvars m c args required f) e
      ∙ too_few m c args required f h

  -- Let a function need more arguments than it is called with, and let the collector find room for
  -- these. Then the call gives a state in which a partial application has taken the place of the
  -- function and the arguments; and if further arguments are pushed and the partial application is
  -- called with them, this is the call of the function with the first arguments and the further ones.
  pub do_call-application :
      (m : Machine Fl) (c : Context Fl) (base xs ys : List (Value Fl)) (f : Callable) (required : ℕ)
      → callable_args m c.heap f ≡ done required
      → length xs < required
      → m.has_room c.heap (length xs) ≡ true
      → c.stack.frame.offset + locked_args c.stack.frame.state ≤ length base
      → length base + 1 + length xs + length ys < u32_mod
      → (c' : Context Fl) × (app : Value Fl) × (do_call m
            (with_values c (base ++ callable_value f ∷ xs))
            (length xs)
          ≡ done c')
        × (c'.stack.stack.values ≡ base ++ app ∷ [])
        × (do_call m (with_values c' (base ++ app ∷ ys)) (length ys)
            ≡ call_value m
                (with_values c' (base ++ app ∷ (xs ++ ys)))
                (length xs + length ys)
                (callable_value f))
  do_call-application m c base xs ys f required e few room h k =
      let c' =
        with_values (stored c (record { function = f; args = xs }))
          (base ++ partial_application_at (length c.heap.applications) ∷ []) in
      let app : Value Fl = partial_application_at (length c.heap.applications) in
      (
        c',
        app,
        do_call-value m c base (callable_value f) xs (omega arith) (omega arith)
            ∙ call_value-few m (with_values c (base ++ callable_value f ∷ xs)) (length xs) required
                f e few
            ∙ apply_partially-eq m c base (callable_value f) xs f room h (omega arith),
        refl,
        do_call-value m c' base app ys (omega arith) (omega arith)
            ∙ call_value-application m c' base ys (length c.heap.applications)
                (record { function = f; args = xs })
                (get_elem?-middle c.heap.applications (record { function = f; args = xs }) [])
                (omega arith) (omega arith),
      )
