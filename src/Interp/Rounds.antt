-- ===== src/Interp/Rounds.antt =====
-- vm/src/thread.rs: how the parts of a round of the loop change the number of values.
use embed_lang.Prelude.{
  ℕ, ◌+◌, ◌≡◌, subst, arith, Bool, Option, none, some, length, get_elem?, ltb, assert, ℤ,
}
use embed_lang.Stack.Data.{StackFrame}
use embed_lang.Stack.Frames
use embed_lang.Interp.Data.{
  Value, int, byte, float, Context, BytecodeFunction, push_out_of_bounds, Exec, done, fails, lift,
  need, bind_done, lift_done, done_injective, if_done, fails_done,
}
use embed_lang.Interp.Arith.{
  from_int, from_byte, from_float, checked, truth, binop, binop_int, binop_byte, binop_f64,
  binop_bool,
}
use embed_lang.Interp.Access.{pop_condition}
use embed_lang.Interp.Objects.{push_value}
use embed_lang.Interp.Step.{
  Next, goes_on, jumps, calls, tail_calls, leaves, then_on, on_stack, push_variable, push_constant,
  push_upvar, jump_to, jump_if,
}
use embed_lang.Interp.Heights.{height, pop_many-height, slide-height}
use embed_lang.Interp.Moves.{Moves, pushed}
use embed_lang.Interp.Reads.{pop_condition-Moves, binop-height}

module _ {Fl : Type 0} where
  -- The state that the loop goes on with.
  abbrev pub context_of : Next Fl → Context Fl
  context_of (goes_on c) = c
  context_of (jumps i c) = c
  context_of (calls args c) = c
  context_of (tail_calls args c) = c
  context_of (leaves c) = c

  -- The step's result is known.
  pub next-Moves :
      (c : Context Fl) (t g : ℕ) {n n' : Next Fl}
      → Moves c (context_of n) t g
      → done n ≡ done n'
      → Moves c (context_of n') t g
  next-Moves c t g p h = subst (λ x. Moves c (context_of x) t g) (done_injective h) p

  pub then_on-Moves :
      (c : Context Fl) (t g : ℕ) {n : Next Fl} (e : Exec (Context Fl))
      → then_on e ≡ done n
      → ((x : Context Fl) → e ≡ done x → Moves c x t g)
      → Moves c (context_of n) t g
  then_on-Moves c t g e h p = let (x, a, k) = bind_done e _ h in next-Moves c t g (p x a) k

  pub on_stack-Moves :
      (c : Context Fl) (t g : ℕ) {n : Next Fl} (e : Exec (StackFrame (Value Fl)))
      → on_stack c e ≡ done n
      → ((s : StackFrame (Value Fl)) → e ≡ done s → height s + t ≡ height c.stack + g)
      → Moves c (context_of n) t g
  on_stack-Moves c t g e h p = let (s, a, k) = bind_done e _ h in next-Moves c t g (p s a) k

  pub push_constant-Moves :
      (f : BytecodeFunction Fl) (c : Context Fl) (i : ℕ) (c' : Context Fl)
      → push_constant f c i ≡ done c'
      → Moves c c' 0 1
  unfolding push_constant
  push_constant-Moves f c i c' h =
      let (s, a, k) = bind_done (need (get_elem? f.strings i)) _ h in pushed c c' _ k

  pub push_upvar-Moves :
      (c : Context Fl) (i : ℕ) (c' : Context Fl) → push_upvar c i ≡ done c' → Moves c c' 0 1
  unfolding push_upvar
  push_upvar-Moves c i c' h =
      let (v, a, k) = bind_done (lift (Frames.get_upvar c.stack i)) _ h in pushed c c' v k

  pub push_variable-Moves :
      (c : Context Fl) (i : ℕ) (c' : Context Fl) → push_variable c i ≡ done c' → Moves c c' 0 1
  unfolding push_variable
  push_variable-Moves c i c' h =
      let (vs, a, k) = bind_done (lift (Frames.slice c.stack)) _ h in found (get_elem? vs i) k
    where
      found :
          (o : Option (Value Fl))
          → elim o [ some v ↦ done (push_value c v) | none ↦ fails push_out_of_bounds ] ≡ done c'
          → Moves c c' 0 1
      found (some v) k = pushed c c' v k
      found none k = fails_done k

  pub jump_to-Moves :
      (f : BytecodeFunction Fl) (c c' : Context Fl) (n : Next Fl) (i t g : ℕ)
      → Moves c c' t g
      → jump_to f c' i ≡ done n
      → Moves c (context_of n) t g
  unfolding jump_to
  jump_to-Moves f c c' n i t g p h =
      let (u, a, k) = bind_done (lift (assert (ltb i (length f.instructions)))) _ h in
      next-Moves c t g p k

  pub jump_if-Moves :
      (f : BytecodeFunction Fl) (c : Context Fl) (n : Next Fl) (i : ℕ)
      → jump_if f c i ≡ done n
      → Moves c (context_of n) 1 0
  unfolding jump_if
  jump_if-Moves f c n i h =
      let ((c', b), a, k) = bind_done (pop_condition c) _ h in
      let p = pop_condition-Moves c c' b a in
      if_done b _ _ k (Moves c (context_of n) 1 0) (jump_to-Moves f c c' n i 1 0 p)
        (next-Moves c 1 0 p)

  pub pop_many-Moves :
      (c : Context Fl) (s : StackFrame (Value Fl)) (n : ℕ)
      → lift (Frames.pop_many c.stack n) ≡ done s
      → height s + n ≡ height c.stack + 0
  pop_many-Moves c s n e = omega (arith, pop_many-height c.stack s n (lift_done _ e))

  pub slide-Moves :
      (c : Context Fl) (s : StackFrame (Value Fl)) (n : ℕ)
      → lift (Frames.slide c.stack n) ≡ done s
      → height s + n ≡ height c.stack + 0
  slide-Moves c s n e = omega (arith, slide-height c.stack s n (lift_done _ e))

  pub binop-Moves :
      {A : Type 0} (c : Context Fl) (from : Value Fl → Exec A) (f : A → A → Exec (Value Fl))
      (s : StackFrame (Value Fl))
      → binop from f c.stack ≡ done s
      → height s + 1 ≡ height c.stack + 0
  binop-Moves c from f s e = omega (arith, binop-height from f c.stack s e)

  pub binop_int-Moves :
      (c : Context Fl) (f : ℤ → ℤ → Option ℤ) (s : StackFrame (Value Fl))
      → binop_int f c.stack ≡ done s
      → height s + 1 ≡ height c.stack + 0
  unfolding binop_int
  binop_int-Moves c f = binop-Moves c from_int (λ l r. checked int (f l r))

  pub binop_byte-Moves :
      (c : Context Fl) (f : ℕ → ℕ → Option ℕ) (s : StackFrame (Value Fl))
      → binop_byte f c.stack ≡ done s
      → height s + 1 ≡ height c.stack + 0
  unfolding binop_byte
  binop_byte-Moves c f = binop-Moves c from_byte (λ l r. checked byte (f l r))

  pub binop_f64-Moves :
      (c : Context Fl) (f : Fl → Fl → Fl) (s : StackFrame (Value Fl))
      → binop_f64 f c.stack ≡ done s
      → height s + 1 ≡ height c.stack + 0
  unfolding binop_f64
  binop_f64-Moves c f = binop-Moves c from_float (λ l r. done (float (f l r)))

  pub binop_bool-Moves :
      {A : Type 0} (c : Context Fl) (from : Value Fl → Exec A) (f : A → A → Bool)
      (s : StackFrame (Value Fl))
      → binop_bool from f c.stack ≡ done s
      → height s + 1 ≡ height c.stack + 0
  unfolding binop_bool
  binop_bool-Moves c from f = binop-Moves c from (λ l r. done (truth (f l r)))
