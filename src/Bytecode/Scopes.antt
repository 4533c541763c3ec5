-- ===== src/Bytecode/Scopes.antt =====
-- vm/src/compiler.rs: the variables that a scope of a function binds.
use Prim.Native.Nat.{max}
use embed_lang.Prelude.{
  ℕ, ℕ_discrete, ◌+◌, ◌-◌, ◌<◌, ◌≡◌, refl, sym, ap, subst, ◌∙◌, suc, arith, List, [], ◌∷◌, returns,
  ◌>>=◌, Bool, not, ◌&&◌, ◌==◌, if◌then◌else◌, length, none, some, u32_mod, checked_add,
  checked_add-small, checked_sub-le,
}
use embed_lang.ScopedMap
use embed_lang.ScopedMap.{ScopedMap}
use embed_lang.ScopedMap.Trail.{Trail, Represents, leave}
use embed_lang.ScopedMap.Laws.{enter_scope-Represents, insert-Represents}
use embed_lang.ScopedMap.Leaving.{exit_scope-Represents}
use embed_lang.SourceMap.Locals.{LocalMap, close_local}
use embed_lang.Bytecode.Function.{FunctionEnv}
use embed_lang.Bytecode.Emitter.{increase_stack}
use embed_lang.Bytecode.Variables.{
  new_stack_var, bind_var, push_stack_var, push_each, enter_scope, close_vars, exit_scope,
}

module _ {T : Type 0} where
  -- The trail with a binding for each variable, at consecutive indexes.
  abbrev pub bound : ℕ → List (ℕ × T) → Trail ℕ (ℕ × T) → Trail ℕ (ℕ × T)
  bound n [] t = t
  bound n ((s, typ) ∷ vars) t = bound (suc n) vars (some (s, (n, typ)) ∷ t)

  leave-bound :
      (n k : ℕ) (vars : List (ℕ × T)) (t u : Trail ℕ (ℕ × T))
      → length (leave t).0 ≡ k
      → (leave t).1 ≡ u
      → (length (leave (bound n vars t)).0 ≡ length vars + k) × ((leave (bound n vars t)).1 ≡ u)
  leave-bound n k [] t u h e = (omega (arith, h), e)
  leave-bound n k ((s, typ) ∷ vars) t u h e =
      let (a, b) = leave-bound (suc n) (suc k) vars (some (s, (n, typ)) ∷ t) u (ap suc h) e in
      (omega (arith, a), b)

  close_vars-Returns :
      (empty_symbol : ℕ) (debug : Bool) (i : ℕ) (vars : List (ℕ × (ℕ × T))) (m : LocalMap T)
      → length vars < u32_mod
      → (m' : LocalMap T) × (close_vars empty_symbol debug i vars m ≡ returns (length vars, m'))
  unfolding close_vars
  close_vars-Returns empty_symbol debug i [] m h = (m, refl)
  close_vars-Returns empty_symbol debug i ((s, v) ∷ vars) m h =
      let (m', e) =
        close_vars-Returns empty_symbol debug i vars
          (if debug && not (empty_symbol == s) then close_local m i else m) (omega arith) in
      (
        m',
        ap (λ o. o >>= λ r. checked_add r.0 1 >>= λ count. returns (count, r.1)) e
            ∙ ap (λ o. o >>= λ count. returns (count, m'))
                (checked_add-small (length vars) 1 (omega arith))
            ∙ ap (λ n. returns (n, m')) (omega arith),
      )

module _ {Fl T G : Type 0} where
  push_stack_var-Returns :
      (empty_symbol : ℕ) (env : FunctionEnv Fl T G) (s : ℕ) (typ : T)
      → env.stack_size + 1 < u32_mod
      → (env' : FunctionEnv Fl T G) × (push_stack_var empty_symbol env s typ ≡ returns env')
        × (env'.stack ≡ (ScopedMap.insert ℕ_discrete env.stack s (env.stack_size, typ)).0)
        × (env'.stack_size ≡ suc env.stack_size)
  unfolding push_stack_var increase_stack new_stack_var bind_var
  push_stack_var-Returns empty_symbol env s typ h =
      let size = env.stack_size + 1 in
      let grown : FunctionEnv Fl T G = record env {
        stack_size = size;
        function = record env.function { max_stack_size = max env.function.max_stack_size size };
      } in
      (
        bind_var empty_symbol grown s typ (size - 1),
        ap
              (λ o.
                (o >>= λ n. returns (record env {
                  stack_size = n;
                  function = record env.function {
                    max_stack_size = max env.function.max_stack_size n;
                  };
                }))
                >>= λ x. new_stack_var empty_symbol x s typ)
              (checked_add-small env.stack_size 1 h)
            ∙ ap (λ o. o >>= λ i. returns (bind_var empty_symbol grown s typ i))
                (checked_sub-le size 1 (omega arith)),
        ap (λ i. (ScopedMap.insert ℕ_discrete env.stack s (i, typ)).0) (omega arith),
        omega arith,
      )

  pub record Pushed (env env' : FunctionEnv Fl T G) (vars : List (ℕ × T)) (t : Trail ℕ (ℕ × T))
      : Type 0 where
    pub grown : env'.stack_size ≡ env.stack_size + length vars
    pub binds : Represents ℕ_discrete env'.stack (bound env.stack_size vars t)

  push_each-Pushed :
      (empty_symbol : ℕ) (env : FunctionEnv Fl T G) (vars : List (ℕ × T)) (t : Trail ℕ (ℕ × T))
      → Represents ℕ_discrete env.stack t
      → env.stack_size + length vars < u32_mod
      → (env' : FunctionEnv Fl T G) × (push_each empty_symbol env vars ≡ returns env')
        × Pushed env env' vars t
  unfolding push_each
  push_each-Pushed empty_symbol env [] t r h =
      (env, refl, record { grown = omega arith; binds = r })
  push_each-Pushed empty_symbol env ((s, typ) ∷ vars) t r h =
      let (mid, e, stack_eq, size_eq) =
        push_stack_var-Returns empty_symbol env s typ (omega arith) in
      let binds : Represents ℕ_discrete mid.stack (some (s, (env.stack_size, typ)) ∷ t) =
        subst (λ m. Represents ℕ_discrete m (some (s, (env.stack_size, typ)) ∷ t)) (sym stack_eq)
          (insert-Represents ℕ_discrete env.stack t s (env.stack_size, typ) r).0 in
      let (end, e', p) =
        push_each-Pushed empty_symbol mid vars (some (s, (env.stack_size, typ)) ∷ t) binds
          (omega (arith, size_eq)) in
      (
        end,
        ap (λ o. o >>= λ x. push_each empty_symbol x vars) e ∙ e',
        record {
          grown = omega (arith, p.grown, size_eq);
          binds =
              subst
                (λ n.
                  Represents ℕ_discrete end.stack
                    (bound n vars (some (s, (env.stack_size, typ)) ∷ t)))
                size_eq p.binds;
        },
      )

  abbrev left_env : FunctionEnv Fl T G → LocalMap T → FunctionEnv Fl T G
  left_env env locals = record env {
    stack = (ScopedMap.exit_scope ℕ_discrete env.stack).1;
    function = record env.function {
      debug_info = record env.function.debug_info { local_map = locals };
    };
  }

  -- From an env whose variables represent a trail, if a scope is entered and variables are pushed, and
  -- the size stays below 2 ^ 32, then neither this nor leaving the scope panics. The stack grows by
  -- the number of variables, which are bound to consecutive indexes from the former size. To leave the
  -- scope counts them, keeps the stack size, and gives back variables that represent the former trail.
  pub exit_scope-push_each :
      (empty_symbol : ℕ) (env : FunctionEnv Fl T G) (vars : List (ℕ × T)) (t : Trail ℕ (ℕ × T))
      → Represents ℕ_discrete env.stack t
      → env.stack_size + length vars < u32_mod
      → (inner outer : FunctionEnv Fl T G) × (push_each empty_symbol (enter_scope env) vars
          ≡ returns inner)
        × (inner.stack_size ≡ env.stack_size + length vars)
        × Represents ℕ_discrete inner.stack (bound env.stack_size vars (none ∷ t))
        × (exit_scope empty_symbol inner ≡ returns (outer, length vars))
        × (outer.stack_size ≡ inner.stack_size)
        × Represents ℕ_discrete outer.stack t
  unfolding enter_scope exit_scope
  exit_scope-push_each empty_symbol env vars t r h =
      let entered = (enter_scope-Represents ℕ_discrete env.stack t r).1 in
      let (inner, e, p) =
        push_each-Pushed empty_symbol (enter_scope env) vars (none ∷ t) entered h in
      let (left, rest) = leave-bound env.stack_size 0 vars (none ∷ t) t refl refl in
      let (es_eq, out) =
        exit_scope-Represents ℕ_discrete inner.stack (bound env.stack_size vars (none ∷ t))
          p.binds in
      let count : length (ScopedMap.exit_scope ℕ_discrete inner.stack).0 ≡ length vars =
        omega (arith, ap length es_eq, left) in
      let (m, c) =
        close_vars-Returns empty_symbol inner.emit_debug_info (length inner.function.instructions)
          (ScopedMap.exit_scope ℕ_discrete inner.stack).0 inner.function.debug_info.local_map
          (omega (arith, count)) in
      (
        inner,
        left_env inner m,
        e,
        p.grown,
        p.binds,
        ap (λ o. o >>= λ r. returns (left_env inner r.1, r.0)) c
            ∙ ap (λ n. returns (left_env inner m, n)) count,
        refl,
        subst (Represents ℕ_discrete (ScopedMap.exit_scope ℕ_discrete inner.stack).1) rest out,
      )
