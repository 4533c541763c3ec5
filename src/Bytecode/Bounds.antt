-- ===== src/Bytecode/Bounds.antt =====
-- vm/src/compiler.rs: the stack sizes of a list of emitted instructions.
use Prim.Native.Nat.{max}
use embed_lang.Prelude.{
  ℕ, ◌<◌, ◌≡◌, refl, sym, ap, subst, ◌∙◌, arith, List, [], ◌∷◌, Outcome, returns, panics, ◌>>=◌,
  u32_mod, ◌⊎◌, inl, inr, true, false, ◌&&◌,
}
use embed_lang.Bytecode.Instructions.{Instruction}
use embed_lang.Bytecode.Effects.{
  AllSmall, next_size, in_range, sizes, all_in_range, largest, last_size,
}
use embed_lang.Bytecode.Function.{FunctionEnv}
use embed_lang.Bytecode.Emitter.{emit_each}
use embed_lang.Bytecode.Sizes.{IsSized, EmittedOne, emit-cases}

in_range-small :
    {Fl : Type 0} (size : ℕ) (i : Instruction Fl)
    → in_range size i ≡ true
    → next_size size i < u32_mod
in_range-small size i h = ground arith

module _ {Fl T G : Type 0} where
  -- The instructions are in range and the stack is counted right, or they are not and the emission
  -- panics.
  abbrev pub Emitted : ℕ → ℕ → List (Instruction Fl) → Outcome (FunctionEnv Fl T G) → Type 0
  Emitted size m is o =
      ((all_in_range size is ≡ false) × (o ≡ panics))
      ⊎ ((all_in_range size is ≡ true)
          × (env : FunctionEnv Fl T G) × (o ≡ returns env)
          × (env.stack_size ≡ last_size size is)
          × (env.function.max_stack_size ≡ largest m (sizes size is)))

  Emitted-eq :
      (is : List (Instruction Fl)) {n n' m m' : ℕ} {o o' : Outcome (FunctionEnv Fl T G)}
      → n ≡ n'
      → m ≡ m'
      → o ≡ o'
      → Emitted n m is o
      → Emitted n' m' is o'
  Emitted-eq is p q e =
      subst (λ (x : ℕ × ℕ × Outcome (FunctionEnv Fl T G)). Emitted x.0 x.1 is x.2)
        (λ i. (p i, q i, e i))

  -- One instruction in front of the others.
  emit_each-cons :
      (size m : ℕ) (i : Instruction Fl) (is : List (Instruction Fl))
      (o : Outcome (FunctionEnv Fl T G))
      → in_range size i ≡ true
      → Emitted (next_size size i) (max m (next_size size i)) is o
      → Emitted size m (i ∷ is) o
  emit_each-cons size m i is o r (inl (a, e)) = inl (ap (◌&&◌ _) a ∙ ap (λ b. b && false) r, e)
  emit_each-cons size m i is o r (inr (a, env, e, p, q)) =
      inr (ap (◌&&◌ _) a ∙ ap (λ b. b && true) r, env, e, p, q)

  -- From an env whose size is at most its maximum of 32 bits, if the operands that count are below
  -- 2 ^ 31, to emit a list of instructions panics if a size on the way is negative or has more than
  -- 32 bits, and otherwise it returns: the stack size is then the size after the last instruction,
  -- and the maximum the largest of the former one and of all sizes on the way.
  pub emit_each-Emitted :
      (env : FunctionEnv Fl T G) (is : List (Instruction Fl))
      → IsSized env
      → AllSmall is
      → Emitted env.stack_size env.function.max_stack_size is (emit_each env is)
  unfolding emit_each EmittedOne
  emit_each-Emitted env [] s h = inr (refl, env, refl, refl, refl)
  emit_each-Emitted env (i ∷ is) s (h, hs) = elim (emit-cases env i s h) [
    | inl (r, e) ↦ inl (
      ap (λ b. b && all_in_range (next_size env.stack_size i) is) r,
      ap (λ o. o >>= λ e. emit_each e is) e,
    )
    | inr (r, env', e, p, q) ↦
        let sized : IsSized env' = record {
          counted = omega (arith, p, q);
          small = omega (arith, q, s.small, in_range-small env.stack_size i r);
        } in
        emit_each-cons env.stack_size env.function.max_stack_size i is _ r (
          Emitted-eq is p q (sym (ap (λ o. o >>= λ e. emit_each e is) e))
            (emit_each-Emitted env' is sized hs))
  ]
