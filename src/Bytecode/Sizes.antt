-- ===== src/Bytecode/Sizes.antt =====
-- vm/src/compiler.rs: the stack sizes that `emit` counts, against the sizes along the instructions.
use Prim.Native.Nat.{max}
use embed_lang.Prelude.{
  ltb, leb, ℕ, ◌+◌, ◌-◌, ◌≤◌, ◌<◌, ◌≡◌, refl, sym, ap, ◌∙◌, zero, suc, arith, Outcome, returns,
  panics, ◌>>=◌, pos, negsuc, sub_ℕ, u32_mod, ◌⊎◌, inl, inr, Bool, true, false, ◌&&◌, Bool-cases,
  if◌then◌else◌,
}
use embed_lang.Bytecode.Instructions.{Instruction, adjust}
use embed_lang.Bytecode.Effects.{
  IsSmall, takes, gives, given, Kind, shape, next_size, in_range, adjust-effect,
}
use embed_lang.Bytecode.Function.{FunctionEnv}
use embed_lang.Bytecode.Emitter.{emit, resize, append, increase_stack, is_empty_slide}

max-same : (m n : ℕ) → n ≤ m → max m n ≡ m
max-same m n h = omega arith

sub_zero : (t : ℕ) → sub_ℕ 0 (suc t) ≡ negsuc t
sub_zero t = ground arith

sub_one : (t : ℕ) → sub_ℕ 1 (suc (suc t)) ≡ negsuc t
sub_one t = ground arith

given-one : (k : Kind) → given k ≤ 1
given-one k = ground arith

if-bind :
    {A B : Type 0} (b : Bool) (x : A) (f : A → Outcome B)
    → ((if b then returns x else panics) >>= f) ≡ (if b then f x else panics)
if-bind true x f = refl
if-bind false x f = refl

empty_slide-effect :
    {Fl : Type 0} (i : Instruction Fl) → is_empty_slide i ≡ true → (takes i ≡ 0) × (gives i ≡ 0)
empty_slide-effect i h = ground arith

module _ {Fl T G : Type 0} where
  pub record IsSized (env : FunctionEnv Fl T G) : Type 0 where
    pub counted : env.stack_size ≤ env.function.max_stack_size
    pub small : env.function.max_stack_size < u32_mod

  abbrev resized : FunctionEnv Fl T G → ℕ → FunctionEnv Fl T G
  resized env n = record env {
    stack_size = n;
    function = record env.function { max_stack_size = max env.function.max_stack_size n };
  }

  resized-down :
      (env : FunctionEnv Fl T G) (n : ℕ)
      → IsSized env
      → n ≤ env.stack_size
      → record env { stack_size = n } ≡ resized env n
  resized-down env n s h =
      ap (λ m. record env { stack_size = n; function = record env.function { max_stack_size = m } })
        (sym (max-same env.function.max_stack_size n (omega (arith, s.counted))))

  resize-down :
      (env : FunctionEnv Fl T G) (n : ℕ)
      → IsSized env
      → suc n < 2147483648
      → resize env (negsuc n) ≡ (
          if leb (suc n) env.stack_size
          then returns (resized env (env.stack_size - suc n))
          else panics)
  unfolding resize
  resize-down env n s h = ground (arith, resized-down env (env.stack_size - suc n) s)

  resize-up :
      (env : FunctionEnv Fl T G)
      → resize env (pos 1) ≡ (
          if ltb (env.stack_size + 1) u32_mod
          then returns (resized env (env.stack_size + 1))
          else panics)
  unfolding resize increase_stack
  resize-up env = ground arith

  resize-zero :
      (env : FunctionEnv Fl T G)
      → IsSized env
      → resize env (pos 0) ≡ returns (resized env env.stack_size)
  unfolding resize
  resize-zero env s = ground (arith, resized-down env env.stack_size s (omega arith))

  -- Where `sub_ℕ` computes.
  resize-sub :
      (env : FunctionEnv Fl T G) (g t : ℕ)
      → IsSized env
      → g ≤ 1
      → t < 2147483648
      → resize env (sub_ℕ g t) ≡ (
          if leb t (env.stack_size + g) && ltb (env.stack_size + g - t) u32_mod
          then returns (resized env (env.stack_size + g - t))
          else panics)
  resize-sub env zero zero s h k = ground (arith, s.small, s.counted, resize-zero env s)
  resize-sub env zero (suc t) s h k =
      ap (resize env) (sub_zero t) ∙ ground (arith, s.small, s.counted, resize-down env t s k)
  resize-sub env (suc zero) zero s h k = ground (arith, resize-up env)
  resize-sub env (suc zero) (suc zero) s h k = ground (arith, s.small, s.counted, resize-zero env s)
  resize-sub env (suc zero) (suc (suc t)) s h k =
      ap (resize env) (sub_one t)
      ∙ ground (arith, s.small, s.counted, resize-down env t s (omega arith))
  resize-sub env (suc (suc g)) t s h k = absurd (omega arith)

  abbrev then_append : Instruction Fl → FunctionEnv Fl T G → Outcome (FunctionEnv Fl T G)
  then_append i env = returns (append env i)

  emit-eq :
      (env : FunctionEnv Fl T G) (i : Instruction Fl)
      → emit env i ≡ (
          if is_empty_slide i
          then returns env
          else (adjust i >>= λ a. resize env a >>= then_append i))
  unfolding emit
  emit-eq env i = refl

  emit-sub :
      (env : FunctionEnv Fl T G) (i : Instruction Fl)
      → IsSized env
      → IsSmall i
      → is_empty_slide i ≡ false
      → emit env i ≡ (
          if in_range env.stack_size i
          then returns (append (resized env (next_size env.stack_size i)) i)
          else panics)
  emit-sub env i s h e =
      emit-eq env i
      ∙ ap (λ b. if b then returns env else (adjust i >>= λ a. resize env a >>= then_append i)) e
      ∙ ap (λ o. o >>= λ a. resize env a >>= then_append i) (adjust-effect i h)
      ∙ ap (λ o. o >>= then_append i)
          (resize-sub env (gives i) (takes i) s (given-one (shape i).0) h)
      ∙ if-bind (in_range env.stack_size i) _ (then_append i)

  -- One instruction is in range and the stack is counted right, or it is not and the emission panics.
  unfoldable pub EmittedOne : (env : FunctionEnv Fl T G) → Instruction Fl → Type 0
  EmittedOne env i =
      ((in_range env.stack_size i ≡ false) × (emit env i ≡ panics))
      ⊎ ((in_range env.stack_size i ≡ true)
          × (env' : FunctionEnv Fl T G) × (emit env i ≡ returns env')
          × (env'.stack_size ≡ next_size env.stack_size i)
          × (env'.function.max_stack_size
              ≡ max env.function.max_stack_size (next_size env.stack_size i)))

  emit-skip :
      (env : FunctionEnv Fl T G) (i : Instruction Fl)
      → IsSized env
      → is_empty_slide i ≡ true
      → EmittedOne env i
  unfolding EmittedOne
  emit-skip env i s e =
      let (a, b) = empty_slide-effect i e in
      inr (
        ground (arith, s.small, s.counted, a, b),
        env,
        emit-eq env i
            ∙ ap
                (λ b. if b then returns env else (adjust i >>= λ a. resize env a >>= then_append i))
                e,
        omega (arith, a, b),
        omega (arith, a, b, s.counted),
      )

  pub emit-cases :
      (env : FunctionEnv Fl T G) (i : Instruction Fl) → IsSized env → IsSmall i → EmittedOne env i
  unfolding EmittedOne append
  emit-cases env i s h = elim (Bool-cases (is_empty_slide i)) [
    | inl e ↦ emit-skip env i s e
    | inr e ↦ elim (Bool-cases (in_range env.stack_size i)) [
      | inl r ↦ inr (
        r,
        append (resized env (next_size env.stack_size i)) i,
        emit-sub env i s h e ∙ rw r,
        refl,
        refl,
      )
      | inr r ↦ inl (r, emit-sub env i s h e ∙ rw r)
    ]
  ]
