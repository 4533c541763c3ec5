-- ===== src/Interp/Bounds.antt =====
-- vm/src/thread.rs, vm/src/compiler.rs: a frame that runs emitted instructions stays within the
-- maximum that the compiler wrote into the function.
use Prim.Native.Nat.{max}
use embed_lang.Prelude.{
  ℕ, ◌+◌, ◌≤◌, ◌≡◌, sym, ap, ◌∙◌, arith, Bool, true, ◌&&◌, inl, inr, List, [], ◌∷◌, ◌++◌, returns,
  returns_injective,
}
use embed_lang.Bytecode.Instructions.{Instruction}
use embed_lang.Bytecode.Effects.{
  AllSmall, next_size, in_range, sizes, all_in_range, largest, last_size,
}
use embed_lang.Bytecode.Function.{FunctionEnv}
use embed_lang.Bytecode.Emitter.{emit_each}
use embed_lang.Bytecode.Sizes.{IsSized}
use embed_lang.Bytecode.Bounds.{emit_each-Emitted}
use embed_lang.Interp.Data.{Machine, Context, BytecodeFunction, done}
use embed_lang.Interp.Step.{goes_on, step}
use embed_lang.Interp.Heights.{height}
use embed_lang.Interp.Effects.{is_counted, step-Moves}

and_true : (a b : Bool) → a && b ≡ true → (a ≡ true) × (b ≡ true)
and_true a b h = ground arith

largest-le : (m : ℕ) (ns : List ℕ) → m ≤ largest m ns
largest-le m [] = omega arith
largest-le m (n ∷ ns) = omega (arith, largest-le (max m n) ns)

module _ {Fl : Type 0} where
  -- Rounds of the loop over instructions, each of which goes on to the next one.
  pub data Runs (m : Machine Fl) (f : BytecodeFunction Fl)
      : List (Instruction Fl) → Context Fl → Context Fl → Type 0 where
    stays : {c : Context Fl} → Runs m f [] c c
    steps :
        {i : Instruction Fl} {is : List (Instruction Fl)} {c c' c'' : Context Fl}
        → step m f c i ≡ done (goes_on c')
        → Runs m f is c' c''
        → Runs m f (i ∷ is) c c''

  abbrev pub all_counted : List (Instruction Fl) → Bool
  all_counted [] = true
  all_counted (i ∷ is) = is_counted i && all_counted is

  Runs-height :
      (m : Machine Fl) (f : BytecodeFunction Fl) (is after : List (Instruction Fl))
      (c c' : Context Fl) (base size : ℕ)
      → all_counted is ≡ true
      → all_in_range size (is ++ after) ≡ true
      → height c.stack ≡ base + size
      → Runs m f is c c'
      → height c'.stack ≡ base + last_size size is
  Runs-height m f is after c c' base size k r h stays = h
  Runs-height m f is after c c' base size k r h (steps {i = i} {is = is'} {c' = d} e run) =
      let (now, later) = and_true (is_counted i) (all_counted is') k in
      let (fits, fit) =
        and_true (in_range size i) (all_in_range (next_size size i) (is' ++ after)) r in
      Runs-height m f is' after d c' base (next_size size i) later fit
        (ground (arith, step-Moves m f c (goes_on d) i now e)) run

  last_size-largest :
      (is after : List (Instruction Fl)) (size m : ℕ)
      → size ≤ m
      → last_size size is ≤ largest m (sizes size (is ++ after))
  last_size-largest [] after size m h = omega (arith, largest-le m (sizes size after))
  last_size-largest (i ∷ is) after size m h =
      last_size-largest is after (next_size size i) (max m (next_size size i)) (omega arith)

module _ {Fl T G : Type 0} where
  -- Let instructions be emitted into an env whose size is at most its maximum of 32 bits, with
  -- operands that count below 2 ^ 31. If a frame whose own values are as many as the env's size runs
  -- the first of them, each going on to the next and none of them `Call`, `TailCall`, `Split`,
  -- `CloseData`, `MakeClosure` or `CloseClosure`, then it owns as many values as the compiler counted
  -- there, which is at most the maximum stack size that the compiler wrote.
  pub Runs-max_stack_size :
      (m : Machine Fl) (f : BytecodeFunction Fl) (env env' : FunctionEnv Fl T G)
      (before after : List (Instruction Fl)) (c c' : Context Fl) (base : ℕ)
      → IsSized env
      → AllSmall (before ++ after)
      → all_counted before ≡ true
      → emit_each env (before ++ after) ≡ returns env'
      → height c.stack ≡ base + env.stack_size
      → Runs m f before c c'
      → (height c'.stack ≡ base + last_size env.stack_size before)
        × (height c'.stack ≤ base + env'.function.max_stack_size)
  Runs-max_stack_size m f env env' before after c c' base s small k e h run =
      elim (emit_each-Emitted env (before ++ after) s small) [
        | inl (r, p) ↦ absurd (ground (arith, p, e))
        | inr (r, end, p, size_eq, max_eq) ↦
            let same : end ≡ env' = returns_injective (sym p ∙ e) in
            let at : height c'.stack ≡ base + last_size env.stack_size before =
              Runs-height m f before after c c' base env.stack_size k r h run in
            (
              at,
              omega (
                arith,
                at,
                max_eq,
                ap (λ (x : FunctionEnv Fl T G). x.function.max_stack_size) same,
                last_size-largest before after env.stack_size env.function.max_stack_size s.counted,
              ),
            )
      ]
