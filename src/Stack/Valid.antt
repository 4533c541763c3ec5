-- ===== src/Stack/Valid.antt =====
-- vm/src/stack.rs: what holds of a stack between two calls.
use embed_lang.Prelude.{ℕ, ◌+◌, ◌≤◌, ◌<◌, ◌≡◌, List, [], ◌∷◌, head?, some, length, arith, u32_mod}
use embed_lang.Stack.Data.{Frame, Stack, StackFrame, locked_args}
use embed_lang.Stack.Ops

module _ {V : Type 0} where
  -- From the last frame down, each frame with its locked arguments ends below `n`, which is the
  -- offset of the frame above, and for the last frame the length of the stack.
  abbrev pub Fits : ℕ → List (Frame V) → Type 0
  Fits n [] = Unit
  Fits n (f ∷ fs) = (f.offset + locked_args f.state ≤ n) × Fits f.offset fs

  pub record IsValid (s : Stack V) : Type 0 where
    pub fits : Fits (length s.values) s.frames
    pub small : length s.values < u32_mod

  -- A view is valid if its stack is, and if its frame is the stack's last one.
  pub record IsView (f : StackFrame V) : Type 0 where
    pub valid : IsValid f.stack
    pub synced : head? f.stack.frames ≡ some f.frame

  -- The values that the last frame does not own: those below its offset, and the locked arguments.
  abbrev pub protected : List (Frame V) → ℕ
  protected [] = 0
  protected (f ∷ fs) = f.offset + locked_args f.state

  pub len-length : (s : Stack V) → IsValid s → Ops.len s ≡ length s.values
  len-length s h = omega arith

  -- A stack of another length is valid if that is at least what the last frame protects.
  pub Fits-resize : (n m : ℕ) (fs : List (Frame V)) → Fits n fs → protected fs ≤ m → Fits m fs
  Fits-resize n m [] h p = tt
  Fits-resize n m (f ∷ fs) h p = (p, h.1)
