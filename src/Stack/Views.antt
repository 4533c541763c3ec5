-- ===== src/Stack/Views.antt =====
-- vm/src/stack.rs: the operations of `StackFrame` against those of `Stack`.
use embed_lang.Prelude.{ℕ, ◌+◌, ◌≤◌, ◌≡◌, subst, ◌∷◌, tail, length, take, arith, ◌>>=◌, returns}
use embed_lang.Stack.Data.{StackFrame, locked_args}
use embed_lang.Stack.Ops
use embed_lang.Stack.Frames
use embed_lang.Stack.Valid.{Fits, IsView, protected}
use embed_lang.Stack.Pops.{assert_pop-protected}
use embed_lang.Stack.Scopes.{frames_cons}

module _ {V : Type 0} (f : StackFrame V) (h : IsView f) where
  top_frame : f.stack.frames ≡ f.frame ∷ tail f.stack.frames
  top_frame = frames_cons f.stack.frames f.frame h.synced

  top_fits : f.frame.offset + locked_args f.frame.state ≤ length f.stack.values
  top_fits =
      let fits = subst (Fits (length f.stack.values)) top_frame h.valid.fits in
      omega (arith, fits.0)

  -- In a valid view the check before a pop is the stack's own check.
  assert_pop-view : (count : ℕ) → Frames.assert_pop f count ≡ Ops.assert_pop f.stack count
  unfolding Frames.assert_pop
  assert_pop-view count = ground (
    arith,
    assert_pop-protected f.stack count f.frame (tail f.stack.frames) top_frame h.valid,
    top_frame,
    h.valid.fits,
    h.valid.small,
  )

  -- In a valid view, `pop` and `pop_many` of the frame do what those of the stack do, with the same
  -- panics.
  pub pop-view :
      (count : ℕ)
      → (Frames.pop_many f count
          ≡ (Ops.pop_many f.stack count >>= λ s. returns (record f { stack = s })))
        × (Frames.pop f ≡ (Ops.pop f.stack >>= λ (s, v). returns (record f { stack = s }, v)))
  unfolding Frames.pop_many Frames.pop Ops.pop_many Ops.pop
  pop-view count = (
    ground (arith, top_frame, top_fits, h.valid.small),
    ground (arith, top_frame, top_fits, h.valid.small),
  )

  -- In a valid view, `clear` removes all the frame's values but the locked ones, and does not panic.
  pub clear-eq :
      Frames.clear f
      ≡ returns (record f {
        stack = record f.stack { values = take (protected f.stack.frames) f.stack.values };
      })
  unfolding Frames.clear
  clear-eq = ground (arith, top_frame, top_fits, h.valid.small)
