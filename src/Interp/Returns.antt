-- ===== src/Interp/Returns.antt =====
-- vm/src/thread.rs: a call and the return from it. The function and its arguments are replaced by the
-- result, in the frame of the caller.
use embed_lang.Prelude.{
  ◌+◌, ◌-◌, ◌≤◌, ◌<◌, ◌≡◌, sym, ap, ◌∙◌, arith, false, length, length-append, get_elem?, take, List,
  [], ◌∷◌, ◌++◌, append_assoc, some, tail, returns, u32_mod,
}
use embed_lang.Stack.Data.{Stack, StackFrame, State, Frame}
use embed_lang.Stack.Ops.{is_locked_frame}
use embed_lang.Stack.Frames
use embed_lang.Stack.Frames.{entered, restored}
use embed_lang.Stack.Valid.{IsValid, IsView, Fits-resize, protected}
use embed_lang.Stack.Pops.{slide-eq}
use embed_lang.Stack.Scopes.{entered_frame, exit_scope-enter_scope, frames_cons}
use embed_lang.Interp.Data.{Value, Heap, Machine, done}
use embed_lang.Interp.Calls.{exit_scope, leave_frame}
use embed_lang.Interp.Layouts.{holding, get_elem?-middle, length-middle, take-length, len-holding}

module _ {V : Type 0} where
  -- A valid stack with other values is valid if there are enough of them.
  resized-IsValid :
      (s : Stack V) (vs : List V)
      → IsValid s
      → protected s.frames ≤ length vs
      → length vs < u32_mod
      → IsValid (record s { values = vs })
  resized-IsValid s vs h p k = record {
    fits = Fits-resize (length s.values) (length vs) s.frames h.fits p;
    small = k;
  }

  -- To slide the last value down over others.
  slide-holding :
      (f : StackFrame V) (base mid : List V) (v : V)
      → IsView f
      → protected f.stack.frames ≤ length base
      → length base + length mid + 1 < u32_mod
      → Frames.slide (holding f (base ++ (mid ++ v ∷ []))) (length mid)
        ≡ returns (holding f (base ++ v ∷ []))
  unfolding Frames.slide
  slide-holding f base mid v h p k =
      let vs = base ++ (mid ++ v ∷ []) in
      let total : length vs ≡ length base + length mid + 1 =
        omega (arith, length-append base (mid ++ v ∷ []), length-append mid (v ∷ [])) in
      let valid =
        resized-IsValid f.stack vs h.valid (omega (arith, total)) (omega (arith, total)) in
      let frames = frames_cons f.stack.frames f.frame h.synced in
      let at : get_elem? vs (length vs - 1) ≡ some v =
        ap (get_elem? vs) (omega (arith, total, length-append base mid))
        ∙ ap (λ (x : List V). get_elem? x (length (base ++ mid)))
            (sym (append_assoc base mid (v ∷ [])))
        ∙ get_elem?-middle (base ++ mid) v [] in
      let kept : take (length vs - 1 - length mid) vs ≡ base =
        ap (λ n. take n vs) (omega (arith, total)) ∙ take-length base (mid ++ v ∷ []) in
      rw
        (
          slide-eq (record f.stack { values = vs }) f.frame (tail f.stack.frames) frames valid
              (length mid) v at (omega (arith, total)),
          kept,
        )
        (ground (arith, total))

module _ {Fl : Type 0} where
  -- Let a frame without a lock be entered for a call without arguments in excess, from a valid view
  -- whose frame owns the function below the arguments, and let its code leave any values and a result
  -- on the stack, which then has fewer than 2 ^ 32 values. To leave the frame gives the state that the
  -- caller goes on with: its view, in which the result is in the place of the function and of all that
  -- was above it.
  pub leave_frame-enter_scope :
      (m : Machine Fl) (f g : StackFrame (Value Fl)) (state : State (Value Fl))
      (base args own : List (Value Fl)) (v result : Value Fl) (heap : Heap Fl)
      → IsView (holding f (base ++ v ∷ args))
      → protected f.stack.frames ≤ length base
      → Frames.enter_scope_excess (holding f (base ++ v ∷ args)) (length args) state false
        ≡ returns (entered g)
      → is_locked_frame g.frame ≡ false
      → length base + length own + 2 < u32_mod
      → leave_frame m (record { stack = holding g (base ++ (v ∷ own ++ result ∷ [])); heap = heap })
        ≡ done (some (record { stack = holding f (base ++ result ∷ []); heap = heap }))
  unfolding leave_frame exit_scope
  leave_frame-enter_scope m f g state base args own v result heap h p e l k =
      let before = holding f (base ++ v ∷ args) in
      let (enough, free, frame, stack) =
        entered_frame before (length args) state false g h.valid e in
      let vs = base ++ (v ∷ own ++ result ∷ []) in
      let at : g.frame.offset ≡ length base + 1 =
        ap (λ (x : Frame (Value Fl)). x.offset) frame ∙ omega (arith, length-middle base v args) in
      let plain : g.frame.excess ≡ false = ap (λ (x : Frame (Value Fl)). x.excess) frame in
      let total : length vs ≡ length base + length own + 2 =
        omega
          (arith, length-append base (v ∷ own ++ result ∷ []), length-append own (result ∷ [])) in
      let size : length vs - g.frame.offset ≡ length (v ∷ own) = omega (arith, at, total) in
      rw (
        len-holding g vs (omega (arith, at, total)) (omega (arith, total)),
        exit_scope-enter_scope before (length args) state false g vs h l e,
        size,
        slide-holding before base (v ∷ own) result h p (omega arith),
        plain,
      )
