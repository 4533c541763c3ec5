-- ===== src/Stack/Scopes.antt =====
-- vm/src/stack.rs: entering and leaving frames, and the locks of extern calls.
use embed_lang.Prelude.{
  ℕ, suc, ◌-◌, ◌≤◌, ◌≡◌, refl, ◌∙◌, ap, sym, subst, Bool, true, false, ltb, leb, ◌==◌,
  if◌then◌else◌, List, [], ◌∷◌, ◌++◌, head?, tail, some, length, arith, Outcome, Outcome-cases,
  ◌>>=◌, returns, panics, checked_add, ◌&&◌,
}
use embed_lang.Stack.Data.{
  Frame, State, ExternState, extern, Stack, StackFrame, locked_args, max_stack_size, is_locked,
}
use embed_lang.Stack.Ops
use embed_lang.Stack.Ops.{is_locked_frame, unlocked}
use embed_lang.Stack.Frames
use embed_lang.Stack.Frames.{Entered, entered, stack_overflow, Exited, restored, bottom}
use embed_lang.Stack.Valid.{Fits, IsValid, IsView, protected, Fits-resize}
use embed_lang.Stack.Pops.{pop_many-eq}

abbrev All {ℓ κ} : {A : Type ℓ} → (A → Type κ) → List A → Type κ
All P [] = Unit
All P (x ∷ xs) = P x × All P xs

module _ {V : Type 0} where
  locked_args_unlocked : (f : Frame V) → is_locked_frame f ≡ false → locked_args f.state ≡ 0
  locked_args_unlocked f h = ground arith

  -- The specification of `add_new_frame`: a panic if the arguments are not on the stack, or if the
  -- frame below protects one of them; an overflow if the stack may grow beyond its maximum; and
  -- otherwise a new frame at the offset of its first argument.
  abbrev pub frame_or_error : Stack V → ℕ → State V → Bool → Outcome (Entered (Stack V × Frame V))
  frame_or_error s args state excess =
      if leb args (length s.values) && leb (protected s.frames) (length s.values - args)
      then (checked_add (length s.values) (max_stack_size state) >>= λ size.
          let frame : Frame V = record {
            offset = length s.values - args;
            state = state;
            excess = excess;
          } in
          if ltb s.max_stack_size size
          then returns (stack_overflow s.max_stack_size)
          else returns (entered (record s { frames = frame ∷ s.frames }, frame)))
      else panics

  -- On a valid stack `add_new_frame` does what its specification says: it panics exactly if the
  -- arguments are not all on the stack and free of what the frame below protects, or if the sizes
  -- add up to more than 32 bits.
  pub add_new_frame-eq :
      (s : Stack V) (args : ℕ) (state : State V) (excess : Bool)
      → IsValid s
      → Frames.add_new_frame s args state excess ≡ frame_or_error s args state excess
  unfolding Frames.add_new_frame Frames.assert_frame
  add_new_frame-eq s args state excess h = go s.frames refl
    where
      go :
          (fs : List (Frame V))
          → s.frames ≡ fs
          → Frames.add_new_frame s args state excess ≡ frame_or_error s args state excess
      go [] e = rw e (ground arith)
      go (f ∷ fs) e = rw e (ground (arith, locked_args_unlocked f))

  pub frames_cons : (fs : List (Frame V)) (x : Frame V) → head? fs ≡ some x → fs ≡ x ∷ tail fs
  frames_cons [] x h = cc
  frames_cons (y ∷ fs) x h = ground arith

  restore_last :
      (s : Stack V) (fs : List (Frame V)) (x : Frame V)
      → head? fs ≡ some x
      → Frames.restore s fs ≡ restored (record { stack = s; frame = x })
  unfolding Frames.restore
  restore_last s [] x h = cc
  restore_last s (y ∷ fs) x h = ground arith

  module _ (f : StackFrame V) (args : ℕ) (state : State V) (excess : Bool) (g : StackFrame V) where
    -- What a frame is entered with: the stack with the new frame on top.
    pub entered_frame :
        IsValid f.stack
        → Frames.enter_scope_excess f args state excess ≡ returns (entered g)
        → (args ≤ length f.stack.values)
          × (protected f.stack.frames ≤ length f.stack.values - args)
          × (g.frame
              ≡ record { offset = length f.stack.values - args; state = state; excess = excess })
          × (g.stack ≡ record f.stack { frames = g.frame ∷ f.stack.frames })
    unfolding Frames.enter_scope_excess
    entered_frame h r = ground (arith, add_new_frame-eq f.stack args state excess h)

    -- If a frame is entered from a valid view, with at most its arguments locked, the result is a
    -- valid view of a stack with the same values.
    pub enter_scope-IsView :
        IsView f
        → locked_args state ≤ args
        → Frames.enter_scope_excess f args state excess ≡ returns (entered g)
        → IsView g × (g.stack.values ≡ f.stack.values)
    enter_scope-IsView h l r =
        let (fits, free, frame, stack) = entered_frame h.valid r in
        let n = length f.stack.values in
        let offset : g.frame.offset ≡ n - args = ap (λ (x : Frame V). x.offset) frame in
        let locks : locked_args g.frame.state ≡ locked_args state =
          ap (λ (x : Frame V). locked_args x.state) frame in
        let below : Fits g.frame.offset f.stack.frames =
          Fits-resize n g.frame.offset f.stack.frames h.valid.fits (omega arith) in
        (
          record {
            valid =
                subst IsValid (sym stack)
                  (record { fits = (omega arith, below); small = h.valid.small });
            synced = ap (λ (x : Stack V). head? x.frames) stack;
          },
          ap (λ (x : Stack V). x.values) stack,
        )

    -- If a frame without a lock is entered from a valid view, then whatever values it leaves on the
    -- stack, `exit_scope` gives back the view it was entered from, with these values.
    pub exit_scope-enter_scope :
        (vs : List V)
        → IsView f
        → is_locked_frame g.frame ≡ false
        → Frames.enter_scope_excess f args state excess ≡ returns (entered g)
        → Frames.exit_scope (record g { stack = record g.stack { values = vs } })
          ≡ returns (restored (record f { stack = record f.stack { values = vs } }))
    unfolding Frames.exit_scope
    exit_scope-enter_scope vs h l r =
        subst
          (λ (x : Stack V).
            Frames.exit_scope (record { stack = record x { values = vs }; frame = g.frame })
            ≡ returns (restored (record f { stack = record f.stack { values = vs } })))
          (sym (entered_frame h.valid r).3)
          (rw l (ap returns (restore_last _ f.stack.frames f.frame h.synced)))

  -- Before it is left, a locked frame gives the stack back as it is; so does the first frame, which
  -- has none below it, once it is popped.
  pub exit_scope-bottom :
      (f : StackFrame V)
      → IsView f
      → (is_locked_frame f.frame ≡ true → Frames.exit_scope f ≡ returns (bottom f.stack))
        × (is_locked_frame f.frame ≡ false
            → f.stack.frames ≡ f.frame ∷ []
            → Frames.exit_scope f ≡ returns (bottom (record f.stack { frames = [] })))
  unfolding Frames.exit_scope
  exit_scope-bottom f h = (λ l. rw l, λ l e. rw (l, e))

  module _ (f : StackFrame V) (ext : ExternState) (h : IsView f)
      (e : f.frame.state ≡ extern ext) where
    abbrev locked_frame : Frame V
    locked_frame = record f.frame {
      state = extern (record ext { locked = some (length f.stack.values - f.frame.offset) });
    }

    abbrev locked_stack : Stack V
    locked_stack = record f.stack { frames = locked_frame ∷ tail f.stack.frames }

    offset-le : f.frame.offset ≤ length f.stack.values
    offset-le =
        let fits =
          subst (Fits (length f.stack.values)) (frames_cons f.stack.frames f.frame h.synced)
            h.valid.fits in
        omega (arith, fits.0)

    into_lock-eq : Frames.into_lock f ≡ returns (locked_stack, f.frame.offset)
    unfolding Frames.into_lock
    into_lock-eq =
        rw (e, frames_cons f.stack.frames f.frame h.synced)
          (ground (arith, h.valid.small, offset-le))

    -- In a valid view of an extern call's frame, `into_lock` succeeds with the frame's offset as the
    -- lock, keeps the values and the stack's validity, and protects every value that is on the stack:
    -- `pop_many` of one or more values panics.
    pub into_lock-protects :
        (s : Stack V) × (Frames.into_lock f ≡ returns (s, f.frame.offset))
        × IsValid s
        × (s.values ≡ f.stack.values)
        × (protected s.frames ≡ length s.values)
        × ((count : ℕ) → Ops.pop_many s (suc count) ≡ panics)
    into_lock-protects =
        let n = length f.stack.values in
        let fits = subst (Fits n) (frames_cons f.stack.frames f.frame h.synced) h.valid.fits in
        let valid : IsValid locked_stack = record {
          fits = (omega (arith, offset-le), fits.1);
          small = h.valid.small;
        } in
        (
          locked_stack,
          into_lock-eq,
          valid,
          refl,
          omega (arith, offset-le),
          λ count.
              pop_many-eq locked_stack locked_frame (tail f.stack.frames) refl valid (suc count)
              ∙ ground (arith, offset-le),
        )

    -- In a valid view of an extern call's frame that is not locked, to release the lock that
    -- `into_lock` gives restores the stack that was locked.
    pub release_lock-into_lock :
        (s : Stack V) (lock : ℕ)
        → is_locked ext ≡ false
        → Frames.into_lock f ≡ returns (s, lock)
        → Ops.release_lock s lock ≡ returns f.stack
    unfolding Ops.release_lock
    release_lock-into_lock s lock l r =
        let same : s ≡ locked_stack = cc (into_lock-eq) in
        let at : lock ≡ f.frame.offset = cc (into_lock-eq) in
        rw (same, at) (ground (arith, frames_cons f.stack.frames f.frame h.synced))

  -- On frames with a locked one, `release_lock` looks at the topmost locked frame: it unlocks this
  -- one and no other if the lock was taken at its offset, and panics otherwise.
  pub release-topmost :
      (lock : ℕ) (above : List (Frame V)) (f : Frame V) (below : List (Frame V))
      → All (λ (x : Frame V). is_locked_frame x ≡ false) above
      → is_locked_frame f ≡ true
      → Ops.release lock (above ++ f ∷ below) ≡ (
          if f.offset == lock
          then returns (above ++ record f { state = unlocked f.state } ∷ below)
          else panics)
  unfolding Ops.release
  release-topmost lock [] f below u l = ground arith
  release-topmost lock (x ∷ above) f below u l =
      ground (arith, release-topmost lock above f below u.1 l)

  -- To release a lock keeps the frames within the stack.
  pub release-Fits :
      (n lock : ℕ) (fs gs : List (Frame V))
      → Ops.release lock fs ≡ returns gs
      → Fits n fs
      → Fits n gs
  unfolding Ops.release
  release-Fits n lock [] gs r h = cc
  release-Fits n lock (f ∷ fs) [] r h = ground (arith, Outcome-cases (Ops.release lock fs))
  release-Fits n lock (f ∷ fs) (g ∷ gs) r h =
      ground (arith, Outcome-cases (Ops.release lock fs), release-Fits f.offset lock fs gs)
