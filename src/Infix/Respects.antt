-- ===== src/Infix/Respects.antt =====
-- parser/src/infix.rs: what it means that a grouping respects the precedences and the fixities.
use embed_lang.Prelude.{ℕ, ◌≡◌, ◌<◌, ◌⊎◌, inl, inr, refl, sym, List, [], ◌∷◌, Option, none, some}
use Prim.Native.Nat.{Ordering}
use embed_lang.Infix.Table.{Name, OpMeta, Fixity, left, right}
use embed_lang.Infix.Decide.{
  Op, Decision, reducing, shifting, cmp, cmp-eq, cmp-lt, cmp-gt, same_precedence, compared,
  looked_up, decide,
}
use embed_lang.Infix.Reparse.{Expr, operand, infix_op, Reparsed, ok, build, make_op}

-- `s o` are neighbours: the one on the left binds first.
abbrev pub BindsLeft : OpMeta → OpMeta → Type 0
BindsLeft sm om =
    (om.precedence < sm.precedence)
    ⊎ ((om.precedence ≡ sm.precedence) × (om.fixity ≡ left) × (sm.fixity ≡ left))

-- The one on the right binds first.
abbrev pub BindsRight : OpMeta → OpMeta → Type 0
BindsRight sm om =
    (sm.precedence < om.precedence)
    ⊎ ((om.precedence ≡ sm.precedence) × (om.fixity ≡ right) × (sm.fixity ≡ right))

-- A relation of the operators' fixities, which the table has.
abbrev pub Known : (Name → Option OpMeta) → (OpMeta → OpMeta → Type 0) → Op → Op → Type 0
Known get R s o =
    (sm : OpMeta) × (om : OpMeta) × (get s.name ≡ some sm) × (get o.name ≡ some om) × R sm om

-- What a decision says about the two operators.
abbrev pub Decided : (Name → Option OpMeta) → Op → Op → Decision → Type 0
Decided get n s reducing = Known get BindsLeft s n
Decided get n s shifting = Known get BindsRight s n
Decided get n s _ = Unit

module _ (get : Name → Option OpMeta) (n s : Op) (nm sm : OpMeta) where
  same_precedence-Decided :
      get n.name ≡ some nm
      → get s.name ≡ some sm
      → sm.precedence ≡ nm.precedence
      → (f g : Fixity) → nm.fixity ≡ f
      → sm.fixity ≡ g
      → Decided get n s (same_precedence n nm s sm f g)
  same_precedence-Decided hn hs hp left left hf hg = (sm, nm, hs, hn, inr (sym hp, hf, hg))
  same_precedence-Decided hn hs hp right right hf hg = (sm, nm, hs, hn, inr (sym hp, hf, hg))
  same_precedence-Decided hn hs hp left right hf hg = tt
  same_precedence-Decided hn hs hp right left hf hg = tt

  compared-Decided :
      get n.name ≡ some nm
      → get s.name ≡ some sm
      → (o : Ordering) → cmp nm.precedence sm.precedence ≡ o
      → Decided get n s (compared n nm s sm o)
  compared-Decided hn hs Ordering.lt h =
      (sm, nm, hs, hn, inl (cmp-lt nm.precedence sm.precedence h))
  compared-Decided hn hs Ordering.gt h =
      (sm, nm, hs, hn, inl (cmp-gt nm.precedence sm.precedence h))
  compared-Decided hn hs Ordering.eq h =
      same_precedence-Decided hn hs (cmp-eq nm.precedence sm.precedence h) nm.fixity sm.fixity refl
        refl

looked_up-Decided :
    (get : Name → Option OpMeta) (n s : Op) (nm sm : Option OpMeta)
    → get n.name ≡ nm
    → get s.name ≡ sm
    → Decided get n s (looked_up n s nm sm)
looked_up-Decided get n s none sm hn hs = tt
looked_up-Decided get n s (some nm) none hn hs = tt
looked_up-Decided get n s (some nm) (some sm) hn hs =
    compared-Decided get n s nm sm hn hs (cmp nm.precedence sm.precedence) refl

pub decide-Decided : (get : Name → Option OpMeta) (n s : Op) → Decided get n s (decide get n s)
unfolding decide
decide-Decided get n s = looked_up-Decided get n s (get n.name) (get s.name) refl refl

-- An operator over the one below it on the stack.
abbrev pub Over : (Name → Option OpMeta) → Op → List Op → Type 0
Over get o [] = Unit
Over get o (s ∷ ops) = Known get BindsRight s o

module _ {A : Type 0} (get : Name → Option OpMeta) where
  -- An operand on the left of `o`, and one on the right.
  abbrev pub LeftOk : Expr A → Op → Type 0
  LeftOk (operand b e a) o = Unit
  LeftOk (infix_op b e l s r) o = Known get BindsLeft s o

  abbrev pub RightOk : Op → Expr A → Type 0
  RightOk o (operand b e a) = Unit
  RightOk o (infix_op b e l s r) = Known get BindsRight o s

  -- In every part, the operator of the left operand binds before the part's own, and so does that
  -- of the right operand.
  abbrev pub Respects : Expr A → Type 0
  Respects (operand b e a) = Unit
  Respects (infix_op b e l o r) = LeftOk l o × RightOk o r × Respects l × Respects r

  -- The stacks with an operand on top, and with an operator on top.
  abbrev pub Good : Expr A → List (Expr A) → List Op → Type 0
  Good a (b ∷ args) (o ∷ ops) =
      Respects a × RightOk o a × LeftOk b o × Over get o ops × Good b args ops
  Good a _ _ = Respects a

  abbrev pub Waiting : List (Expr A) → List Op → Type 0
  Waiting (b ∷ args) (o ∷ ops) = LeftOk b o × Over get o ops × Good b args ops
  Waiting _ _ = Unit

  Good-Respects : (a : Expr A) (args : List (Expr A)) (ops : List Op) → Good a args ops → Respects a
  Good-Respects a [] ops g = g
  Good-Respects a (b ∷ args) [] g = g
  Good-Respects a (b ∷ args) (o ∷ ops) g = g.0

  -- An operand without an operator goes on the stack.
  pub Good-operand :
      (b e : ℕ) (a : A) (args : List (Expr A)) (ops : List Op)
      → Waiting args ops
      → Good (operand b e a) args ops
  Good-operand b e a [] ops w = tt
  Good-operand b e a (c ∷ args) [] w = tt
  Good-operand b e a (c ∷ args) (o ∷ ops) w = (tt, tt, w.0, w.1, w.2)

  pub Good-make_op :
      (a b : Expr A) (s : Op) (args : List (Expr A)) (ops : List Op)
      → Good a (b ∷ args) (s ∷ ops)
      → Good (make_op b s a) args ops
  Good-make_op a b s [] [] (ra, ok_right, ok_left, over, rb) = (ok_left, ok_right, rb, ra)
  Good-make_op a b s [] (o ∷ ops) (ra, ok_right, ok_left, over, rb) = (ok_left, ok_right, rb, ra)
  Good-make_op a b s (c ∷ args) [] (ra, ok_right, ok_left, over, rb) = (ok_left, ok_right, rb, ra)
  Good-make_op a b s (c ∷ args) (o ∷ ops) (ra, ok_right, ok_left, over, below) =
      let (rb, right_below, left_below, over_below, rest) = below in
      ((ok_left, ok_right, rb, ra), over, left_below, over_below, rest)

  abbrev pub Grouped : Reparsed A → Type 0
  Grouped (ok e) = Respects e
  Grouped _ = Unit

  pub build-Grouped :
      (a : Expr A) (args : List (Expr A)) (ops : List Op)
      → Good a args ops
      → Grouped (build (a ∷ args) ops)
  unfolding build
  build-Grouped a [] [] g = g
  build-Grouped a [] (o ∷ ops) g = tt
  build-Grouped a (b ∷ args) [] g = tt
  build-Grouped a (b ∷ args) (o ∷ ops) g =
      build-Grouped (make_op b o a) args ops (Good-make_op a b o args ops g)
