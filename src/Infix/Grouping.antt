-- ===== src/Infix/Grouping.antt =====
-- parser/src/infix.rs: the order of the operators on the stack of `reparse`, and its result.
use embed_lang.Prelude.{ℕ, zero, suc, ◌≡◌, subst, List, [], ◌∷◌, Option, none, some}
use embed_lang.Infix.Table.{Name, OpMeta}
use embed_lang.Infix.Decide.{Op, Decision, reducing, shifting, stopping, conflicting, decide, Error}
use embed_lang.Infix.Reparse.{
  Expr, operand, infix_op, ok, act, loop, next, rebuild, make_op, rounds, reparse,
}
use embed_lang.Infix.Sound.{Phase, before_operand, before_operator, at_end, state_of, settled}
use embed_lang.Infix.Respects.{
  Decided, decide-Decided, LeftOk, Respects, Good, Waiting, Good-operand, Good-make_op, Grouped,
  build-Grouped,
}

-- The parser's chain: every operator's left operand is a single operand.
abbrev pub Chain : {A : Type 0} → Expr A → Type 0
Chain (operand b e a) = Unit
Chain (infix_op b e (operand c d a) o r) = Chain r
Chain (infix_op b e l o r) = ⊥

module _ (A : Type 0) (get : Name → Option OpMeta) where
  -- What holds between two rounds.
  abbrev Ordered : Phase A → List (Expr A) → List Op → Type 0
  Ordered (before_operand e) args ops = Chain e × Waiting get args ops
  Ordered (before_operator a o r) args ops = Chain r × LeftOk get a o × Good get a args ops
  Ordered (at_end a) args ops = Good get a args ops

  rebuild-Grouped :
      (err : Error) (args : List (Expr A)) (ops : List Op) → Grouped get (rebuild err args ops)
  unfolding rebuild
  rebuild-Grouped err [] ops = tt
  rebuild-Grouped err (a ∷ []) ops = tt
  rebuild-Grouped err (a ∷ b ∷ args) [] = tt
  rebuild-Grouped err (a ∷ b ∷ args) (o ∷ ops) = rebuild-Grouped err (make_op b o a ∷ args) ops

  abbrev GroupedIn : ℕ → Type 0
  GroupedIn n =
      (p : Phase A) (args : List (Expr A)) (ops : List Op)
      → Ordered p args ops
      → Grouped get (loop get n (state_of p args ops))

  act-Grouped :
      (n : ℕ)
      → GroupedIn n
      → (a r : Expr A) (o s : Op) (args : List (Expr A)) (ops : List Op) (d : Decision)
      → Decided get o s d
      → Ordered (before_operator a o r) args (s ∷ ops)
      → Grouped get (
          settled get n (
            act
              (record { remaining = some r; next_op = none; args = a ∷ args; ops = s ∷ ops })
              o
              s
              ops
              d))
  act-Grouped n ih a r o s [] ops reducing k h = tt
  act-Grouped n ih a r o s (b ∷ args) ops reducing k (c, l, g) =
      ih (before_operator (make_op b s a) o r) args ops (c, k, Good-make_op get a b s args ops g)
  act-Grouped n ih a r o s args ops shifting k (c, l, g) =
      ih (before_operand r) (a ∷ args) (o ∷ s ∷ ops) (c, (l, k, g))
  act-Grouped n ih a r o s args ops (stopping err) k h = rebuild-Grouped err _ _
  act-Grouped n ih a r o s args ops (conflicting err) k h = tt

  loop-Grouped : (n : ℕ) → GroupedIn n
  unfolding loop next
  loop-Grouped zero p args ops h = tt
  loop-Grouped (suc n) (before_operand (operand s e a)) args ops (c, w) =
      loop-Grouped n (at_end (operand s e a)) args ops (Good-operand get s e a args ops w)
  loop-Grouped (suc n) (before_operand (infix_op s e (operand b d a) o r)) args ops (c, w) =
      loop-Grouped n (before_operator (operand b d a) o r) args ops
        (c, tt, Good-operand get b d a args ops w)
  loop-Grouped (suc n) (before_operand (infix_op s e (infix_op b d x y z) o r)) args ops (c, w) =
      absurd c
  loop-Grouped (suc n) (at_end a) args ops g = build-Grouped get a args ops g
  loop-Grouped (suc n) (before_operator a o r) args [] (c, l, g) =
      loop-Grouped n (before_operand r) (a ∷ args) (o ∷ []) (c, (l, tt, g))
  loop-Grouped (suc n) (before_operator a o r) args (s ∷ ops) h =
      act-Grouped n (loop-Grouped n) a r o s args ops (decide get o s) (decide-Decided get o s) h

-- If the parser's chain of operands and operators is regrouped, the result respects the precedences
-- and the fixities: in every part, the operator of the left operand binds before the part's own
-- operator as its left neighbour, and the operator of the right operand binds before it as its right
-- neighbour.
pub reparse-Respects :
    {A : Type 0} (get : Name → Option OpMeta) (e t : Expr A)
    → Chain e
    → reparse get e ≡ ok t
    → Respects get t
unfolding reparse
reparse-Respects get e t c h =
    subst (Grouped get) h (loop-Grouped _ get (suc (rounds e)) (before_operand e) [] [] (c, tt))
