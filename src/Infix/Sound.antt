-- ===== src/Infix/Sound.antt =====
-- parser/src/infix.rs: the outcomes of `reparse`, by the phases of its loop.
use embed_lang.Prelude.{
  ℕ, zero, suc, ◌+◌, ◌<◌, ◌≡◌, refl, subst, List, [], ◌∷◌, ◌++◌, append_assoc, arith, Option, none,
  some, length,
}
use embed_lang.Infix.Table.{Name, OpMeta}
use embed_lang.Infix.Decide.{
  Op, Decision, reducing, shifting, stopping, conflicting, decide, Cause, Caused, decide-Caused,
}
use embed_lang.Infix.Reparse.{
  Expr, operand, infix_op, Reparsed, Work, InfixToken, op, Move, goes_on, stops, act, loop, next,
  rounds, make_op, reparse,
}
use embed_lang.Infix.Yields.{
  yield, operands, operands-append, spread, spread_args, operands-spread, make_op-yield, Answers,
  build-Answers, rebuild-Answers,
}

regroup :
    {T : Type 0} (xs ys : List T) (t : T) (zs us : List T)
    → xs ++ (ys ++ t ∷ zs ++ us) ≡ xs ++ ys ++ t ∷ [] ++ (zs ++ us)
regroup xs ys t zs us = rw (
  append_assoc (xs ++ ys) (t ∷ []) (zs ++ us),
  append_assoc xs ys (t ∷ zs ++ us),
  append_assoc ys (t ∷ zs) us,
)

-- Where the loop is: an operand comes next; an operand is on top of the stack and an operator comes
-- next; or the tokens have come to an end.
pub data Phase (A : Type 0) : Type 0 where
  before_operand : Expr A → Phase A
  before_operator : Expr A → Op → Expr A → Phase A
  at_end : Expr A → Phase A

module _ {A : Type 0} where
  abbrev pub state_of : Phase A → List (Expr A) → List Op → Work A
  state_of (before_operand e) args ops = record {
    remaining = some e;
    next_op = none;
    args = args;
    ops = ops;
  }
  state_of (before_operator a o r) args ops = record {
    remaining = some r;
    next_op = some o;
    args = a ∷ args;
    ops = ops;
  }
  state_of (at_end a) args ops = record {
    remaining = none;
    next_op = none;
    args = a ∷ args;
    ops = ops;
  }

  abbrev tokens_of : Phase A → List (InfixToken A)
  tokens_of (before_operand e) = yield e
  tokens_of (before_operator a o r) = yield a ++ op o ∷ yield r
  tokens_of (at_end a) = yield a

  abbrev rounds_of : Phase A → ℕ
  rounds_of (before_operand e) = rounds e
  rounds_of (before_operator a o r) = 2 + rounds r
  rounds_of (at_end a) = 0

  abbrev pub settled : (Name → Option OpMeta) → ℕ → Move A → Reparsed A
  settled get n m = elim m [ stops r ↦ r | goes_on w ↦ loop get n w ]

-- The loop answers from every phase within `n` rounds.
abbrev AnswersIn : (A : Type 0) → (Name → Option OpMeta) → ℕ → Type 0
AnswersIn A get n =
    (p : Phase A) (args : List (Expr A)) (ops : List Op)
    → length args ≡ length ops
    → rounds_of p + length ops < n
    → Answers (Cause get) (loop get n (state_of p args ops)) (spread args ops ++ tokens_of p)

module _ {A : Type 0} where
  -- The decision about an operator `o` with `s` on the stack.
  act-Answers :
      (get : Name → Option OpMeta) (n : ℕ)
      → AnswersIn A get n
      → (a b r : Expr A) (o s : Op) (args : List (Expr A)) (ops : List Op) (d : Decision)
      → Caused get d
      → length args ≡ length ops
      → 2 + rounds r + length ops < n
      → Answers
          (Cause get)
          (settled get n (
            act
              (record { remaining = some r; next_op = none; args = a ∷ b ∷ args; ops = s ∷ ops })
              o
              s
              ops
              d))
          (spread (b ∷ args) (s ∷ ops) ++ tokens_of (before_operator a o r))
  act-Answers get n ih a b r o s args ops reducing c h w =
      subst
        (Answers (Cause get) (loop get n (state_of (before_operator (make_op b s a) o r) args ops)))
        (regroup (spread args ops) (yield b) (op s) (yield a) (op o ∷ yield r))
        (ih (before_operator (make_op b s a) o r) args ops h (omega (arith, w)))
  act-Answers get n ih a b r o s args ops shifting c h w =
      subst
        (Answers (Cause get)
          (loop get n (state_of (before_operand r) (a ∷ b ∷ args) (o ∷ s ∷ ops))))
        (make_op-yield a r o (spread (b ∷ args) (s ∷ ops)))
        (ih (before_operand r) (a ∷ b ∷ args) (o ∷ s ∷ ops) (omega (arith, h)) (omega (arith, w)))
  act-Answers get n ih a b r o s args ops (stopping err) c h w =
      rebuild-Answers (Cause get) err r (a ∷ b ∷ args) (s ∷ o ∷ ops) _ c (omega (arith, h)) (
        rw (
          operands-append (spread (b ∷ args) (s ∷ ops)) (yield a ++ op o ∷ yield r),
          operands-append (yield a) (op o ∷ yield r),
          operands-spread (b ∷ args) (s ∷ ops) (omega (arith, h)),
          append_assoc (spread_args (b ∷ args)) (operands (yield a)) (operands (yield r)),
        ))
  act-Answers get n ih a b r o s args ops (conflicting err) c h w = c

  loop-Answers : (get : Name → Option OpMeta) (n : ℕ) → AnswersIn A get n
  unfolding loop next
  loop-Answers get zero p args ops h w = absurd (omega (arith, w))
  loop-Answers get (suc n) (before_operand (operand s e a)) args ops h w =
      loop-Answers get n (at_end (operand s e a)) args ops h (omega (arith, w))
  loop-Answers get (suc n) (before_operand (infix_op s e l o r)) args ops h w =
      loop-Answers get n (before_operator l o r) args ops h (omega (arith, w))
  loop-Answers get (suc n) (at_end a) args ops h w = build-Answers (Cause get) a args ops h
  loop-Answers get (suc n) (before_operator a o r) [] [] h w =
      subst (Answers (Cause get) (loop get n (state_of (before_operand r) (a ∷ []) (o ∷ []))))
        (make_op-yield a r o [])
        (loop-Answers get n (before_operand r) (a ∷ []) (o ∷ []) refl (omega (arith, w)))
  loop-Answers get (suc n) (before_operator a o r) (b ∷ args) [] h w = absurd (omega (arith, h))
  loop-Answers get (suc n) (before_operator a o r) [] (s ∷ ops) h w = absurd (omega (arith, h))
  loop-Answers get (suc n) (before_operator a o r) (b ∷ args) (s ∷ ops) h w =
      act-Answers get n (loop-Answers get n) a b r o s args ops (decide get o s)
        (decide-Caused get o s) (omega (arith, h)) (omega (arith, w))

  -- For every table and every expression, the loop returns within the rounds counted, and no
  -- `unwrap` or assertion fails. A result has the operands and the operators of the expression in the
  -- same order. An error is that of an operator the table does not have, or of two operators with one
  -- precedence and different fixities; if it comes with an expression, that has the same operands in
  -- the same order.
  pub reparse-Answers :
      (get : Name → Option OpMeta) (e : Expr A) → Answers (Cause get) (reparse get e) (yield e)
  unfolding reparse
  reparse-Answers get e =
      loop-Answers get (suc (rounds e)) (before_operand e) [] [] refl (omega arith)
