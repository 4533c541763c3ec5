-- ===== src/Infix/Yields.antt =====
-- parser/src/infix.rs: what an expression is made of, in order, and the two stacks with it.
use embed_lang.Prelude.{
  ◌≡◌, refl, sym, subst, ap, List, [], ◌∷◌, ◌++◌, append-nil, append_assoc, arith, none, some,
  length,
}
use embed_lang.Infix.Decide.{Op, Error}
use embed_lang.Infix.Reparse.{
  Expr, operand, infix_op, Reparsed, ok, failed, InfixToken, arg, op, make_op, build, rebuild,
}

module _ {A : Type 0} where
  -- The operands and operators of an expression from the left to the right.
  abbrev pub yield : Expr A → List (InfixToken A)
  yield (operand s e a) = arg (operand s e a) ∷ []
  yield (infix_op s e l o r) = yield l ++ op o ∷ yield r

  abbrev pub operands : List (InfixToken A) → List (InfixToken A)
  operands [] = []
  operands (arg e ∷ ts) = arg e ∷ operands ts
  operands (op o ∷ ts) = operands ts

  pub operands-append :
      (ts us : List (InfixToken A)) → operands (ts ++ us) ≡ operands ts ++ operands us
  operands-append [] us = refl
  operands-append (arg e ∷ ts) us = ap (λ vs. arg e ∷ vs) (operands-append ts us)
  operands-append (op o ∷ ts) us = operands-append ts us

  -- What is on the two stacks when an operand comes next.
  abbrev pub spread : List (Expr A) → List Op → List (InfixToken A)
  spread (a ∷ args) (o ∷ ops) = spread args ops ++ yield a ++ op o ∷ []
  spread args ops = []

  -- The operands on their stack.
  abbrev pub spread_args : List (Expr A) → List (InfixToken A)
  spread_args [] = []
  spread_args (a ∷ args) = spread_args args ++ operands (yield a)

  pub operands-spread :
      (args : List (Expr A)) (ops : List Op)
      → length args ≡ length ops
      → operands (spread args ops) ≡ spread_args args
  operands-spread [] [] h = refl
  operands-spread [] (o ∷ ops) h = refl
  operands-spread (a ∷ args) [] h = absurd (omega (arith, h))
  operands-spread (a ∷ args) (o ∷ ops) h = rw (
    operands-append (spread args ops ++ yield a) (op o ∷ []),
    operands-append (spread args ops) (yield a),
    append-nil (operands (spread args ops) ++ operands (yield a)),
    operands-spread args ops (omega (arith, h)),
  )

  pub make_op-yield :
      (lhs rhs : Expr A) (o : Op) (ts : List (InfixToken A))
      → ts ++ yield lhs ++ op o ∷ [] ++ yield rhs ≡ ts ++ yield (make_op lhs o rhs)
  make_op-yield lhs rhs o ts = rw (
    append_assoc (ts ++ yield lhs) (op o ∷ []) (yield rhs),
    append_assoc ts (yield lhs) (op o ∷ yield rhs),
  )

  pub operands-make_op :
      (lhs rhs : Expr A) (o : Op)
      → operands (yield (make_op lhs o rhs)) ≡ operands (yield lhs) ++ operands (yield rhs)
  operands-make_op lhs rhs o = operands-append (yield lhs) (op o ∷ yield rhs)

  -- The answer for a list of tokens: an expression that has them in this order, or an error whose
  -- cause the table shows and whose expression, if any, has the same operands in the same order.
  abbrev pub Answers : (Error → Type 0) → Reparsed A → List (InfixToken A) → Type 0
  Answers Cause (ok e) ts = yield e ≡ ts
  Answers Cause (failed err none) ts = Cause err
  Answers Cause (failed err (some e)) ts = Cause err × (operands (yield e) ≡ operands ts)
  Answers Cause _ ts = ⊥

  pub build-Answers :
      (Cause : Error → Type 0) (a : Expr A) (args : List (Expr A)) (ops : List Op)
      → length args ≡ length ops
      → Answers Cause (build (a ∷ args) ops) (spread args ops ++ yield a)
  unfolding build
  build-Answers Cause a [] [] h = refl
  build-Answers Cause a (b ∷ args) [] h = absurd (omega (arith, h))
  build-Answers Cause a [] (o ∷ ops) h = absurd (omega (arith, h))
  build-Answers Cause a (b ∷ args) (o ∷ ops) h =
      subst (Answers Cause (build (make_op b o a ∷ args) ops))
        (sym (make_op-yield b a o (spread args ops)))
        (build-Answers Cause (make_op b o a) args ops (omega (arith, h)))

  pub rebuild-Answers :
      (Cause : Error → Type 0) (err : Error) (a : Expr A) (args : List (Expr A)) (ops : List Op)
      (ts : List (InfixToken A))
      → Cause err
      → length args ≡ length ops
      → spread_args args ++ operands (yield a) ≡ operands ts
      → Answers Cause (rebuild err (a ∷ args) ops) ts
  unfolding rebuild
  rebuild-Answers Cause err a [] [] ts c h e = (c, e)
  rebuild-Answers Cause err a (b ∷ args) [] ts c h e = absurd (omega (arith, h))
  rebuild-Answers Cause err a [] (o ∷ ops) ts c h e = absurd (omega (arith, h))
  rebuild-Answers Cause err a (b ∷ args) (o ∷ ops) ts c h e =
      rebuild-Answers Cause err (make_op b o a) args ops ts c (omega (arith, h)) (
        rw
          (
            operands-make_op b a o,
            sym (append_assoc (spread_args args) (operands (yield b)) (operands (yield a))),
          )
          e)
