-- ===== src/Infix/Reparse.antt =====
-- parser/src/infix.rs: `Infixes` and `reparse`. An operand is a value of `A` with its place; the
-- table is the function `get`, from a name to the operator's fixity.
use embed_lang.Prelude.{ℕ, zero, suc, ◌+◌, List, [], ◌∷◌, Option, none, some}
use embed_lang.Infix.Table.{OpMeta, Name}
use embed_lang.Infix.Decide.{
  Op, span, Error, Decision, reducing, shifting, stopping, conflicting, decide,
}

pub data Expr (A : Type 0) : Type 0 where
  operand : ℕ → ℕ → A → Expr A
  infix_op : ℕ → ℕ → Expr A → Op → Expr A → Expr A

pub data Reparsed (A : Type 0) : Type 0 where
  ok : Expr A → Reparsed A
  failed : Error → Option (Expr A) → Reparsed A
  panicked : Reparsed A
  no_fuel : Reparsed A

-- The iterator `Infixes` and the two stacks, whose heads are the vectors' last elements.
pub record Work (A : Type 0) : Type 0 where
  pub remaining : Option (Expr A)
  pub next_op : Option Op
  pub args : List (Expr A)
  pub ops : List Op

pub data InfixToken (A : Type 0) : Type 0 where
  arg : Expr A → InfixToken A
  op : Op → InfixToken A

-- The loop goes on, or returns.
pub data Move (A : Type 0) : Type 0 where
  goes_on : Work A → Move A
  stops : Reparsed A → Move A

module _ {A : Type 0} where
  abbrev pub start_of : Expr A → ℕ
  start_of (operand s e a) = s
  start_of (infix_op s e l o r) = s

  abbrev pub end_of : Expr A → ℕ
  end_of (operand s e a) = e
  end_of (infix_op s e l o r) = e

  abbrev pub make_op : Expr A → Op → Expr A → Expr A
  make_op lhs o rhs =
      let (start, end) = span (start_of lhs) (end_of rhs) in infix_op start end lhs o rhs

  -- `Infixes::next`: a cached operator, or the next operand, behind which an operator is cached.
  next_expr : Work A → Expr A → InfixToken A × Work A
  next_expr w (infix_op s e lhs o rhs) =
      (arg lhs, record w { remaining = some rhs; next_op = some o })
  next_expr w (operand s e a) = (arg (operand s e a), record w { remaining = none })

  next_remaining : Work A → Option (Expr A) → Option (InfixToken A × Work A)
  unfolding next_expr
  next_remaining w none = none
  next_remaining w (some e) = some (next_expr w e)

  unfoldable pub next : Work A → Option (InfixToken A × Work A)
  unfolding next_remaining
  next w = elim w.next_op [
    | some o ↦ some (op o, record w { next_op = none })
    | none ↦ next_remaining w w.remaining
  ]

  -- The loop over the operators that are left, and the assertion that one operand is.
  unfoldable pub build : List (Expr A) → List Op → Reparsed A
  build (e ∷ []) [] = ok e
  build (rhs ∷ lhs ∷ args) (o ∷ ops) = build (make_op lhs o rhs ∷ args) ops
  build args ops = panicked

  -- `try_infix` after an error: the loop runs while there are two operands.
  unfoldable pub rebuild : Error → List (Expr A) → List Op → Reparsed A
  rebuild err [] ops = failed err none
  rebuild err (e ∷ []) ops = failed err (some e)
  rebuild err (rhs ∷ lhs ∷ args) [] = panicked
  rebuild err (rhs ∷ lhs ∷ args) (o ∷ ops) = rebuild err (make_op lhs o rhs ∷ args) ops

  abbrev push_remaining : Option (Expr A) → List (Expr A) → List (Expr A)
  push_remaining none args = args
  push_remaining (some e) args = e ∷ args

  -- The two operands of `s` are taken off their stack; `n` is put back into the iterator.
  abbrev reduce : Work A → List (Expr A) → Op → Op → List Op → Move A
  reduce w (rhs ∷ lhs ∷ args) n s ops =
      goes_on (record w { next_op = some n; args = make_op lhs s rhs ∷ args; ops = ops })
  reduce w _ n s ops = stops panicked

  abbrev pub act : Work A → Op → Op → List Op → Decision → Move A
  act w n s ops reducing = reduce w w.args n s ops
  act w n s ops shifting = goes_on (record w { ops = n ∷ s ∷ ops })
  act w n s ops (stopping err) =
      stops (rebuild err (push_remaining w.remaining w.args) (s ∷ n ∷ ops))
  act w n s ops (conflicting err) = stops (failed err none)

  -- The body of the loop, for each kind of token.
  abbrev pub on_op : (Name → Option OpMeta) → Work A → Op → List Op → Move A
  on_op get w n [] = goes_on (record w { ops = n ∷ [] })
  on_op get w n (s ∷ ops) = act w n s ops (decide get n s)

  abbrev pub on_token : (Name → Option OpMeta) → Work A → InfixToken A → Move A
  on_token get w (arg e) = goes_on (record w { args = e ∷ w.args })
  on_token get w (op n) = on_op get w n w.ops

  unfoldable pub loop : (Name → Option OpMeta) → ℕ → Work A → Reparsed A
  unfolding next build
  loop get zero w = no_fuel
  loop get (suc n) w = elim (next w) [
    | none ↦ build w.args w.ops
    | some (token, w') ↦ elim (on_token get w' token) [ stops r ↦ r | goes_on w'' ↦ loop get n w'' ]
  ]

  -- Three rounds for an operator (its left operand, itself, its reduction) and one for an operand.
  abbrev pub rounds : Expr A → ℕ
  rounds (operand s e a) = 1
  rounds (infix_op s e l o r) = 3 + rounds r

  unfoldable pub reparse : (Name → Option OpMeta) → Expr A → Reparsed A
  unfolding loop
  reparse get e =
      loop get (suc (rounds e)) (record { remaining = some e; next_op = none; args = []; ops = [] })
