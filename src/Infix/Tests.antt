-- ===== src/Infix/Tests.antt =====
-- Runs of parser/src/infix.rs, and its theorem at a concrete expression.
use embed_lang.Prelude.{ℕ, ◌+◌, ◌≡◌, refl, [], ◌∷◌, Option, some, false}
use embed_lang.Infix.Table.{Name, OpMeta, get}
use embed_lang.Infix.Decide.{Op, Cause, undefined_fixity, decide}
use embed_lang.Infix.Reparse.{
  Expr, operand, infix_op, ok, failed, next, build, rebuild, loop, reparse,
}
use embed_lang.Infix.Yields.{yield, Answers}
use embed_lang.Infix.Respects.{Respects}
use embed_lang.Infix.Grouping.{reparse-Respects}
use embed_lang.Infix.Sound.{reparse-Answers}

-- The built-in table, behind `#`.
abbrev built_in : Name → Option OpMeta
built_in = get (λ c. false) []

abbrev times : Op
times = record { name = b'#' ∷ b'*' ∷ []; start = 1; end = 2 }

abbrev plus : Op
plus = record { name = b'#' ∷ b'+' ∷ []; start = 3; end = 4 }

abbrev unknown : Op
unknown = record { name = b'+' ∷ []; start = 3; end = 4 }

abbrev atom : ℕ → Expr ℕ
atom i = operand i (i + 1) i

abbrev sum_last : Expr ℕ
sum_last = infix_op 0 5 (atom 0) times (infix_op 2 5 (atom 2) plus (atom 4))

grouped :
    reparse built_in sum_last
    ≡ ok (infix_op 0 5 (infix_op 0 3 (atom 0) times (atom 2)) plus (atom 4))
unfolding reparse loop next build decide get
grouped = refl

-- An operator without a fixity: in the expression given back, the two operators have changed places.
swapped :
    reparse built_in (infix_op 0 5 (atom 0) times (infix_op 2 5 (atom 2) unknown (atom 4)))
    ≡ failed
        (undefined_fixity (b'+' ∷ []) 3 4)
        (some (infix_op 0 5 (atom 0) unknown (infix_op 2 5 (atom 2) times (atom 4))))
unfolding reparse loop next build rebuild decide get
swapped = refl

reparse-Answers_example : Answers (Cause built_in) (reparse built_in sum_last) (yield sum_last)
reparse-Answers_example = reparse-Answers built_in sum_last

abbrev minus : Op
minus = record { name = b'#' ∷ b'-' ∷ []; start = 5; end = 6 }

-- `0 #* 2 #+ 4 #- 6`, as it is parsed.
abbrev chain : Expr ℕ
chain =
    infix_op 0 7 (atom 0) times (infix_op 2 7 (atom 2) plus (infix_op 4 7 (atom 4) minus (atom 6)))

abbrev chain_grouped : Expr ℕ
chain_grouped =
    infix_op 0 7 (infix_op 0 5 (infix_op 0 3 (atom 0) times (atom 2)) plus (atom 4)) minus (atom 6)

reparse-Respects_example : Respects built_in chain_grouped
unfolding reparse loop next build decide get
reparse-Respects_example = reparse-Respects built_in chain chain_grouped tt refl
