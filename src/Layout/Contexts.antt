-- ===== src/Layout/Contexts.antt =====
-- parser/src/layout.rs: the indentation levels. The stack of contexts is a list whose head is the
-- vector's last element.
use embed_lang.Prelude.{Bool, true, false, ltb, if◌then◌else◌, List, [], ◌∷◌, Option, none, some}
use embed_lang.Layout.Tokens.{
  Token, else_kw, r_brace, r_bracket, r_paren, in_kw, Location, unindented_too_far, Res, ok, err,
  ◌>>=◌,
}

pub data Context : Type 0 where
  block_ctx : Bool → Context
  brace_ctx bracket_ctx paren_ctx expr_ctx let_ctx rec_ctx type_ctx if_ctx : Context
  match_clause_ctx lambda_ctx attribute_ctx : Context

pub record Offside : Type 0 where
  pub location : Location
  pub context : Context

-- The loop of `check_unindentation_limit`, from the last context.
unfoldable pub check_from : Bool → Offside → List Offside → Res (Unit {0})
check_from skip_block o [] = ok tt
check_from skip_block o (p ∷ ps) =
    let on = check_from skip_block o ps in
    let skipping = check_from true o ps in
    let bounded =
      if ltb o.location.column p.location.column
      then err (unindented_too_far o.location.absolute)
      else on in
    elim p.context [
      | lambda_ctx ↦ skipping
      | block_ctx emit_semi ↦ if skip_block then on else bounded
      | brace_ctx ↦ ok tt
      | bracket_ctx ↦ ok tt
      | paren_ctx ↦ ok tt
      | match_clause_ctx ↦ bounded
      | type_ctx ↦ bounded
      | rec_ctx ↦ bounded
      | let_ctx ↦ bounded
      | expr_ctx ↦ on
      | if_ctx ↦ on
      | attribute_ctx ↦ on
    ]

unfoldable pub check_unindentation_limit : List Offside → Offside → Res (Unit {0})
unfolding check_from
check_unindentation_limit levels o = check_from false o levels

-- `Contexts::push`
unfoldable pub push : List Offside → Offside → Res (List Offside)
unfolding check_unindentation_limit
push levels o = do check ← check_unindentation_limit levels o; ok (o ∷ levels)

-- `if let Some(Offside { context: Context::Block { emit_semi } }) = last_mut() { *emit_semi = b }`
unfoldable pub set_emit_semi : Bool → List Offside → List Offside
set_emit_semi b [] = []
set_emit_semi b (o ∷ os) = elim o.context [
  | block_ctx emit_semi ↦ record o { context = block_ctx b } ∷ os
  | other ↦ o ∷ os
]

-- `if let Some(Context::Rec) = last().context { pop() }`
unfoldable pub pop_rec : List Offside → List Offside
pop_rec [] = []
pop_rec (o ∷ os) = elim o.context [ rec_ctx ↦ os | other ↦ o ∷ os ]

abbrev pub is_rec : Context → Bool
is_rec rec_ctx = true
is_rec c = false

-- Whether the context below the last one is `Rec`.
unfoldable pub in_rec : List Offside → Bool
in_rec [] = false
in_rec (o ∷ []) = false
in_rec (o ∷ p ∷ os) = is_rec p.context

-- The first block from the bottom of the stack.
unfoldable pub first_block : List Offside → Option Offside
first_block [] = none
first_block (o ∷ os) = elim (first_block os) [
  | some p ↦ some p
  | none ↦ elim o.context [ block_ctx b ↦ some o | other ↦ none ]
]

module _ {S : Type 0} where
  unfoldable pub token_closes_context : Token S → Context → Bool
  token_closes_context t (block_ctx b) = true
  token_closes_context else_kw if_ctx = true
  token_closes_context r_brace brace_ctx = true
  token_closes_context r_bracket bracket_ctx = true
  token_closes_context r_paren paren_ctx = true
  token_closes_context in_kw rec_ctx = true
  token_closes_context in_kw let_ctx = true
  token_closes_context in_kw type_ctx = true
  token_closes_context r_bracket attribute_ctx = true
  token_closes_context t c = false

  -- `indent_levels.stack.iter().all(|offside| !token_closes_context(token, offside.context))`
  unfoldable pub closes_none : Token S → List Offside → Bool
  unfolding token_closes_context
  closes_none t [] = true
  closes_none t (o ∷ os) =
      let rest = closes_none t os in if token_closes_context t o.context then false else rest
