-- ===== src/Layout/Step.antt =====
-- parser/src/layout.rs: the parts of the loop of `layout_next_token`, in their order.
use Prim.Native.Nat.{Ordering}
use embed_lang.Prelude.{Bool, true, false, not, if◌then◌else◌, List, [], ◌∷◌}
use embed_lang.Layout.Tokens.{
  Token, doc_comment, else_kw, in_kw, comma, pipe, r_brace, r_bracket, r_paren, open_block,
  close_block, semi, attribute_open, eof, Spanned, Res, ok, panicked, ◌>>=◌,
}
use embed_lang.Layout.Contexts.{
  Context, block_ctx, brace_ctx, bracket_ctx, paren_ctx, expr_ctx, let_ctx, rec_ctx, type_ctx,
  if_ctx, match_clause_ctx, lambda_ctx, attribute_ctx, Offside, set_emit_semi, pop_rec,
  token_closes_context, closes_none,
}
use embed_lang.Layout.Stream.{Layout, continue_block, layout_token, unread, push_level}

-- How a part of the loop ends: it returns a token, it continues the loop with a token, or the next
-- part follows.
pub data Flow (S : Type 0) : Type 0 where
  emit : Spanned S → Flow S
  again : Spanned S → Flow S
  go_on : Flow S

-- `indent_levels.pop()`
abbrev pub below : List Offside → List Offside
below [] = []
below (o ∷ os) = os

module _ {S : Type 0} where
  abbrev pub with_levels : (List Offside → List Offside) → Layout S → Layout S
  with_levels f l = record l { levels = f l.levels }

  -- `return Ok(self.layout_token(token, value))`
  abbrev pub emit_layout : Spanned S → Token S → Layout S → Res (Flow S × Layout S)
  emit_layout t value l = ok (emit (layout_token t value l).0, (layout_token t value l).1)

  -- `(Comma, Brace | Paren | Bracket)`
  unfoldable pub comma_inside : Token S → Context → Bool
  comma_inside comma brace_ctx = true
  comma_inside comma paren_ctx = true
  comma_inside comma bracket_ctx = true
  comma_inside t c = false

  -- `In | CloseBlock | Else | RBrace | RBracket | RParen | Comma`
  unfoldable pub is_closing : Token S → Bool
  is_closing in_kw = true
  is_closing close_block = true
  is_closing else_kw = true
  is_closing r_brace = true
  is_closing r_bracket = true
  is_closing r_paren = true
  is_closing comma = true
  is_closing t = false

  abbrev pub is_close_block : Token S → Bool
  is_close_block close_block = true
  is_close_block t = false

  -- A `let`, `type` or `rec` is closed by an `in`: a block is opened for what follows, at the place
  -- of the enclosing context.
  unfoldable pub close_binding : Spanned S → Layout S → Res (Flow S × Layout S)
  close_binding t l = elim l.levels [
    | [] ↦ panicked
    | enclosing ∷ os ↦ do
      l' ←
          push_level enclosing.location (block_ctx false)
            (with_levels (λ ls. pop_rec (set_emit_semi false ls)) l)
      ok (emit t, unread (record t { value = open_block }) l')
  ]

  -- The context was popped, and the token closes it.
  unfoldable pub close_context : Spanned S → Context → Layout S → Res (Flow S × Layout S)
  unfolding close_binding
  close_context t if_ctx l = ok (go_on, l)
  close_context t brace_ctx l = ok (emit t, l)
  close_context t bracket_ctx l = ok (emit t, l)
  close_context t paren_ctx l = ok (emit t, l)
  close_context t attribute_ctx l = ok (emit t, l)
  close_context t (block_ctx b) l =
      if is_close_block t.value
      then ok (emit t, with_levels (set_emit_semi false) l)
      else emit_layout t close_block l
  close_context t rec_ctx l = close_binding t l
  close_context t let_ctx l = close_binding t l
  close_context t type_ctx l = close_binding t l
  close_context t c l = ok (again t, l)

  -- The closing tokens.
  unfoldable pub closing : Spanned S → Offside → Layout S → Res (Flow S × Layout S)
  unfolding close_context comma_inside is_closing
  closing t o l =
      let popped = with_levels below l in
      if comma_inside t.value o.context
      then ok (emit t, l)
      else if not (is_closing t.value)
      then ok (go_on, l)
      else if closes_none t.value popped.levels
      then ok (emit t, popped)
      else if token_closes_context t.value o.context
      then close_context t o.context popped
      else ok (again t, popped)

  -- `AttributeOpen | DocComment | OpenBlock`
  keeps_emit_semi : Token S → Bool
  keeps_emit_semi attribute_open = true
  keeps_emit_semi (doc_comment c) = true
  keeps_emit_semi open_block = true
  keeps_emit_semi t = false

  is_pipe : Token S → Bool
  is_pipe pipe = true
  is_pipe t = false

  is_r_brace : Token S → Bool
  is_r_brace r_brace = true
  is_r_brace t = false

  abbrev pub is_eof : Token S → Bool
  is_eof eof = true
  is_eof t = false

  -- An `in` is inserted before the token, for a `let` or `type` that it ends.
  unfoldable pub insert_in : Spanned S → Layout S → Res (Flow S × Layout S)
  insert_in t l = elim l.levels [
    | [] ↦ panicked
    | binding ∷ [] ↦ panicked
    | binding ∷ enclosing ∷ os ↦
        let (token, l') =
          layout_token t in_kw
            (record l { levels = pop_rec (set_emit_semi false (enclosing ∷ os)) }) in
        do
          l'' ← push_level binding.location (block_ctx false) l'
          ok (emit token, unread (record t { value = open_block }) l'')
  ]

  -- A `let` or `type` whose token stands at its column or before it.
  unfoldable pub end_binding : Spanned S → Context → Layout S → Res (Flow S × Layout S)
  unfolding insert_in continue_block
  end_binding t c l = do
    (more, l') ← continue_block c t.value l
    if more
        then ok (go_on, l')
        else if is_eof t.value
        then ok (again t, with_levels below l')
        else insert_in t l'

  -- The offside rules, by the token's column against the context's.
  unfoldable pub offside_rule : Spanned S → Context → Ordering → Layout S → Res (Flow S × Layout S)
  unfolding end_binding keeps_emit_semi is_pipe is_r_brace
  offside_rule t (block_ctx b) Ordering.lt l =
      ok (again (record t { value = close_block }), unread t l)
  offside_rule t (block_ctx true) Ordering.eq l =
      emit_layout t semi (with_levels (set_emit_semi false) l)
  offside_rule t (block_ctx false) Ordering.eq l =
      ok (go_on, if keeps_emit_semi t.value then l else with_levels (set_emit_semi true) l)
  offside_rule t expr_ctx Ordering.gt l = ok (go_on, l)
  offside_rule t expr_ctx ordering l = ok (again t, with_levels below l)
  offside_rule t lambda_ctx Ordering.gt l = ok (go_on, l)
  offside_rule t lambda_ctx ordering l = ok (again t, with_levels below l)
  offside_rule t match_clause_ctx Ordering.lt l = ok (again t, with_levels below l)
  offside_rule t match_clause_ctx Ordering.eq l =
      if is_pipe t.value then ok (go_on, l) else ok (again t, with_levels below l)
  offside_rule t let_ctx Ordering.gt l = ok (go_on, l)
  offside_rule t let_ctx ordering l =
      if is_r_brace t.value then ok (go_on, l) else end_binding t let_ctx l
  offside_rule t type_ctx Ordering.gt l = ok (go_on, l)
  offside_rule t type_ctx ordering l =
      if is_r_brace t.value then ok (go_on, l) else end_binding t type_ctx l
  offside_rule t c ordering l = ok (go_on, l)
