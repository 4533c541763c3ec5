-- ===== src/Layout/Next.antt =====
-- parser/src/layout.rs: the rest of the loop of `layout_next_token`, the loop and the function.
use Prim.Native.Nat.{compare}
use embed_lang.Prelude.{
  ℕ, zero, suc, ◌+◌, ◌==◌, Bool, true, false, ◌&&◌, if◌then◌else◌, [], ◌∷◌, length, Option, none,
  some,
}
use embed_lang.Layout.Tokens.{
  Token, shebang_line, rec_kw, else_kw, if_kw, in_kw, let_kw, do_kw, seq_kw, match_kw, then_kw,
  type_kw, with_kw, comma, equals, lambda, r_arrow, l_brace, l_bracket, l_paren, open_block,
  close_block, attribute_open, Location, Spanned, spanned, Res, ok, panicked, no_fuel, ◌>>=◌,
}
use embed_lang.Layout.Contexts.{
  Context, block_ctx, brace_ctx, bracket_ctx, paren_ctx, expr_ctx, let_ctx, rec_ctx, type_ctx,
  if_ctx, match_clause_ctx, lambda_ctx, attribute_ctx, Offside, set_emit_semi, is_rec, in_rec,
}
use embed_lang.Layout.Stream.{Layout, next_token, unread, push_level, scan_for_next_block, is_block}
use embed_lang.Layout.Step.{
  Flow, emit, again, go_on, below, with_levels, emit_layout, closing, offside_rule, is_eof,
}

module _ {S : Type 0} where
  -- The context that a token begins.
  pub push_context : Token S → Option Context
  push_context rec_kw = some rec_ctx
  push_context type_kw = some type_ctx
  push_context let_kw = some let_ctx
  push_context do_kw = some let_ctx
  push_context seq_kw = some let_ctx
  push_context if_kw = some if_ctx
  push_context match_kw = some expr_ctx
  push_context lambda = some lambda_ctx
  push_context l_brace = some brace_ctx
  push_context l_bracket = some bracket_ctx
  push_context l_paren = some paren_ctx
  push_context attribute_open = some attribute_ctx
  push_context t = none

-- The contexts are equal, and both `Type` or both `Let`.
pub same_binding : Context → Context → Bool
same_binding type_ctx type_ctx = true
same_binding let_ctx let_ctx = true
same_binding c d = false

-- What follows a token that begins no context.
pub data After : Type 0 where
  pops_in scans_block scans_clause scans_else stops_semi nothing : After

module _ {S : Type 0} where
  unfoldable pub begin_context : Spanned S → Offside → Context → Layout S → Res (Flow S × Layout S)
  unfolding same_binding
  begin_context t o c l =
      let place : Location =
        if is_rec o.context && (o.location.line == t.start.line) then o.location else t.start in
      let drop = same_binding o.context c && in_rec l.levels in
      do l' ← push_level place c (if drop then with_levels below l else l); ok (emit t, l')

  pub after_token : Token S → Context → After
  after_token in_kw c = pops_in
  after_token equals let_ctx = scans_block
  after_token r_arrow lambda_ctx = scans_block
  after_token r_arrow match_clause_ctx = scans_block
  after_token then_kw c = scans_block
  after_token with_kw c = scans_clause
  after_token else_kw c = scans_else
  after_token comma c = stops_semi
  after_token t c = nothing

  unfoldable pub is_if_kw : Token S → Bool
  is_if_kw if_kw = true
  is_if_kw t = false

  -- An `else` opens a block, unless an `if` follows on its line.
  unfoldable pub scan_else : Spanned S → Layout S → Res (Layout S)
  unfolding is_if_kw
  scan_else t l = do
    (next, l') ← next_token l
    let waiting = unread next l'
    let opened = scan_for_next_block (block_ctx false) waiting
    if is_if_kw next.value && (next.start.line == t.start.line) then ok waiting else opened

  unfoldable pub finish_token : Spanned S → Context → After → Layout S → Res (Flow S × Layout S)
  unfolding scan_else
  finish_token t c pops_in l =
      if is_block c
      then emit_layout t close_block (with_levels below l)
      else ok (emit t, with_levels below l)
  finish_token t c scans_block l = do l' ← scan_for_next_block (block_ctx false) l; ok (emit t, l')
  finish_token t c scans_clause l = do l' ← scan_for_next_block match_clause_ctx l; ok (emit t, l')
  finish_token t c scans_else l = do l' ← scan_else t l; ok (emit t, l')
  finish_token t c stops_semi l = ok (emit t, with_levels (set_emit_semi false) l)
  finish_token t c nothing l = ok (emit t, l)

  -- The last part: the token is returned, and may begin a context.
  unfoldable pub give : Spanned S → Offside → Layout S → Res (Flow S × Layout S)
  unfolding begin_context finish_token push_context after_token
  give t o l = elim (push_context t.value) [
    | some c ↦ begin_context t o c l
    | none ↦ finish_token t o.context (after_token t.value o.context) l
  ]

  unfoldable pub is_shebang : Token S → Bool
  is_shebang (shebang_line s) = true
  is_shebang t = false

  -- A part of the loop, and the next one if it is not the end.
  unfoldable pub then_part :
      Flow S × Layout S → (Layout S → Res (Flow S × Layout S)) → Res (Flow S × Layout S)
  then_part (emit t, l) next = ok (emit t, l)
  then_part (again t, l) next = ok (again t, l)
  then_part (go_on, l) next = next l

  unfoldable pub in_context : Spanned S → Offside → Layout S → Res (Flow S × Layout S)
  unfolding then_part
  in_context t o l = do
    closed ← closing t o l
    then_part closed (λ l'. do
      ruled ← offside_rule t o.context (compare t.start.column o.location.column) l'
      then_part ruled (λ l''. give t o l''))

  -- One round of the loop.
  unfoldable pub round : Spanned S → Layout S → Res (Flow S × Layout S)
  unfolding in_context is_shebang
  round t l =
      let first : Res (Flow S × Layout S) =
        (push_level t.start (block_ctx false) l >>= λ l'. emit_layout t open_block l') in
      if is_shebang t.value
      then ok (emit t, l)
      else elim l.levels [ [] ↦ first | o ∷ os ↦ in_context t o l ]

  -- The loop, on fuel.
  unfoldable pub loop : ℕ → Spanned S → Layout S → Res (Spanned S × Layout S)
  unfolding round
  loop zero t l = no_fuel
  loop (suc fuel) t l = do
    (flow, l') ← round t l
    elim flow [ emit u ↦ ok (u, l') | again u ↦ loop fuel u l' | go_on ↦ panicked ]

  -- The fuel is for rounds that pop a context, and for rounds that turn the token into a `CloseBlock`.
  unfoldable pub layout_next_token : Layout S → Res (Spanned S × Layout S)
  unfolding loop
  layout_next_token l = do
    (t, l') ← next_token l
    let ended : Spanned S = spanned (record t.start { column = 0 }) t.end t.value
    let fuel = length l'.levels + length l'.levels + 2
    if is_eof t.value
        then (elim l'.levels [ [] ↦ ok (ended, l') | o ∷ os ↦ loop fuel ended l' ])
        else loop fuel t l'

  -- `Iterator::next`: the token with its two ends, or nothing at the end of the file.
  unfoldable pub next : Layout S → Res (Option (ℕ × Token S × ℕ) × Layout S)
  unfolding layout_next_token
  next l = do
    (t, l') ← layout_next_token l
    ok (if is_eof t.value then none else some (t.start.absolute, t.value, t.end.absolute), l')
