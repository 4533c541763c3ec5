-- ===== src/Layout/Stream.antt =====
-- parser/src/layout.rs: the state of the layout, and its reads ahead. The unprocessed tokens are a
-- list whose head is the vector's last element, the next token to be handled.
use embed_lang.Prelude.{
  ℕ, zero, suc, ◌+◌, ◌-◌, leb, Bool, true, false, if◌then◌else◌, List, [], ◌∷◌, ◌++◌, Option, none,
  some, length,
}
use embed_lang.Layout.Tokens.{
  Token, let_kw, type_kw, rec_kw, attribute_open, doc_comment, r_bracket, eof, open_block,
  close_block, Location, Spanned, Lexed, lexed, lex_error, lexer, Res, ok, err, no_fuel, ◌>>=◌,
}
use embed_lang.Layout.Contexts.{
  Context, block_ctx, let_ctx, type_ctx, attribute_ctx, Offside, push, in_rec, first_block,
}

pub record Layout (S : Type 0) : Type 0 where
  pub tokens : List (Lexed S)
  pub unprocessed : List (Spanned S)
  pub levels : List Offside

-- What `scan_continue_block` makes of a token.
pub data Scanned : Type 0 where
  opens skips closes stops : Scanned

abbrev pub is_attribute : Context → Bool
is_attribute attribute_ctx = true
is_attribute c = false

abbrev pub is_block : Context → Bool
is_block (block_ctx b) = true
is_block c = false

module _ {S : Type 0} where
  -- The end of the file, at line 0, column 1 and position 1.
  abbrev pub end_of_file : Spanned S
  end_of_file =
      let here : Location = record { line = 0; column = 1; absolute = 1 } in
      record { value = eof; start = here; end = here }

  read : Layout S → List (Lexed S) → Res (Spanned S × Layout S)
  read l [] = ok (end_of_file, l)
  read l (lexed t ∷ ts) = ok (t, record l { tokens = ts })
  read l (lex_error e ∷ ts) = err (lexer e)

  pop_unprocessed : Layout S → List (Spanned S) → Res (Spanned S × Layout S)
  unfolding read
  pop_unprocessed l [] = read l l.tokens
  pop_unprocessed l (t ∷ ts) = ok (t, record l { unprocessed = ts })

  unfoldable pub next_token : Layout S → Res (Spanned S × Layout S)
  unfolding pop_unprocessed
  next_token l = pop_unprocessed l l.unprocessed

  -- The loop of `peek_token`, which puts `n` more tokens behind the unprocessed ones; the result
  -- is whether there were so many.
  unfoldable pub pull :
      ℕ → List (Lexed S) → List (Spanned S) → Res (Bool × List (Lexed S) × List (Spanned S))
  pull zero ts us = ok (true, ts, us)
  pull (suc n) [] us = ok (false, [], us)
  pull (suc n) (lexed t ∷ ts) us = pull n ts (us ++ t ∷ [])
  pull (suc n) (lex_error e ∷ ts) us = err (lexer e)

  -- `unprocessed_tokens.first()`
  abbrev pub furthest : List (Spanned S) → Option (Spanned S)
  furthest [] = none
  furthest (t ∷ []) = some t
  furthest (t ∷ u ∷ us) = furthest (u ∷ us)

  unfoldable pub peek_token : ℕ → Layout S → Res (Option (Spanned S) × Layout S)
  unfolding pull
  peek_token n l = do
    (enough, ts, us) ← pull (suc n - length l.unprocessed) l.tokens l.unprocessed
    let l' : Layout S = record l { tokens = ts; unprocessed = us }
    ok (if enough then furthest us else none, l')

  scan_token : Token S → Scanned
  scan_token attribute_open = opens
  scan_token (doc_comment c) = skips
  scan_token r_bracket = closes
  scan_token t = stops

  -- Whether a token is the one that continues a block of the context; `Let` and `Type` alone have
  -- one.
  continues : Context → Token S → Bool
  continues let_ctx let_kw = true
  continues type_ctx type_kw = true
  continues c t = false

  -- The token that round `i` of `scan_continue_block` looks at.
  unfoldable pub scan_peek : ℕ → Token S → Layout S → Res (Option (Token S) × Layout S)
  unfolding peek_token
  scan_peek zero first l = ok (some first, l)
  scan_peek (suc i) first l = do
    (t, l') ← peek_token i l
    ok (elim t [ none ↦ none | some u ↦ some u.value ], l')

  -- The end of a round, for a token of each kind; `again` makes the next round.
  unfoldable pub scan_class :
      (Bool → Layout S → Res (Bool × Layout S)) → Bool → Scanned → Layout S → Res (Bool × Layout S)
  scan_class again in_attribute opens l = again true l
  scan_class again in_attribute skips l = again in_attribute l
  scan_class again in_attribute closes l = again false l
  scan_class again true stops l = again true l
  scan_class again false stops l = ok (false, l)

  -- The body of the loop of `scan_continue_block`, once the token is read.
  unfoldable pub scan_round :
      (Bool → Layout S → Res (Bool × Layout S))
      → Context
      → Bool
      → Option (Token S)
      → Layout S
      → Res (Bool × Layout S)
  unfolding scan_class scan_token continues
  scan_round again c in_attribute none l = ok (false, l)
  scan_round again c in_attribute (some t) l =
      if continues c t then ok (true, l) else scan_class again in_attribute (scan_token t) l

  -- The loop from round `i` on, on fuel.
  unfoldable pub scan_from : ℕ → ℕ → Context → Token S → Bool → Layout S → Res (Bool × Layout S)
  unfolding scan_peek scan_round
  scan_from zero i c first in_attribute l = no_fuel
  scan_from (suc fuel) i c first in_attribute l = do
    (t, l') ← scan_peek i first l
    scan_round (scan_from fuel (suc i) c first) c in_attribute t l'

  unfoldable pub scan_continue_block : Context → Token S → Layout S → Res (Bool × Layout S)
  unfolding scan_from
  scan_continue_block c first l =
      let rounds = scan_from (length l.tokens + length l.unprocessed + 3) 0 c first false l in
      elim c [ let_ctx ↦ rounds | type_ctx ↦ rounds | other ↦ ok (false, l) ]

  abbrev pub is_rec_kw : Token S → Bool
  is_rec_kw rec_kw = true
  is_rec_kw t = false

  unfoldable pub continue_block : Context → Token S → Layout S → Res (Bool × Layout S)
  unfolding scan_continue_block
  continue_block c t l =
      let scanned = scan_continue_block c t l in
      if in_rec l.levels
      then (if is_attribute c then ok (true, l) else if is_rec_kw t then ok (false, l) else scanned)
      else ok (false, l)

  -- `layout_token`: the token waits, and a layout token at its place is given instead.
  unfoldable pub layout_token : Spanned S → Token S → Layout S → Spanned S × Layout S
  layout_token t value l =
      (record t { value = value }, record l { unprocessed = t ∷ l.unprocessed })

  abbrev pub unread : Spanned S → Layout S → Layout S
  unread t l = record l { unprocessed = t ∷ l.unprocessed }

  -- `self.indent_levels.push(Offside::new(location, context))?`
  unfoldable pub push_level : Location → Context → Layout S → Res (Layout S)
  push_level location c l = do
    levels ← push l.levels (record { location = location; context = c })
    ok (record l { levels = levels })

  -- The block tokens before the token `t`, which waits: an empty block if the token stands at or
  -- before the column of the first block.
  unfoldable pub open_at : Spanned S → Option Offside → Layout S → Layout S
  open_at t none l = unread (record t { value = open_block }) l
  open_at t (some o) l =
      let closed = unread (record t { value = close_block }) l in
      unread (record t { value = open_block })
        (if leb t.start.column o.location.column then closed else l)

  unfoldable pub scan_for_next_block : Context → Layout S → Res (Layout S)
  unfolding next_token push_level open_at
  scan_for_next_block c l = do
    (t, l') ← next_token l
    let waiting = unread t l'
    push_level t.start c (if is_block c then open_at t (first_block l'.levels) waiting else waiting)
