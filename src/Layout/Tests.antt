-- ===== src/Layout/Tests.antt =====
-- Runs of parser/src/layout.rs, and its theorems at concrete files.
use embed_lang.Prelude.{◌⊎◌, ℕ, ◌+◌, ◌*◌, ◌≡◌, ◌≢◌, refl, false, List, [], ◌∷◌, ◌++◌, map}
use embed_lang.Layout.Tokens.{
  Token, identifier, int_literal, let_kw, in_kw, equals, open_block, close_block, eof, Location,
  location_le, Spanned, spanned, Lexed, lexed, unindented_too_far, Res, ok, err, no_fuel,
}
use embed_lang.Layout.Contexts.{
  Offside, block_ctx, let_ctx, lambda_ctx, push, check_unindentation_limit, set_emit_semi, pop_rec,
  in_rec, first_block, token_closes_context, closes_none,
}
use embed_lang.Layout.Stream.{
  Layout, next_token, continue_block, layout_token, push_level, scan_for_next_block,
}
use embed_lang.Layout.Step.{closing, offside_rule}
use embed_lang.Layout.Next.{give, layout_next_token, next}
use embed_lang.Layout.Source.{Inserts, keep, sources, lexed_sources, pending}
use embed_lang.Layout.Inserted.{Inserted}
use embed_lang.Layout.Rooted.{Returns}
use embed_lang.Layout.Panics.{take_tokens-Returns}
use embed_lang.Layout.Conserve.{
  take_tokens, layout_next_token-ends, layout_next_token-pending, take_tokens-sources,
  check_unindentation_limit-limits,
}

program : Unit {0}
unfolding location_le spanned push check_unindentation_limit set_emit_semi pop_rec in_rec
    first_block token_closes_context closes_none next_token continue_block layout_token push_level
    scan_for_next_block layout_next_token next take_tokens closing offside_rule give
program = tt

abbrev place : ℕ → ℕ → Location
place line column = record { line = line; column = column; absolute = 10 * line + column }

abbrev token_at : ℕ → ℕ → Token ℕ → Spanned ℕ
token_at line column value = record {
  value = value;
  start = place line column;
  end = place line (column + 1);
}

-- let x = 1
-- x
abbrev file : List (Lexed ℕ)
file =
    lexed (token_at 0 1 let_kw)
    ∷ lexed (token_at 0 5 (identifier 7))
    ∷ lexed (token_at 0 7 equals)
    ∷ lexed (token_at 0 9 (int_literal 1))
    ∷ lexed (token_at 1 1 (identifier 7))
    ∷ lexed (token_at 2 1 eof)
    ∷ []

abbrev start : Layout ℕ
start = record { tokens = file; unprocessed = []; levels = [] }

abbrev values_of_run : Res (List (Spanned ℕ) × Layout ℕ) → List (Token ℕ)
values_of_run (ok (ts, l)) = map (λ t. t.value) ts
values_of_run r = []

laid_out :
    values_of_run (take_tokens 13 start)
    ≡ open_block
      ∷ let_kw
      ∷ identifier 7
      ∷ equals
      ∷ open_block
      ∷ int_literal 1
      ∷ close_block
      ∷ in_kw
      ∷ open_block
      ∷ identifier 7
      ∷ close_block
      ∷ close_block
      ∷ eof
      ∷ []
unfolding program
laid_out = refl

-- The state after the first token: `let` waits below the block of the file.
abbrev file_block : Offside
file_block = record { location = place 0 1; context = block_ctx false }

abbrev opened : Layout ℕ
opened = record {
  tokens = (elim file [ [] ↦ [] | t ∷ ts ↦ ts ]);
  unprocessed = token_at 0 1 let_kw ∷ [];
  levels = file_block ∷ [];
}

layout_next_token-ends_example : layout_next_token start ≢ no_fuel
layout_next_token-ends_example = layout_next_token-ends start

-- What a run gives.
abbrev run_of : Res (List (Spanned ℕ) × Layout ℕ) → List (Spanned ℕ) × Layout ℕ
run_of (ok r) = r
run_of r = ([], start)

-- The `in` is handed out with the opening of a block behind it.
abbrev seven : List (Spanned ℕ) × Layout ℕ
unfolding program
seven = run_of (take_tokens 7 start)

abbrev eight : List (Spanned ℕ) × Layout ℕ
unfolding program
eight = run_of (take_tokens 8 start)

layout_next_token-pending_example :
    (keep (token_at 1 1 in_kw) (pending eight.1) ≡ pending seven.1)
    ⊎ (Inserts (token_at 1 1 in_kw) eight.1 × (pending eight.1 ≡ pending seven.1))
unfolding program
layout_next_token-pending_example =
    layout_next_token-pending seven.1 (token_at 1 1 in_kw) eight.1 refl

-- A run of nine tokens, with the `in` that it inserts.
abbrev nine : List (Spanned ℕ) × Layout ℕ
unfolding program
nine = run_of (take_tokens 9 start)

take_tokens-sources_example : Inserted (sources nine.0 ++ pending nine.1) (lexed_sources file)
unfolding program
take_tokens-sources_example = take_tokens-sources 9 file nine.0 nine.1 refl

-- let x = 1 in x
abbrev with_in : List (Lexed ℕ)
with_in =
    lexed (token_at 0 1 let_kw)
    ∷ lexed (token_at 0 5 (identifier 7))
    ∷ lexed (token_at 0 7 equals)
    ∷ lexed (token_at 0 9 (int_literal 1))
    ∷ lexed (token_at 0 11 in_kw)
    ∷ lexed (token_at 0 14 (identifier 7))
    ∷ []

-- The `in` of the source closes the block and then the `let`, and is handed out once.
laid_out_with_in :
    values_of_run (take_tokens 9 (record start { tokens = with_in }))
    ≡ open_block
      ∷ let_kw
      ∷ identifier 7
      ∷ equals
      ∷ open_block
      ∷ int_literal 1
      ∷ close_block
      ∷ in_kw
      ∷ open_block
      ∷ []
unfolding program
laid_out_with_in = refl

-- Behind a lambda the block of the file is no limit, but the `let` is.
abbrev nested : List Offside
nested =
    record { location = place 1 9; context = lambda_ctx }
    ∷ record { location = place 1 7; context = block_ctx false }
    ∷ record { location = place 0 3; context = let_ctx }
    ∷ []

check_unindentation_limit-limits_example :
    check_unindentation_limit nested (record { location = place 2 2; context = let_ctx })
    ≡ err (unindented_too_far 22)
check_unindentation_limit-limits_example =
    check_unindentation_limit-limits nested (record { location = place 2 2; context = let_ctx })

take_tokens-Returns_example :
    Returns (take_tokens 13 (record { tokens = file; unprocessed = []; levels = [] }))
take_tokens-Returns_example = take_tokens-Returns 13 file
