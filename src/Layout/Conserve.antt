-- ===== src/Layout/Conserve.antt =====
-- parser/src/layout.rs: what `layout_next_token` and a run of it keep of the tokens, and its end.
use embed_lang.Prelude.{
  ℕ, zero, suc, ◌+◌, ◌≡◌, ◌≢◌, refl, ap, ◌∙◌, sym, subst, ◌⊎◌, inl, inr, Bool, true, false, leb,
  if◌then◌else◌, List, [], ◌∷◌, ◌++◌, length, ◌&&◌, arith,
}
use embed_lang.Layout.Tokens.{
  Token, open_block, in_kw, Location, Spanned, spanned, location_le, Lexed, lexed, Res, ok, err,
  panicked, no_fuel, unindented_too_far, ◌>>=◌, Ensures, fine, failed, stopped, Ensures-map,
  if-Ensures, >>=-Ensures, Ensures-ok, Ensures-ends,
}
use embed_lang.Layout.Contexts.{
  block_ctx, brace_ctx, bracket_ctx, paren_ctx, expr_ctx, if_ctx, lambda_ctx, attribute_ctx,
  Offside, check_from, check_unindentation_limit,
}
use embed_lang.Layout.Stream.{Layout}
use embed_lang.Layout.Step.{is_eof}
use embed_lang.Layout.Next.{loop, layout_next_token}
use embed_lang.Layout.Source.{
  keep, sources, lexed_sources, pending, Given, Inserts, keep-append, next_token-pending, Reads,
}
use embed_lang.Layout.Inserted.{Inserted, Inserted-refl, Inserted-keep, Inserted-in}
use embed_lang.Layout.Rounds.{loop-pending}

module _ {S : Type 0} where
  keep-eof : (t : Spanned S) (ts : List (Spanned S)) → is_eof t.value ≡ true → keep t ts ≡ ts
  keep-eof t ts h = go t.value h
    where
      go : (v : Token S) → is_eof v ≡ true → keep (record t { value = v }) ts ≡ ts
      go embed_lang.Layout.Tokens.eof h = refl
      go _ h = cc

  spanned-value : (a b : Location) (v : Token S) → (spanned a b v).value ≡ v
  unfolding spanned
  spanned-value a b v = ground arith

  -- One token of the layout: what was to come is what is still to come, behind that token.
  abbrev pub Kept : Layout S → Spanned S × Layout S → Type 0
  Kept l (t, l') = Given t l' (pending l)

  loop_enough :
      (t : Spanned S) (l : Layout S)
      → Ensures
          (loop (length l.levels + length l.levels + 2) t l)
          (λ (u, l'). Given u l' (keep t (pending l)))
  loop_enough t l = loop-pending (length l.levels + length l.levels + 2) t l (ground arith)

  layout_next_token-Ensures : (l : Layout S) → Ensures (layout_next_token l) (Kept l)
  unfolding layout_next_token
  layout_next_token-Ensures l =
      >>=-Ensures (Reads l) (next_token-pending l)
        (λ (t, l') (kept, same). given t l' kept (is_eof t.value) refl)
    where
      given :
          (t : Spanned S) (l' : Layout S)
          → keep t (pending l') ≡ pending l
          → (b : Bool) → is_eof t.value ≡ b
          → let ended = spanned (record t.start { column = 0 }) t.end t.value in
            let fuel = length l'.levels + length l'.levels + 2 in
            Ensures
              (if b
                then (elim l'.levels [ [] ↦ ok (ended, l') | o ∷ os ↦ loop fuel ended l' ])
                else loop fuel t l')
              (Kept l)
      given t l' kept false e =
          Ensures-map (λ (u, end). Given u end (keep t (pending l'))) (loop_enough t l')
            (λ (u, end) h. subst (Given u end) kept h)
      given t l' kept true e = bottom l'.levels
        where
          ended : Spanned S
          ended = spanned (record t.start { column = 0 }) t.end t.value

          same : keep ended (pending l') ≡ pending l
          same =
              keep-eof ended (pending l')
                (ap is_eof (spanned-value (record t.start { column = 0 }) t.end t.value) ∙ e)
              ∙ sym (keep-eof t (pending l') e)
              ∙ kept

          bottom :
              (ls : List Offside)
              → Ensures
                  (elim ls [
                    | [] ↦ ok (ended, l')
                    | o ∷ os ↦ loop (length l'.levels + length l'.levels + 2) ended l'
                  ])
                  (Kept l)
          bottom [] = fine (inl same)
          bottom (o ∷ os) =
              Ensures-map (λ (u, end). Given u end (keep ended (pending l'))) (loop_enough ended l')
                (λ (u, end) h. subst (Given u end) same h)

  -- The layout of the next token ends, whatever the tokens and the contexts are: the loop's fuel and
  -- that of the looks ahead are enough.
  pub layout_next_token-ends : (l : Layout S) → layout_next_token l ≢ no_fuel
  layout_next_token-ends l = Ensures-ends (layout_next_token-Ensures l)

  -- In any state, a call that succeeds hands out a token of which one of two things holds. Before the
  -- tokens still to come, less those that only the layout makes, it gives those that were to come; or
  -- all that were to come still are, and it is an inserted `in`: the next tokens open a block at its
  -- place and are a token at that place that is no `in` itself.
  pub layout_next_token-pending :
      (l : Layout S) (t : Spanned S) (l' : Layout S)
      → layout_next_token l ≡ ok (t, l')
      → (keep t (pending l') ≡ pending l) ⊎ (Inserts t l' × (pending l' ≡ pending l))
  layout_next_token-pending l t l' h = Ensures-ok (layout_next_token-Ensures l) (t, l') h

  -- The first `n` tokens of the layout.
  unfoldable pub take_tokens : ℕ → Layout S → Res (List (Spanned S) × Layout S)
  take_tokens zero l = ok ([], l)
  take_tokens (suc n) l = do
    (t, l') ← layout_next_token l
    (ts, l'') ← take_tokens n l'
    ok (t ∷ ts, l'')

  abbrev pub Taken : Layout S → List (Spanned S) × Layout S → Type 0
  Taken l (ts, l') = Inserted (sources ts ++ pending l') (pending l)

  -- One more token in front of those that were taken.
  Given-Taken :
      (t : Spanned S) (ts : List (Spanned S)) (l l' rest : Layout S)
      → Given t l' (pending l)
      → Taken l' (ts, rest)
      → Taken l (t ∷ ts, rest)
  Given-Taken t ts l l' rest given taken =
      subst (λ us. Inserted us (pending l)) (keep-append t (sources ts) (pending rest)) (go given)
    where
      go : Given t l' (pending l) → Inserted (keep t (sources ts ++ pending rest)) (pending l)
      go (inl e) = subst (Inserted _) e (Inserted-keep t _ (pending l') taken)
      go (inr (inserts, e)) =
          subst (Inserted _) e
            (Inserted-in t _ (pending l') (ap (λ u. u.value) inserts.is_in) taken)

  pub take_tokens-Ensures : (n : ℕ) (l : Layout S) → Ensures (take_tokens n l) (Taken l)
  unfolding take_tokens
  take_tokens-Ensures zero l = fine (Inserted-refl (pending l))
  take_tokens-Ensures (suc n) l =
      >>=-Ensures (Kept l) (layout_next_token-Ensures l) (λ (t, l') kept.
        >>=-Ensures (Taken l') (take_tokens-Ensures n l')
          (λ (ts, l'') taken. fine (Given-Taken t ts l l' l'' kept taken)))

  -- If any number of calls of the layout of a file succeed, the tokens handed out, followed by those
  -- still to come, are the tokens that the lexer gave, in their order, with nothing but `in` tokens
  -- inserted between them, once block tokens, separators and ends of the file are left away.
  pub take_tokens-sources :
      (n : ℕ) (tokens : List (Lexed S)) (ts : List (Spanned S)) (l : Layout S)
      → take_tokens n (record { tokens = tokens; unprocessed = []; levels = [] }) ≡ ok (ts, l)
      → Inserted (sources ts ++ pending l) (lexed_sources tokens)
  take_tokens-sources n tokens ts l h = Ensures-ok (take_tokens-Ensures n _) (ts, l) h

-- The columns that a new context may not be left of, from the last context down to the innermost
-- bracket: a lambda hides the blocks below it.
abbrev pub limits : Bool → List Offside → List ℕ
limits skip_block [] = []
limits skip_block (o ∷ os) =
    let on = limits skip_block os in
    let skipping = limits true os in
    elim o.context [
      | lambda_ctx ↦ skipping
      | brace_ctx ↦ []
      | bracket_ctx ↦ []
      | paren_ctx ↦ []
      | block_ctx b ↦ if skip_block then on else o.location.column ∷ on
      | expr_ctx ↦ on
      | if_ctx ↦ on
      | attribute_ctx ↦ on
      | other ↦ o.location.column ∷ on
    ]

abbrev pub all_at_most : ℕ → List ℕ → Bool
all_at_most c [] = true
all_at_most c (d ∷ ds) = leb d c && all_at_most c ds

check_from-limits :
    (b : Bool) (o : Offside) (os : List Offside)
    → check_from b o os ≡ (
        if all_at_most o.location.column (limits b os)
        then ok tt
        else err (unindented_too_far o.location.absolute))
unfolding check_from
check_from-limits b o [] = refl
check_from-limits b o (p ∷ os) =
    ground (arith, check_from-limits b o os, check_from-limits true o os)

-- The unindentation check passes exactly if the new context is not to the left of any of the limits,
-- the columns of the enclosing bindings, clauses and blocks up to the innermost bracket, less the
-- blocks below a lambda. It fails with the context's position otherwise.
pub check_unindentation_limit-limits :
    (levels : List Offside) (o : Offside)
    → check_unindentation_limit levels o ≡ (
        if all_at_most o.location.column (limits false levels)
        then ok tt
        else err (unindented_too_far o.location.absolute))
unfolding check_unindentation_limit
check_unindentation_limit-limits levels o = check_from-limits false o levels
