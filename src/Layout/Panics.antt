-- ===== src/Layout/Panics.antt =====
-- parser/src/layout.rs: the contexts after each round of the layout, and the outcomes of its runs.
use Prim.Native.Nat.{Ordering, compare}
use embed_lang.Prelude.{
  ℕ, zero, suc, ◌+◌, ◌≡◌, refl, sym, subst, ◌∙◌, Bool, true, false, not, if◌then◌else◌, List, [],
  ◌∷◌, length, inl, inr, ◌⊎◌,
}
use embed_lang.Layout.Tokens.{Spanned, spanned, Lexed, ok, panicked, ◌>>=◌, open_block}
use embed_lang.Layout.Contexts.{
  Context, block_ctx, brace_ctx, bracket_ctx, paren_ctx, expr_ctx, let_ctx, rec_ctx, type_ctx,
  if_ctx, match_clause_ctx, lambda_ctx, attribute_ctx, Offside, set_emit_semi, closes_none,
  token_closes_context,
}
use embed_lang.Layout.Stream.{Layout, is_block, push_level, layout_token}
use embed_lang.Layout.Step.{
  Flow, emit, again, go_on, below, with_levels, emit_layout, closing, comma_inside, is_closing,
  is_eof, insert_in, end_binding, offside_rule,
}
use embed_lang.Layout.Next.{give, then_part, in_context, round, loop, layout_next_token, is_shebang}
use embed_lang.Layout.Rounds.{Rounds, round-Rounds}
use embed_lang.Layout.Conserve.{take_tokens, take_tokens-Ensures}
use embed_lang.Layout.Rooted.{
  Safe-Ensures, Returns, Safe-Returns, Safe, safe, unfinished, >>=-Safe, Safe-map, if-Safe,
  Standing, Rooted, Standing-Rooted, Standing-cons, Standing-below, Rooted-pop_rec,
  Rooted-set_emit_semi, Standing-set_emit_semi,
}
use embed_lang.Layout.Reads.{next_token-Safe, continue_block-Safe}
use embed_lang.Layout.Bases.{
  Leaves, Closing, push-block-Safe, close_context-Safe, Rooted-pop, give-Safe,
}

-- The contexts of a `let` or `type` that the offside rules look at.
abbrev Binding : List Offside → Type 0
Binding ls = (o : Offside) × (os : List Offside) × (ls ≡ o ∷ os) × Standing os

Binding-below :
    (o : Offside) (os : List Offside) (ls : List Offside)
    → Standing ls
    → (o.context ≡ if_ctx) ⊎ (ls ≡ o ∷ os)
    → (o.context ≡ if_ctx) ⊎ (is_block o.context ≡ false → Binding ls)
Binding-below o os ls h (inl e) = inl e
Binding-below o os ls h (inr e) = inr (λ c. (o, os, e, Standing-below o os c (subst Standing e h)))

module _ {S : Type 0} where
  -- After the closing tokens, the context is still the last one, or it was an `if`.
  abbrev Closes : Offside → List Offside → Flow S × Layout S → Type 0
  Closes o os (emit t, l) = Rooted l.levels
  Closes o os (again t, l) = Rooted l.levels
  Closes o os (go_on, l) = Standing l.levels × ((o.context ≡ if_ctx) ⊎ (l.levels ≡ o ∷ os))

  closing-Safe :
      (t : Spanned S) (o : Offside) (os : List Offside) (l : Layout S)
      → l.levels ≡ o ∷ os
      → Standing (o ∷ os)
      → Safe (Closes o os) (closing t o l)
  unfolding closing
  closing-Safe t o os l e h =
      let all : Standing l.levels = subst Standing (sym e) h in
      let rest : Rooted (below l.levels) = Rooted-pop l.levels all in
      if-Safe (comma_inside t.value o.context) (safe (Standing-Rooted l.levels all)) (
        if-Safe (not (is_closing t.value)) (safe (all, inr e)) (
          if-Safe (closes_none t.value (below l.levels)) (safe rest) (
            if-Safe (token_closes_context t.value o.context)
              (Safe-map (Closing o.context)
                (close_context-Safe t o.context (with_levels below l) rest
                  (λ c. subst (λ ls. Standing (below ls)) (sym e) (Standing-below o os c h)))
                (λ (flow, l') q. closes flow l' q))
              (safe rest))))
    where
      closes :
          (flow : Flow S) (l' : Layout S) → Closing o.context (flow, l') → Closes o os (flow, l')
      closes (emit u) l' q = q
      closes (again u) l' q = q
      closes go_on l' q = (q.0, inl q.1)

  insert_in-Safe :
      (t : Spanned S) (o : Offside) (os : List Offside) (l : Layout S)
      → l.levels ≡ o ∷ os
      → Standing os
      → Safe Leaves (insert_in t l)
  unfolding insert_in layout_token
  insert_in-Safe t o [] l e h = absurd h
  insert_in-Safe t o (p ∷ os) l e h = rw e (
      >>=-Safe (λ l'. Standing l'.levels)
        (push-block-Safe o.location _
          (Rooted-pop_rec (set_emit_semi false (p ∷ os)) (Rooted-set_emit_semi false (p ∷ os) h)))
        (λ l' q. safe (Standing-Rooted l'.levels q)))

  end_binding-Safe :
      (t : Spanned S) (c : Context) (o : Offside) (os : List Offside) (l : Layout S)
      → l.levels ≡ o ∷ os
      → Standing os
      → Safe Leaves (end_binding t c l)
  unfolding end_binding
  end_binding-Safe t c o os l e h =
      >>=-Safe (λ (more, l'). l'.levels ≡ l.levels) (continue_block-Safe c t.value l)
        (λ (more, l') q. if-Safe more (safe (subst Standing (sym (q ∙ e)) (Standing-cons o os h))) (
          if-Safe (is_eof t.value)
            (safe (subst (λ ls. Rooted (below ls)) (sym (q ∙ e)) (Standing-Rooted os h)))
            (insert_in-Safe t o os l' (q ∙ e) h)))

  kept-Standing :
      (b : Bool) (l : Layout S)
      → Standing l.levels
      → Standing (if b then l else with_levels (set_emit_semi true) l).levels
  kept-Standing true l h = h
  kept-Standing false l h = Standing-set_emit_semi true l.levels h

  end_or_go-Safe :
      (b : Bool) (t : Spanned S) (c : Context) (l : Layout S)
      → Standing l.levels
      → Binding l.levels
      → Safe Leaves (if b then ok (go_on, l) else end_binding t c l)
  end_or_go-Safe b t c l h (o, os, e, below_stands) =
      if-Safe b (safe h) (end_binding-Safe t c o os l e below_stands)

  offside_rule-Safe :
      (t : Spanned S) (c : Context) (ordering : Ordering) (l : Layout S)
      → Standing l.levels
      → (c ≡ if_ctx) ⊎ (is_block c ≡ false → Binding l.levels)
      → Safe Leaves (offside_rule t c ordering l)
  unfolding offside_rule layout_token
  offside_rule-Safe t (block_ctx b) Ordering.lt l h k = safe (Standing-Rooted l.levels h)
  offside_rule-Safe t (block_ctx true) Ordering.eq l h k =
      safe (Rooted-set_emit_semi false l.levels (Standing-Rooted l.levels h))
  offside_rule-Safe t (block_ctx false) Ordering.eq l h k = safe (kept-Standing _ l h)
  offside_rule-Safe t (block_ctx b) Ordering.gt l h k = safe h
  offside_rule-Safe t expr_ctx Ordering.lt l h k = safe (Rooted-pop l.levels h)
  offside_rule-Safe t expr_ctx Ordering.eq l h k = safe (Rooted-pop l.levels h)
  offside_rule-Safe t expr_ctx Ordering.gt l h k = safe h
  offside_rule-Safe t lambda_ctx Ordering.lt l h k = safe (Rooted-pop l.levels h)
  offside_rule-Safe t lambda_ctx Ordering.eq l h k = safe (Rooted-pop l.levels h)
  offside_rule-Safe t lambda_ctx Ordering.gt l h k = safe h
  offside_rule-Safe t match_clause_ctx Ordering.lt l h k = safe (Rooted-pop l.levels h)
  offside_rule-Safe t match_clause_ctx Ordering.eq l h k =
      if-Safe _ (safe h) (safe (Rooted-pop l.levels h))
  offside_rule-Safe t match_clause_ctx Ordering.gt l h k = safe h
  offside_rule-Safe t let_ctx Ordering.gt l h k = safe h
  offside_rule-Safe t type_ctx Ordering.gt l h k = safe h
  offside_rule-Safe t let_ctx Ordering.lt l h (inl e) = cc
  offside_rule-Safe t let_ctx Ordering.lt l h (inr k) = end_or_go-Safe _ t let_ctx l h (k refl)
  offside_rule-Safe t let_ctx Ordering.eq l h (inl e) = cc
  offside_rule-Safe t let_ctx Ordering.eq l h (inr k) = end_or_go-Safe _ t let_ctx l h (k refl)
  offside_rule-Safe t type_ctx Ordering.lt l h (inl e) = cc
  offside_rule-Safe t type_ctx Ordering.lt l h (inr k) = end_or_go-Safe _ t type_ctx l h (k refl)
  offside_rule-Safe t type_ctx Ordering.eq l h (inl e) = cc
  offside_rule-Safe t type_ctx Ordering.eq l h (inr k) = end_or_go-Safe _ t type_ctx l h (k refl)
  offside_rule-Safe t brace_ctx ordering l h k = safe h
  offside_rule-Safe t bracket_ctx ordering l h k = safe h
  offside_rule-Safe t paren_ctx ordering l h k = safe h
  offside_rule-Safe t rec_ctx ordering l h k = safe h
  offside_rule-Safe t if_ctx ordering l h k = safe h
  offside_rule-Safe t attribute_ctx ordering l h k = safe h

  then_give-Safe :
      (t : Spanned S) (o : Offside) (r : Flow S × Layout S)
      → Leaves r
      → Safe Leaves (then_part r (λ l. give t o l))
  unfolding then_part
  then_give-Safe t o (emit u, l) h = safe h
  then_give-Safe t o (again u, l) h = safe h
  then_give-Safe t o (go_on, l) h = give-Safe t o l h

  in_context-Safe :
      (t : Spanned S) (o : Offside) (os : List Offside) (l : Layout S)
      → l.levels ≡ o ∷ os
      → Standing (o ∷ os)
      → Safe Leaves (in_context t o l)
  unfolding in_context then_part
  in_context-Safe t o os l e h =
      >>=-Safe (Closes o os) (closing-Safe t o os l e h) (λ (flow, l') q. rule flow l' q)
    where
      rule :
          (flow : Flow S) (l' : Layout S)
          → Closes o os (flow, l')
          → Safe Leaves (
              then_part
                (flow, l')
                (λ m. do
                  ruled ← offside_rule t o.context (compare t.start.column o.location.column) m
                  then_part ruled (λ end. give t o end)))
      rule (emit u) l' q = safe q
      rule (again u) l' q = safe q
      rule go_on l' q =
          >>=-Safe Leaves
            (offside_rule-Safe t o.context (compare t.start.column o.location.column) l' q.0
              (Binding-below o os l'.levels q.0 q.1))
            (λ r p. then_give-Safe t o r p)

  round-Safe : (t : Spanned S) (l : Layout S) → Rooted l.levels → Safe Leaves (round t l)
  unfolding round layout_token
  round-Safe t l h = if-Safe (is_shebang t.value) (safe h) (opened l.levels refl)
    where
      opened :
          (ls : List Offside)
          → l.levels ≡ ls
          → Safe Leaves (elim ls [
            | [] ↦ push_level t.start (block_ctx false) l >>= λ l'. emit_layout t open_block l'
            | o ∷ os ↦ in_context t o l
          ])
      opened [] e =
          >>=-Safe (λ l'. Standing l'.levels) (push-block-Safe t.start l h)
            (λ l' q. safe (Standing-Rooted l'.levels q))
      opened (o ∷ os) e = in_context-Safe t o os l e (subst Rooted e h)

  loop-Safe :
      (fuel : ℕ) (t : Spanned S) (l : Layout S)
      → Rooted l.levels
      → Safe (λ (u, l'). Rooted l'.levels) (loop fuel t l)
  unfolding loop
  loop-Safe zero t l h = unfinished
  loop-Safe (suc fuel) t l h =
      >>=-Safe (λ r. Leaves r × Rounds t l r) (Safe-Ensures (round-Safe t l h) (round-Rounds t l))
        (λ (flow, l') q. finished flow l' q.0 q.1 (λ u. loop-Safe fuel u l'))
    where
      finished :
          (flow : Flow S) (l' : Layout S)
          → Leaves (flow, l')
          → Rounds t l (flow, l')
          → ((u : Spanned S) → Rooted l'.levels → Safe (λ (v, m). Rooted m.levels) (loop fuel u l'))
          → Safe
              (λ (v, m). Rooted m.levels)
              (elim flow [ emit u ↦ ok (u, l') | again u ↦ loop fuel u l' | go_on ↦ panicked ])
      finished (emit u) l' q r ih = safe q
      finished (again u) l' q r ih = ih u q
      finished go_on l' q r ih = absurd r

  layout_next_token-Safe :
      (l : Layout S) → Rooted l.levels → Safe (λ (u, l'). Rooted l'.levels) (layout_next_token l)
  unfolding layout_next_token
  layout_next_token-Safe l h =
      >>=-Safe (λ (t, l'). l'.levels ≡ l.levels) (next_token-Safe l)
        (λ (t, l') e.
          let rooted : Rooted l'.levels = subst Rooted (sym e) h in
          let fuel = length l'.levels + length l'.levels + 2 in
          if-Safe (is_eof t.value)
            (ended (spanned (record t.start { column = 0 }) t.end t.value) fuel l' l'.levels rooted)
            (loop-Safe fuel t l' rooted))
    where
      ended :
          (u : Spanned S) (fuel : ℕ) (l' : Layout S) (ls : List Offside)
          → Rooted l'.levels
          → Safe (λ (v, m). Rooted m.levels) (elim ls [ [] ↦ ok (u, l') | o ∷ os ↦ loop fuel u l' ])
      ended u fuel l' [] r = safe r
      ended u fuel l' (o ∷ os) r = loop-Safe fuel u l' r

  take_tokens-Safe : (n : ℕ) (l : Layout S) → Rooted l.levels → Safe (λ r. Unit) (take_tokens n l)
  unfolding take_tokens
  take_tokens-Safe zero l h = safe tt
  take_tokens-Safe (suc n) l h =
      >>=-Safe (λ (t, l'). Rooted l'.levels) (layout_next_token-Safe l h)
        (λ (t, l') r. >>=-Safe (λ q. Unit) (take_tokens-Safe n l' r) (λ (ts, l'') q. safe tt))

  -- For every file, any number of calls of the layout give tokens, or one of them gives an error of
  -- the lexer or of an unindented context: no `expect` or `unwrap` fails and no loop runs out of fuel.
  pub take_tokens-Returns :
      (n : ℕ) (tokens : List (Lexed S))
      → Returns (take_tokens n (record { tokens = tokens; unprocessed = []; levels = [] }))
  take_tokens-Returns n tokens =
      let start : Layout S = record { tokens = tokens; unprocessed = []; levels = [] } in
      Safe-Returns (take_tokens-Safe n start tt) (take_tokens-Ensures n start)
