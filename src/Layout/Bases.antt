-- ===== src/Layout/Bases.antt =====
-- parser/src/layout.rs: the contexts after each part of the loop of `layout_next_token`.

use embed_lang.Prelude.{
  ◌≡◌, refl, sym, subst, Bool, true, false, ◌&&◌, if◌then◌else◌, List, [], ◌∷◌, none, some, Option,
}
use embed_lang.Layout.Tokens.{Location, Spanned, ok, panicked, ◌>>=◌, open_block}
use embed_lang.Layout.Contexts.{
  Context, block_ctx, brace_ctx, bracket_ctx, paren_ctx, expr_ctx, let_ctx, rec_ctx, type_ctx,
  if_ctx, match_clause_ctx, lambda_ctx, attribute_ctx, Offside, set_emit_semi, pop_rec, in_rec,
}
use embed_lang.Layout.Stream.{Layout, is_block, push_level, layout_token, unread}
use embed_lang.Layout.Step.{
  Flow, emit, again, go_on, below, with_levels, is_close_block, close_binding, close_context,
}
use embed_lang.Layout.Next.{
  After, pops_in, scans_block, scans_clause, scans_else, stops_semi, nothing, same_binding,
  begin_context, scan_else, finish_token, give, push_context, after_token,
}
use embed_lang.Layout.Rooted.{
  Safe, safe, >>=-Safe, Safe-map, if-Safe, Standing, Rooted, Standing-cons, Standing-Rooted,
  Rooted-block, Rooted-below, Rooted-pop_rec, Rooted-set_emit_semi,
}
use embed_lang.Layout.Reads.{push_level-Safe, next_token-Safe, scan_for_next_block-Safe}

pub Rooted-pop : (os : List Offside) → Standing os → Rooted (below os)
Rooted-pop [] h = tt
Rooted-pop (o ∷ os) h = Rooted-below o os h

-- A context above a `rec` is not the outermost one.
in_rec-Standing : (os : List Offside) → in_rec os ≡ true → Standing os → Standing (below os)
unfolding in_rec
in_rec-Standing [] e h = h
in_rec-Standing (o ∷ []) e h = cc
in_rec-Standing (o ∷ p ∷ os) e h = h

module _ {S : Type 0} where
  -- What a part leaves: a block below all contexts, and a context if the next part follows.
  abbrev pub Leaves : Flow S × Layout S → Type 0
  Leaves (emit t, l) = Rooted l.levels
  Leaves (again t, l) = Rooted l.levels
  Leaves (go_on, l) = Standing l.levels

  pub push-block-Safe :
      (place : Location) (l : Layout S)
      → Rooted l.levels
      → Safe (λ l'. Standing l'.levels) (push_level place (block_ctx false) l)
  push-block-Safe place l h =
      Safe-map (λ l'. l'.levels ≡ record { location = place; context = block_ctx false } ∷ l.levels)
        (push_level-Safe place (block_ctx false) l)
        (λ l' q.
          subst Standing (sym q)
            (Rooted-block (record { location = place; context = block_ctx false }) l.levels refl h))

  push-Standing-Safe :
      (place : Location) (c : Context) (l : Layout S)
      → Standing l.levels
      → Safe (λ l'. Standing l'.levels) (push_level place c l)
  push-Standing-Safe place c l h =
      Safe-map (λ l'. l'.levels ≡ record { location = place; context = c } ∷ l.levels)
        (push_level-Safe place c l)
        (λ l' q.
          subst Standing (sym q)
            (Standing-cons (record { location = place; context = c }) l.levels h))

  -- After the context `c` was closed: the loop goes on in the round for an `if` alone.
  abbrev pub Closing : Context → Flow S × Layout S → Type 0
  Closing c (emit t, l) = Rooted l.levels
  Closing c (again t, l) = Rooted l.levels
  Closing c (go_on, l) = Standing l.levels × (c ≡ if_ctx)

  close_binding-Safe :
      (c : Context) (t : Spanned S) (l : Layout S)
      → Standing l.levels
      → Safe (Closing c) (close_binding t l)
  unfolding close_binding
  close_binding-Safe c t l h = go l.levels refl
    where
      go :
          (os : List Offside)
          → l.levels ≡ os
          → Safe (Closing c) (elim os [
            | [] ↦ panicked
            | enclosing ∷ os' ↦ do
              l' ←
                  push_level enclosing.location
                    (block_ctx false)
                    (with_levels (λ ls. pop_rec (set_emit_semi false ls)) l)
              ok (emit t, unread (record t { value = open_block }) l')
          ])
      go [] e = absurd (subst Standing e h)
      go (enclosing ∷ os') e =
          >>=-Safe (λ l'. Standing l'.levels)
            (push-block-Safe enclosing.location
              (with_levels (λ ls. pop_rec (set_emit_semi false ls)) l)
              (Rooted-pop_rec (set_emit_semi false l.levels)
                (Rooted-set_emit_semi false l.levels (Standing-Rooted l.levels h))))
            (λ l' q. safe (Standing-Rooted l'.levels q))

  -- The context was popped: a context below it is left, unless it was a block.
  pub close_context-Safe :
      (t : Spanned S) (c : Context) (l : Layout S)
      → Rooted l.levels
      → (is_block c ≡ false → Standing l.levels)
      → Safe (Closing c) (close_context t c l)
  unfolding close_context layout_token
  close_context-Safe t if_ctx l h k = safe (k refl, refl)
  close_context-Safe t brace_ctx l h k = safe h
  close_context-Safe t bracket_ctx l h k = safe h
  close_context-Safe t paren_ctx l h k = safe h
  close_context-Safe t attribute_ctx l h k = safe h
  close_context-Safe t (block_ctx b) l h k =
      if-Safe (is_close_block t.value) (safe (Rooted-set_emit_semi false l.levels h)) (safe h)
  close_context-Safe t rec_ctx l h k = close_binding-Safe rec_ctx t l (k refl)
  close_context-Safe t let_ctx l h k = close_binding-Safe let_ctx t l (k refl)
  close_context-Safe t type_ctx l h k = close_binding-Safe type_ctx t l (k refl)
  close_context-Safe t expr_ctx l h k = safe h
  close_context-Safe t match_clause_ctx l h k = safe h
  close_context-Safe t lambda_ctx l h k = safe h

  -- The next token, and a possible context for the token.
  dropped-Standing :
      (a b : Bool) (l : Layout S)
      → in_rec l.levels ≡ b
      → Standing l.levels
      → Standing (if a && b then with_levels below l else l).levels
  dropped-Standing true true l e h = in_rec-Standing l.levels e h
  dropped-Standing true false l e h = h
  dropped-Standing false b l e h = h

  begin_context-Safe :
      (t : Spanned S) (o : Offside) (c : Context) (l : Layout S)
      → Standing l.levels
      → Safe Leaves (begin_context t o c l)
  unfolding begin_context
  begin_context-Safe t o c l h =
      >>=-Safe (λ l'. Standing l'.levels)
        (push-Standing-Safe _ c _
          (dropped-Standing (same_binding o.context c) (in_rec l.levels) l refl h))
        (λ l' q. safe (Standing-Rooted l'.levels q))

  scan_else-Safe :
      (t : Spanned S) (l : Layout S)
      → Standing l.levels
      → Safe (λ l'. Standing l'.levels) (scan_else t l)
  unfolding scan_else
  scan_else-Safe t l h =
      >>=-Safe (λ (u, l'). l'.levels ≡ l.levels) (next_token-Safe l)
        (λ (u, l') e.
          if-Safe _ (safe (subst Standing (sym e) h))
            (scan_for_next_block-Safe (block_ctx false) (unread u l') (subst Standing (sym e) h)))

  finish_token-Safe :
      (t : Spanned S) (c : Context) (a : After) (l : Layout S)
      → Standing l.levels
      → Safe Leaves (finish_token t c a l)
  unfolding finish_token layout_token
  finish_token-Safe t c pops_in l h =
      if-Safe (is_block c) (safe (Rooted-pop l.levels h)) (safe (Rooted-pop l.levels h))
  finish_token-Safe t c scans_block l h =
      >>=-Safe (λ l'. Standing l'.levels) (scan_for_next_block-Safe (block_ctx false) l h)
        (λ l' q. safe (Standing-Rooted l'.levels q))
  finish_token-Safe t c scans_clause l h =
      >>=-Safe (λ l'. Standing l'.levels) (scan_for_next_block-Safe match_clause_ctx l h)
        (λ l' q. safe (Standing-Rooted l'.levels q))
  finish_token-Safe t c scans_else l h =
      >>=-Safe (λ l'. Standing l'.levels) (scan_else-Safe t l h)
        (λ l' q. safe (Standing-Rooted l'.levels q))
  finish_token-Safe t c stops_semi l h =
      safe (Rooted-set_emit_semi false l.levels (Standing-Rooted l.levels h))
  finish_token-Safe t c nothing l h = safe (Standing-Rooted l.levels h)

  pub give-Safe :
      (t : Spanned S) (o : Offside) (l : Layout S) → Standing l.levels → Safe Leaves (give t o l)
  unfolding give
  give-Safe t o l h = go (push_context t.value)
    where
      go :
          (c : Option Context)
          → Safe Leaves (elim c [
            | some d ↦ begin_context t o d l
            | none ↦ finish_token t o.context (after_token t.value o.context) l
          ])
      go (some d) = begin_context-Safe t o d l h
      go none = finish_token-Safe t o.context (after_token t.value o.context) l h
