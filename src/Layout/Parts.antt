-- ===== src/Layout/Parts.antt =====
-- parser/src/layout.rs: each part of the loop of `layout_next_token` keeps the tokens to come, and
-- a part that continues the loop comes nearer to its end.

use embed_lang.Prelude.{
  ◌≢◌, ℕ, ◌+◌, ◌<◌, ◌≡◌, refl, ap, ◌∙◌, sym, ◌⊎◌, inl, inr, Bool, true, false, ltb, leb, not,
  if◌then◌else◌, List, [], ◌∷◌, length, Option, none, some, arith,
}
use embed_lang.Layout.Tokens.{
  Token, in_kw, close_block, open_block, Location, Spanned, unindented_too_far, ok, err, Ensures,
  fine, failed, stopped, Ensures-map, if-Ensures, >>=-Ensures,
}
use embed_lang.Layout.Contexts.{
  Context, block_ctx, brace_ctx, bracket_ctx, paren_ctx, let_ctx, rec_ctx, type_ctx, if_ctx,
  match_clause_ctx, lambda_ctx, attribute_ctx, Offside, push, check_from, closes_none,
  token_closes_context, first_block,
}
use embed_lang.Layout.Stream.{
  Layout, unread, layout_token, push_level, open_at, scan_for_next_block, is_block,
}
use embed_lang.Layout.Step.{
  Flow, emit, again, go_on, below, with_levels, is_close_block, is_closing, comma_inside,
  close_binding, close_context, closing, insert_in,
}
use embed_lang.Layout.Source.{
  keep, sources, lexed_sources, pending, keep-append, next_token-pending, Reads, Given,
}

module _ {S : Type 0} where
  pub pending-unread : (t : Spanned S) (l : Layout S) → pending (unread t l) ≡ keep t (pending l)
  pending-unread t l = sym (keep-append t (sources l.unprocessed) (lexed_sources l.tokens))

  -- The loop's measure: two for each context, and one for a token that is no `CloseBlock`.
  abbrev pub measure : Spanned S → List Offside → ℕ
  measure t levels = length levels + length levels + (if is_close_block t.value then 0 else 1)

  -- What a part of the loop does with the token `t` in the state `l`. A token that is returned, or
  -- that the loop continues with, is followed by what is to come, unless it is an inserted `in`; the
  -- loop continues below `n`.
  abbrev pub Part : (Layout S → Type 0) → ℕ → Spanned S → Layout S → Flow S × Layout S → Type 0
  Part G n t l (emit u, l') = Given u l' (keep t (pending l))
  Part G n t l (again u, l') =
      (keep u (pending l') ≡ keep t (pending l)) × (measure u l'.levels < n)
  Part G n t l (go_on, l') = (pending l' ≡ pending l) × G l'

check_step :
    (b : Bool) (o p : Offside) (os : List Offside)
    → Ensures (check_from b o os) (λ u. Unit {0})
    → Ensures (check_from true o os) (λ u. Unit {0})
    → Ensures (check_from b o (p ∷ os)) (λ u. Unit {0})
unfolding check_from
check_step b o p os on skipping = go p.context
  where
    bounded :
        Ensures
          (if ltb o.location.column p.location.column
            then err (unindented_too_far o.location.absolute)
            else check_from b o os)
          (λ u. Unit {0})
    bounded = if-Ensures _ failed on

    go : (c : Context) → Ensures (check_from b o (record p { context = c } ∷ os)) (λ u. Unit {0})
    go lambda_ctx = skipping
    go (block_ctx e) = if-Ensures b on bounded
    go brace_ctx = fine tt
    go bracket_ctx = fine tt
    go paren_ctx = fine tt
    go match_clause_ctx = bounded
    go type_ctx = bounded
    go rec_ctx = bounded
    go let_ctx = bounded
    go _ = on

check_from-Ensures :
    (b : Bool) (o : Offside) (os : List Offside) → Ensures (check_from b o os) (λ u. Unit {0})
unfolding check_from
check_from-Ensures b o [] = fine tt
check_from-Ensures b o (p ∷ os) =
    check_step b o p os (check_from-Ensures b o os) (check_from-Ensures true o os)

push-Ensures :
    (levels : List Offside) (o : Offside) → Ensures (push levels o) (λ ls. ls ≡ o ∷ levels)
unfolding push
push-Ensures levels o =
    >>=-Ensures (λ u. Unit {0}) (check_from-Ensures false o levels) (λ u h. fine refl)

module _ {S : Type 0} where
  push_level-same :
      (p : Location) (c : Context) (l : Layout S)
      → Ensures
          (push_level p c l)
          (λ l'. (l'.unprocessed ≡ l.unprocessed) × (pending l' ≡ pending l))
  unfolding push_level
  push_level-same p c l =
      >>=-Ensures (λ ls. ls ≡ _) (push-Ensures l.levels _) (λ ls h. fine (refl, refl))

  pub push_level-pending :
      (p : Location) (c : Context) (l : Layout S)
      → Ensures (push_level p c l) (λ l'. pending l' ≡ pending l)
  push_level-pending p c l = Ensures-map _ (push_level-same p c l) (λ l' h. h.1)

  pub if_either :
      (b : Bool) (l l' : Layout S) (ts : List (Spanned S))
      → pending l ≡ ts
      → pending l' ≡ ts
      → pending (if b then l else l') ≡ ts
  if_either true l l' ts p q = p
  if_either false l l' ts p q = q

  open_at-pending :
      (t : Spanned S) (o : Option Offside) (l : Layout S) → pending (open_at t o l) ≡ pending l
  unfolding open_at
  open_at-pending t none l = refl
  open_at-pending t (some o) l = if_either (leb t.start.column o.location.column) _ l _ refl refl

  pub scan_for_next_block-pending :
      (c : Context) (l : Layout S)
      → Ensures (scan_for_next_block c l) (λ l'. pending l' ≡ pending l)
  unfolding scan_for_next_block
  scan_for_next_block-pending c l =
      >>=-Ensures (Reads l) (next_token-pending l) (λ (t, l') (kept, same).
        let waiting : Layout S = unread t l' in
        let opened : Layout S = open_at t (first_block l'.levels) waiting in
        let next : Layout S = if is_block c then opened else waiting in
        let back : pending waiting ≡ pending l = pending-unread t l' ∙ kept in
        let end : pending next ≡ pending l =
          if_either (is_block c) opened waiting (pending l)
            (open_at-pending t (first_block l'.levels) waiting ∙ back) back in
        Ensures-map (λ l''. pending l'' ≡ pending next) (push_level-pending t.start c next)
          (λ l'' h. h ∙ end))

  close_binding-Part :
      (t : Spanned S) (l : Layout S) (G : Layout S → Type 0) (n : ℕ)
      → Ensures (close_binding t l) (Part G n t l)
  unfolding close_binding
  close_binding-Part t l G n = go l.levels
    where
      go : (ls : List Offside) → Ensures (close_binding t (record l { levels = ls })) (Part G n t l)
      go [] = stopped
      go (o ∷ os) =
          >>=-Ensures (λ l'. pending l' ≡ pending l)
            (push_level-pending o.location (block_ctx false) _)
            (λ l' h.
              fine (inl (ap (keep t) (pending-unread (record t { value = open_block }) l' ∙ h))))

  pub insert_in-Part :
      (t : Spanned S) (l : Layout S) (G : Layout S → Type 0) (n : ℕ)
      → t.value ≢ in_kw
      → Ensures (insert_in t l) (Part G n t l)
  unfolding insert_in layout_token
  insert_in-Part t l G n other = go l.levels
    where
      go : (ls : List Offside) → Ensures (insert_in t (record l { levels = ls })) (Part G n t l)
      go [] = stopped
      go (o ∷ []) = stopped
      go (o ∷ p ∷ os) =
          >>=-Ensures
            (λ l'. (l'.unprocessed ≡ t ∷ l.unprocessed) × (pending l' ≡ keep t (pending l)))
            (Ensures-map _ (push_level-same o.location (block_ctx false) _)
              (λ l' (same, h). (same, h ∙ pending-unread t l)))
            (λ l' (same, h). fine (
              inr (
                record {
                  before = t;
                  others = l.unprocessed;
                  is_in = refl;
                  opens_next = ap (λ us. record t { value = open_block } ∷ us) same;
                  before_other = other;
                },
                pending-unread (record t { value = open_block }) l' ∙ h,
              )))

  not-closing : (v : Token S) → is_closing v ≡ false → is_close_block v ≡ false
  unfolding is_closing
  not-closing close_block h = cc
  not-closing _ h = refl

  not_in-closing : (v : Token S) → is_closing v ≡ false → v ≢ in_kw
  unfolding is_closing
  not_in-closing in_kw h e = cc
  not_in-closing _ h e = cc

  pub measure-cons :
      (t : Spanned S) (o : Offside) (os : List Offside) → measure t os < measure t (o ∷ os)
  measure-cons t o os = omega arith

  -- A state that the closing tokens may leave for the offside rules.
  abbrev pub Open : Context → Spanned S → List Offside → Layout S → Type 0
  Open c t levels l =
      (c ≡ if_ctx) ⊎ ((l.levels ≡ levels) × (is_close_block t.value ≡ false) × (t.value ≢ in_kw))

  close_context-Part :
      (t : Spanned S) (c : Context) (l : Layout S) (levels : List Offside) (n : ℕ)
      → measure t l.levels < n
      → Ensures (close_context t c l) (Part (Open c t levels) n t l)
  unfolding close_context layout_token
  close_context-Part t if_ctx l levels n h = fine (refl, inl refl)
  close_context-Part t brace_ctx l levels n h = fine (inl refl)
  close_context-Part t bracket_ctx l levels n h = fine (inl refl)
  close_context-Part t paren_ctx l levels n h = fine (inl refl)
  close_context-Part t attribute_ctx l levels n h = fine (inl refl)
  close_context-Part t (block_ctx b) l levels n h =
      if-Ensures (is_close_block t.value) (fine (inl refl)) (fine (inl (pending-unread t l)))
  close_context-Part t rec_ctx l levels n h = close_binding-Part t l _ n
  close_context-Part t let_ctx l levels n h = close_binding-Part t l _ n
  close_context-Part t type_ctx l levels n h = close_binding-Part t l _ n
  close_context-Part t _ l levels n h = fine (refl, h)

  pub closing-Part :
      (t : Spanned S) (o : Offside) (os : List Offside) (l : Layout S)
      → l.levels ≡ o ∷ os
      → Ensures (closing t o l) (Part (Open o.context t l.levels) (measure t l.levels) t l)
  unfolding closing
  closing-Part t o os l e =
      if-Ensures (comma_inside t.value o.context) (fine (inl refl))
        (unclosed (is_closing t.value) refl)
    where
      popped : Layout S
      popped = with_levels below l

      falls : measure t (below l.levels) < measure t l.levels
      falls = rw e (measure-cons t o os)

      unclosed :
          (b : Bool)
          → is_closing t.value ≡ b
          → Ensures
              (if not b
                then ok (go_on, l)
                else if closes_none t.value popped.levels
                then ok (emit t, popped)
                else if token_closes_context t.value o.context
                then close_context t o.context popped
                else ok (again t, popped))
              (Part (Open o.context t l.levels) (measure t l.levels) t l)
      unclosed false h = fine (refl, inr (refl, not-closing t.value h, not_in-closing t.value h))
      unclosed true h = if-Ensures (closes_none t.value popped.levels) (fine (inl refl)) (
          if-Ensures (token_closes_context t.value o.context)
            (close_context-Part t o.context popped l.levels (measure t l.levels) falls)
            (fine (refl, falls)))
