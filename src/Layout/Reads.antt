-- ===== src/Layout/Reads.antt =====
-- parser/src/layout.rs: the contexts after the reads ahead and the pushes.
use embed_lang.Prelude.{
  ℕ, zero, suc, ◌≡◌, refl, sym, subst, ◌∙◌, Bool, true, false, if◌then◌else◌, List, [], ◌∷◌, none,
  some, Option, ◌++◌, length, ◌-◌,
}
use embed_lang.Layout.Tokens.{Token, Location, Spanned, Lexed, lexed, lex_error, close_block}
use embed_lang.Layout.Contexts.{Context, let_ctx, type_ctx, Offside, push, in_rec, first_block}
use embed_lang.Layout.Stream.{
  Layout, is_block, is_attribute, is_rec_kw, next_token, pull, peek_token, scan_peek, scan_round,
  scan_class, scan_from, scan_continue_block, continue_block, Scanned, opens, skips, closes, stops,
  push_level, open_at, scan_for_next_block, unread,
}
use embed_lang.Layout.Conserve.{check_unindentation_limit-limits}
use embed_lang.Layout.Rooted.{
  Safe, safe, safe_err, unfinished, >>=-Safe, Safe-map, if-Safe, Standing, Standing-cons,
}

push-Safe : (os : List Offside) (o : Offside) → Safe (λ ls. ls ≡ o ∷ os) (push os o)
unfolding push
push-Safe os o =
    >>=-Safe (λ u. Unit)
      (subst (Safe (λ u. Unit)) (sym (check_unindentation_limit-limits os o))
        (if-Safe _ (safe tt) safe_err))
      (λ u h. safe refl)

module _ {S : Type 0} where
  pub push_level-Safe :
      (place : Location) (c : Context) (l : Layout S)
      → Safe
          (λ l'. l'.levels ≡ record { location = place; context = c } ∷ l.levels)
          (push_level place c l)
  unfolding push_level
  push_level-Safe place c l = >>=-Safe (λ ls. ls ≡ _) (push-Safe l.levels _) (λ ls h. safe h)

  pub next_token-Safe : (l : Layout S) → Safe (λ (t, l'). l'.levels ≡ l.levels) (next_token l)
  unfolding next_token
  next_token-Safe l = go l.tokens l.unprocessed
    where
      go :
          (ts : List (Lexed S)) (us : List (Spanned S))
          → let l' : Layout S = record { tokens = ts; unprocessed = us; levels = l.levels } in
            Safe (λ (t, m). m.levels ≡ l.levels) (next_token l')
      go [] [] = safe refl
      go (lexed t ∷ ts) [] = safe refl
      go (lex_error e ∷ ts) [] = safe_err
      go ts (u ∷ us) = safe refl

  if-levels :
      (b : Bool) (m n : Layout S) {os : List Offside}
      → m.levels ≡ os
      → n.levels ≡ os
      → (if b then m else n).levels ≡ os
  if-levels true m n h k = h
  if-levels false m n h k = k

  open_at-levels :
      (t : Spanned S) (o : Option Offside) (l : Layout S) → (open_at t o l).levels ≡ l.levels
  unfolding open_at
  open_at-levels t none l = refl
  open_at-levels t (some o) l =
      if-levels _ (unread (record t { value = close_block }) l) l refl refl

  pub scan_for_next_block-Safe :
      (c : Context) (l : Layout S)
      → Standing l.levels
      → Safe (λ l'. Standing l'.levels) (scan_for_next_block c l)
  unfolding scan_for_next_block
  scan_for_next_block-Safe c l h =
      >>=-Safe (λ (t, l'). l'.levels ≡ l.levels) (next_token-Safe l)
        (λ (t, l') e.
          let waiting = unread t l' in
          let opened = open_at t (first_block l'.levels) waiting in
          let m = (if is_block c then opened else waiting) in
          let same : m.levels ≡ l.levels =
            if-levels (is_block c) opened waiting
              (open_at-levels t (first_block l'.levels) waiting ∙ e) e in
          Safe-map (λ l''. l''.levels ≡ record { location = t.start; context = c } ∷ m.levels)
            (push_level-Safe t.start c m)
            (λ l'' q. subst Standing (sym q) (
              Standing-cons (record { location = t.start; context = c }) m.levels
                (subst Standing (sym same) h))))

  pull-Safe :
      (n : ℕ) (ts : List (Lexed S)) (us : List (Spanned S)) → Safe (λ r. Unit) (pull n ts us)
  unfolding pull
  pull-Safe zero ts us = safe tt
  pull-Safe (suc n) [] us = safe tt
  pull-Safe (suc n) (lex_error e ∷ ts) us = safe_err
  pull-Safe (suc n) (lexed t ∷ ts) us = pull-Safe n ts (us ++ t ∷ [])

  peek_token-Safe : (i : ℕ) (l : Layout S) → Safe (λ (u, l'). l'.levels ≡ l.levels) (peek_token i l)
  unfolding peek_token
  peek_token-Safe i l =
      >>=-Safe (λ r. Unit) (pull-Safe (suc i - length l.unprocessed) l.tokens l.unprocessed)
        (λ (enough, ts, us) p. safe refl)

  scan_peek-Safe :
      (i : ℕ) (t : Token S) (l : Layout S)
      → Safe (λ (u, l'). l'.levels ≡ l.levels) (scan_peek i t l)
  unfolding scan_peek
  scan_peek-Safe zero t l = safe refl
  scan_peek-Safe (suc i) t l =
      >>=-Safe (λ (u, l'). l'.levels ≡ l.levels) (peek_token-Safe i l) (λ (u, l') e. safe e)

  scan_from-Safe :
      (fuel i : ℕ) (c : Context) (t : Token S) (b : Bool) (l : Layout S)
      → Safe (λ (more, l'). l'.levels ≡ l.levels) (scan_from fuel i c t b l)
  unfolding scan_from scan_round scan_class
  scan_from-Safe zero i c t b l = unfinished
  scan_from-Safe (suc fuel) i c t b l =
      >>=-Safe (λ (u, l'). l'.levels ≡ l.levels) (scan_peek-Safe i t l)
        (λ (u, l') e. round u b l' e (λ b'.
          subst (λ os. Safe (λ (more, l''). l''.levels ≡ os) (scan_from fuel (suc i) c t b' l')) e
            (scan_from-Safe fuel (suc i) c t b' l')))
    where
      round :
          (u : Option (Token S)) (b : Bool) (l' : Layout S)
          → l'.levels ≡ l.levels
          → ((b' : Bool)
              → Safe (λ (more, l''). l''.levels ≡ l.levels) (scan_from fuel (suc i) c t b' l'))
          → Safe
              (λ (more, l''). l''.levels ≡ l.levels)
              (scan_round (scan_from fuel (suc i) c t) c b u l')
      round none b l' e k = safe e
      round (some u) b l' e k = if-Safe _ (safe e) (class b _)
        where
          class :
              (b : Bool) (s : Scanned)
              → Safe
                  (λ (more, l''). l''.levels ≡ l.levels)
                  (scan_class (scan_from fuel (suc i) c t) b s l')
          class b opens = k true
          class b skips = k b
          class b closes = k false
          class true stops = k true
          class false stops = safe e

  pub continue_block-Safe :
      (c : Context) (t : Token S) (l : Layout S)
      → Safe (λ (more, l'). l'.levels ≡ l.levels) (continue_block c t l)
  unfolding continue_block scan_continue_block
  continue_block-Safe c t l =
      if-Safe (in_rec l.levels)
        (if-Safe (is_attribute c) (safe refl) (if-Safe (is_rec_kw t) (safe refl) (scans c)))
        (safe refl)
    where
      scans : (c : Context) → Safe (λ (more, l'). l'.levels ≡ l.levels) (scan_continue_block c t l)
      scans let_ctx = scan_from-Safe _ 0 let_ctx t false l
      scans type_ctx = scan_from-Safe _ 0 type_ctx t false l
      scans _ = safe refl
