-- ===== src/Layout/Source.antt =====
-- parser/src/layout.rs: the source tokens that a state of the layout still holds, and what the reads
-- ahead and the pushes keep of them.
use embed_lang.Prelude.{
  ℕ, zero, suc, ◌+◌, ◌-◌, ◌≤◌, ◌≡◌, refl, ap, ◌∙◌, sym, Bool, true, false, if◌then◌else◌, List, [],
  ◌∷◌, ◌++◌, length, length-append, Option, none, some, arith, ◌≢◌, ◌⊎◌,
}
use embed_lang.Layout.Tokens.{
  Token, open_block, close_block, semi, in_kw, eof, Spanned, Lexed, lexed, lex_error, Res, Ensures,
  fine, failed, Ensures-map, if-Ensures, >>=-Ensures,
}
use embed_lang.Layout.Contexts.{Context, let_ctx, type_ctx, in_rec}
use embed_lang.Layout.Stream.{
  Layout, is_attribute, is_rec_kw, next_token, pull, peek_token, scan_peek, furthest, scan_class,
  scan_round, Scanned, opens, skips, closes, stops, scan_from, scan_continue_block, continue_block,
}

module _ {S : Type 0} where
  -- The tokens that only the layout makes: block tokens, separators, and the end of the file.
  abbrev pub is_layout : Token S → Bool
  is_layout open_block = true
  is_layout close_block = true
  is_layout semi = true
  is_layout eof = true
  is_layout t = false

  -- A token before others, if it is no layout token.
  abbrev pub keep : Spanned S → List (Spanned S) → List (Spanned S)
  keep t ts = if is_layout t.value then ts else t ∷ ts

  -- The tokens of a list that are no layout tokens.
  abbrev pub sources : List (Spanned S) → List (Spanned S)
  sources [] = []
  sources (t ∷ ts) = keep t (sources ts)

  abbrev pub lexed_sources : List (Lexed S) → List (Spanned S)
  lexed_sources [] = []
  lexed_sources (lexed t ∷ ts) = keep t (lexed_sources ts)
  lexed_sources (lex_error e ∷ ts) = lexed_sources ts

  -- The source tokens that are still to come, in their order.
  abbrev pub pending : Layout S → List (Spanned S)
  pending l = sources l.unprocessed ++ lexed_sources l.tokens

  -- An `in` is inserted at the place of a token that is none itself, and a block is opened between
  -- the two.
  pub record Inserts (t : Spanned S) (l : Layout S) : Type 0 where
    pub before : Spanned S
    pub others : List (Spanned S)
    pub is_in : t ≡ record before { value = in_kw }
    pub opens_next : l.unprocessed ≡ record before { value = open_block } ∷ before ∷ others
    pub before_other : before.value ≢ in_kw

  -- The token handed out is one of those to come, or an inserted `in`: then all are still to come.
  abbrev pub Given : Spanned S → Layout S → List (Spanned S) → Type 0
  Given t l ts = (keep t (pending l) ≡ ts) ⊎ (Inserts t l × (pending l ≡ ts))

  sources-append : (ts us : List (Spanned S)) → sources (ts ++ us) ≡ sources ts ++ sources us
  sources-append [] us = refl
  sources-append (t ∷ ts) us = ground (arith, sources-append ts us)

  pub keep-append : (t : Spanned S) (ts us : List (Spanned S)) → keep t (ts ++ us) ≡ keep t ts ++ us
  keep-append t ts us = ground arith

  -- What a read keeps: the pending tokens, and the levels.
  abbrev pub Reads : Layout S → Spanned S × Layout S → Type 0
  Reads l (t, l') = (keep t (pending l') ≡ pending l) × (l'.levels ≡ l.levels)

  pub next_token-pending : (l : Layout S) → Ensures (next_token l) (Reads l)
  unfolding next_token
  next_token-pending l = go l.tokens l.unprocessed
    where
      go :
          (ts : List (Lexed S)) (us : List (Spanned S))
          → let l' : Layout S = record { tokens = ts; unprocessed = us; levels = l.levels } in
            Ensures (next_token l') (Reads l')
      go [] [] = fine (refl, refl)
      go (lexed t ∷ ts) [] = fine (refl, refl)
      go (lex_error e ∷ ts) [] = failed
      go ts (u ∷ us) = fine (keep-append u (sources us) (lexed_sources ts), refl)

  sources-snoc :
      (us : List (Spanned S)) (t : Spanned S) (ts : List (Lexed S))
      → sources (us ++ t ∷ []) ++ lexed_sources ts ≡ sources us ++ lexed_sources (lexed t ∷ ts)
  sources-snoc [] t ts = sym (keep-append t [] (lexed_sources ts))
  sources-snoc (u ∷ us) t ts = ground (arith, sources-snoc us t ts)

  -- A peek moves tokens from the lexer behind the unprocessed ones, and no fewer than it is asked
  -- for, unless the lexer has run out.
  abbrev pub Pulls :
      ℕ → List (Lexed S) → List (Spanned S) → Bool × List (Lexed S) × List (Spanned S) → Type 0
  Pulls n ts us (enough, ts', us') =
      (sources us' ++ lexed_sources ts' ≡ sources us ++ lexed_sources ts)
      × (length us' + length ts' ≡ length us + length ts)
      × (enough ≡ true → length us' ≡ length us + n)

  pull-Pulls :
      (n : ℕ) (ts : List (Lexed S)) (us : List (Spanned S)) → Ensures (pull n ts us) (Pulls n ts us)
  unfolding pull
  pull-Pulls zero ts us = fine (refl, refl, λ e. omega arith)
  pull-Pulls (suc n) [] us = fine (refl, refl, λ e. cc)
  pull-Pulls (suc n) (lex_error e ∷ ts) us = failed
  pull-Pulls (suc n) (lexed t ∷ ts) us =
      Ensures-map (Pulls n ts (us ++ t ∷ [])) (pull-Pulls n ts (us ++ t ∷ []))
        (λ (enough, ts', us') (kept, total, count). (
          kept ∙ sources-snoc us t ts,
          omega (arith, total, length-append us (t ∷ [])),
          λ e. omega (arith, count e, length-append us (t ∷ [])),
        ))

  -- What a look ahead keeps: the pending tokens, the levels, and how many tokens there are.
  abbrev pub total : Layout S → ℕ
  total l = length l.unprocessed + length l.tokens

  pub record Looks (l l' : Layout S) : Type 0 where
    pub same_pending : pending l' ≡ pending l
    pub same_levels : l'.levels ≡ l.levels
    pub same_total : total l' ≡ total l

  -- Only a round that is not beyond the last token finds one.
  abbrev Peeks : ℕ → Layout S → Option (Token S) × Layout S → Type 0
  Peeks i l (t, l') = Looks l l' × (t ≢ none → i ≤ total l)

  found_enough :
      (enough : Bool) (t : Option (Spanned S)) → (if enough then t else none) ≢ none → enough ≡ true
  found_enough true t h = refl
  found_enough false t h = absurd (h refl)

  peek_token-Looks :
      (i : ℕ) (l : Layout S)
      → Ensures (peek_token i l) (λ (t, l'). Looks l l' × (t ≢ none → suc i ≤ total l))
  unfolding peek_token
  peek_token-Looks i l =
      let n = suc i - length l.unprocessed in
      >>=-Ensures (Pulls n l.tokens l.unprocessed) (pull-Pulls n l.tokens l.unprocessed)
        (λ (enough, ts, us) (kept, same, count). fine (
          record { same_pending = kept; same_levels = refl; same_total = same },
          λ e. omega (arith, count (found_enough enough (furthest us) e), same),
        ))

  scan_peek-Peeks : (i : ℕ) (t : Token S) (l : Layout S) → Ensures (scan_peek i t l) (Peeks i l)
  unfolding scan_peek
  scan_peek-Peeks zero t l =
      fine (record { same_pending = refl; same_levels = refl; same_total = refl }, λ e. omega arith)
  scan_peek-Peeks (suc i) t l =
      >>=-Ensures (λ (t, l'). Looks l l' × (t ≢ none → suc i ≤ total l)) (peek_token-Looks i l)
        (λ (u, l') (looks, bound).
          fine (
            looks,
            λ e. bound (λ z. e (ap (λ o. elim o [ none ↦ none | some v ↦ some v.value ]) z)),
          ))

  Looks-trans : {l l' l'' : Layout S} → Looks l l' → Looks l' l'' → Looks l l''
  Looks-trans p q = record {
    same_pending = q.same_pending ∙ p.same_pending;
    same_levels = q.same_levels ∙ p.same_levels;
    same_total = q.same_total ∙ p.same_total;
  }

  scan_class-Ensures :
      (again : Bool → Layout S → Res (Bool × Layout S)) (Q : Bool × Layout S → Type 0)
      (in_attribute : Bool) (k : Scanned) (l : Layout S)
      → Q (false, l)
      → ((b : Bool) → Ensures (again b l) Q)
      → Ensures (scan_class again in_attribute k l) Q
  unfolding scan_class
  scan_class-Ensures again Q in_attribute opens l h k = k true
  scan_class-Ensures again Q in_attribute skips l h k = k in_attribute
  scan_class-Ensures again Q in_attribute closes l h k = k false
  scan_class-Ensures again Q true stops l h k = k true
  scan_class-Ensures again Q false stops l h k = fine h

  scan_round-Ensures :
      (again : Bool → Layout S → Res (Bool × Layout S)) (Q : Bool × Layout S → Type 0) (c : Context)
      (in_attribute : Bool) (t : Option (Token S)) (l : Layout S)
      → ((b : Bool) → Q (b, l))
      → (t ≢ none → (b : Bool) → Ensures (again b l) Q)
      → Ensures (scan_round again c in_attribute t l) Q
  unfolding scan_round
  scan_round-Ensures again Q c in_attribute none l h k = fine (h false)
  scan_round-Ensures again Q c in_attribute (some t) l h k =
      if-Ensures _ (fine (h true))
        (scan_class-Ensures again Q in_attribute _ l (h false) (k (λ e. cc)))

  -- The scan ends within its fuel: it stops at the latest one round after the last token.
  scan_from-Looks :
      (fuel i : ℕ) (c : Context) (first : Token S) (in_attribute : Bool) (l : Layout S)
      → i ≤ suc (total l)
      → total l + 3 ≤ fuel + i
      → Ensures (scan_from fuel i c first in_attribute l) (λ (more, l'). Looks l l')
  unfolding scan_from
  scan_from-Looks zero i c first in_attribute l p q = absurd (omega arith)
  scan_from-Looks (suc fuel) i c first in_attribute l p q =
      >>=-Ensures (Peeks i l) (scan_peek-Peeks i first l) (λ (t, l') (looks, bound).
        scan_round-Ensures (scan_from fuel (suc i) c first) (λ (more, l''). Looks l l'') c
          in_attribute t l' (λ b. looks)
          (λ e b.
            Ensures-map (λ (more, l''). Looks l' l'')
              (scan_from-Looks fuel (suc i) c first b l' (omega (arith, bound e, looks.same_total))
                (omega (arith, looks.same_total)))
              (λ (more, l'') later. Looks-trans looks later)))

  -- `continue_block` ends, and keeps what is to come.
  pub continue_block-Looks :
      (c : Context) (t : Token S) (l : Layout S)
      → Ensures (continue_block c t l) (λ (more, l'). Looks l l')
  unfolding continue_block
  continue_block-Looks c t l =
      let same : Looks l l = record {
        same_pending = refl;
        same_levels = refl;
        same_total = refl;
      } in
      if-Ensures (in_rec l.levels)
        (if-Ensures (is_attribute c) (fine same) (if-Ensures (is_rec_kw t) (fine same) (scans c)))
        (fine same)
    where
      rounds :
          (c : Context)
          → Ensures
              (scan_from (length l.tokens + length l.unprocessed + 3) 0 c t false l)
              (λ (more, l'). Looks l l')
      rounds c =
          scan_from-Looks (length l.tokens + length l.unprocessed + 3) 0 c t false l (omega arith)
            (omega arith)

      scans : (c : Context) → Ensures (scan_continue_block c t l) (λ (more, l'). Looks l l')
      scans let_ctx = rounds let_ctx
      scans type_ctx = rounds type_ctx
      scans _ = fine (record { same_pending = refl; same_levels = refl; same_total = refl })
