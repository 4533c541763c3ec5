-- ===== src/Layout/Rules.antt =====
-- parser/src/layout.rs: the offside rules and the last part of a round keep the tokens to come.
use Prim.Native.Nat.{Ordering}
use embed_lang.Prelude.{
  ◌≢◌, ℕ, ◌+◌, ◌<◌, ◌≡◌, refl, ap, ◌∙◌, subst, ◌⊎◌, inl, inr, true, false, List, [], ◌∷◌, length,
  arith,
}
use embed_lang.Layout.Tokens.{
  in_kw, close_block, Spanned, Ensures, fine, Ensures-map, if-Ensures, >>=-Ensures,
}
use embed_lang.Layout.Contexts.{
  Context, block_ctx, expr_ctx, let_ctx, type_ctx, if_ctx, match_clause_ctx, lambda_ctx, Offside,
  set_emit_semi,
}
use embed_lang.Layout.Stream.{Layout, unread, layout_token, is_block}
use embed_lang.Layout.Step.{
  Flow, emit, again, go_on, below, with_levels, is_close_block, is_eof, end_binding, offside_rule,
}
use embed_lang.Layout.Source.{
  keep, pending, Given, next_token-pending, Reads, Looks, continue_block-Looks,
}
use embed_lang.Layout.Next.{
  After, pops_in, scans_block, scans_clause, scans_else, stops_semi, nothing, begin_context,
  finish_token, scan_else,
}
use embed_lang.Layout.Parts.{
  Part, measure, if_either, pending-unread, push_level-pending, scan_for_next_block-pending,
  insert_in-Part,
}

module _ {S : Type 0} where
  -- A state in which the offside rules may continue the loop below `n`.
  abbrev pub Ruled : Context → ℕ → Spanned S → Layout S → Type 0
  Ruled c n t l =
      (c ≡ if_ctx)
      ⊎ ((is_close_block t.value ≡ false)
          × (0 < length l.levels)
          × (length l.levels + length l.levels < n)
          × (t.value ≢ in_kw))

  abbrev pub Any : Layout S → Type 0
  Any l = Unit

  -- After a rule that pops, the loop is nearer to its end.
  pop-falls :
      (c : Context) (n : ℕ) (t : Spanned S) (l : Layout S)
      → Ruled c n t l
      → ¬ (c ≡ if_ctx)
      → measure t (below l.levels) < n
  pop-falls c n t l (inl e) h = absurd (h e)
  pop-falls c n t l (inr r) h = go l.levels r.1 r.2
    where
      go :
          (ls : List Offside) → 0 < length ls → length ls + length ls < n → measure t (below ls) < n
      go [] p q = absurd (omega arith)
      go (o ∷ os) p q = ground (arith, p, q)

  block-falls :
      (c : Context) (n : ℕ) (t : Spanned S) (l : Layout S)
      → Ruled c n t l
      → ¬ (c ≡ if_ctx)
      → measure (record t { value = close_block }) l.levels < n
  block-falls c n t l (inl e) h = absurd (h e)
  block-falls c n t l (inr r) h = omega (arith, r.2)

  other-Ruled :
      (c : Context) (n : ℕ) (t : Spanned S) (l : Layout S)
      → Ruled c n t l
      → ¬ (c ≡ if_ctx)
      → t.value ≢ in_kw
  other-Ruled c n t l (inl e) h = absurd (h e)
  other-Ruled c n t l (inr r) h = r.3

  end_binding-Part :
      (t : Spanned S) (c : Context) (l : Layout S) (n : ℕ)
      → Ruled c n t l
      → ¬ (c ≡ if_ctx)
      → Ensures (end_binding t c l) (Part Any n t l)
  unfolding end_binding
  end_binding-Part t c l n r d =
      >>=-Ensures (λ (more, l'). Looks l l') (continue_block-Looks c t.value l)
        (λ (more, l') looks. if-Ensures more (fine (looks.same_pending, tt)) (
          if-Ensures (is_eof t.value)
            (fine (ap (keep t) looks.same_pending, rw (looks.same_levels) (pop-falls c n t l r d)))
            (Ensures-map (Part Any n t l') (insert_in-Part t l' Any n (other-Ruled c n t l r d))
              (λ (flow, l'') p. moved l l' flow l'' looks.same_pending p))))
    where
      moved :
          (l l' : Layout S) (flow : Flow S) (l'' : Layout S)
          → pending l' ≡ pending l
          → Part Any n t l' (flow, l'')
          → Part Any n t l (flow, l'')
      moved l l' (emit u) l'' e p = subst (Given u l'') (ap (keep t) e) p
      moved l l' (again u) l'' e p = (p.0 ∙ ap (keep t) e, p.1)
      moved l l' go_on l'' e p = (p.0 ∙ e, tt)

  pub offside_rule-Part :
      (t : Spanned S) (c : Context) (ordering : Ordering) (l : Layout S) (n : ℕ)
      → Ruled c n t l
      → Ensures (offside_rule t c ordering l) (Part Any n t l)
  unfolding offside_rule layout_token
  offside_rule-Part t (block_ctx true) Ordering.lt l n r =
      fine (pending-unread t l, block-falls _ n t l r (λ e. cc))
  offside_rule-Part t (block_ctx false) Ordering.lt l n r =
      fine (pending-unread t l, block-falls _ n t l r (λ e. cc))
  offside_rule-Part t (block_ctx true) Ordering.eq l n r = fine (inl (pending-unread t l))
  offside_rule-Part t (block_ctx false) Ordering.eq l n r =
      fine (if_either _ l (with_levels (set_emit_semi true) l) (pending l) refl refl, tt)
  offside_rule-Part t expr_ctx Ordering.gt l n r = fine (refl, tt)
  offside_rule-Part t expr_ctx Ordering.lt l n r = fine (refl, pop-falls expr_ctx n t l r (λ e. cc))
  offside_rule-Part t expr_ctx Ordering.eq l n r = fine (refl, pop-falls expr_ctx n t l r (λ e. cc))
  offside_rule-Part t lambda_ctx Ordering.gt l n r = fine (refl, tt)
  offside_rule-Part t lambda_ctx Ordering.lt l n r =
      fine (refl, pop-falls lambda_ctx n t l r (λ e. cc))
  offside_rule-Part t lambda_ctx Ordering.eq l n r =
      fine (refl, pop-falls lambda_ctx n t l r (λ e. cc))
  offside_rule-Part t match_clause_ctx Ordering.lt l n r =
      fine (refl, pop-falls match_clause_ctx n t l r (λ e. cc))
  offside_rule-Part t match_clause_ctx Ordering.eq l n r =
      if-Ensures _ (fine (refl, tt)) (fine (refl, pop-falls match_clause_ctx n t l r (λ e. cc)))
  offside_rule-Part t let_ctx Ordering.gt l n r = fine (refl, tt)
  offside_rule-Part t let_ctx Ordering.lt l n r =
      if-Ensures _ (fine (refl, tt)) (end_binding-Part t let_ctx l n r (λ e. cc))
  offside_rule-Part t let_ctx Ordering.eq l n r =
      if-Ensures _ (fine (refl, tt)) (end_binding-Part t let_ctx l n r (λ e. cc))
  offside_rule-Part t type_ctx Ordering.gt l n r = fine (refl, tt)
  offside_rule-Part t type_ctx Ordering.lt l n r =
      if-Ensures _ (fine (refl, tt)) (end_binding-Part t type_ctx l n r (λ e. cc))
  offside_rule-Part t type_ctx Ordering.eq l n r =
      if-Ensures _ (fine (refl, tt)) (end_binding-Part t type_ctx l n r (λ e. cc))
  offside_rule-Part t (block_ctx true) Ordering.gt l n r = fine (refl, tt)
  offside_rule-Part t (block_ctx false) Ordering.gt l n r = fine (refl, tt)
  offside_rule-Part t match_clause_ctx Ordering.gt l n r = fine (refl, tt)
  offside_rule-Part t _ _ l n r = fine (refl, tt)

  -- The last part always returns a token.
  abbrev pub Gives : Spanned S → Layout S → Flow S × Layout S → Type 0
  Gives t l (emit u, l') = keep u (pending l') ≡ keep t (pending l)
  Gives t l (again u, l') = ⊥
  Gives t l (go_on, l') = ⊥

  pub begin_context-Gives :
      (t : Spanned S) (o : Offside) (c : Context) (l : Layout S)
      → Ensures (begin_context t o c l) (Gives t l)
  unfolding begin_context
  begin_context-Gives t o c l =
      >>=-Ensures (λ l'. pending l' ≡ pending l)
        (Ensures-map _ (push_level-pending _ c _)
          (λ l' h. h ∙ if_either _ (with_levels below l) l (pending l) refl refl))
        (λ l' h. fine (ap (keep t) h))

  scan_else-pending :
      (t : Spanned S) (l : Layout S) → Ensures (scan_else t l) (λ l'. pending l' ≡ pending l)
  unfolding scan_else
  scan_else-pending t l = >>=-Ensures (Reads l) (next_token-pending l) (λ (u, l') (kept, same).
      let back : pending (unread u l') ≡ pending l = pending-unread u l' ∙ kept in
      if-Ensures _ (fine back) (
        Ensures-map (λ l''. pending l'' ≡ pending (unread u l'))
          (scan_for_next_block-pending (block_ctx false) (unread u l')) (λ l'' h. h ∙ back)))

  pub finish_token-Gives :
      (t : Spanned S) (c : Context) (a : After) (l : Layout S)
      → Ensures (finish_token t c a l) (Gives t l)
  unfolding finish_token layout_token
  finish_token-Gives t c pops_in l = if-Ensures (is_block c) (fine (pending-unread t l)) (fine refl)
  finish_token-Gives t c scans_block l =
      >>=-Ensures (λ l'. pending l' ≡ pending l) (scan_for_next_block-pending (block_ctx false) l)
        (λ l' h. fine (ap (keep t) h))
  finish_token-Gives t c scans_clause l =
      >>=-Ensures (λ l'. pending l' ≡ pending l) (scan_for_next_block-pending match_clause_ctx l)
        (λ l' h. fine (ap (keep t) h))
  finish_token-Gives t c scans_else l =
      >>=-Ensures (λ l'. pending l' ≡ pending l) (scan_else-pending t l)
        (λ l' h. fine (ap (keep t) h))
  finish_token-Gives t c stops_semi l = fine refl
  finish_token-Gives t c nothing l = fine refl
