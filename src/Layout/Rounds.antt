-- ===== src/Layout/Rounds.antt =====
-- parser/src/layout.rs: the rounds of `layout_next_token` and its loop, and the tokens they keep.
use Prim.Native.Nat.{compare}
use embed_lang.Prelude.{
  ℕ, zero, suc, ◌<◌, ◌≡◌, refl, ap, ◌∙◌, subst, inl, inr, false, List, [], ◌∷◌, Option, none, some,
  arith,
}
use embed_lang.Layout.Tokens.{
  open_block, Spanned, ok, panicked, ◌>>=◌, Ensures, fine, Ensures-map, if-Ensures, >>=-Ensures,
}
use embed_lang.Layout.Contexts.{Context, block_ctx, Offside}
use embed_lang.Layout.Stream.{Layout, layout_token, push_level}
use embed_lang.Layout.Step.{Flow, emit, again, go_on, emit_layout, offside_rule}
use embed_lang.Layout.Source.{keep, pending, Given}
use embed_lang.Layout.Next.{
  begin_context, finish_token, push_context, after_token, give, then_part, in_context, round, loop,
  is_shebang,
}
use embed_lang.Layout.Parts.{Part, Open, measure, pending-unread, push_level-pending, closing-Part}
use embed_lang.Layout.Rules.{
  Ruled, Any, Gives, offside_rule-Part, begin_context-Gives, finish_token-Gives,
}

module _ {S : Type 0} where
  give-Gives : (t : Spanned S) (o : Offside) (l : Layout S) → Ensures (give t o l) (Gives t l)
  unfolding give
  give-Gives t o l = given (push_context t.value)
    where
      given :
          (c : Option Context)
          → Ensures
              (elim c [
                | some d ↦ begin_context t o d l
                | none ↦ finish_token t o.context (after_token t.value o.context) l
              ])
              (Gives t l)
      given (some c) = begin_context-Gives t o c l
      given none = finish_token-Gives t o.context (after_token t.value o.context) l

  -- What a round does: it returns a token or continues, nearer to the end, and what is to come stays
  -- the same, but for an inserted `in`.
  abbrev pub Rounds : Spanned S → Layout S → Flow S × Layout S → Type 0
  Rounds t l (emit u, l') = Given u l' (keep t (pending l))
  Rounds t l (again u, l') =
      (keep u (pending l') ≡ keep t (pending l)) × (measure u l'.levels < measure t l.levels)
  Rounds t l (go_on, l') = ⊥

  give-Rounds :
      (t : Spanned S) (o : Offside) (l l' : Layout S)
      → pending l' ≡ pending l
      → Ensures (give t o l') (Rounds t l)
  give-Rounds t o l l' e =
      Ensures-map (Gives t l') (give-Gives t o l') (λ (flow, end) g. moved flow end g)
    where
      moved : (flow : Flow S) (end : Layout S) → Gives t l' (flow, end) → Rounds t l (flow, end)
      moved (emit u) end g = inl (g ∙ ap (keep t) e)
      moved (again u) end g = absurd g
      moved go_on end g = g

  Open-Ruled :
      (t : Spanned S) (o : Offside) (os : List Offside) (l l' : Layout S)
      → l.levels ≡ o ∷ os
      → Open o.context t l.levels l'
      → Ruled o.context (measure t l.levels) t l'
  Open-Ruled t o os l l' e (inl c) = inl c
  Open-Ruled t o os l l' e (inr (same, v, other)) =
      inr (v, rw (same, e) (omega arith), rw same (rw v (omega arith)), other)

  then_give :
      (t : Spanned S) (o : Offside) (l l' : Layout S) (r : Flow S × Layout S)
      → pending l' ≡ pending l
      → Part Any (measure t l.levels) t l' r
      → Ensures (then_part r (λ end. give t o end)) (Rounds t l)
  unfolding then_part
  then_give t o l l' (emit u, end) e p = fine (subst (Given u end) (ap (keep t) e) p)
  then_give t o l l' (again u, end) e p = fine (p.0 ∙ ap (keep t) e, p.1)
  then_give t o l l' (go_on, end) e p = give-Rounds t o l end (p.0 ∙ e)

  in_context-Rounds :
      (t : Spanned S) (o : Offside) (os : List Offside) (l : Layout S)
      → l.levels ≡ o ∷ os
      → Ensures (in_context t o l) (Rounds t l)
  unfolding in_context
  in_context-Rounds t o os l e =
      >>=-Ensures (Part (Open o.context t l.levels) (measure t l.levels) t l)
        (closing-Part t o os l e) (λ (flow, l') p. closed flow l' p)
    where
      closed :
          (flow : Flow S) (l' : Layout S)
          → Part (Open o.context t l.levels) (measure t l.levels) t l (flow, l')
          → Ensures
              (then_part
                (flow, l')
                (λ m. do
                  ruled ← offside_rule t o.context (compare t.start.column o.location.column) m
                  then_part ruled (λ end. give t o end)))
              (Rounds t l)
      closed (emit u) l' p = fine p
      closed (again u) l' p = fine p
      closed go_on l' p =
          >>=-Ensures (Part Any (measure t l.levels) t l')
            (offside_rule-Part t o.context (compare t.start.column o.location.column) l'
              (measure t l.levels) (Open-Ruled t o os l l' e p.1))
            (λ r q. then_give t o l l' r p.0 q)

  pub round-Rounds : (t : Spanned S) (l : Layout S) → Ensures (round t l) (Rounds t l)
  unfolding round layout_token
  round-Rounds t l = if-Ensures (is_shebang t.value) (fine (inl refl)) (opened l.levels refl)
    where
      opened :
          (ls : List Offside)
          → l.levels ≡ ls
          → Ensures
              (elim ls [
                | [] ↦ push_level t.start (block_ctx false) l >>= λ l'. emit_layout t open_block l'
                | o ∷ os ↦ in_context t o l
              ])
              (Rounds t l)
      opened [] e =
          >>=-Ensures (λ l'. pending l' ≡ pending l)
            (push_level-pending t.start (block_ctx false) l)
            (λ l' h. fine (inl (pending-unread t l' ∙ ap (keep t) h)))
      opened (o ∷ os) e = in_context-Rounds t o os l e

  -- With more fuel than the measure the loop returns a token, and no other is lost.
  pub loop-pending :
      (fuel : ℕ) (t : Spanned S) (l : Layout S)
      → measure t l.levels < fuel
      → Ensures (loop fuel t l) (λ (u, l'). Given u l' (keep t (pending l)))
  unfolding loop
  loop-pending zero t l h = absurd (omega arith)
  loop-pending (suc fuel) t l h =
      >>=-Ensures (Rounds t l) (round-Rounds t l)
        (λ (flow, l') p. finished flow l' p (λ u. loop-pending fuel u l'))
    where
      finished :
          (flow : Flow S) (l' : Layout S)
          → Rounds t l (flow, l')
          → ((u : Spanned S)
              → measure u l'.levels < fuel
              → Ensures (loop fuel u l') (λ (v, end). Given v end (keep u (pending l'))))
          → Ensures
              (elim flow [ emit u ↦ ok (u, l') | again u ↦ loop fuel u l' | go_on ↦ panicked ])
              (λ (u, end). Given u end (keep t (pending l)))
      finished (emit u) l' p ih = fine p
      finished (again u) l' p ih =
          Ensures-map (λ (v, end). Given v end (keep u (pending l'))) (ih u (omega (arith, p.1)))
            (λ (v, end) q. subst (Given v end) p.0 q)
      finished go_on l' p ih = absurd p
