-- ===== src/Bytecode/Constants.antt =====
-- vm/src/compiler.rs: the tables of strings, records and free variables of a function.
use embed_lang.Prelude.{
  ℕ, ◌+◌, ◌%◌, ◌<◌, ◌≤◌, ◌≡◌, ◌≢◌, refl, sym, ap, ◌∙◌, zero, suc, arith, List, [], ◌∷◌, ◌++◌,
  append-nil, append_assoc, map, subst, ◌==◌, ◌⊎◌, inl, inr, Bool, true, false, Bool-cases,
  if◌then◌else◌, length, length-append, get_elem?, Option, none, some, u32_mod, mod_u32-small,
}
use mathlib.Core.Option
use embed_lang.Bytecode.Function.{FunctionEnv}
use embed_lang.Bytecode.Tables.{position, intern, add_string_constant, add_each}

module _ {ℓ} {A : Type ℓ} where
  -- No element passes the test.
  abbrev pub Fails : (A → Bool) → List A → Type 0
  Fails p [] = Unit
  Fails p (x ∷ xs) = (p x ≡ false) × Fails p xs

  position-cases :
      (p : A → Bool) (xs : List A)
      → ((position p xs ≡ none) × Fails p xs)
        ⊎ ((i : ℕ) × (x : A) × (position p xs ≡ some i)
            × (i < length xs)
            × (get_elem? xs i ≡ some x)
            × (p x ≡ true))
  unfolding position
  position-cases p [] = inl (refl, tt)
  position-cases p (x ∷ xs) = elim (Bool-cases (p x)) [
    | inl h ↦ inr (
      0,
      x,
      ap (λ b. if b then some 0 else Option.map suc (position p xs)) h,
      omega arith,
      refl,
      h,
    )
    | inr h ↦ elim (position-cases p xs) [
      | inl (e, f) ↦ inl (
        ap (λ b. if b then some 0 else Option.map suc (position p xs)) h ∙ ap (Option.map suc) e,
        (h, f),
      )
      | inr (i, y, e, l, g, t) ↦ inr (
        suc i,
        y,
        ap (λ b. if b then some 0 else Option.map suc (position p xs)) h ∙ ap (Option.map suc) e,
        omega arith,
        g,
        t,
      )
    ]
  ]

-- No number is twice in a list.
abbrev pub Distinct : List ℕ → Type 0
Distinct [] = Unit
Distinct (x ∷ xs) = Fails (λ y. y == x) xs × Distinct xs

Fails-append :
    (x s : ℕ) (xs : List ℕ) → Fails (λ y. y == x) xs → x ≢ s → Fails (λ y. y == x) (xs ++ s ∷ [])
Fails-append x s [] f n = (ground arith, tt)
Fails-append x s (y ∷ xs) (e, f) n = (e, Fails-append x s xs f n)

Distinct-append :
    (s : ℕ) (xs : List ℕ) → Distinct xs → Fails (λ y. y == s) xs → Distinct (xs ++ s ∷ [])
Distinct-append s [] d f = (tt, tt)
Distinct-append s (x ∷ xs) (g, d) (e, f) =
    (Fails-append x s xs g (λ p. ground arith), Distinct-append s xs d f)

get_elem?-append_end : (xs : List ℕ) (s : ℕ) → get_elem? (xs ++ s ∷ []) (length xs) ≡ some s
get_elem?-append_end [] s = refl
get_elem?-append_end (x ∷ xs) s = get_elem?-append_end xs s

get_elem?-append_front :
    (xs ys : List ℕ) (i : ℕ) {x : ℕ} → get_elem? xs i ≡ some x → get_elem? (xs ++ ys) i ≡ some x
get_elem?-append_front [] ys i h = absurd (ground arith)
get_elem?-append_front (x ∷ xs) ys zero h = h
get_elem?-append_front (x ∷ xs) ys (suc i) h = get_elem?-append_front xs ys i h

-- What one call of `intern` for a number does.
pub record Interned (s : ℕ) (xs : List ℕ) (r : ℕ × List ℕ) : Type 0 where
  pub found : get_elem? r.1 r.0 ≡ some s
  pub distinct : Distinct r.1
  pub extended : (more : List ℕ) × (r.1 ≡ xs ++ more) × (length more ≤ 1)

abbrev placed : ℕ → List ℕ → Option ℕ → ℕ × List ℕ
placed s xs none = (length xs % u32_mod, xs ++ s ∷ [])
placed s xs (some i) = (i % u32_mod, xs)

pub intern-Interned :
    (s : ℕ) (xs : List ℕ)
    → Distinct xs
    → length xs < u32_mod
    → Interned s xs (intern (λ t. t == s) s xs)
unfolding intern
intern-Interned s xs d h = elim (position-cases (λ t. t == s) xs) [
  | inl (e, f) ↦
      subst (λ o. Interned s xs (placed s xs o)) (sym e)
        (record {
          found =
              ap (get_elem? (xs ++ s ∷ [])) (mod_u32-small (length xs) h)
              ∙ get_elem?-append_end xs s;
          distinct = Distinct-append s xs d f;
          extended = (s ∷ [], refl, omega arith);
        })
  | inr (i, x, e, l, g, t) ↦
      subst (λ o. Interned s xs (placed s xs o)) (sym e)
        (record {
          found = ap (get_elem? xs) (mod_u32-small i (omega arith)) ∙ g ∙ ap some (ground arith);
          distinct = d;
          extended = ([], sym (append-nil xs), omega arith);
        })
]

module _ {Fl T G : Type 0} where
  -- If the strings of a function are distinct and, with those that are added, fewer than 2 ^ 32, then
  -- after calls of `add_string_constant` they are distinct, the former ones keep their indexes, and
  -- the index that each call gave reads the string that it was called with.
  pub get_elem?-add_each :
      (env : FunctionEnv Fl T G) (ss : List ℕ)
      → Distinct env.function.strings
      → length env.function.strings + length ss < u32_mod
      → (map (get_elem? (add_each env ss).0.function.strings) (add_each env ss).1 ≡ map some ss)
        × Distinct (add_each env ss).0.function.strings
        × (more : List ℕ) × ((add_each env ss).0.function.strings ≡ env.function.strings ++ more)
  unfolding add_each add_string_constant
  get_elem?-add_each env [] d h = (refl, d, [], sym (append-nil env.function.strings))
  get_elem?-add_each env (s ∷ ss) d h =
      let r = intern-Interned s env.function.strings d (omega arith) in
      let (first, eq, few) = r.extended in
      let (reads, distinct, more, eq') =
        get_elem?-add_each (add_string_constant env s).0 ss r.distinct
          (omega (arith, ap length eq, length-append env.function.strings first)) in
      let (i, table) = intern (λ t. t == s) s env.function.strings in
      let head_reads : get_elem? (add_each (add_string_constant env s).0 ss).0.function.strings i
          ≡ some s =
        ap (λ t. get_elem? t i) eq' ∙ get_elem?-append_front table more i r.found in
      (
        (λ j. head_reads j ∷ reads j),
        distinct,
        first ++ more,
        eq' ∙ ap (λ t. t ++ more) eq ∙ append_assoc env.function.strings first more,
      )
