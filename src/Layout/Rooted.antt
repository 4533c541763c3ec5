-- ===== src/Layout/Rooted.antt =====
-- parser/src/layout.rs: the stack of contexts stands on a block.
use embed_lang.Prelude.{◌≡◌, refl, Bool, true, false, if◌then◌else◌, List, [], ◌∷◌, arith}
use embed_lang.Layout.Tokens.{
  Token, Location, Spanned, Lexed, lexed, lex_error, Res, ok, err, panicked, no_fuel, ◌>>=◌,
  Ensures, fine, Ensures-ends, unindented_too_far,
}
use embed_lang.Layout.Contexts.{Offside, set_emit_semi, pop_rec}
use embed_lang.Layout.Stream.{is_block}

-- No `expect` fails, and a successful result satisfies `Q`; whether the loops end is left open.
pub data Safe {A : Type 0} (Q : A → Type 0) : Res A → Type 0 where
  safe : {a : A} → Q a → Safe Q (ok a)
  safe_err : {e : embed_lang.Layout.Tokens.Error} → Safe Q (err e)
  unfinished : Safe Q no_fuel

pub >>=-Safe :
    {A B : Type 0} {m : Res A} {f : A → Res B} (P : A → Type 0) {Q : B → Type 0}
    → Safe P m
    → ((a : A) → P a → Safe Q (f a))
    → Safe Q (m >>= f)
>>=-Safe P (safe h) k = k _ h
>>=-Safe P safe_err k = safe_err
>>=-Safe P unfinished k = unfinished

pub Safe-map :
    {A : Type 0} {m : Res A} (P : A → Type 0) {Q : A → Type 0}
    → Safe P m
    → ((a : A) → P a → Q a)
    → Safe Q m
Safe-map P (safe h) k = safe (k _ h)
Safe-map P safe_err k = safe_err
Safe-map P unfinished k = unfinished

-- With what is known of the results of loops that end.
pub Safe-Ensures :
    {A : Type 0} {m : Res A} {P Q : A → Type 0} → Safe P m → Ensures m Q → Safe (λ a. P a × Q a) m
Safe-Ensures (safe p) (fine q) = safe (p, q)
Safe-Ensures safe_err q = safe_err
Safe-Ensures unfinished q = unfinished

-- A result, or an error of the source.
abbrev pub Returns : {A : Type 0} → Res A → Type 0
Returns (ok a) = Unit
Returns (err e) = Unit
Returns _ = ⊥

pub Safe-Returns : {A : Type 0} {m : Res A} {P Q : A → Type 0} → Safe P m → Ensures m Q → Returns m
Safe-Returns (safe p) q = tt
Safe-Returns safe_err q = tt
Safe-Returns unfinished q = absurd (Ensures-ends q refl)

pub if-Safe :
    {A : Type 0} (b : Bool) {m n : Res A} {Q : A → Type 0}
    → Safe Q m
    → Safe Q n
    → Safe Q (if b then m else n)
if-Safe true h k = h
if-Safe false h k = k

-- The contexts are not empty, and the outermost one is a block.
abbrev pub Standing : List Offside → Type 0
Standing [] = ⊥
Standing (o ∷ []) = is_block o.context ≡ true
Standing (o ∷ p ∷ os) = Standing (p ∷ os)

abbrev pub Rooted : List Offside → Type 0
Rooted [] = Unit
Rooted (o ∷ os) = Standing (o ∷ os)

pub Standing-Rooted : (os : List Offside) → Standing os → Rooted os
Standing-Rooted [] h = tt
Standing-Rooted (o ∷ os) h = h

pub Standing-cons : (o : Offside) (os : List Offside) → Standing os → Standing (o ∷ os)
Standing-cons o [] h = absurd h
Standing-cons o (p ∷ os) h = h

pub Rooted-block :
    (o : Offside) (os : List Offside) → is_block o.context ≡ true → Rooted os → Standing (o ∷ os)
Rooted-block o [] e h = e
Rooted-block o (p ∷ os) e h = h

pub Rooted-below : (o : Offside) (os : List Offside) → Standing (o ∷ os) → Rooted os
Rooted-below o [] h = tt
Rooted-below o (p ∷ os) h = h

-- A context that is no block has one below it.
pub Standing-below :
    (o : Offside) (os : List Offside) → is_block o.context ≡ false → Standing (o ∷ os) → Standing os
Standing-below o [] e h = cc
Standing-below o (p ∷ os) e h = h

pub Standing-set_emit_semi :
    (b : Bool) (os : List Offside) → Standing os → Standing (set_emit_semi b os)
unfolding set_emit_semi
Standing-set_emit_semi b [] h = h
Standing-set_emit_semi b (o ∷ []) h = ground arith
Standing-set_emit_semi b (o ∷ p ∷ os) h = ground arith

pub Rooted-pop_rec : (os : List Offside) → Rooted os → Rooted (pop_rec os)
unfolding pop_rec
Rooted-pop_rec [] h = tt
Rooted-pop_rec (o ∷ os) h = ground (arith, Rooted-below o os h)

pub Rooted-set_emit_semi : (b : Bool) (os : List Offside) → Rooted os → Rooted (set_emit_semi b os)
unfolding set_emit_semi
Rooted-set_emit_semi b [] h = tt
Rooted-set_emit_semi b (o ∷ os) h =
    Standing-Rooted (set_emit_semi b (o ∷ os)) (Standing-set_emit_semi b (o ∷ os) h)
