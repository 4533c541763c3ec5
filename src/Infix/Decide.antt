-- ===== src/Infix/Decide.antt =====
-- parser/src/infix.rs: the part of `reparse` that compares the next operator with the one on the
-- stack, with its errors. A precedence is a natural number, as its error message asks for one.
use Prim.Native.Nat.{Ordering}
use embed_lang.Prelude.{
  ℕ, zero, suc, ◌<◌, arith, ◌≡◌, refl, sym, ap, ◌∙◌, subst, ◌≢◌, leb, if◌then◌else◌, Option, none,
  some,
}
use embed_lang.Infix.Table.{Fixity, left, right, OpMeta, Name}

-- An operator, `SpannedIdent`.
pub record Op : Type 0 where
  pub name : Name
  pub start : ℕ
  pub end : ℕ

-- `pos::span`, which puts the two ends in order.
abbrev pub span : ℕ → ℕ → ℕ × ℕ
span start end = if leb start end then (start, end) else (end, start)

-- The errors of `reparse`, each with its span.
pub data Error : Type 0 where
  conflicting_fixities : Name × OpMeta → Name × OpMeta → ℕ → ℕ → Error
  undefined_fixity : Name → ℕ → ℕ → Error

-- `i32::cmp`
abbrev pub cmp : ℕ → ℕ → Ordering
cmp zero zero = Ordering.eq
cmp zero (suc n) = Ordering.lt
cmp (suc m) zero = Ordering.gt
cmp (suc m) (suc n) = cmp m n

-- What the loop does with the next operator and the one on the stack.
pub data Decision : Type 0 where
  reducing shifting : Decision
  stopping conflicting : Error → Decision

abbrev pub same_precedence : Op → OpMeta → Op → OpMeta → Fixity → Fixity → Decision
same_precedence n nm s sm left left = reducing
same_precedence n nm s sm right right = shifting
same_precedence n nm s sm _ _ =
    let (start, end) = span s.start n.end in
    conflicting (conflicting_fixities (s.name, sm) (n.name, nm) start end)

abbrev pub compared : Op → OpMeta → Op → OpMeta → Ordering → Decision
compared n nm s sm Ordering.lt = reducing
compared n nm s sm Ordering.gt = shifting
compared n nm s sm Ordering.eq = same_precedence n nm s sm nm.fixity sm.fixity

abbrev pub undefined : Op → Decision
undefined o = stopping (undefined_fixity o.name o.start o.end)

-- The next operator is looked up first.
abbrev pub looked_up : Op → Op → Option OpMeta → Option OpMeta → Decision
looked_up n s none _ = undefined n
looked_up n s (some nm) none = undefined s
looked_up n s (some nm) (some sm) = compared n nm s sm (cmp nm.precedence sm.precedence)

unfoldable pub decide : (Name → Option OpMeta) → Op → Op → Decision
decide get n s = looked_up n s (get n.name) (get s.name)

-- Why an error is given, in terms of the operators' table.
abbrev pub Cause : (Name → Option OpMeta) → Error → Type 0
Cause get (undefined_fixity n s e) = get n ≡ none
Cause get (conflicting_fixities (sn, sm) (nn, nm) s e) =
    (get sn ≡ some sm)
    × (get nn ≡ some nm)
    × (sm.precedence ≡ nm.precedence)
    × (sm.fixity ≢ nm.fixity)

abbrev pub Caused : (Name → Option OpMeta) → Decision → Type 0
Caused get (stopping err) = Cause get err
Caused get (conflicting err) = Cause get err
Caused get _ = Unit

abbrev IsLeft : Fixity → Type 0
IsLeft left = Unit
IsLeft right = ⊥

left≢right : left ≢ right
left≢right h = subst IsLeft h tt

abbrev NotEq : Ordering → Type 0
NotEq Ordering.eq = ⊥
NotEq _ = Unit

pub cmp-eq : (m n : ℕ) → cmp m n ≡ Ordering.eq → n ≡ m
cmp-eq zero zero h = refl
cmp-eq zero (suc n) h = absurd (subst NotEq h tt)
cmp-eq (suc m) zero h = absurd (subst NotEq h tt)
cmp-eq (suc m) (suc n) h = ap suc (cmp-eq m n h)

abbrev IsLess : Ordering → Type 0
IsLess Ordering.lt = Unit
IsLess _ = ⊥

abbrev IsGreater : Ordering → Type 0
IsGreater Ordering.gt = Unit
IsGreater _ = ⊥

pub cmp-lt : (m n : ℕ) → cmp m n ≡ Ordering.lt → m < n
cmp-lt zero zero h = absurd (subst IsLess (sym h) tt)
cmp-lt zero (suc n) h = omega arith
cmp-lt (suc m) zero h = absurd (subst IsLess (sym h) tt)
cmp-lt (suc m) (suc n) h = omega (arith, cmp-lt m n h)

pub cmp-gt : (m n : ℕ) → cmp m n ≡ Ordering.gt → n < m
cmp-gt zero zero h = absurd (subst IsGreater (sym h) tt)
cmp-gt zero (suc n) h = absurd (subst IsGreater (sym h) tt)
cmp-gt (suc m) zero h = omega arith
cmp-gt (suc m) (suc n) h = omega (arith, cmp-gt m n h)

module _ (get : Name → Option OpMeta) (n s : Op) (nm sm : OpMeta) where
  same_precedence-Caused :
      get n.name ≡ some nm
      → get s.name ≡ some sm
      → sm.precedence ≡ nm.precedence
      → (f g : Fixity) → nm.fixity ≡ f
      → sm.fixity ≡ g
      → Caused get (same_precedence n nm s sm f g)
  same_precedence-Caused hn hs hp left left hf hg = tt
  same_precedence-Caused hn hs hp right right hf hg = tt
  same_precedence-Caused hn hs hp left right hf hg =
      (hs, hn, hp, λ h. left≢right (sym hf ∙ sym h ∙ hg))
  same_precedence-Caused hn hs hp right left hf hg = (hs, hn, hp, λ h. left≢right (sym hg ∙ h ∙ hf))

  compared-Caused :
      get n.name ≡ some nm
      → get s.name ≡ some sm
      → (o : Ordering) → cmp nm.precedence sm.precedence ≡ o
      → Caused get (compared n nm s sm o)
  compared-Caused hn hs Ordering.lt h = tt
  compared-Caused hn hs Ordering.gt h = tt
  compared-Caused hn hs Ordering.eq h =
      same_precedence-Caused hn hs (cmp-eq nm.precedence sm.precedence h) nm.fixity sm.fixity refl
        refl

looked_up-Caused :
    (get : Name → Option OpMeta) (n s : Op) (nm sm : Option OpMeta)
    → get n.name ≡ nm
    → get s.name ≡ sm
    → Caused get (looked_up n s nm sm)
looked_up-Caused get n s none sm hn hs = hn
looked_up-Caused get n s (some nm) none hn hs = hs
looked_up-Caused get n s (some nm) (some sm) hn hs =
    compared-Caused get n s nm sm hn hs (cmp nm.precedence sm.precedence) refl

pub decide-Caused : (get : Name → Option OpMeta) (n s : Op) → Caused get (decide get n s)
unfolding decide
decide-Caused get n s = looked_up-Caused get n s (get n.name) (get s.name) refl refl
