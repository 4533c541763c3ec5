-- ===== src/SourceMap/Lines.antt =====
-- vm/src/source_map.rs: the lines that are found in a map of many emissions.
use embed_lang.Prelude.{
  ℕ, zero, suc, ◌-◌, ◌≤◌, ◌<◌, ◌≡◌, refl, sym, ap, ◌∙◌, ltb, if◌then◌else◌, ◌==◌, ◌&&◌, ◌||◌, Bool,
  ltb→lt, true, false, List, [], ◌∷◌, ◌++◌, append-nil, append_assoc, arith, Option, none, some,
  length, get_elem?,
}
use embed_lang.SourceMap.{
  Entry, SourceMap, new, last_line, is_line, emit, close, close_with, position, past_last, line_of,
  line,
}

-- The entries from the first to the last, with the line found so far.
abbrev scan : ℕ → Option ℕ → List Entry → Option ℕ
scan i prev [] = none
scan i prev ((j, l) ∷ es) = let rest = scan i (some l) es in if ltb i j then prev else rest

-- `emit` for each of a list of emissions.
unfoldable pub emit_all : SourceMap → List Entry → SourceMap
emit_all m [] = m
emit_all m ((i, l) ∷ es) = emit_all (emit m i l) es

-- The line of the last emission at or before an instruction.
abbrev pub line_at : ℕ → Option ℕ → List Entry → Option ℕ
line_at i prev [] = prev
line_at i prev ((j, l) ∷ es) = let rest = line_at i (some l) es in if ltb i j then prev else rest

-- The indexes do not decrease, from `lo` to `hi`.
abbrev pub Ascending : ℕ → List Entry → ℕ → Type 0
Ascending lo [] hi = lo ≤ hi
Ascending lo ((j, l) ∷ es) hi = (lo ≤ j) × Ascending j es hi

position-length : (i : ℕ) (es : List Entry) → position i es ≤ length es
unfolding position
position-length i [] = omega arith
position-length i ((j, l) ∷ es) = let h = position-length i es in ground arith

-- `line` on a part of the entries, with the line found in front of them.
abbrev pick : ℕ → ℕ → Bool → Option ℕ → List Entry → Option ℕ
pick p n past prev es =
    if p == 0 then prev else if (p == n) && past then none else line_of (get_elem? es (p - 1))

abbrev line_from : ℕ → Option ℕ → List Entry → Option ℕ
line_from i prev es = pick (position i es) (length es) (past_last i es) prev es

pick-later :
    (b : Bool) (p n : ℕ) (past : Bool) (prev : Option ℕ) (j l : ℕ) (es : List Entry)
    → pick (if b then 0 else suc p) (suc (suc n)) past prev ((j, l) ∷ es)
      ≡ (if b then prev else pick p (suc n) past (some l) es)
pick-later true p n past prev j l es = refl
pick-later false zero n past prev j l es = ground arith
pick-later false (suc p) n past prev j l es = ground arith

line_from-scan :
    (i : ℕ) (prev : Option ℕ) (e : Entry) (es : List Entry)
    → line_from i prev (e ∷ es) ≡ scan i prev (e ∷ es)
unfolding position
line_from-scan i prev (j, l) [] = ground arith
line_from-scan i prev (j, l) (f ∷ es) =
    pick-later (ltb i j) (position i (f ∷ es)) (length es) (past_last i (f ∷ es)) prev j l (f ∷ es)
    ∙ ap (λ r. if ltb i j then prev else r) (line_from-scan i (some l) f es)

or_if :
    {A : Type 0} (a b : Bool) (x y : A)
    → (if a || b then x else y) ≡ (if a then x else if b then x else y)
or_if true b x y = refl
or_if false b x y = refl

line-scan : (es : List Entry) (i : ℕ) → line (record { map = es }) i ≡ scan i none es
unfolding line position
line-scan [] i = refl
line-scan (e ∷ es) i = or_if (position i (e ∷ es) == 0) _ _ _ ∙ line_from-scan i none e es

-- The entries that are left of a list of emissions behind those with a last line.
abbrev kept : Option ℕ → List Entry → List Entry
kept prev [] = []
kept prev ((i, l) ∷ es) = if is_line prev l then kept prev es else (i, l) ∷ kept (some l) es

last_line-append : (es : List Entry) (i l : ℕ) → last_line (es ++ (i, l) ∷ []) ≡ some l
last_line-append [] i l = refl
last_line-append (e ∷ []) i l = refl
last_line-append (e ∷ f ∷ es) i l = last_line-append (f ∷ es) i l

-- After an emission that is left out, or not.
emitted :
    (b : Bool) (m : List Entry) (i l : ℕ) (es : List Entry)
    → emit_all (record { map = m }) es ≡ record { map = m ++ kept (last_line m) es }
    → emit_all (record { map = m ++ (i, l) ∷ [] }) es
      ≡ record { map = m ++ (i, l) ∷ kept (some l) es }
    → emit_all (if b then record { map = m } else record { map = m ++ (i, l) ∷ [] }) es
      ≡ record { map = m ++ (if b then kept (last_line m) es else (i, l) ∷ kept (some l) es) }
emitted true m i l es h g = h
emitted false m i l es h g = g

emit_all-kept :
    (m es : List Entry)
    → emit_all (record { map = m }) es ≡ record { map = m ++ kept (last_line m) es }
unfolding emit emit_all
emit_all-kept m [] = rw (append-nil m)
emit_all-kept m ((i, l) ∷ es) = emitted (is_line (last_line m) l) m i l es (emit_all-kept m es) (
    emit_all-kept (m ++ (i, l) ∷ []) es
    ∙ rw (last_line-append m i l, append_assoc m ((i, l) ∷ []) (kept (some l) es)))

Ascending-le : (lo : ℕ) (es : List Entry) (hi : ℕ) → Ascending lo es hi → lo ≤ hi
Ascending-le lo [] hi h = h
Ascending-le lo ((j, l) ∷ es) hi (h, g) = omega (arith, Ascending-le j es hi g)

-- In front of every emission, the line is the one found before them.
line_at-before :
    (i lo : ℕ) (prev : Option ℕ) (es : List Entry) (hi : ℕ)
    → Ascending lo es hi
    → i < lo
    → line_at i prev es ≡ prev
line_at-before i lo prev [] hi h w = refl
line_at-before i lo prev ((j, k) ∷ es) hi (h, g) w = ground arith

is_line-eq : (prev : Option ℕ) (k : ℕ) → is_line prev k ≡ true → prev ≡ some k
is_line-eq none k h = ground arith
is_line-eq (some l) k h = ground arith

-- An emission with the line before it changes no line.
line_at-same :
    (i : ℕ) (prev : Option ℕ) (j k : ℕ) (es : List Entry) (hi : ℕ)
    → Ascending j es hi
    → prev ≡ some k
    → line_at i prev ((j, k) ∷ es) ≡ line_at i prev es
line_at-same i prev j k es hi g e = ite_cases (ltb i j) refl
  where
    ite_cases :
        (b : Bool) → ltb i j ≡ b → (if b then prev else line_at i (some k) es) ≡ line_at i prev es
    ite_cases true h = sym (line_at-before i j prev es hi g (ltb→lt i j h))
    ite_cases false h = ap (λ o. line_at i o es) (sym e)

-- What is left out changes no line.
scan-kept :
    (i lo : ℕ) (prev : Option ℕ) (es : List Entry) (hi l : ℕ)
    → Ascending lo es hi
    → scan i prev (kept prev es ++ (hi, l) ∷ []) ≡ (if ltb i hi then line_at i prev es else none)
scan-kept i lo prev [] hi l h = refl
scan-kept i lo prev ((j, k) ∷ es) hi l (h, g) =
    split (is_line prev k) refl (scan-kept i j prev es hi l g) (scan-kept i j (some k) es hi l g)
  where
    split :
        (b : Bool)
        → is_line prev k ≡ b
        → scan i prev (kept prev es ++ (hi, l) ∷ [])
          ≡ (if ltb i hi then line_at i prev es else none)
        → scan i (some k) (kept (some k) es ++ (hi, l) ∷ [])
          ≡ (if ltb i hi then line_at i (some k) es else none)
        → scan i prev ((if b then kept prev es else (j, k) ∷ kept (some k) es) ++ (hi, l) ∷ [])
          ≡ (if ltb i hi then line_at i prev ((j, k) ∷ es) else none)
    split true e p q =
        p
        ∙ ap (λ o. if ltb i hi then o else none)
            (sym (line_at-same i prev j k es hi g (is_line-eq prev k e)))
    split false e p q = let bound : j ≤ hi = Ascending-le j es hi g in ground arith

last_line-cons : (e : Entry) (es : List Entry) → (k : ℕ) × (last_line (e ∷ es) ≡ some k)
last_line-cons (j, k) [] = (k, refl)
last_line-cons e (f ∷ es) = last_line-cons f es

close-cons :
    (e : Entry) (es : List Entry) (hi : ℕ) (l : Option ℕ)
    → (k : ℕ) × (close (record { map = e ∷ es }) hi l ≡ record { map = e ∷ es ++ (hi, k) ∷ [] })
unfolding close
close-cons e es hi (some l) = (l, refl)
close-cons e es hi none =
    let (k, h) = last_line-cons e es in (k, ap (close_with (record { map = e ∷ es }) hi) h)

-- If a map is filled by emissions whose indexes do not decrease, at least one, and is closed at an
-- index not below them, then the line of an instruction below that index is the line of the last
-- emission at or before it, if there is one; an instruction from that index on has no line.
pub line-emit_all :
    (i lo : ℕ) (e : Entry) (es : List Entry) (hi : ℕ) (l : Option ℕ)
    → Ascending lo (e ∷ es) hi
    → line (close (emit_all new (e ∷ es)) hi l) i
      ≡ (if ltb i hi then line_at i none (e ∷ es) else none)
line-emit_all i lo (j, k) es hi l h =
    let (x, c) = close-cons (j, k) (kept (some k) es) hi l in
    ap (λ m. line (close m hi l) i) (emit_all-kept [] ((j, k) ∷ es))
    ∙ ap (λ m. line m i) c
    ∙ line-scan ((j, k) ∷ kept (some k) es ++ (hi, x) ∷ []) i
    ∙ scan-kept i lo none ((j, k) ∷ es) hi x h
