-- ===== src/CodeMap/Locate.antt =====
-- base/src/source.rs: the offset in a file, against a scan of all files.
use embed_lang.Prelude.{
  ℕ, suc, zero, ◌+◌, ◌-◌, ◌≡◌, ◌⊎◌, inl, inr, refl, sym, ap, ◌∙◌, arith, leb, Bool-cases,
  if◌then◌else◌, ◌&&◌, [], ◌∷◌, Option, none, some, Option-cases, get_elem?,
}
use embed_lang.CodeMap.{FileMap, CodeMap, span_end, file_to_usize, find_index, get, to_usize}
use embed_lang.CodeMap.Order.{Placed, Placed-before}
use embed_lang.CodeMap.Search.{At, find_index-At}

-- The offset of a position in the first file that it is at.
abbrev pub locate : CodeMap → ℕ → Option ℕ
locate [] pos = none
locate (f ∷ fs) pos =
    let rest = locate fs pos in
    if leb f.span_start pos && leb pos (span_end f) then some (pos - f.span_start) else rest

file_to_usize-At :
    (f : FileMap) (pos : ℕ) → At pos f → file_to_usize f pos ≡ some (pos - f.span_start)
unfolding file_to_usize
file_to_usize-At f pos (a, b) = ground arith

locate-At :
    (lo : ℕ) (fs : CodeMap) (i pos : ℕ) (f : FileMap)
    → Placed lo fs
    → get_elem? fs i ≡ some f
    → At pos f
    → locate fs pos ≡ some (pos - f.span_start)
locate-At lo [] i pos f p e at = absurd (ground arith)
locate-At lo (g ∷ fs) zero pos f p e (a, b) = ground (arith, e)
locate-At lo (g ∷ fs) (suc i) pos f (q, p) e (a, b) =
    let before = Placed-before lo (g ∷ fs) zero (suc i) g f (q, p) refl e (omega arith) in
    ground (arith, before, locate-At (span_end g + 1) fs i pos f p e (a, b))

locate-cases :
    (fs : CodeMap) (pos : ℕ)
    → (locate fs pos ≡ none) ⊎ ((i : ℕ) × (f : FileMap) × (get_elem? fs i ≡ some f) × At pos f)
locate-cases [] pos = inl refl
locate-cases (f ∷ fs) pos = elim (Bool-cases (leb f.span_start pos && leb pos (span_end f))) [
  | inl b ↦ inr (0, f, refl, (ground arith, ground arith))
  | inr b ↦ elim (locate-cases fs pos) [
    | inl n ↦ inl (ground arith)
    | inr (i, g, e, at) ↦ inr (suc i, g, e, at)
  ]
]

-- What `to_usize` makes of a file, and of an index.
abbrev in_file : ℕ → Option FileMap → Option ℕ
in_file pos none = none
in_file pos (some f) = file_to_usize f pos

abbrev at_index : CodeMap → Option ℕ → Option FileMap
at_index fs none = none
at_index fs (some i) = get_elem? fs i

to_usize-eq :
    (fs : CodeMap) (pos : ℕ) → to_usize fs pos ≡ in_file pos (at_index fs (find_index fs pos))
unfolding to_usize get
to_usize-eq fs pos = refl

-- If the files are placed, `to_usize` finds by binary search what a scan of all files finds.
pub to_usize-locate : (fs : CodeMap) (pos : ℕ) → Placed 1 fs → to_usize fs pos ≡ locate fs pos
to_usize-locate fs pos p = to_usize-eq fs pos ∙ elim (Option-cases (find_index fs pos)) [
  | inl n ↦ elim (locate-cases fs pos) [
    | inl l ↦ ap (λ o. in_file pos (at_index fs o)) n ∙ sym l
    | inr (i, f, e, at) ↦ absurd (ground (arith, n, (find_index-At fs pos i p).1 (f, e, at)))
  ]
  | inr (i, s) ↦
      let (f, e, at) = (find_index-At fs pos i p).0 s in
      ap (λ o. in_file pos (at_index fs o)) s
      ∙ ap (in_file pos) e
      ∙ file_to_usize-At f pos at
      ∙ sym (locate-At 1 fs i pos f p e at)
]
