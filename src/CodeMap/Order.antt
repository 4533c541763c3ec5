-- ===== src/CodeMap/Order.antt =====
-- base/src/source.rs: the files stand one behind the other, with a position between them.
use embed_lang.Prelude.{
  ℕ, suc, zero, ◌+◌, ◌≤◌, ◌<◌, ◌≡◌, arith, List, [], ◌∷◌, ◌++◌, some, get_elem?,
}
use embed_lang.CodeMap.{FileMap, CodeMap, span_end, last_end, add_filemap}

-- From a position on, the files are in order and do not touch.
abbrev pub Placed : ℕ → CodeMap → Type 0
Placed lo [] = Unit
Placed lo (f ∷ fs) = (lo ≤ f.span_start) × Placed (span_end f + 1) fs

-- The file at an index stands from there on, and the files behind it come after its end.
pub Placed-get_elem? :
    (lo : ℕ) (fs : CodeMap) (i : ℕ) (f : FileMap)
    → Placed lo fs
    → get_elem? fs i ≡ some f
    → lo ≤ f.span_start
Placed-get_elem? lo [] i f p e = absurd (ground arith)
Placed-get_elem? lo (g ∷ fs) zero f (h, p) e = ground (arith, e)
Placed-get_elem? lo (g ∷ fs) (suc i) f (h, p) e =
    omega (arith, Placed-get_elem? (span_end g + 1) fs i f p e)

pub Placed-before :
    (lo : ℕ) (fs : CodeMap) (i j : ℕ) (f g : FileMap)
    → Placed lo fs
    → get_elem? fs i ≡ some f
    → get_elem? fs j ≡ some g
    → i < j
    → span_end f < g.span_start
Placed-before lo [] i j f g p e d h = absurd (ground arith)
Placed-before lo (x ∷ fs) zero zero f g p e d h = absurd (omega arith)
Placed-before lo (x ∷ fs) zero (suc j) f g (q, p) e d h =
    ground (arith, e, Placed-get_elem? (span_end x + 1) fs j g p d)
Placed-before lo (x ∷ fs) (suc i) zero f g p e d h = absurd (omega arith)
Placed-before lo (x ∷ fs) (suc i) (suc j) f g (q, p) e d h =
    Placed-before (span_end x + 1) fs i j f g p e d (omega arith)

-- Files from a position on end there or later.
last_end-ge : (lo : ℕ) (f : FileMap) (fs : CodeMap) → Placed lo (f ∷ fs) → lo ≤ last_end (f ∷ fs)
last_end-ge lo f [] (q, p) = omega arith
last_end-ge lo f (g ∷ fs) (q, p) = omega (arith, last_end-ge (span_end f + 1) g fs p)

Placed-append :
    (lo : ℕ) (fs : CodeMap) (f : FileMap)
    → Placed lo fs
    → lo ≤ f.span_start
    → last_end fs < f.span_start
    → Placed lo (fs ++ f ∷ [])
Placed-append lo [] f p h k = (h, tt)
Placed-append lo (g ∷ []) f (q, p) h k = (q, (omega arith, tt))
Placed-append lo (g ∷ x ∷ fs) f (q, p) h k = (
  q,
  Placed-append (span_end g + 1) (x ∷ fs) f p (omega (arith, last_end-ge (span_end g + 1) x fs p))
      k,
)

pub add_filemap-Placed :
    (fs : CodeMap) (name : ℕ) (source : List ℕ)
    → Placed 1 fs
    → Placed 1 (add_filemap fs name source).0
unfolding add_filemap
add_filemap-Placed fs name source p =
    Placed-append 1 fs (add_filemap fs name source).1 p (omega arith) (omega arith)
