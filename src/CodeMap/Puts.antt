-- ===== src/CodeMap/Puts.antt =====
-- base/src/source.rs: a map that has one file more than another, with the others in their order.
use embed_lang.Prelude.{
  ℕ, zero, suc, ◌≡◌, refl, ap, sym, arith, List, [], ◌∷◌, ◌++◌, append-nil, some, get_elem?, set,
}
use embed_lang.CodeMap.{FileMap, CodeMap, add_filemap}
use embed_lang.CodeMap.Update.{remove, insert}

-- The second map is the first with the file put in at some place.
abbrev pub Puts : FileMap → CodeMap → CodeMap → Type 0
Puts f fs gs =
    (front : CodeMap) × (back : CodeMap) × (fs ≡ front ++ back) × (gs ≡ front ++ f ∷ back)

Puts-cons : (g f : FileMap) (fs gs : CodeMap) → Puts f fs gs → Puts f (g ∷ fs) (g ∷ gs)
Puts-cons g f fs gs (front, back, p, q) =
    (g ∷ front, back, ap (λ hs. g ∷ hs) p, ap (λ hs. g ∷ hs) q)

pub insert-Puts : (j : ℕ) (f : FileMap) (fs : CodeMap) → Puts f fs (insert j f fs)
insert-Puts zero f fs = ([], fs, refl, refl)
insert-Puts (suc j) f [] = ([], [], refl, refl)
insert-Puts (suc j) f (g ∷ fs) = Puts-cons g f fs (insert j f fs) (insert-Puts j f fs)

pub add_filemap-Puts :
    (fs : CodeMap) (name : ℕ) (source : List ℕ)
    → Puts (add_filemap fs name source).1 fs (add_filemap fs name source).0
unfolding add_filemap
add_filemap-Puts fs name source = (fs, [], sym (append-nil fs), refl)

-- The file at an index is in front of those behind it, and behind those in front of it.
pub remove-Puts :
    (fs : CodeMap) (i : ℕ) (f : FileMap) → get_elem? fs i ≡ some f → Puts f (remove i fs) fs
remove-Puts [] i f e = absurd (ground arith)
remove-Puts (g ∷ fs) zero f e = ([], fs, refl, cc)
remove-Puts (g ∷ fs) (suc i) f e = Puts-cons g f (remove i fs) fs (remove-Puts fs i f e)

pub set-Puts :
    (fs : CodeMap) (i : ℕ) (old new : FileMap)
    → get_elem? fs i ≡ some old
    → Puts new (remove i fs) (set fs i new)
set-Puts [] i old new e = absurd (ground arith)
set-Puts (g ∷ fs) zero old new e = ([], fs, refl, refl)
set-Puts (g ∷ fs) (suc i) old new e =
    Puts-cons g new (remove i fs) (set fs i new) (set-Puts fs i old new e)
