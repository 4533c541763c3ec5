-- ===== src/CodeMap/Update.antt =====
-- base/src/source.rs: `CodeMap::update`, which gives a file another text, in its place or in another.
-- The difference of two positions is signed in the code, and its cast to `usize` is written out.
use embed_lang.Prelude.{
  ℕ, zero, suc, ◌+◌, ◌-◌, leb, if◌then◌else◌, List, [], ◌∷◌, Option, none, some, length, get_elem?,
  set, Outcome, returns, ◌>>=◌, checked_sub, unwrap,
}
use embed_lang.CodeMap.{FileMap, CodeMap, span_end, add_filemap, find_index}

-- `(a - b).to_usize()`
abbrev pub distance : ℕ → ℕ → ℕ
distance a b = if leb b a then a - b else 18446744073709551616 - (b - a)

-- The first position for the file at an index.
unfoldable pub min_start : CodeMap → ℕ → Outcome ℕ
min_start fs zero = returns 1
min_start fs (suc i) = do f ← unwrap (get_elem? fs i); returns (span_end f + 1)

-- The start of the file behind an index, or the largest position.
abbrev pub next_start : CodeMap → ℕ → ℕ
next_start fs i = elim (get_elem? fs (suc i)) [ none ↦ 4294967295 | some f ↦ f.span_start ]

-- The positions of the gaps between neighbours, from one on: the first that is large enough.
unfoldable pub gap_behind : ℕ → FileMap → CodeMap → ℕ → Outcome (Option ℕ)
gap_behind j f [] need = returns none
gap_behind j f (g ∷ fs) need =
    let rest = gap_behind (suc j) g fs need in
    do
      size ← checked_sub (distance g.span_start (span_end f)) 1
      if leb need size then returns (some j) else rest

-- The same with the gap in front of the first file.
unfoldable pub gap : CodeMap → ℕ → Outcome (Option ℕ)
unfolding gap_behind
gap [] need = returns none
gap (f ∷ fs) need = do
  size ← checked_sub f.span_start 1
  if leb need size then returns (some 0) else gap_behind 1 f fs need

-- `files.remove(i)` and `files.insert(j, f)`
abbrev pub remove : ℕ → CodeMap → CodeMap
remove zero [] = []
remove zero (f ∷ fs) = fs
remove (suc i) [] = []
remove (suc i) (f ∷ fs) = f ∷ remove i fs

abbrev pub insert : ℕ → FileMap → CodeMap → CodeMap
insert zero f fs = f ∷ fs
insert (suc j) f [] = f ∷ []
insert (suc j) f (g ∷ fs) = g ∷ insert j f fs

-- A file in the first gap that is large enough, or behind the others.
unfoldable pub place : CodeMap → ℕ → List ℕ → Outcome (CodeMap × FileMap)
unfolding gap min_start add_filemap
place fs name src = do
  j ← gap fs (length src + 1)
  elim j [
    | none ↦ returns (add_filemap fs name src)
    | some j ↦ do
      start ← min_start fs j
      let f : FileMap = record { name = name; source = src; span_start = start }
      returns (insert j f fs, f)
  ]

-- The update of the file at an index. The text stays if it is no longer than the space between the
-- neighbours, whatever the file's start is.
unfoldable pub update_at : CodeMap → ℕ → List ℕ → Outcome (CodeMap × FileMap)
unfolding min_start place
update_at fs i src = do
  min ← min_start fs i
  old ← unwrap (get_elem? fs i)
  if leb (length src) (distance (next_start fs i - 1) min)
      then (do
        let f : FileMap = record { name = old.name; source = src; span_start = old.span_start }
        returns (set fs i f, f))
      else place (remove i fs) old.name src

unfoldable pub update : CodeMap → ℕ → List ℕ → Outcome (Option (CodeMap × FileMap))
unfolding find_index update_at
update fs pos src = elim (find_index fs pos) [
  | none ↦ returns none
  | some i ↦ do r ← update_at fs i src; returns (some r)
]
