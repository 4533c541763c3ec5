-- ===== src/CodeMap.antt =====
-- base/src/source.rs, base/src/pos.rs: the files of a program, each at a range of positions.
-- A position is a number, and a text is its bytes. Positions of more than 32 bits are not modelled.
use embed_lang.Prelude.{
  ℕ, zero, suc, ◌+◌, ◌-◌, ◌/◌, ltb, leb, ◌==◌, ◌&&◌, ◌||◌, if◌then◌else◌, Bool, true, false, List,
  [], ◌∷◌, ◌++◌, Option, none, some, length, get_elem?, set, take, drop, Outcome, returns, panics,
  ◌>>=◌, checked_sub, unwrap,
}
pub mod Order
pub mod Search
pub mod Locate
pub mod Update
pub mod Puts
pub mod Placing
pub mod Updating
mod Tests

-- `FileMap`, less the index of lines that `SimpleFile` keeps.
pub record FileMap : Type 0 where
  pub name : ℕ
  pub source : List ℕ
  pub span_start : ℕ

-- The end of `FileMap::span`
abbrev pub span_end : FileMap → ℕ
span_end f = f.span_start + length f.source

-- What `cmp` and `containment` return.
pub data Ordering : Type 0 where
  less equal greater : Ordering

abbrev pub cmp : ℕ → ℕ → Ordering
cmp a b = if ltb a b then less else if a == b then equal else greater

-- The match of `Span::containment`, in its order.
abbrev pub contained : Ordering → Ordering → Ordering
contained equal b = equal
contained less equal = equal
contained less less = less
contained less greater = less
contained greater equal = equal
contained greater less = equal
contained greater greater = greater

abbrev pub containment : ℕ → ℕ → ℕ → Ordering
containment start end pos = contained (cmp pos start) (cmp pos end)

abbrev pub is_equal : Ordering → Bool
is_equal equal = true
is_equal o = false

unfoldable pub file_to_usize : FileMap → ℕ → Option ℕ
file_to_usize f pos =
    if is_equal (containment f.span_start (span_end f) pos) then some (pos - f.span_start) else none

abbrev pub CodeMap : Type 0
CodeMap = List FileMap

abbrev pub last : CodeMap → Option FileMap
last [] = none
last (f ∷ []) = some f
last (f ∷ g ∷ fs) = last (g ∷ fs)

abbrev pub last_end : CodeMap → ℕ
last_end fs = elim (last fs) [ none ↦ 0 | some f ↦ span_end f ]

-- The map with the new file behind the others, and the file.
unfoldable pub add_filemap : CodeMap → ℕ → List ℕ → CodeMap × FileMap
add_filemap fs name source =
    let f : FileMap = record { name = name; source = source; span_start = last_end fs + 1 } in
    (fs ++ f ∷ [], f)

-- The comparison of `find_index`.
abbrev pub compare_file : FileMap → ℕ → Ordering
compare_file f pos =
    if ltb pos f.span_start then greater else if ltb (span_end f) pos then less else equal

abbrev pub branch : Ordering → ℕ → Option ℕ → Option ℕ → Option ℕ
branch less mid above below = above
branch equal mid above below = some mid
branch greater mid above below = below

-- `binary_search_by` between two indexes, with a round of fuel for each index between them.
unfoldable pub search : ℕ → CodeMap → ℕ → ℕ → ℕ → Option ℕ
search zero fs left right pos = none
search (suc fuel) fs left right pos =
    let mid = left + (right - left) / 2 in
    let above = search fuel fs (suc mid) right pos in
    let below = search fuel fs left mid pos in
    if ltb left right
    then elim (get_elem? fs mid) [
      | none ↦ none
      | some f ↦ branch (compare_file f pos) mid above below
    ]
    else none

unfoldable pub find_index : CodeMap → ℕ → Option ℕ
unfolding search
find_index fs pos = search (length fs) fs 0 (length fs) pos

unfoldable pub get : CodeMap → ℕ → Option FileMap
unfolding find_index
get fs pos = elim (find_index fs pos) [ none ↦ none | some i ↦ get_elem? fs i ]

unfoldable pub to_usize : CodeMap → ℕ → Option ℕ
unfolding get file_to_usize
to_usize fs pos = elim (get fs pos) [ none ↦ none | some f ↦ file_to_usize f pos ]

-- `find_file`
unfoldable pub find_file : CodeMap → ℕ → Option FileMap
find_file [] name = none
find_file (f ∷ fs) name = let rest = find_file fs name in if f.name == name then some f else rest
