-- ===== src/SourceMap.antt =====
-- vm/src/source_map.rs: `SourceMap`, the line of each instruction of a compiled function. The vector
-- has the index of the first instruction for each line. A `Line` is its number.
use embed_lang.Prelude.{
  ℕ, zero, suc, ◌-◌, ◌≤◌, ◌<◌, ◌≡◌, ◌==◌, ◌||◌, ◌&&◌, leb, ltb, if◌then◌else◌, Bool, true, false,
  List, [], ◌∷◌, ◌++◌, Option, none, some, length, get_elem?,
}
pub mod Lines
pub mod Locals
pub mod Ranges
mod Tests

abbrev pub Entry : Type 0
Entry = ℕ × ℕ

pub record SourceMap : Type 0 where
  pub map : List Entry

abbrev pub new : SourceMap
new = record { map = [] }

-- `self.map.last()`
abbrev pub last : List Entry → Option Entry
last [] = none
last (e ∷ []) = some e
last (e ∷ f ∷ es) = last (f ∷ es)

abbrev pub last_line : List Entry → Option ℕ
last_line es = elim (last es) [ none ↦ none | some (i, l) ↦ some l ]

-- `last_emitted_line != Some(current_line)`, negated.
abbrev pub is_line : Option ℕ → ℕ → Bool
is_line none l = false
is_line (some k) l = k == l

unfoldable pub emit : SourceMap → ℕ → ℕ → SourceMap
emit m i l = if is_line (last_line m.map) l then m else record m { map = m.map ++ (i, l) ∷ [] }

abbrev pub or_else : Option ℕ → Option ℕ → Option ℕ
or_else (some l) _ = some l
or_else none o = o

abbrev pub close_with : SourceMap → ℕ → Option ℕ → SourceMap
close_with m i none = m
close_with m i (some l) = record m { map = m.map ++ (i, l) ∷ [] }

unfoldable pub close : SourceMap → ℕ → Option ℕ → SourceMap
close m i l = close_with m i (or_else l (last_line m.map))

-- The position of the first entry that is behind the instruction, or the length.
unfoldable pub position : ℕ → List Entry → ℕ
position i [] = 0
position i ((j, l) ∷ es) = let p = position i es in if ltb i j then 0 else suc p

-- Whether the instruction is at or behind the last entry.
abbrev pub past_last : ℕ → List Entry → Bool
past_last i es = elim (last es) [ none ↦ false | some (j, l) ↦ leb j i ]

abbrev pub line_of : Option Entry → Option ℕ
line_of none = none
line_of (some (j, l)) = some l

-- The entry in front of that position; `expect` is not reached on an empty map, where the position
-- is 0.
unfoldable pub line : SourceMap → ℕ → Option ℕ
unfolding position
line m i =
    let p = position i m.map in
    if (p == 0) || ((p == length m.map) && past_last i m.map)
    then none
    else line_of (get_elem? m.map (p - 1))
