-- ===== src/SourceMap/Locals.antt =====
-- vm/src/source_map.rs: `LocalMap`, the instructions at which each local variable exists, in the
-- vector's order. A symbol is a number, and `T` the type of types.
use embed_lang.Prelude.{
  ℕ, ◌==◌, ◌&&◌, leb, ltb, if◌then◌else◌, Bool, List, [], ◌∷◌, ◌++◌, Option, none, some,
}

pub record Local (T : Type 0) : Type 0 where
  pub start : ℕ
  pub end : ℕ
  pub index : ℕ
  pub name : ℕ
  pub typ : T

pub record LocalMap (T : Type 0) : Type 0 where
  pub map : List (Local T)

module _ {T : Type 0} where
  abbrev pub new_locals : LocalMap T
  new_locals = record { map = [] }

  -- `LocalMap::emit`
  unfoldable pub emit_local : LocalMap T → ℕ → ℕ → ℕ → T → LocalMap T
  emit_local m instruction_index index name typ = record m {
    map =
        m.map
        ++ record {
          start = instruction_index;
          end = instruction_index;
          index = index;
          name = name;
          typ = typ;
        }
          ∷ [];
  }

  -- The last local that is open gets an end; `none` if no local is open.
  unfoldable pub close_last : ℕ → List (Local T) → Option (List (Local T))
  close_last i [] = none
  close_last i (l ∷ ls) = elim (close_last i ls) [
    | some ls' ↦ some (l ∷ ls')
    | none ↦ if l.start == l.end then some (record l { end = i } ∷ ls) else none
  ]

  -- `LocalMap::close`
  unfoldable pub close_local : LocalMap T → ℕ → LocalMap T
  unfolding close_last
  close_local m i = elim (close_last i m.map) [ none ↦ m | some ls ↦ record m { map = ls } ]

  abbrev pub in_range : ℕ → Local T → Bool
  in_range i l = leb l.start i && ltb i l.end

  -- `LocalMap::locals`, with `LocalIter::next` until the end.
  unfoldable pub locals_of : ℕ → List (Local T) → List (Local T)
  locals_of i [] = []
  locals_of i (l ∷ ls) = let rest = locals_of i ls in if in_range i l then l ∷ rest else rest

  unfoldable pub locals : LocalMap T → ℕ → List (Local T)
  unfolding locals_of
  locals m i = locals_of i m.map
