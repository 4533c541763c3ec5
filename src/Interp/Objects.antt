-- ===== src/Interp/Objects.antt =====
-- vm/src/thread.rs, vm/src/value.rs: the instructions that make, fill and read objects of the heap.
use embed_lang.Prelude.{
  ℕ, suc, ◌-◌, ltb, ◌==◌, if◌then◌else◌, Option, none, some, length, get_elem?, replicate, List, [],
  ◌∷◌, ◌++◌, pos, checked_sub,
}
use embed_lang.Stack.Data.{StackFrame}
use embed_lang.Stack.Frames
use embed_lang.Interp.Data.{
  Value, int, tag, data_at, array_at, closure_at, DataStruct, Closure, Machine, Context,
  BytecodeFunction, out_of_memory, Exec, done, fails, ◌>>=◌, lift, need,
}

-- `DataStruct::record_bit()`, and the tag without it.
abbrev pub record_bit : ℕ
record_bit = 2147483648

abbrev pub plain_tag : ℕ → ℕ
plain_tag t = if ltb t record_bit then t else t - record_bit

-- The offset of a field in the map that the collector builds from the names: the last one counts.
unfoldable pub offset_of : ℕ → List ℕ → Option ℕ
offset_of field [] = none
offset_of field (n ∷ ns) = elim (offset_of field ns) [
  | some i ↦ some (suc i)
  | none ↦ if n == field then some 0 else none
]

module _ {Fl : Type 0} where
  abbrev with_stack : Context Fl → StackFrame (Value Fl) → Context Fl
  with_stack c s = record c { stack = s }

  -- `self.stack.pop_many(n); self.stack.push(v)`
  unfoldable pub replace_top : Context Fl → ℕ → Value Fl → Exec (Context Fl)
  unfolding Frames.pop_many Frames.push
  replace_top c n v = do
    s ← lift (Frames.pop_many c.stack n)
    done (record c { stack = Frames.push s v })

  -- `&self.stack[self.stack.len() - n..]`
  unfoldable pub top_slice : Context Fl → ℕ → Exec (List (Value Fl))
  unfolding Frames.len Frames.slice_from
  top_slice c n = do
    len ← lift (Frames.len c.stack)
    i ← lift (checked_sub len n)
    lift (Frames.slice_from c.stack i)

  -- `alloc` of a value with so many words: it fails if the collector finds no room.
  unfoldable pub alloc_data : Machine Fl → Context Fl → DataStruct Fl → Exec (Context Fl × Value Fl)
  alloc_data machine c d =
      if machine.has_room c.heap (length d.fields)
      then done (
        record c { heap = record c.heap { datas = c.heap.datas ++ d ∷ [] } },
        data_at (length c.heap.datas),
      )
      else fails out_of_memory

  unfoldable pub alloc_array :
      Machine Fl → Context Fl → List (Value Fl) → Exec (Context Fl × Value Fl)
  alloc_array machine c vs =
      if machine.has_room c.heap (length vs)
      then done (
        record c { heap = record c.heap { arrays = c.heap.arrays ++ vs ∷ [] } },
        array_at (length c.heap.arrays),
      )
      else fails out_of_memory

  unfoldable pub alloc_closure : Machine Fl → Context Fl → Closure Fl → Exec (Context Fl × Value Fl)
  alloc_closure machine c f =
      if machine.has_room c.heap (length f.upvars)
      then done (
        record c { heap = record c.heap { closures = c.heap.closures ++ f ∷ [] } },
        closure_at (length c.heap.closures),
      )
      else fails out_of_memory

  -- A data value, for the definitions `Def`, `VariantDef` and `RecordDef`.
  abbrev pub variant : ℕ → Option ℕ → List (Value Fl) → DataStruct Fl
  variant t poly vs = record { data_tag = t; poly_tag = poly; names = []; fields = vs }

  abbrev pub record_of : List ℕ → List (Value Fl) → DataStruct Fl
  record_of names vs = record { data_tag = record_bit; poly_tag = none; names = names; fields = vs }

  -- The fields of a value that is not yet filled.
  abbrev pub unfilled : ℕ → List (Value Fl)
  unfilled n = replicate n (int (pos 0))

  unfoldable pub construct_variant : Machine Fl → Context Fl → ℕ → ℕ → Exec (Context Fl)
  unfolding top_slice alloc_data replace_top
  construct_variant machine c t args = if args == 0 then replace_top c args (tag t) else (do
    vs ← top_slice c args
    (c', d) ← alloc_data machine c (variant t none vs)
    replace_top c' args d)

  unfoldable pub construct_poly_variant :
      Machine Fl → BytecodeFunction Fl → Context Fl → ℕ → ℕ → Exec (Context Fl)
  unfolding top_slice alloc_data replace_top
  construct_poly_variant machine function c t args = do
    name ← need (get_elem? function.strings t)
    vs ← top_slice c args
    (c', d) ← alloc_data machine c (variant 10000000 (some name) vs)
    replace_top c' args d

  unfoldable pub construct_record :
      Machine Fl → BytecodeFunction Fl → Context Fl → ℕ → ℕ → Exec (Context Fl)
  unfolding top_slice alloc_data replace_top
  construct_record machine function c r args = if args == 0 then replace_top c args (tag 0) else (do
    vs ← top_slice c args
    names ← need (get_elem? function.records r)
    (c', d) ← alloc_data machine c (record_of names vs)
    replace_top c' args d)

  unfoldable pub construct_array : Machine Fl → Context Fl → ℕ → Exec (Context Fl)
  unfolding top_slice alloc_array replace_top
  construct_array machine c args = do
    vs ← top_slice c args
    (c', d) ← alloc_array machine c vs
    replace_top c' args d

  abbrev pub push_value : Context Fl → Value Fl → Context Fl
  push_value c v = record c { stack = Frames.push c.stack v }

  unfoldable pub new_variant : Machine Fl → Context Fl → ℕ → ℕ → Exec (Context Fl)
  unfolding alloc_data
  new_variant machine c t args = if args == 0 then done (push_value c (tag t)) else (do
    (c', d) ← alloc_data machine c (variant t none (unfilled args))
    done (push_value c' d))

  unfoldable pub new_record :
      Machine Fl → BytecodeFunction Fl → Context Fl → ℕ → ℕ → Exec (Context Fl)
  unfolding alloc_data
  new_record machine function c r args = if args == 0 then done (push_value c (tag 0)) else (do
    names ← need (get_elem? function.records r)
    (c', d) ← alloc_data machine c (record_of names (unfilled args))
    done (push_value c' d))

  unfoldable pub make_closure :
      Machine Fl → BytecodeFunction Fl → Context Fl → ℕ → ℕ → Exec (Context Fl)
  unfolding top_slice alloc_closure replace_top
  make_closure machine function c function_index upvars = do
    vs ← top_slice c upvars
    f ← need (get_elem? function.inner_functions function_index)
    (c', d) ← alloc_closure machine c (record { function = f; upvars = vs })
    replace_top c' upvars d

  unfoldable pub new_closure :
      Machine Fl → BytecodeFunction Fl → Context Fl → ℕ → ℕ → Exec (Context Fl)
  unfolding alloc_closure
  new_closure machine function c function_index upvars = do
    f ← need (get_elem? function.inner_functions function_index)
    (c', d) ← alloc_closure machine c (record { function = f; upvars = unfilled upvars })
    done (push_value c' d)
