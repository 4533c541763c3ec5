-- ===== src/Interp/Access.antt =====
-- vm/src/thread.rs: the instructions that fill an object, and those that read one.
use embed_lang.Prelude.{
  ℕ, zero, ◌%◌, Bool, true, false, ◌==◌, if◌then◌else◌, length, get_elem?, set, List, [], ◌∷◌,
  checked_sub, checked_add, u32_mod,
}
use embed_lang.Stack.Ops
use embed_lang.Stack.Frames
use embed_lang.Interp.Data.{
  Value, tag, data_at, closure_at, DataStruct, Closure, Heap, Context, BytecodeFunction,
  get_offset_on, get_field_on, test_tag_on, split_on, Exec, done, fails, aborts, ◌>>=◌, lift, need,
}
use embed_lang.Interp.Objects.{offset_of, plain_tag, push_value}

-- What the instructions tell apart in a value: a data value, the tag of a variant without
-- arguments, or something else.
pub data Shape (Fl : Type 0) : Type 0 where
  data_shape : ℕ → DataStruct Fl → Shape Fl
  tag_shape : ℕ → Shape Fl
  other_shape : Shape Fl

module _ {Fl : Type 0} where
  -- `get_repr()`: a pointer is read in the heap.
  abbrev pub shape_of : Heap Fl → Value Fl → Exec (Shape Fl)
  shape_of heap (data_at p) = do d ← need (get_elem? heap.datas p); done (data_shape p d)
  shape_of heap (tag t) = done (tag_shape t)
  shape_of heap v = done other_shape

  -- The closure that a value points to; a panic for another value.
  abbrev pub closure_of : Heap Fl → Value Fl → Exec (ℕ × Closure Fl)
  closure_of heap (closure_at p) = do f ← need (get_elem? heap.closures p); done (p, f)
  closure_of heap v = aborts

  -- `pop_many` of a length that is cut to 32 bits.
  unfoldable pub pop_values : Context Fl → ℕ → Exec (Context Fl)
  unfolding Frames.pop_many
  pop_values c n = do s ← lift (Frames.pop_many c.stack n); done (record c { stack = s })

  -- `iter_mut().zip(slice)` with the assignment: the values that the slice has replace those there.
  unfoldable pub fill : List (Value Fl) → List (Value Fl) → List (Value Fl)
  fill [] vs = []
  fill (x ∷ xs) [] = x ∷ xs
  fill (x ∷ xs) (v ∷ vs) = v ∷ fill xs vs

  -- The fields' count, and the values that many places below the top.
  unfoldable pub values_for : Context Fl → List (Value Fl) → Exec (ℕ × List (Value Fl))
  unfolding Frames.len Frames.slice_from
  values_for c xs = do
    let count = length xs % u32_mod
    n ← lift (Frames.len c.stack)
    start ← lift (checked_sub n count)
    vs ← lift (Frames.slice_from c.stack start)
    done (count, vs)

  abbrev with_data : Context Fl → ℕ → DataStruct Fl → Context Fl
  with_data c p d = record c { heap = record c.heap { datas = set c.heap.datas p d } }

  abbrev with_closure : Context Fl → ℕ → Closure Fl → Context Fl
  with_closure c p f = record c { heap = record c.heap { closures = set c.heap.closures p f } }

  unfoldable pub close_data : Context Fl → ℕ → Exec (Context Fl)
  unfolding Frames.index values_for fill pop_values
  close_data c index = do
    v ← lift (Frames.index c.stack index)
    shape ← shape_of c.heap v
    elim shape [
      | data_shape p d ↦ do
        (count, vs) ← values_for c d.fields
        pop_values (with_data c p (record d { fields = fill d.fields vs })) count
      | tag_shape t ↦ aborts
      | other_shape ↦ aborts
    ]

  unfoldable pub close_closure : Context Fl → ℕ → Exec (Context Fl)
  unfolding Frames.len Frames.index values_for fill pop_values
  close_closure c n = do
    len ← lift (Frames.len c.stack)
    below ← lift (checked_sub len n)
    i ← lift (checked_sub below 1)
    v ← lift (Frames.index c.stack i)
    (p, f) ← closure_of c.heap v
    (count, vs) ← values_for c f.upvars
    all ← lift (checked_add count 1)
    pop_values (with_closure c p (record f { upvars = fill f.upvars vs })) all

  unfoldable pub get_offset : Context Fl → ℕ → Exec (Context Fl)
  unfolding Frames.pop
  get_offset c i = do
    (s, v) ← lift (Frames.pop c.stack)
    shape ← shape_of c.heap v
    elim shape [
      | data_shape p d ↦ do
        x ← need (get_elem? d.fields i)
        done (push_value (record c { stack = s }) x)
      | tag_shape t ↦ fails get_offset_on
      | other_shape ↦ fails get_offset_on
    ]

  unfoldable pub get_field : BytecodeFunction Fl → Context Fl → ℕ → Exec (Context Fl)
  unfolding Frames.pop offset_of
  get_field function c i = do
    field ← need (get_elem? function.strings i)
    (s, v) ← lift (Frames.pop c.stack)
    shape ← shape_of c.heap v
    elim shape [
      | data_shape p d ↦ do
        offset ← need (offset_of field d.names)
        x ← need (get_elem? d.fields offset)
        done (push_value (record c { stack = s }) x)
      | tag_shape t ↦ fails get_field_on
      | other_shape ↦ fails get_field_on
    ]

  -- `Tag(1)` or `Tag(0)`
  abbrev pub tag_of : Bool → Value Fl
  tag_of b = if b then tag 1 else tag 0

  unfoldable pub test_tag : Context Fl → ℕ → Exec (Context Fl)
  unfolding Frames.top
  test_tag c t = do
    v ← lift (Frames.top c.stack)
    shape ← shape_of c.heap v
    elim shape [
      | data_shape p d ↦ done (push_value c (tag_of (plain_tag d.data_tag == t)))
      | tag_shape u ↦ done (push_value c (tag_of (u == t)))
      | other_shape ↦ fails test_tag_on
    ]

  -- A variant that is not polymorphic fails the debug assertion.
  unfoldable pub test_poly_tag : BytecodeFunction Fl → Context Fl → ℕ → Exec (Context Fl)
  unfolding Frames.top
  test_poly_tag function c i = do
    expected ← need (get_elem? function.strings i)
    v ← lift (Frames.top c.stack)
    shape ← shape_of c.heap v
    elim shape [
      | data_shape p d ↦ do
        found ← need d.poly_tag
        done (push_value c (tag_of (found == expected)))
      | tag_shape u ↦ fails test_tag_on
      | other_shape ↦ fails test_tag_on
    ]

  -- `extend`
  abbrev pub extend : Context Fl → List (Value Fl) → Context Fl
  extend c vs = record c { stack = record c.stack { stack = Ops.push_all c.stack.stack vs } }

  unfoldable pub split : Context Fl → Exec (Context Fl)
  unfolding Frames.pop
  split c = do
    (s, v) ← lift (Frames.pop c.stack)
    shape ← shape_of c.heap v
    elim shape [
      | data_shape p d ↦ done (extend (record c { stack = s }) d.fields)
      | tag_shape t ↦ done (record c { stack = s })
      | other_shape ↦ fails split_on
    ]

  abbrev pub is_true : Value Fl → Bool
  is_true (tag zero) = false
  is_true v = true

  -- Whether the value that is popped is not `Tag(0)`.
  unfoldable pub pop_condition : Context Fl → Exec (Context Fl × Bool)
  unfolding Frames.pop
  pop_condition c = do (s, v) ← lift (Frames.pop c.stack); done (record c { stack = s }, is_true v)
