-- ===== src/Infix/Table.antt =====
-- parser/src/infix.rs: fixities, and the table of operators with the built-in ones. A name is a list
-- of code points; `is_alphanumeric` is the test of Rust's `char`.
use embed_lang.Prelude.{
  ℕ, ◌==◌, Bool, true, false, ◌&&◌, ◌||◌, if◌then◌else◌, List, [], ◌∷◌, Option, none, some,
}

pub data Fixity : Type 0 where
  left right : Fixity

pub record OpMeta : Type 0 where
  pub precedence : ℕ
  pub fixity : Fixity

abbrev pub Name : Type 0
Name = List ℕ

abbrev pub OpTable : Type 0
OpTable = List (Name × OpMeta)

unfoldable pub name_eq : Name → Name → Bool
name_eq [] [] = true
name_eq (c ∷ cs) (d ∷ ds) = (c == d) && name_eq cs ds
name_eq cs ds = false

unfoldable pub find : OpTable → Name → Option OpMeta
unfolding name_eq
find [] name = none
find ((n, meta) ∷ ops) name = if name_eq n name then some meta else find ops name

abbrev left_op : ℕ → OpMeta
left_op n = record { precedence = n; fixity = left }

abbrev right_op : ℕ → OpMeta
right_op n = record { precedence = n; fixity = right }

-- `OPS`: `* / + - == /= < > <= >= && ||`
builtin : OpTable
builtin =
    (b'*' ∷ [], left_op 7)
    ∷ (b'/' ∷ [], left_op 7)
    ∷ (b'+' ∷ [], left_op 6)
    ∷ (b'-' ∷ [], left_op 6)
    ∷ (b'=' ∷ b'=' ∷ [], left_op 4)
    ∷ (b'/' ∷ b'=' ∷ [], left_op 4)
    ∷ (b'<' ∷ [], left_op 4)
    ∷ (b'>' ∷ [], left_op 4)
    ∷ (b'<' ∷ b'=' ∷ [], left_op 4)
    ∷ (b'>' ∷ b'=' ∷ [], left_op 4)
    ∷ (b'&' ∷ b'&' ∷ [], right_op 3)
    ∷ (b'|' ∷ b'|' ∷ [], right_op 2)
    ∷ []

-- `name.trim_start_matches(p)`
trim_start : (ℕ → Bool) → Name → Name
trim_start p [] = []
trim_start p (c ∷ cs) = let rest = trim_start p cs in if p c then rest else c ∷ cs

-- Whether the built-in operators are searched: for a `#` in front, and for `&&` and `||`.
is_primitive : Name → Bool
unfolding name_eq
is_primitive [] = false
is_primitive (c ∷ cs) =
    (c == b'#') || name_eq (c ∷ cs) (b'&' ∷ b'&' ∷ []) || name_eq (c ∷ cs) (b'|' ∷ b'|' ∷ [])

-- `OpTable::get`
unfoldable pub get : (ℕ → Bool) → OpTable → Name → Option OpMeta
unfolding find builtin trim_start is_primitive
get is_alphanumeric table name = elim (find table name) [
  | some meta ↦ some meta
  | none ↦
      if is_primitive name
      then find builtin (trim_start is_alphanumeric (trim_start (λ c. c == b'#') name))
      else none
]
