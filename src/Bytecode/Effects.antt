-- ===== src/Bytecode/Effects.antt =====
-- The effect of an instruction on the size of the stack, as the compiler counts it, in values taken
-- and values given, and the sizes along a list of instructions.
use Prim.Native.Nat.{max}
use embed_lang.Prelude.{
  ℕ, ◌+◌, ◌-◌, ◌<◌, ◌≡◌, refl, ap, ◌∙◌, leb, ltb, Bool, true, ◌&&◌, zero, suc, arith, List, [], ◌∷◌,
  returns, pos, sub_ℕ, u32_mod, as_i32, checked_neg, one_minus,
}
use embed_lang.Bytecode.Instructions.{
  Instruction, adjust, push_int, push_byte, push_float, push_string, push_up_var, push, call,
  tail_call, construct_variant, construct_poly_variant, new_variant, new_record, close_data,
  construct_record, construct_array, get_offset, get_field, test_tag, test_poly_tag, jump, pop,
  slide, make_closure, new_closure, return,
}

-- What an instruction leaves alone, puts on the stack, takes off it, or takes off to put one value.
pub data Kind : Type 0 where
  keeping pushing dropping joining : Kind

abbrev pub given : Kind → ℕ
given keeping = 0
given pushing = 1
given dropping = 0
given joining = 1

as_i32-small : (n : ℕ) → n < 2147483648 → as_i32 n ≡ pos n
as_i32-small n h = ground arith

checked_neg-pos : (n : ℕ) → n < 2147483648 → checked_neg (pos n) ≡ returns (sub_ℕ 0 n)
checked_neg-pos zero h = refl
checked_neg-pos (suc n) h = ground arith

one_minus-pos : (n : ℕ) → n < 2147483648 → one_minus (pos n) ≡ returns (sub_ℕ 1 n)
one_minus-pos zero h = refl
one_minus-pos (suc zero) h = refl
one_minus-pos (suc (suc n)) h = ground arith

checked_neg-as_i32 : (n : ℕ) → n < 2147483648 → checked_neg (as_i32 n) ≡ returns (sub_ℕ 0 n)
checked_neg-as_i32 n h = ap checked_neg (as_i32-small n h) ∙ checked_neg-pos n h

one_minus-as_i32 : (n : ℕ) → n < 2147483648 → one_minus (as_i32 n) ≡ returns (sub_ℕ 1 n)
one_minus-as_i32 n h = ap one_minus (as_i32-small n h) ∙ one_minus-pos n h

abbrev pub largest : ℕ → List ℕ → ℕ
largest m [] = m
largest m (n ∷ ns) = largest (max m n) ns

module _ {Fl : Type 0} where
  -- The kind of an instruction, with the number of values that it takes.
  abbrev pub shape : Instruction Fl → Kind × ℕ
  shape (push_int i) = (pushing, 0)
  shape (push_byte b) = (pushing, 0)
  shape (push_float f) = (pushing, 0)
  shape (push_string i) = (pushing, 0)
  shape (push_up_var i) = (pushing, 0)
  shape (push i) = (pushing, 0)
  shape (new_variant tag args) = (pushing, 0)
  shape (new_record r args) = (pushing, 0)
  shape (test_tag tag) = (pushing, 0)
  shape (test_poly_tag i) = (pushing, 0)
  shape (make_closure function_index upvars) = (pushing, 0)
  shape (new_closure function_index upvars) = (pushing, 0)
  shape (close_data index) = (keeping, 0)
  shape (get_offset i) = (keeping, 0)
  shape (get_field i) = (keeping, 0)
  shape (jump i) = (keeping, 0)
  shape return = (keeping, 0)
  shape (construct_variant tag args) = (joining, args)
  shape (construct_poly_variant tag args) = (joining, args)
  shape (construct_record r args) = (joining, args)
  shape (construct_array args) = (joining, args)
  shape (call n) = (dropping, n)
  shape (tail_call n) = (dropping, n)
  shape (pop n) = (dropping, n)
  shape (slide n) = (dropping, n)
  shape i = (dropping, 1)

  abbrev pub takes : Instruction Fl → ℕ
  takes i = (shape i).1

  abbrev pub gives : Instruction Fl → ℕ
  gives i = given (shape i).0

  -- An instruction whose operand is a signed integer of 32 bits.
  abbrev pub IsSmall : Instruction Fl → Type 0
  IsSmall i = takes i < 2147483648

  -- The size that an instruction leaves, and whether it is in range.
  abbrev pub next_size : ℕ → Instruction Fl → ℕ
  next_size size i = size + gives i - takes i

  abbrev pub in_range : ℕ → Instruction Fl → Bool
  in_range size i = leb (takes i) (size + gives i) && ltb (next_size size i) u32_mod

  -- The same for a list of instructions: every size on the way, the last and the largest.
  abbrev pub sizes : ℕ → List (Instruction Fl) → List ℕ
  sizes size [] = []
  sizes size (i ∷ is) = next_size size i ∷ sizes (next_size size i) is

  abbrev pub all_in_range : ℕ → List (Instruction Fl) → Bool
  all_in_range size [] = true
  all_in_range size (i ∷ is) = in_range size i && all_in_range (next_size size i) is

  abbrev pub AllSmall : List (Instruction Fl) → Type 0
  AllSmall [] = Unit
  AllSmall (i ∷ is) = IsSmall i × AllSmall is

  abbrev pub last_size : ℕ → List (Instruction Fl) → ℕ
  last_size size [] = size
  last_size size (i ∷ is) = last_size (next_size size i) is

  pub adjust-effect :
      (i : Instruction Fl) → IsSmall i → adjust i ≡ returns (sub_ℕ (gives i) (takes i))
  unfolding adjust
  adjust-effect i h = grind (arith, checked_neg-as_i32, one_minus-as_i32)
