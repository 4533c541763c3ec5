-- ===== src/Bytecode/Tables.antt =====
-- vm/src/compiler.rs: the tables of a function, each of which holds a value once.

use embed_lang.Prelude.{
  ℕ, suc, ◌%◌, ◌==◌, ◌&&◌, Bool, true, false, if◌then◌else◌, List, [], ◌∷◌, ◌++◌, Option, none,
  some, length, u32_mod,
}
use mathlib.Core.Option
use embed_lang.Bytecode.Function.{FunctionEnv}

-- The position of the first element that passes a test.
unfoldable pub position {ℓ} : {A : Type ℓ} → (A → Bool) → List A → Option ℕ
position p [] = none
position p (x ∷ xs) = let i = position p xs in if p x then some 0 else Option.map suc i

-- A table that holds each value once: the index of `x`, which is pushed if no element passes the
-- test. The index is cut to 32 bits.
unfoldable pub intern {ℓ} : {A : Type ℓ} → (A → Bool) → A → List A → ℕ × List A
unfolding position
intern p x xs = elim (position p xs) [
  | some i ↦ (i % u32_mod, xs)
  | none ↦ (length xs % u32_mod, xs ++ x ∷ [])
]

-- Whether two lists of field names are the same.
abbrev pub same_fields : List ℕ → List ℕ → Bool
same_fields [] [] = true
same_fields [] (y ∷ ys) = false
same_fields (x ∷ xs) [] = false
same_fields (x ∷ xs) (y ∷ ys) = (x == y) && same_fields xs ys

module _ {Fl T G : Type 0} where
  unfoldable pub add_record_map : FunctionEnv Fl T G → List ℕ → FunctionEnv Fl T G × ℕ
  unfolding intern
  add_record_map env fields =
      let (i, records) = intern (same_fields fields) fields env.function.records in
      (record env { function = record env.function { records = records } }, i)

  unfoldable pub add_string_constant : FunctionEnv Fl T G → ℕ → FunctionEnv Fl T G × ℕ
  unfolding intern
  add_string_constant env s =
      let (i, strings) = intern (λ t. t == s) s env.function.strings in
      (record env { function = record env.function { strings = strings } }, i)

  -- Calls of `add_string_constant` one after the other, with the indexes that they give.
  unfoldable pub add_each : FunctionEnv Fl T G → List ℕ → FunctionEnv Fl T G × List ℕ
  unfolding add_string_constant
  add_each env [] = (env, [])
  add_each env (s ∷ ss) =
      let (env', i) = add_string_constant env s in let (end, is) = add_each env' ss in (end, i ∷ is)

  unfoldable pub upvar : FunctionEnv Fl T G → ℕ → T → FunctionEnv Fl T G × ℕ
  unfolding intern
  upvar env s typ =
      let (i, vars) = intern (λ v. v.0 == s) (s, typ) env.free_vars in
      (record env { free_vars = vars }, i)
