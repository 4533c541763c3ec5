-- ===== src/Bytecode/LineTable.antt =====
-- vm/src/compiler.rs, vm/src/source_map.rs: the lines in the source map of a compiled function.
use embed_lang.Prelude.{
  ℕ, ◌+◌, ◌≤◌, ◌<◌, ◌≡◌, refl, sym, ap, subst, ◌∙◌, zero, suc, arith, List, [], ◌∷◌, ◌++◌, map,
  append-nil, append_assoc, returns, bind_returns, returns_injective, inl, inr, Bool, true,
  Bool-cases, if◌then◌else◌, ltb, ltb→lt, length, length-append, length-map, get_elem?, Option,
  none, some,
}
use embed_lang.SourceMap
use embed_lang.SourceMap.{SourceMap, Entry, line, close}
use embed_lang.SourceMap.Lines.{emit_all, line_at, Ascending, line-emit_all}
use embed_lang.Bytecode.Instructions.{Instruction, return}
use embed_lang.Bytecode.Function.{FunctionEnv, DebugInfo, new, new_function}
use embed_lang.Bytecode.Emitter.{emit, emit_at, is_empty_slide, end_function}
use embed_lang.Bytecode.Emissions.{Appends, emit-Appends, emit-skipped}

-- Lines at consecutive indexes.
abbrev indexed : ℕ → List ℕ → List Entry
indexed n [] = []
indexed n (l ∷ ls) = (n, l) ∷ indexed (suc n) ls

-- The element at an index, or the last one before the end.
abbrev clamped : ℕ → Option ℕ → List ℕ → Option ℕ
clamped k prev [] = prev
clamped zero prev (l ∷ ls) = some l
clamped (suc k) prev (l ∷ ls) = clamped k (some l) ls

abbrev pub final_line : ℕ → List ℕ → ℕ
final_line l [] = l
final_line l (k ∷ ks) = final_line k ks

line_at-before :
    (i n : ℕ) (prev : Option ℕ) (ls : List ℕ) → i < n → line_at i prev (indexed n ls) ≡ prev
line_at-before i n prev [] h = refl
line_at-before i n prev (l ∷ ls) h = ground arith

line_at-indexed :
    (i k n : ℕ) (prev : Option ℕ) (ls : List ℕ)
    → i ≡ n + k
    → line_at i prev (indexed n ls) ≡ clamped k prev ls
line_at-indexed i k n prev [] e = refl
line_at-indexed i zero n prev (l ∷ ls) e =
    ground (arith, line_at-before i (suc n) (some l) ls (omega arith))
line_at-indexed i (suc k) n prev (l ∷ ls) e =
    ground (arith, line_at-indexed i k (suc n) (some l) ls (omega arith))

clamped-get_elem? :
    (k l : ℕ) (ls : List ℕ)
    → k ≤ length ls
    → clamped k (some l) ls ≡ get_elem? (ls ++ final_line l ls ∷ []) k
clamped-get_elem? zero l [] h = refl
clamped-get_elem? (suc k) l [] h = absurd (omega arith)
clamped-get_elem? zero l (m ∷ ls) h = refl
clamped-get_elem? (suc k) l (m ∷ ls) h = clamped-get_elem? k m ls (omega arith)

clamped-front :
    (i l : ℕ) (ls : List ℕ)
    → i < length ls + 2
    → clamped i none (l ∷ ls) ≡ get_elem? (l ∷ ls ++ final_line l ls ∷ []) i
clamped-front zero l ls h = refl
clamped-front (suc k) l ls h = clamped-get_elem? k l ls (omega arith)

Ascending-indexed :
    (lo n : ℕ) (ls : List ℕ) (hi : ℕ) → lo ≤ n → n + length ls ≤ hi → Ascending lo (indexed n ls) hi
Ascending-indexed lo n [] hi h k = omega arith
Ascending-indexed lo n (l ∷ ls) hi h k =
    (h, Ascending-indexed n (suc n) ls hi (omega arith) (omega arith))

get_elem?-end : (ls : List ℕ) (k : ℕ) → length ls ≤ k → get_elem? ls k ≡ none
get_elem?-end [] k h = refl
get_elem?-end (l ∷ ls) zero h = absurd (omega arith)
get_elem?-end (l ∷ ls) (suc k) h = get_elem?-end ls k (omega arith)

-- The line of an index in the map of a function with these lines, closed behind one more index.
line-indexed :
    (i l : ℕ) (ls : List ℕ) (last : Option ℕ)
    → line (close (emit_all SourceMap.new (indexed 0 (l ∷ ls))) (length ls + 2) last) i
      ≡ get_elem? (l ∷ ls ++ final_line l ls ∷ []) i
line-indexed i l ls last =
    line-emit_all i 0 (0, l) (indexed 1 ls) (length ls + 2) last
      (Ascending-indexed 0 0 (l ∷ ls) (length ls + 2) (omega arith) (omega arith))
    ∙ elim (Bool-cases (ltb i (length ls + 2))) [
      | inl h ↦
          ap (λ b. if b then line_at i none (indexed 0 (l ∷ ls)) else none) h
          ∙ line_at-indexed i i 0 none (l ∷ ls) (omega arith)
          ∙ clamped-front i l ls (ltb→lt i (length ls + 2) h)
      | inr h ↦
          ap (λ b. if b then line_at i none (indexed 0 (l ∷ ls)) else none) h
          ∙ sym (
              get_elem?-end (l ∷ ls ++ final_line l ls ∷ []) i
                (ground (arith, length-append ls (final_line l ls ∷ []))))
    ]

-- The instructions that `emit` keeps, with their lines.
abbrev pub kept : {Fl : Type 0} → List (ℕ × Instruction Fl) → List (ℕ × Instruction Fl)
kept [] = []
kept ((l, i) ∷ is) = if is_empty_slide i then kept is else (l, i) ∷ kept is

abbrev pub lines : {Fl : Type 0} → List (ℕ × Instruction Fl) → List ℕ
lines is = map (λ x. x.0) is

abbrev pub code : {Fl : Type 0} → List (ℕ × Instruction Fl) → List (Instruction Fl)
code is = map (λ x. x.1) is

chosen_map :
    {T : Type 0} (b : Bool) (x y : DebugInfo T)
    → b ≡ true
    → (if b then x else y).source_map ≡ x.source_map
chosen_map b x y h = ap (λ b. (if b then x else y).source_map) h

module _ {Fl T G : Type 0} where
  -- An env whose instructions and source map are those given, with more instructions behind them.
  record Extends (is : List (Instruction Fl)) (m : SourceMap) (more : List (ℕ × Instruction Fl))
      (env : FunctionEnv Fl T G) : Type 0 where
    code_eq : env.function.instructions ≡ is ++ code more
    map_eq : env.function.debug_info.source_map ≡ emit_all m (indexed (length is) (lines more))
    debug : env.emit_debug_info ≡ true

  abbrev Follows : FunctionEnv Fl T G → List (ℕ × Instruction Fl) → FunctionEnv Fl T G → Type 0
  Follows env = Extends env.function.instructions env.function.debug_info.source_map

  Follows-refl : (env : FunctionEnv Fl T G) → env.emit_debug_info ≡ true → Follows env [] env
  unfolding emit_all
  Follows-refl env d = record {
    code_eq = sym (append-nil env.function.instructions);
    map_eq = refl;
    debug = d;
  }

  Follows-cons :
      (env mid env' : FunctionEnv Fl T G) (i : Instruction Fl) (more : List (ℕ × Instruction Fl))
      → Appends env mid i
      → Follows mid more env'
      → Follows env ((env.current_line, i) ∷ more) env'
  unfolding emit_all
  Follows-cons env mid env' i more a x = record {
    code_eq =
        x.code_eq
        ∙ ap (λ is. is ++ code more) a.appended
        ∙ append_assoc env.function.instructions (i ∷ []) (code more);
    map_eq = x.map_eq ∙ (λ j. emit_all (a.recorded j) (indexed (next_index j) (lines more)));
    debug = x.debug;
  }
    where
      next_index : length mid.function.instructions ≡ suc (length env.function.instructions)
      next_index =
          ap length a.appended ∙ omega (arith, length-append env.function.instructions (i ∷ []))

  emit_at-Follows :
      (env env' : FunctionEnv Fl T G) (is : List (ℕ × Instruction Fl))
      → env.emit_debug_info ≡ true
      → emit_at env is ≡ returns env'
      → Follows env (kept is) env'
  unfolding emit_at
  emit_at-Follows env env' [] d e =
      subst (λ x. Follows env [] x) (returns_injective e) (Follows-refl env d)
  emit_at-Follows env env' ((l, i) ∷ is) d e =
      let now : FunctionEnv Fl T G = record env { current_line = l } in
      let (mid, p, q) = bind_returns (emit now i) _ e in
      elim (Bool-cases (is_empty_slide i)) [
        | inl s ↦
            subst (λ b. Follows env (if b then kept is else (l, i) ∷ kept is) env') (sym s)
              (let same : now ≡ mid = returns_injective (sym (emit-skipped now i s) ∙ p) in
                emit_at-Follows now env' is d
                  (subst (λ x. emit_at x is ≡ returns env') (sym same) q))
        | inr s ↦
            subst (λ b. Follows env (if b then kept is else (l, i) ∷ kept is) env') (sym s)
              (let a = emit-Appends now mid i d s p in
                Follows-cons now mid env' i (kept is) a (emit_at-Follows mid env' is a.debug q))
      ]

  closed_line :
      (declared_name : ℕ → ℕ) (outermost : Bool) (last : Option ℕ) (env : FunctionEnv Fl T G)
      (index : ℕ)
      → env.emit_debug_info ≡ true
      → line (end_function declared_name outermost last env).function.debug_info.source_map index
        ≡ line
            (close env.function.debug_info.source_map
              (length (env.function.instructions ++ return ∷ []))
              last)
            index
  unfolding end_function
  closed_line declared_name outermost last env index d =
      ap (λ m. line m index) (chosen_map env.emit_debug_info _ env.function.debug_info d)

  -- If a function is begun with debug information and instructions are emitted, the first of those
  -- that are kept at the line `l`, and the function is ended, then it consists of these instructions
  -- and a return. In its source map the line of each instruction is the one that it was emitted at,
  -- the line of the return is that of the last instruction before it, and no index behind has a line.
  pub line-emit_at :
      (args id source_name : ℕ) (typ : T) (is : List (ℕ × Instruction Fl))
      (env : FunctionEnv Fl T G)
      → (l : ℕ) (i : Instruction Fl) (more : List (ℕ × Instruction Fl)) → kept is ≡ (l, i) ∷ more
      → emit_at (new args id typ source_name true) is ≡ returns env
      → (declared_name : ℕ → ℕ) (outermost : Bool) (last : Option ℕ) (index : ℕ)
      → ((end_function declared_name outermost last env).function.instructions
          ≡ code (kept is) ++ return ∷ [])
        × (line (end_function declared_name outermost last env).function.debug_info.source_map index
            ≡ get_elem? (lines (kept is) ++ final_line l (lines more) ∷ []) index)
  unfolding end_function new new_function
  line-emit_at args id source_name typ is env l i more k e declared_name outermost last index =
      let f = emit_at-Follows (new args id typ source_name true) env is refl e in
      let ended : List (Instruction Fl) = env.function.instructions ++ return ∷ [] in
      let count : length ended ≡ length (lines more) + 2 =
        ap length (ap (λ c. c ++ return ∷ []) (f.code_eq ∙ ap code k))
        ∙ omega (
          arith,
          length-append (code ((l, i) ∷ more)) (return ∷ []),
          length-map more (λ x. x.1),
          length-map more (λ x. x.0),
        ) in
      (
        ap (λ c. c ++ return ∷ []) f.code_eq,
        closed_line declared_name outermost last env index f.debug
            ∙ (λ j. line (close (f.map_eq j) (count j) last) index)
            ∙ ap
                (λ ks.
                  line
                    (close (emit_all SourceMap.new (indexed 0 (lines ks))) (length (lines more) + 2)
                      last)
                    index)
                k
            ∙ line-indexed index l (lines more) last
            ∙ ap (λ ks. get_elem? (lines ks ++ final_line l (lines more) ∷ []) index) (sym k),
      )
