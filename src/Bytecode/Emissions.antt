-- ===== src/Bytecode/Emissions.antt =====
-- vm/src/compiler.rs: what `emit` appends to the instructions and to the source map.
use embed_lang.Prelude.{
  ◌-◌, ◌≡◌, sym, ap, ◌∙◌, arith, [], ◌∷◌, ◌++◌, returns, ◌>>=◌, true, false, if◌then◌else◌, length,
  length-append, ℤ, subst, bind_returns, returns_injective,
}
use embed_lang.SourceMap
use embed_lang.SourceMap.{SourceMap, Entry}
use embed_lang.Bytecode.Instructions.{Instruction, adjust}
use embed_lang.Bytecode.Function.{FunctionEnv}
use embed_lang.Bytecode.Emitter.{emit, resize, append, increase_stack, is_empty_slide}

module _ {Fl T G : Type 0} where
  -- What the source map and the instructions need of an env.
  record Keeps (env env' : FunctionEnv Fl T G) : Type 0 where
    instructions : env'.function.instructions ≡ env.function.instructions
    source_map : env'.function.debug_info.source_map ≡ env.function.debug_info.source_map
    current_line : env'.current_line ≡ env.current_line
    emit_debug_info : env'.emit_debug_info ≡ env.emit_debug_info

  resize-Keeps :
      (env env' : FunctionEnv Fl T G) (a : ℤ) → resize env a ≡ returns env' → Keeps env env'
  unfolding resize increase_stack
  resize-Keeps env env' a e = record {
    instructions = ground (arith, e);
    source_map = ground (arith, e);
    current_line = ground (arith, e);
    emit_debug_info = ground (arith, e);
  }

  -- What an emission with debug information appends.
  pub record Appends (env env' : FunctionEnv Fl T G) (i : Instruction Fl) : Type 0 where
    pub appended : env'.function.instructions ≡ env.function.instructions ++ i ∷ []
    pub recorded :
        env'.function.debug_info.source_map
        ≡ SourceMap.emit env.function.debug_info.source_map
            (length env.function.instructions)
            env.current_line
    pub debug : env'.emit_debug_info ≡ true

  recorded_line :
      (mid : FunctionEnv Fl T G) (i : Instruction Fl)
      → mid.emit_debug_info ≡ true
      → (append mid i).function.debug_info.source_map
        ≡ SourceMap.emit mid.function.debug_info.source_map
            (length mid.function.instructions)
            mid.current_line
  unfolding append
  recorded_line mid i d =
      ap
        (λ b.
          (if b
            then record mid.function.debug_info {
              source_map =
                  SourceMap.emit mid.function.debug_info.source_map
                    (length (mid.function.instructions ++ i ∷ []) - 1) mid.current_line;
            }
            else mid.function.debug_info).source_map)
        d
      ∙ ap (λ n. SourceMap.emit mid.function.debug_info.source_map n mid.current_line)
          (omega (arith, length-append mid.function.instructions (i ∷ [])))

  append-Appends :
      (env mid : FunctionEnv Fl T G) (i : Instruction Fl)
      → env.emit_debug_info ≡ true
      → Keeps env mid
      → Appends env (append mid i) i
  unfolding append
  append-Appends env mid i d k = record {
    appended = ap (λ is. is ++ i ∷ []) k.instructions;
    recorded =
        recorded_line mid i (k.emit_debug_info ∙ d)
        ∙ (λ j. SourceMap.emit (k.source_map j) (length (k.instructions j)) (k.current_line j));
    debug = k.emit_debug_info ∙ d;
  }

  pub emit-Appends :
      (env env' : FunctionEnv Fl T G) (i : Instruction Fl)
      → env.emit_debug_info ≡ true
      → is_empty_slide i ≡ false
      → emit env i ≡ returns env'
      → Appends env env' i
  unfolding emit
  emit-Appends env env' i d s e =
      let shown =
        sym (
          ap
            (λ b.
              if b
              then returns env
              else (adjust i >>= λ a. resize env a >>= λ m. returns (append m i)))
            s)
        ∙ e in
      let (a, p, f) = bind_returns (adjust i) _ shown in
      let (mid, q, g) = bind_returns (resize env a) _ f in
      subst (λ x. Appends env x i) (returns_injective g)
        (append-Appends env mid i d (resize-Keeps env mid a q))

  pub emit-skipped :
      (env : FunctionEnv Fl T G) (i : Instruction Fl)
      → is_empty_slide i ≡ true
      → emit env i ≡ returns env
  unfolding emit
  emit-skipped env i s =
      ap
        (λ b.
          if b then returns env else (adjust i >>= λ a. resize env a >>= λ m. returns (append m i)))
        s
