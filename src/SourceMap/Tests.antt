-- ===== src/SourceMap/Tests.antt =====
-- Runs of vm/src/source_map.rs, and its theorem at concrete emissions.
use embed_lang.Prelude.{ℕ, ◌≡◌, refl, List, [], ◌∷◌, none, some, ltb, if◌then◌else◌, arith}
use embed_lang.SourceMap.{Entry, new, emit, close, line, position}
use embed_lang.SourceMap.Locals.{Local}
use embed_lang.SourceMap.Ranges.{Scopes, done, local}
use embed_lang.SourceMap.Lines.{emit_all, line_at, line-emit_all}

abbrev lines : List Entry
lines = (0, 1) ∷ (2, 1) ∷ (3, 2) ∷ (5, 4) ∷ []

found : line (close (emit_all new lines) 7 none) 4 ≡ some 2
unfolding line close emit_all emit position
found = refl

line-emit_all_example :
    line (close (emit_all new lines) 7 none) 4 ≡ (if ltb 4 7 then line_at 4 none lines else none)
line-emit_all_example =
    line-emit_all 4 0 (0, 1) ((2, 1) ∷ (3, 2) ∷ (5, 4) ∷ []) 7 none
      (omega arith, (omega arith, (omega arith, (omega arith, omega arith))))

abbrev outer : Local ℕ
outer = record { start = 1; end = 9; index = 0; name = 20; typ = 0 }

abbrev inner : Local ℕ
inner = record { start = 3; end = 5; index = 1; name = 21; typ = 0 }

abbrev later : Local ℕ
later = record { start = 6; end = 8; index = 1; name = 22; typ = 0 }

abbrev scopes : Scopes ℕ
scopes = local outer (local inner done (local later done done)) done
