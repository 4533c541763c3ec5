-- ===== src/CodeMap/Tests.antt =====
-- Runs of base/src/source.rs, and its theorems at concrete maps.
use embed_lang.Prelude.{ℕ, ◌≡◌, refl, [], ◌∷◌, some, returns, replicate, arith}
use embed_lang.CodeMap.{FileMap, CodeMap, add_filemap, find_index, to_usize}
use embed_lang.CodeMap.Order.{Placed}
use embed_lang.CodeMap.Locate.{locate, to_usize-locate}
use embed_lang.CodeMap.Update.{update, min_start}
use embed_lang.CodeMap.Puts.{Puts}
use embed_lang.CodeMap.Placing.{IsUpdated}
use embed_lang.CodeMap.Updating.{StaysClear, update-IsUpdated}

abbrev file : ℕ → ℕ → ℕ → FileMap
file name start count = record { name = name; source = replicate count 0; span_start = start }

-- Three files of 2, 3 and 1 bytes.
abbrev three : CodeMap
three = file 7 1 2 ∷ file 8 4 3 ∷ file 9 8 1 ∷ []

three-Placed : Placed 1 three
three-Placed = (omega arith, (omega arith, (omega arith, tt)))

-- The first file grows and moves behind the others; then the second one grows into the space in
-- front of it, but keeps its start, so that its end passes the start of the third.
abbrev grown : CodeMap
grown = file 8 4 3 ∷ file 9 8 1 ∷ file 7 10 4 ∷ []

observed :
    ((add_filemap (file 7 1 2 ∷ file 8 4 3 ∷ []) 9 (0 ∷ [])).0 ≡ three)
    × (to_usize three 6 ≡ some 2)
    × (to_usize three 3 ≡ some 2)
    × (update three 2 (replicate 4 0) ≡ returns (some (grown, file 7 10 4)))
    × (update grown 4 (replicate 6 0)
        ≡ returns (some (file 8 4 6 ∷ file 9 8 1 ∷ file 7 10 4 ∷ [], file 8 4 6)))
unfolding add_filemap to_usize find_index update
observed = (refl, refl, refl, refl, refl)

to_usize-locate_example : to_usize three 6 ≡ locate three 6
to_usize-locate_example = to_usize-locate three 6 three-Placed

three-find : find_index three 5 ≡ some 1
unfolding find_index
three-find = refl

abbrev moved : FileMap
moved = file 8 4 3

three-StaysClear : StaysClear three 1 moved (replicate 4 0)
unfolding min_start
three-StaysClear m s h = absurd (ground arith)

update-IsUpdated_example :
    (others : CodeMap) × Puts moved others three
    × ((r : CodeMap × FileMap) × (update three 5 (replicate 4 0) ≡ returns (some r))
        × IsUpdated others r 8 (replicate 4 0))
update-IsUpdated_example =
    update-IsUpdated three 5 1 (replicate 4 0) moved three-Placed three-find refl three-StaysClear
