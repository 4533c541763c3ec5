-- ===== src/Merge/Tests.antt =====
-- Runs of base/src/merge.rs, and its theorem at concrete closures.
use embed_lang.Prelude.{ℕ, ◌+◌, ◌==◌, if◌then◌else◌, ◌≡◌, refl, List, [], ◌∷◌, Option, none, some}
use embed_lang.Merge.{merge, merge3, merge_collect, merge_tuple_iter}
use embed_lang.Merge.Collect.{merge_all, merge_collect-merge_all}

-- A three becomes a thirty; the state counts the items looked at, and copies in hundreds.
abbrev thirty : ℕ → Option ℕ
thirty x = if x == 3 then some 30 else none

abbrev counted : ℕ → ℕ → ℕ × Option ℕ
counted s x = (s + 1, thirty x)

abbrev copied : ℕ → ℕ → ℕ × ℕ
copied s x = (s + 100, x)

abbrev items : List ℕ
items = 1 ∷ 3 ∷ 2 ∷ 3 ∷ 5 ∷ []

observed :
    (merge_collect counted copied 0 items ≡ some (305, some (1 ∷ 30 ∷ 2 ∷ 30 ∷ 5 ∷ [])))
    × (merge_collect counted copied 0 (1 ∷ 2 ∷ []) ≡ some (2, none))
    × (merge {A = ℕ} {B = ℕ} {R = ℕ × ℕ} 1 none 2 (some 5) (λ a b. (a, b)) ≡ some (1, 5))
    × (merge3 {A = ℕ} {B = ℕ} {C = ℕ} {R = ℕ} 1 none 2 none 3 (some 6) (λ a b c. a + b + c)
        ≡ some 9)
    × (merge_tuple_iter {T = ℕ} ((1, 2) ∷ (3, 4) ∷ []) (λ a b. thirty a)
        ≡ some (some (1 ∷ 30 ∷ [])))
observed = (refl, refl, refl, refl, refl)

merge_collect-merge_all_example :
    (s : ℕ) × (merge_collect counted copied 0 items ≡ some (s, merge_all thirty (λ x. x) items))
merge_collect-merge_all_example =
    merge_collect-merge_all counted copied thirty (λ x. x) (λ s x. refl) (λ s x. refl) 0 items
