-- ===== src/ScopedMap/Tests.antt =====
-- Runs of base/src/scoped_map.rs, and its theorems at concrete maps.
use embed_lang.Prelude.{
  ℕ, ◌≡◌, refl, false, [], ◌∷◌, none, some, returns, panics, ℕ_discrete as dec,
}
use embed_lang.ScopedMap.Assoc.{find, adjust, alter, values_of}
use embed_lang.ScopedMap.{
  ScopedMap, new, num_scopes, enter_scope, len, is_empty, get, get_all, contains_key,
  in_current_scope, current_scope, insert, extend, swap, remove, pop, exit_scope, iter, or_insert,
}
use embed_lang.ScopedMap.Trail.{values, Trail, rebind, forget, Represents}
use embed_lang.ScopedMap.Laws.{
  get-latest, enter_scope-Represents, insert-Represents, swap-Represents,
}
use embed_lang.ScopedMap.Leaving.{
  remove-Represents, remove-outer, pop-shadowed, pop-Represents, exit_scope-Represents,
}
use embed_lang.ScopedMap.Nesting.{Body, finish, bind, block, run, get-exit_scope-run}
use mathlib.Core.Option

program : Unit {0}
unfolding find adjust alter values_of new num_scopes enter_scope len is_empty get get_all
    contains_key in_current_scope current_scope insert extend swap remove pop exit_scope iter
    or_insert run dec Option.bind
program = tt

-- Key 1 is bound twice, key 2 in the outer scope alone, key 3 in the inner one.
abbrev outer : ScopedMap ℕ ℕ
outer = (insert dec (insert dec new 1 10).0 2 20).0

abbrev two_scopes : ScopedMap ℕ ℕ
two_scopes = (insert dec (insert dec (enter_scope outer) 1 11).0 3 30).0

abbrev bindings : Trail ℕ ℕ
bindings = some (3, 30) ∷ some (1, 11) ∷ none ∷ some (2, 20) ∷ some (1, 10) ∷ []

built :
    (extend dec (enter_scope outer) ((1, 11) ∷ (3, 30) ∷ []) ≡ two_scopes)
    × (two_scopes.map ≡ (1, 11 ∷ 10 ∷ []) ∷ (2, 20 ∷ []) ∷ (3, 30 ∷ []) ∷ [])
    × (two_scopes.scopes ≡ some 3 ∷ some 1 ∷ none ∷ some 2 ∷ some 1 ∷ [])
unfolding program
built = (refl, refl, refl)

observed :
    (get_all dec two_scopes 1 ≡ some (10 ∷ 11 ∷ []))
    × (num_scopes two_scopes ≡ 2)
    × (len two_scopes ≡ 4)
    × (current_scope dec two_scopes ≡ returns ((3, 30) ∷ (1, 11) ∷ []))
    × (iter two_scopes ≡ (1, 11) ∷ (2, 20) ∷ (3, 30) ∷ [])
    × (or_insert dec two_scopes 2 9 ≡ (two_scopes, 20))
    × (remove dec two_scopes 2 ≡ panics)
unfolding program
observed = (refl, refl, refl, refl, refl, refl, refl)

-- An emptied map still has its keys, so `is_empty` says no.
emptied :
    let m : ScopedMap ℕ ℕ = (exit_scope dec (insert dec (enter_scope new) 1 10).0).1 in
    (len m ≡ 0) × (is_empty m ≡ false)
unfolding program
emptied = (refl, refl)

outer-Represents : Represents dec outer (some (2, 20) ∷ some (1, 10) ∷ [])
unfolding program
outer-Represents =
    (insert-Represents dec _ _ 2 20
      (insert-Represents dec _ _ 1 10
        (enter_scope-Represents {V = ℕ} dec new []
          (record { scopes_eq = refl; values_eq = λ k. refl })).0).0).0

two_scopes-Represents : Represents dec two_scopes bindings
two_scopes-Represents =
    (insert-Represents dec _ _ 3 30
      (insert-Represents dec _ _ 1 11 (enter_scope-Represents dec _ _ outer-Represents).1).0).0

get-latest_example : get dec two_scopes 1 ≡ some 11
unfolding dec
get-latest_example = get-latest dec two_scopes bindings two_scopes-Represents 1

swap-Represents_example :
    ((swap dec two_scopes 2 21).1 ≡ some 20)
    × Represents dec (swap dec two_scopes 2 21).0 (rebind dec 2 21 bindings)
unfolding dec
swap-Represents_example = swap-Represents dec two_scopes bindings 2 21 two_scopes-Represents

remove-Represents_example :
    (m : ScopedMap ℕ ℕ) × (remove dec two_scopes 1 ≡ returns (m, some 11))
    × Represents dec m (forget dec 1 bindings)
unfolding dec
remove-Represents_example = remove-Represents dec two_scopes bindings 1 two_scopes-Represents refl

remove-outer_example : remove dec two_scopes 2 ≡ panics
unfolding dec
remove-outer_example = remove-outer dec two_scopes bindings 2 two_scopes-Represents refl (λ e. cc)

pop-shadowed_example :
    let (m, popped) = pop dec two_scopes 1 in
    (popped ≡ some 11)
    × (m.scopes ≡ some 3 ∷ none ∷ some 2 ∷ [])
    × ((q : ℕ) → values_of dec q m.map ≡ values dec q (forget dec 1 bindings))
    × (values_of dec 1 m.map ≡ 10 ∷ [])
    × ¬ ((t : Trail ℕ ℕ) × Represents dec m t)
unfolding dec
pop-shadowed_example = pop-shadowed dec two_scopes bindings 1 11 10 [] two_scopes-Represents refl

pop-Represents_example :
    ((pop dec two_scopes 2).1 ≡ some 20)
    × Represents dec (pop dec two_scopes 2).0 (forget dec 2 bindings)
unfolding dec
pop-Represents_example = pop-Represents dec two_scopes bindings 2 20 two_scopes-Represents refl

exit_scope-Represents_example :
    ((exit_scope dec two_scopes).0 ≡ (3, 30) ∷ (1, 11) ∷ [])
    × Represents dec (exit_scope dec two_scopes).1 (some (2, 20) ∷ some (1, 10) ∷ [])
unfolding dec
exit_scope-Represents_example = exit_scope-Represents dec two_scopes bindings two_scopes-Represents

abbrev body : Body ℕ ℕ
body = bind 1 11 (block (bind 1 12 (bind 4 40 finish)) (bind 2 21 finish))

get-exit_scope-run_example :
    get dec (exit_scope dec (run dec body (enter_scope outer))).1 1 ≡ get dec outer 1
unfolding dec
get-exit_scope-run_example = get-exit_scope-run dec body outer _ outer-Represents 1
