-- ===== src/Merge.antt =====
-- base/src/merge.rs: a traversal of a type or a list gives nothing back where it changes nothing, and
-- these functions put what changed together with copies of what did not.
-- A copy is the value itself. What the closures write is in the state that they are given.
use embed_lang.Prelude.{ℕ, zero, suc, List, [], ◌∷◌, Option, none, some, length}
pub mod Collect
mod Tests

abbrev pub merge_fn :
    {A B A1 B1 R : Type 0}
    → A
    → (A → A1)
    → Option A1
    → B
    → (B → B1)
    → Option B1
    → (A1 → B1 → R)
    → Option R
merge_fn a_original g (some a) b_original h (some b) merger = some (merger a b)
merge_fn a_original g (some a) b_original h none merger = some (merger a (h b_original))
merge_fn a_original g none b_original h (some b) merger = some (merger (g a_original) b)
merge_fn a_original g none b_original h none merger = none

abbrev pub merge : {A B R : Type 0} → A → Option A → B → Option B → (A → B → R) → Option R
merge a_original a b_original b f = merge_fn a_original (λ x. x) a b_original (λ x. x) b f

abbrev pub merge3 :
    {A B C R : Type 0} → A → Option A → B → Option B → C → Option C → (A → B → C → R) → Option R
merge3 {A = A} {B = B} a_original a b_original b c_original c f =
    merge_fn {A = A × B} {A1 = A × B} (a_original, b_original) (λ p. (a_original, b_original))
      (merge a_original a b_original b (λ x y. (x, y))) c_original (λ x. x) c (λ p z. f p.0 p.1 z)

-- `MergeIter`, less its closures.
pub record MergeIter (A : Type 0) (U : Type 0) (S : Type 0) : Type 0 where
  pub types : List A
  pub clone_types_iter : List A
  pub clone_types : ℕ
  pub next : Option U
  pub state : S

-- What `find_map` gives: the state, the items that are left, and the place and the value found.
pub record Found (A : Type 0) (U : Type 0) (S : Type 0) : Type 0 where
  pub state : S
  pub left : List A
  pub found : Option (ℕ × U)

module _ {A U S : Type 0} (action : S → A → S × Option U) (converter : S → A → S × U) where
  -- `types.by_ref().enumerate().find_map(..)`, from an index on.
  abbrev pub find_map : ℕ → S → List A → Found A U S
  find_map i s [] = record { state = s; left = []; found = none }
  find_map i s (x ∷ xs) =
      let rest = find_map (suc i) (action s x).0 xs in
      elim (action s x).1 [
        | none ↦ rest
        | some u ↦ record { state = (action s x).0; left = xs; found = some (i, u) }
      ]

  -- The branch of `next` that converts an item.
  abbrev pub convert : MergeIter A U S → ℕ → List A → Option U × MergeIter A U S
  convert m k [] = (none, record m { clone_types = k })
  convert m k (x ∷ xs) =
      let r = converter m.state x in
      (some r.1, record m { clone_types = k; clone_types_iter = xs; state = r.0 })

  abbrev pub skip : List A → List A
  skip [] = []
  skip (x ∷ xs) = xs

  -- The branch of `next` that looks for the next item that changes, before it calls itself.
  abbrev pub refilled : MergeIter A U S → Found A U S → MergeIter A U S
  refilled m r = elim r.found [
    | none ↦ record m { types = r.left; state = r.state; clone_types = 18446744073709551615 }
    | some p ↦ record m { types = r.left; state = r.state; clone_types = p.0; next = some p.1 }
  ]

  abbrev pub refill : MergeIter A U S → MergeIter A U S
  refill m = refilled m (find_map 0 m.state m.types)

  abbrev pub branch :
      ℕ
      → Option U
      → MergeIter A U S
      → Option (Option U × MergeIter A U S)
      → Option (Option U × MergeIter A U S)
  branch (suc k) typ m again = some (convert m k m.clone_types_iter)
  branch zero (some typ) m again =
      some (some typ, record m { next = none; clone_types_iter = skip m.clone_types_iter })
  branch zero none m again = again

  -- `MergeIter::next`, with fuel for its calls of itself.
  abbrev pub next_item : ℕ → MergeIter A U S → Option (Option U × MergeIter A U S)
  next_item zero m = none
  next_item (suc fuel) m =
      let again = next_item fuel (refill m) in branch m.clone_types m.next m again

  -- `collect`, with fuel for the items, and two calls of `next` for each; the final state.
  abbrev pub collect : ℕ → MergeIter A U S → Option (S × List U)
  collect zero m = none
  collect (suc fuel) m = elim (next_item 2 m) [
    | none ↦ none
    | some r ↦ elim r.0 [
      | none ↦ some (r.1.state, [])
      | some u ↦ elim (collect fuel r.1) [ none ↦ none | some q ↦ some (q.0, u ∷ q.1) ]
    ]
  ]

  -- The state, and the iterator if an item changes.
  abbrev pub begin : List A → Found A U S → S × Option (MergeIter A U S)
  begin types r = elim r.found [
    | none ↦ (r.state, none)
    | some p ↦
        let m : MergeIter A U S = record {
          types = r.left;
          clone_types_iter = types;
          clone_types = p.0;
          next = some p.1;
          state = r.state;
        } in
        (r.state, some m)
  ]

  abbrev pub merge_iter : S → List A → S × Option (MergeIter A U S)
  merge_iter s types = begin types (find_map 0 s types)

  abbrev pub collected : Option (S × List U) → Option (S × Option (List U))
  collected none = none
  collected (some q) = some (q.0, some q.1)

  abbrev pub collect_all : List A → S × Option (MergeIter A U S) → Option (S × Option (List U))
  collect_all types (s, none) = some (s, none)
  collect_all types (s, some m) = collected (collect (suc (length types)) m)

  -- No result is no more fuel.
  abbrev pub merge_collect : S → List A → Option (S × Option (List U))
  merge_collect s types = collect_all types (merge_iter s types)

abbrev pub merge_tuple_iter :
    {T : Type 0} → List (T × T) → (T → T → Option T) → Option (Option (List T))
merge_tuple_iter types f =
    elim (merge_collect {S = Unit {0}} (λ s p. (s, f p.0 p.1)) (λ s p. (s, p.0)) tt types) [
      | none ↦ none
      | some r ↦ some r.1
    ]
