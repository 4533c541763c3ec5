-- ===== src/CodeMap/Placing.antt =====
-- base/src/source.rs: a file that is placed in a gap, and the update of a file.
use embed_lang.Prelude.{
  ℕ, suc, ◌+◌, ◌-◌, ◌≤◌, ◌<◌, ◌≡◌, ◌⊎◌, inl, inr, refl, ap, ◌∙◌, arith, leb, leb→le, checked_sub-le,
  if◌then◌else◌, Bool, Bool-cases, List, [], ◌∷◌, none, some, length, get_elem?, returns, ◌>>=◌,
  checked_sub, unwrap,
}
use embed_lang.CodeMap.{FileMap, CodeMap, span_end, add_filemap}
use embed_lang.CodeMap.Order.{Placed, add_filemap-Placed}
use embed_lang.CodeMap.Puts.{Puts, insert-Puts, add_filemap-Puts}
use embed_lang.CodeMap.Update.{distance, min_start, gap_behind, gap, insert, place}

-- The space between two neighbours.
checked_gap : (a b : ℕ) → b < a → checked_sub (distance a b) 1 ≡ returns (a - b - 1)
checked_gap a b h = ground arith

gap_behind-cons :
    (j : ℕ) (f g : FileMap) (fs : CodeMap) (need : ℕ)
    → span_end f < g.span_start
    → gap_behind j f (g ∷ fs) need ≡ (
        if leb need (g.span_start - span_end f - 1)
        then returns (some j)
        else gap_behind (suc j) g fs need)
unfolding gap_behind
gap_behind-cons j f g fs need h =
    ap (λ o. o >>= λ size. if leb need size then returns (some j) else gap_behind (suc j) g fs need)
      (checked_gap g.span_start (span_end f) h)

-- A file can be put behind the one at an index of the list.
abbrev Fits : FileMap → CodeMap → ℕ → ℕ → Type 0
Fits f fs len k =
    (y : FileMap) × (get_elem? (f ∷ fs) k ≡ some y)
    × ((x : FileMap)
        → x.span_start ≡ span_end y + 1
        → length x.source ≡ len
        → Placed (span_end f + 1) (insert k x fs))

gap_behind-Fits :
    (j : ℕ) (f : FileMap) (fs : CodeMap) (len : ℕ)
    → Placed (span_end f + 1) fs
    → (gap_behind j f fs (len + 1) ≡ returns none)
      ⊎ ((k : ℕ) × (gap_behind j f fs (len + 1) ≡ returns (some (j + k))) × Fits f fs len k)
unfolding gap_behind
gap_behind-Fits j f [] len p = inl refl
gap_behind-Fits j f (g ∷ fs) len (q, p) =
    let step = gap_behind-cons j f g fs (len + 1) (omega arith) in
    elim (Bool-cases (leb (len + 1) (g.span_start - span_end f - 1))) [
      | inl b ↦ inr (
        0,
        step
            ∙ ap (λ c. if c then returns (some j) else gap_behind (suc j) g fs (len + 1)) b
            ∙ ap (λ n. returns (some n)) (omega arith),
        (
          f,
          refl,
          λ x s l.
              (omega arith, (omega (arith, leb→le (len + 1) (g.span_start - span_end f - 1) b), p)),
        ),
      )
      | inr b ↦
          let skip =
            step ∙ ap (λ c. if c then returns (some j) else gap_behind (suc j) g fs (len + 1)) b in
          elim (gap_behind-Fits (suc j) g fs len p) [
            | inl n ↦ inl (skip ∙ n)
            | inr (k, e, (y, at, fits)) ↦ inr (
              suc k,
              skip ∙ e ∙ ap (λ n. returns (some n)) (omega arith),
              (y, at, λ x s l. (q, fits x s l)),
            )
          ]
    ]

-- A map in order, with the given files and the one that is given back, which has the name and text.
pub record IsUpdated (fs : CodeMap) (r : CodeMap × FileMap) (name : ℕ) (src : List ℕ) : Type 0 where
  pub placed : Placed 1 r.0
  pub put_in : Puts r.1 fs r.0
  pub name_eq : r.1.name ≡ name
  pub source_eq : r.1.source ≡ src

-- The end of `place`, at the gap that was found.
put :
    (fs : CodeMap) (name : ℕ) (src : List ℕ) (j start : ℕ)
    → gap fs (length src + 1) ≡ returns (some j)
    → min_start fs j ≡ returns start
    → place fs name src
      ≡ returns (
        insert j (record { name = name; source = src; span_start = start }) fs,
        record { name = name; source = src; span_start = start },
      )
unfolding place
put fs name src j start e s = rw (e, s)

append :
    (fs : CodeMap) (name : ℕ) (src : List ℕ)
    → gap fs (length src + 1) ≡ returns none
    → place fs name src ≡ returns (add_filemap fs name src)
unfolding place
append fs name src e = rw e

appended :
    (fs : CodeMap) (name : ℕ) (src : List ℕ)
    → Placed 1 fs
    → gap fs (length src + 1) ≡ returns none
    → (r : CodeMap × FileMap) × (place fs name src ≡ returns r) × IsUpdated fs r name src
unfolding add_filemap
appended fs name src p e = (
  add_filemap fs name src,
  append fs name src e,
  record {
    placed = add_filemap-Placed fs name src p;
    put_in = add_filemap-Puts fs name src;
    name_eq = refl;
    source_eq = refl;
  },
)

gap-cons :
    (f : FileMap) (fs : CodeMap) (need : ℕ)
    → 1 ≤ f.span_start
    → gap (f ∷ fs) need
      ≡ (if leb need (f.span_start - 1) then returns (some 0) else gap_behind 1 f fs need)
unfolding gap
gap-cons f fs need h =
    ap (λ o. o >>= λ size. if leb need size then returns (some 0) else gap_behind 1 f fs need)
      (checked_sub-le f.span_start 1 h)

pub min_start-suc :
    (fs : CodeMap) (k : ℕ) (y : FileMap)
    → get_elem? fs k ≡ some y
    → min_start fs (suc k) ≡ returns (span_end y + 1)
unfolding min_start
min_start-suc fs k y e = ap (λ o. unwrap o >>= λ f. returns (span_end f + 1)) e

pub min_start-zero : (fs : CodeMap) → min_start fs 0 ≡ returns 1
unfolding min_start
min_start-zero fs = refl

pub place-IsUpdated :
    (fs : CodeMap) (name : ℕ) (src : List ℕ)
    → Placed 1 fs
    → (r : CodeMap × FileMap) × (place fs name src ≡ returns r) × IsUpdated fs r name src
unfolding gap
place-IsUpdated [] name src p = appended [] name src p refl
place-IsUpdated (f ∷ fs) name src (q, p) =
    let choice = λ (c : Bool). if c then returns (some 0) else gap_behind 1 f fs (length src + 1) in
    let first = gap-cons f fs (length src + 1) q in
    elim (Bool-cases (leb (length src + 1) (f.span_start - 1))) [
      | inl b ↦ (
        _,
        put (f ∷ fs) name src 0 1 (first ∙ ap choice b) (min_start-zero (f ∷ fs)),
        record {
          placed = (omega arith, (omega (arith, leb→le (length src + 1) (f.span_start - 1) b), p));
          put_in = insert-Puts 0 _ (f ∷ fs);
          name_eq = refl;
          source_eq = refl;
        },
      )
      | inr b ↦ elim (gap_behind-Fits 1 f fs (length src) p) [
        | inl n ↦ appended (f ∷ fs) name src (q, p) (first ∙ ap choice b ∙ n)
        | inr (k, e, (y, at, fits)) ↦ (
          _,
          put (f ∷ fs) name src (suc k) (span_end y + 1)
              (first ∙ ap choice b ∙ e ∙ ap (λ n. returns (some n)) (omega arith))
              (min_start-suc (f ∷ fs) k y at),
          record {
            placed = (q, fits _ refl refl);
            put_in = insert-Puts (suc k) _ (f ∷ fs);
            name_eq = refl;
            source_eq = refl;
          },
        )
      ]
    ]
