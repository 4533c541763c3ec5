-- ===== src/CodeMap/Updating.antt =====
-- base/src/source.rs: the update of a file keeps the files in order.
use embed_lang.Prelude.{
  ℕ, zero, suc, ◌+◌, ◌-◌, ◌≤◌, ◌<◌, ◌≡◌, inl, inr, refl, ap, ◌∙◌, arith, leb, if◌then◌else◌, Bool,
  true, Bool-cases, List, [], ◌∷◌, Option, none, some, length, get_elem?, set, Outcome, returns,
  ◌>>=◌,
}
use embed_lang.CodeMap.{FileMap, CodeMap, span_end, find_index}
use embed_lang.CodeMap.Order.{Placed}
use embed_lang.CodeMap.Puts.{Puts, remove-Puts, set-Puts}
use embed_lang.CodeMap.Update.{distance, min_start, next_start, remove, place, update_at, update}
use embed_lang.CodeMap.Placing.{IsUpdated, place-IsUpdated, min_start-suc, min_start-zero}

Placed-le : (lo hi : ℕ) (fs : CodeMap) → hi ≤ lo → Placed lo fs → Placed hi fs
Placed-le lo hi [] h p = tt
Placed-le lo hi (f ∷ fs) h (q, p) = (omega arith, p)

remove-Placed : (lo : ℕ) (fs : CodeMap) (i : ℕ) → Placed lo fs → Placed lo (remove i fs)
remove-Placed lo [] zero p = tt
remove-Placed lo [] (suc i) p = tt
remove-Placed lo (f ∷ fs) zero (q, p) = Placed-le (span_end f + 1) lo fs (omega arith) p
remove-Placed lo (f ∷ fs) (suc i) (q, p) = (q, remove-Placed (span_end f + 1) fs i p)

-- A file may be replaced by one that starts where it does and ends in front of the next one.
set-Placed :
    (lo : ℕ) (fs : CodeMap) (i : ℕ) (old new : FileMap)
    → Placed lo fs
    → get_elem? fs i ≡ some old
    → new.span_start ≡ old.span_start
    → span_end new < next_start fs i
    → Placed lo (set fs i new)
set-Placed lo [] i old new p e s h = tt
set-Placed lo (f ∷ []) zero old new (q, p) e s h = (ground (arith, e, s), tt)
set-Placed lo (f ∷ g ∷ fs) zero old new (q, (k, p)) e s h = (ground (arith, e, s), (omega arith, p))
set-Placed lo (f ∷ fs) (suc i) old new (q, p) e s h =
    (q, set-Placed (span_end f + 1) fs i old new p e s h)

-- Every file has a first possible start.
min_start-Returns :
    (fs : CodeMap) (i : ℕ) (f : FileMap)
    → get_elem? fs i ≡ some f
    → (m : ℕ) × (min_start fs i ≡ returns m)
min_start-Returns fs zero f e = (1, min_start-zero fs)
min_start-Returns fs (suc i) f e =
    let (g, d) = front fs i e in (span_end g + 1, min_start-suc fs i g d)
  where
    front :
        (gs : CodeMap) (j : ℕ)
        → get_elem? gs (suc j) ≡ some f
        → (g : FileMap) × (get_elem? gs j ≡ some g)
    front [] j h = absurd (ground arith)
    front (g ∷ gs) zero h = (g, refl)
    front (g ∷ gs) (suc j) h = front gs j h

update_at-eq :
    (fs : CodeMap) (i : ℕ) (src : List ℕ) (old : FileMap) (m : ℕ)
    → get_elem? fs i ≡ some old
    → min_start fs i ≡ returns m
    → update_at fs i src ≡ (
        if leb (length src) (distance (next_start fs i - 1) m)
        then returns (
          set fs i (record { name = old.name; source = src; span_start = old.span_start }),
          record { name = old.name; source = src; span_start = old.span_start },
        )
        else place (remove i fs) old.name src)
unfolding update_at
update_at-eq fs i src old m e s = rw (s, e)

-- The text of a file stays in front of the next one, if it is short enough to stay in its place.
abbrev pub StaysClear : CodeMap → ℕ → FileMap → List ℕ → Type 0
StaysClear fs i old src =
    (m : ℕ)
    → min_start fs i ≡ returns m
    → leb (length src) (distance (next_start fs i - 1) m) ≡ true
    → old.span_start + length src < next_start fs i

update_found :
    (fs : CodeMap) (pos i : ℕ) (src : List ℕ) (r : CodeMap × FileMap)
    → find_index fs pos ≡ some i
    → update_at fs i src ≡ returns r
    → update fs pos src ≡ returns (some r)
unfolding update
update_found fs pos i src r e s =
    let found : Option ℕ → Outcome (Option (CodeMap × FileMap)) =
      λ o. elim o [ none ↦ returns none | some j ↦ update_at fs j src >>= λ x. returns (some x) ] in
    ap found e ∙ ap (λ o. o >>= λ x. returns (some x)) s

-- Let the files be placed, let a position be at one of them, and let its new text, if it is no longer
-- than the space between the neighbours, end in front of the next file when it begins where the old
-- one did. Then `update` returns a file with the old name and the new text, and a map whose files are
-- placed, which are the file that is returned, at some place, and all but the old one, in their order.
pub update-IsUpdated :
    (fs : CodeMap) (pos i : ℕ) (src : List ℕ) (old : FileMap)
    → Placed 1 fs
    → find_index fs pos ≡ some i
    → get_elem? fs i ≡ some old
    → StaysClear fs i old src
    → (others : CodeMap) × Puts old others fs
      × ((r : CodeMap × FileMap) × (update fs pos src ≡ returns (some r))
          × IsUpdated others r old.name src)
update-IsUpdated fs pos i src old p e d clear =
    let (m, s) = min_start-Returns fs i old d in
    let new : FileMap = record { name = old.name; source = src; span_start = old.span_start } in
    let now = update_at-eq fs i src old m d s in
    let choice : Bool → Outcome (CodeMap × FileMap) =
      λ c. if c then returns (set fs i new, new) else place (remove i fs) old.name src in
    (
      remove i fs,
      remove-Puts fs i old d,
      elim (Bool-cases (leb (length src) (distance (next_start fs i - 1) m))) [
        | inl b ↦ (
          (set fs i new, new),
          update_found fs pos i src (set fs i new, new) e (now ∙ ap choice b),
          record {
            placed = set-Placed 1 fs i old new p d refl (clear m s b);
            put_in = set-Puts fs i old new d;
            name_eq = refl;
            source_eq = refl;
          },
        )
        | inr b ↦
            let (r, k, u) = place-IsUpdated (remove i fs) old.name src (remove-Placed 1 fs i p) in
            (r, update_found fs pos i src r e (now ∙ ap choice b ∙ k), u)
      ],
    )
