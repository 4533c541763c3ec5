-- ===== src/CodeMap/Search.antt =====
-- base/src/source.rs: the search for the file at a position.
use embed_lang.Prelude.{
  ℕ, suc, zero, ◌+◌, ◌-◌, ◌/◌, ◌≤◌, ◌<◌, ◌≡◌, ◌≢◌, ◌⊎◌, ◌↔◌, inl, inr, refl, sym, ap, ◌∙◌, subst,
  arith, ltb, ltb→lt, if◌then◌else◌, true, false, Bool-cases, List, [], ◌∷◌, Option, none, some,
  length, get_elem?,
}
use embed_lang.CodeMap.{
  FileMap, CodeMap, span_end, Ordering, less, equal, greater, compare_file, branch, search,
  find_index,
}
use embed_lang.CodeMap.Order.{Placed, Placed-before}

-- A position at a file, its end included.
abbrev pub At : ℕ → FileMap → Type 0
At pos f = (f.span_start ≤ pos) × (pos ≤ span_end f)

-- The comparison tells where the position is.
compare_file-cases :
    (f : FileMap) (pos : ℕ)
    → ((compare_file f pos ≡ equal) × At pos f)
      ⊎ (((compare_file f pos ≡ less) × (span_end f < pos))
          ⊎ ((compare_file f pos ≡ greater) × (pos < f.span_start)))
compare_file-cases f pos = ground arith

get_elem?-lt : {A : Type 0} (xs : List A) (i : ℕ) {x : A} → get_elem? xs i ≡ some x → i < length xs
get_elem?-lt [] i h = absurd (ground arith)
get_elem?-lt (y ∷ xs) zero h = omega arith
get_elem?-lt (y ∷ xs) (suc i) h = omega (arith, get_elem?-lt xs i h)

get_elem?-some :
    {A : Type 0} (xs : List A) (i : ℕ) → i < length xs → (x : A) × (get_elem? xs i ≡ some x)
get_elem?-some [] i h = absurd (omega arith)
get_elem?-some (x ∷ xs) zero h = (x, refl)
get_elem?-some (x ∷ xs) (suc i) h = get_elem?-some xs i (omega arith)

some_injective : {A : Type 0} {a b : A} → some a ≡ some b → a ≡ b
some_injective h = ground arith

-- One round of the search, at a file.
search_round :
    (fuel : ℕ) (fs : CodeMap) (left right pos : ℕ) (f : FileMap)
    → ltb left right ≡ true
    → get_elem? fs (left + (right - left) / 2) ≡ some f
    → search (suc fuel) fs left right pos
      ≡ branch
          (compare_file f pos)
          (left + (right - left) / 2)
          (search fuel fs (suc (left + (right - left) / 2)) right pos)
          (search fuel fs left (left + (right - left) / 2) pos)
unfolding search
search_round fuel fs left right pos f b e =
    let mid = left + (right - left) / 2 in
    let above = search fuel fs (suc mid) right pos in
    let below = search fuel fs left mid pos in
    ap
      (λ c.
        if c
        then elim (get_elem? fs mid) as (λ _. Option ℕ) [
          | none ↦ none
          | some g ↦ branch (compare_file g pos) mid above below
        ]
        else none)
      b
    ∙ ap
        (λ (o : Option FileMap). elim o as (λ _. Option ℕ) [
          | none ↦ none
          | some g ↦ branch (compare_file g pos) mid above below
        ])
        e

search_empty :
    (fuel : ℕ) (fs : CodeMap) (left right pos : ℕ)
    → ltb left right ≡ false
    → search fuel fs left right pos ≡ none
unfolding search
search_empty zero fs left right pos b = refl
search_empty (suc fuel) fs left right pos b = rw b

search_no_fuel : (fs : CodeMap) (left right pos : ℕ) → search 0 fs left right pos ≡ none
unfolding search
search_no_fuel fs left right pos = refl

-- A result of the search is the index of a file that the position is at.
search_sound :
    (fuel : ℕ) (fs : CodeMap) (left right pos i : ℕ)
    → right ≤ length fs
    → search fuel fs left right pos ≡ some i
    → (f : FileMap) × (get_elem? fs i ≡ some f) × At pos f
search_sound zero fs left right pos i k h =
    absurd (ground (arith, search_no_fuel fs left right pos))
search_sound (suc fuel) fs left right pos i k h = elim (Bool-cases (ltb left right)) [
  | inl b ↦
      let mid = left + (right - left) / 2 in
      let lt : mid < length fs = omega (arith, ltb→lt left right b) in
      let (f, e) = get_elem?-some fs mid lt in
      let now : branch (compare_file f pos) mid (search fuel fs (suc mid) right pos)
            (search fuel fs left mid pos)
          ≡ some i =
        sym (search_round fuel fs left right pos f b e) ∙ h in
      let turn : Ordering → Option ℕ =
        λ o. branch o mid (search fuel fs (suc mid) right pos) (search fuel fs left mid pos) in
      elim (compare_file-cases f pos) [
        | inl (c, at) ↦
            let here : mid ≡ i = some_injective (ap turn (sym c) ∙ now) in
            (f, subst (λ n. get_elem? fs n ≡ some f) here e, at)
        | inr (inl (c, at)) ↦ search_sound fuel fs (suc mid) right pos i k (ap turn (sym c) ∙ now)
        | inr (inr (c, at)) ↦
            search_sound fuel fs left mid pos i (omega arith) (ap turn (sym c) ∙ now)
      ]
  | inr b ↦ absurd (ground (arith, search_empty (suc fuel) fs left right pos b))
]

-- Of two placed files, the one that starts before the end of the other comes first.
index-lt :
    (lo : ℕ) (fs : CodeMap) (i j : ℕ) (f g : FileMap)
    → Placed lo fs
    → get_elem? fs i ≡ some f
    → get_elem? fs j ≡ some g
    → f.span_start ≤ span_end g
    → f ≢ g
    → i < j
index-lt lo fs i j f g p e d h n = elim (Bool-cases (ltb i j)) [
  | inl b ↦ ltb→lt i j b
  | inr b ↦ elim (Bool-cases (ltb j i)) [
    | inl c ↦ absurd (omega (arith, Placed-before lo fs j i g f p d e (ltb→lt j i c)))
    | inr c ↦
        let same : i ≡ j = ground arith in
        absurd (n (some_injective (sym e ∙ ap (get_elem? fs) same ∙ d)))
  ]
]

-- A position is at one file only.
At-index :
    (lo : ℕ) (fs : CodeMap) (i j pos : ℕ) (f g : FileMap)
    → Placed lo fs
    → get_elem? fs i ≡ some f
    → get_elem? fs j ≡ some g
    → At pos f
    → At pos g
    → i ≡ j
At-index lo fs i j pos f g p e d (a, b) (u, v) = elim (Bool-cases (ltb i j)) [
  | inl c ↦ absurd (omega (arith, Placed-before lo fs i j f g p e d (ltb→lt i j c)))
  | inr c ↦ elim (Bool-cases (ltb j i)) [
    | inl k ↦ absurd (omega (arith, Placed-before lo fs j i g f p d e (ltb→lt j i k)))
    | inr k ↦ ground arith
  ]
]

-- If files are placed, the search between two indexes with enough fuel finds the file that the
-- position is at.
search_finds :
    (fuel lo : ℕ) (fs : CodeMap) (left right pos i : ℕ) (f : FileMap)
    → Placed lo fs
    → right ≤ length fs
    → right ≤ left + fuel
    → left ≤ i
    → i < right
    → get_elem? fs i ≡ some f
    → At pos f
    → search fuel fs left right pos ≡ some i
search_finds zero lo fs left right pos i f p k enough l r e at = absurd (omega arith)
search_finds (suc fuel) lo fs left right pos i f p k enough l r e at =
    let mid = left + (right - left) / 2 in
    let b : ltb left right ≡ true = ground arith in
    let lt : mid < length fs = omega arith in
    let (g, d) = get_elem?-some fs mid lt in
    let turn : Ordering → Option ℕ =
      λ o. branch o mid (search fuel fs (suc mid) right pos) (search fuel fs left mid pos) in
    search_round fuel fs left right pos g b d ∙ elim (compare_file-cases g pos) [
      | inl (c, here) ↦ ap turn c ∙ ap some (At-index lo fs mid i pos g f p d e here at)
      | inr (inl (c, here)) ↦
          ap turn c
          ∙ search_finds fuel lo fs (suc mid) right pos i f p k (omega arith)
              (index-lt lo fs mid i g f p d e (omega (arith, at))
                (λ q. absurd (omega (arith, at, ap span_end q))))
              r e at
      | inr (inr (c, here)) ↦
          ap turn c
          ∙ search_finds fuel lo fs left mid pos i f p (omega arith) (omega arith) l
              (index-lt lo fs i mid f g p e d (omega (arith, at))
                (λ q. absurd (omega (arith, at, ap (λ (x : FileMap). x.span_start) q))))
              e at
    ]

-- If the files are placed, `find_index` gives an index exactly if the position is at the file there.
pub find_index-At :
    (fs : CodeMap) (pos i : ℕ)
    → Placed 1 fs
    → (find_index fs pos ≡ some i) ↔ ((f : FileMap) × (get_elem? fs i ≡ some f) × At pos f)
unfolding find_index
find_index-At fs pos i p = (
  search_sound (length fs) fs 0 (length fs) pos i (omega arith),
  λ h.
      search_finds (length fs) 1 fs 0 (length fs) pos i h.0 p (omega arith) (omega arith)
        (omega arith) (get_elem?-lt fs i h.1) h.1 h.2,
)
