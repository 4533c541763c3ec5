-- ===== src/Layout/Inserted.antt =====
-- parser/src/layout.rs: the `in` tokens that the layout inserts look like those of the source.
use embed_lang.Prelude.{◌≡◌, sym, ap, subst, Bool, true, false, if◌then◌else◌, List, [], ◌∷◌}
use embed_lang.Layout.Tokens.{in_kw, Spanned}
use embed_lang.Layout.Source.{is_layout, keep}

module _ {S : Type 0} where
  -- The first list is the second with `in` tokens inserted.
  pub data Inserted : List (Spanned S) → List (Spanned S) → Type 0 where
    nothing_left : Inserted [] []
    from_source :
        {us ts : List (Spanned S)} (t : Spanned S) → Inserted us ts → Inserted (t ∷ us) (t ∷ ts)
    in_inserted :
        {us ts : List (Spanned S)} (t : Spanned S)
        → t.value ≡ in_kw
        → Inserted us ts
        → Inserted (t ∷ us) ts

  pub Inserted-refl : (ts : List (Spanned S)) → Inserted ts ts
  Inserted-refl [] = nothing_left
  Inserted-refl (t ∷ ts) = from_source t (Inserted-refl ts)

  pub Inserted-keep :
      (t : Spanned S) (us ts : List (Spanned S)) → Inserted us ts → Inserted (keep t us) (keep t ts)
  Inserted-keep t us ts h = go (is_layout t.value)
    where
      go : (b : Bool) → Inserted (if b then us else t ∷ us) (if b then ts else t ∷ ts)
      go true = h
      go false = from_source t h

  pub Inserted-in :
      (t : Spanned S) (us ts : List (Spanned S))
      → t.value ≡ in_kw
      → Inserted us ts
      → Inserted (keep t us) ts
  Inserted-in t us ts e h =
      subst (λ b. Inserted (if b then us else t ∷ us) ts) (sym (ap is_layout e)) (in_inserted t e h)
