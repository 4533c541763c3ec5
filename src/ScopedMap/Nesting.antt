-- ===== src/ScopedMap/Nesting.antt =====
-- base/src/scoped_map.rs: runs of well-nested scopes.
use embed_lang.Prelude.{◌≡◌, refl, ◌∙◌, sym, subst, ◌∷◌, none, some}
use embed_lang.ScopedMap.{ScopedMap, enter_scope, get, insert, exit_scope}
use embed_lang.ScopedMap.Trail.{Trail, leave, Represents}
use embed_lang.ScopedMap.Laws.{get-latest, enter_scope-Represents, insert-Represents}
use embed_lang.ScopedMap.Leaving.{exit_scope-Represents}

-- What a client does between two calls: it binds keys, and opens and closes inner scopes.
pub data Body {ℓ} (K V : Type ℓ) : Type ℓ where
  finish : Body K V
  bind : K → V → Body K V → Body K V
  block : Body K V → Body K V → Body K V

module _ {ℓ} {K V : Type ℓ} where
  -- The trail after a body: a closed block leaves nothing.
  abbrev after : Body K V → Trail K V → Trail K V
  after finish t = t
  after (bind k v b) t = after b (some (k, v) ∷ t)
  after (block inner b) t = after b t

  leave-after : (b : Body K V) (t : Trail K V) → (leave (after b t)).1 ≡ (leave t).1
  leave-after finish t = refl
  leave-after (bind k v b) t = leave-after b (some (k, v) ∷ t)
  leave-after (block inner b) t = leave-after b t

module _ {ℓ} {K V : Type ℓ} (dec : Discrete K) where
  unfoldable pub run : Body K V → ScopedMap K V → ScopedMap K V
  run finish m = m
  run (bind k v b) m = run b (insert dec m k v).0
  run (block inner b) m = run b (exit_scope dec (run inner (enter_scope m))).1

  -- To run a body and leave its scope gives a map for the trail that was there before.
  run-Represents :
      (b : Body K V) (m : ScopedMap K V) (t : Trail K V)
      → Represents dec m t
      → Represents dec (run b m) (after b t)
  unfolding run
  run-Represents finish m t r = r
  run-Represents (bind k v b) m t r =
      run-Represents b _ (some (k, v) ∷ t) (insert-Represents dec m t k v r).0
  run-Represents (block inner b) m t r = run-Represents b _ t (
      subst (Represents dec _) (leave-after inner (none ∷ t))
        (exit_scope-Represents dec _ _
          (run-Represents inner _ (none ∷ t) (enter_scope-Represents dec m t r).1)).1)

  -- Whatever a body of a scope binds, shadows or nests, every key reads the same after the scope is
  -- left as before it was entered.
  pub get-exit_scope-run :
      (b : Body K V) (m : ScopedMap K V) (t : Trail K V)
      → Represents dec m t
      → (k : K) → get dec (exit_scope dec (run b (enter_scope m))).1 k ≡ get dec m k
  unfolding run
  get-exit_scope-run b m t r k =
      get-latest dec _ t (run-Represents (block b finish) m t r) k ∙ sym (get-latest dec m t r k)
