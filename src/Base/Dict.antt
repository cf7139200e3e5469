-- ===== src/Base/Dict.antt =====
-- Python's `dict` with text keys, in insertion order.
use phantasm.Base.Tests.{if◌then◌else◌}
use phantasm.Base.Text.{str_eq}
use Prim.Native.String.{String}
use mathlib.Core.Path.{◌≡◌, refl}
use mathlib.Core.Bool.{Bool, true, false}
use mathlib.Core.Option.{Option, none, some}
use mathlib.Core.List.{List, [], ◌∷◌}
use native.Mathlib.Omega.{arith}
use text.Mathlib.TextEquality.{eq_iff}

abbrev pub Dict {ℓ} : Type ℓ → Type ℓ
Dict V = List (String × V)

module _ {ℓ} {V : Type ℓ} where
  -- `d.get(k)`
  unfoldable pub lookup : String → Dict V → Option V
  lookup k [] = none
  lookup k ((j, v) ∷ d) = if str_eq j k then some v else lookup k d

  -- `d[k] = v`: an old key keeps its place
  unfoldable pub insert : String → V → Dict V → Dict V
  insert k v [] = (k, v) ∷ []
  insert k v ((j, w) ∷ d) = if str_eq j k then (j, v) ∷ d else (j, w) ∷ insert k v d

  -- `d.pop(k, None)`: no key is there twice, so all that match go
  unfoldable pub erase : String → Dict V → Dict V
  erase k [] = []
  erase k ((j, w) ∷ d) = let rest = erase k d in if str_eq j k then rest else (j, w) ∷ rest

  -- `k in d`
  unfoldable pub contains : String → Dict V → Bool
  unfolding lookup
  contains k d = elim (lookup k d) [ none ↦ false | some _ ↦ true ]

  -- `d.update(e)`, and `{**d, **e}`
  unfoldable pub update : Dict V → Dict V → Dict V
  update d [] = d
  update d ((k, v) ∷ e) = update (insert k v d) e

  pub lookup-insert :
      (k j : String) (v : V) (d : Dict V)
      → lookup j (insert k v d) ≡ (if str_eq k j then some v else lookup j d)
  unfolding lookup insert
  lookup-insert k j v [] = refl
  lookup-insert k j v ((i, w) ∷ d) =
      ground (arith, eq_iff k j, eq_iff i k, eq_iff i j, lookup-insert k j v d)

  pub lookup-erase :
      (k j : String) (d : Dict V) → lookup j (erase k d) ≡ (if str_eq k j then none else lookup j d)
  unfolding lookup erase
  lookup-erase k j [] = ground arith
  lookup-erase k j ((i, w) ∷ d) =
      ground (arith, lookup-erase k j d, eq_iff i k, eq_iff i j, eq_iff k j)

  pub lookup-update :
      (k : String) (d e : Dict V) → lookup k e ≡ none → lookup k (update d e) ≡ lookup k d
  unfolding update lookup
  lookup-update k d [] absent = refl
  lookup-update k d ((j, v) ∷ e) absent =
      let step = lookup-update k (insert j v d) e in
      ground (arith, absent, step, lookup-insert j k v d)

pub ruleset dict_laws = (lookup-insert, lookup-erase)
