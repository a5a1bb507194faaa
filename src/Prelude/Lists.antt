-- ===== src/Prelude/Lists.antt =====
-- Lists measured by native numbers, and objects with text keys as association lists.
use Prim.Native.Nat.{ℕ, suc}
use Prim.Native.String.{String}
use mathlib.Core.Path.{◌≡◌, refl}
use mathlib.Core.Logic.{◌≢◌}
use mathlib.Core.Bool.{Bool, true, false, ◌&&◌}
use mathlib.Core.List.{List, [], ◌∷◌}
use mathlib.Core.Option.{Option, none, some}
use native.Mathlib.Omega.{arith}
use text.Mathlib.TextEquality.{eq_iff}
use hunger_platform.Prelude.Tests.{str_eq, if◌then◌else◌}

module _ {ℓ} {A : Type ℓ} where
  abbrev pub length : List A → ℕ
  length [] = 0
  length (x ∷ xs) = suc (length xs)

  abbrev pub all : (A → Bool) → List A → Bool
  all p [] = true
  all p (x ∷ xs) = p x && all p xs

pub str_eq-false : (s t : String) → s ≢ t → str_eq s t ≡ false
str_eq-false s t h = ground (arith, eq_iff s t)

-- An object of the program: its own keys with their values, the first entry of a key being read.
module _ {ℓ} {V : Type ℓ} where
  -- `o[key]`, with `none` for a key that is not there.
  unfoldable pub lookup : String → List (String × V) → Option V
  lookup key [] = none
  lookup key ((name, value) ∷ o) = if str_eq name key then some value else lookup key o

  -- `delete o[key]`
  unfoldable pub remove : String → List (String × V) → List (String × V)
  remove key [] = []
  remove key ((name, value) ∷ o) =
      if str_eq name key then remove key o else (name, value) ∷ remove key o

  pub lookup-remove :
      (gone key : String) (o : List (String × V))
      → lookup key (remove gone o) ≡ (if str_eq gone key then none else lookup key o)
  unfolding lookup remove
  lookup-remove gone key [] = ground arith
  lookup-remove gone key ((name, value) ∷ o) =
      ground (arith, lookup-remove gone key o, eq_iff gone key, eq_iff name gone, eq_iff name key)

  -- `o[key] = value`: a key that is there keeps its place.
  unfoldable pub insert : String → V → List (String × V) → List (String × V)
  insert key value [] = (key, value) ∷ []
  insert key value ((name, old) ∷ o) =
      if str_eq name key then (name, value) ∷ o else (name, old) ∷ insert key value o

  pub lookup-insert :
      (set key : String) (value : V) (o : List (String × V))
      → lookup key (insert set value o) ≡ (if str_eq set key then some value else lookup key o)
  unfolding lookup insert
  lookup-insert set key value [] = refl
  lookup-insert set key value ((name, old) ∷ o) =
      ground
        (arith, lookup-insert set key value o, eq_iff set key, eq_iff name set, eq_iff name key)
