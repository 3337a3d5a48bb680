-- ===== src/Base/Assoc.antt =====
-- JavaScript's `Map` with text keys, as an association list in insertion order.
use text.Mathlib.Text.{◌==◌ as ◌=ₛ◌}
use text.Mathlib.TextEquality.{eq_iff}
use Prim.Native.String.{String}
use remitlend.Base.{◌≡◌, refl, Bool, Option, none, some, List, [], ◌∷◌, if◌then◌else◌, arith}

abbrev pub Assoc {ℓ} : Type ℓ → Type ℓ
Assoc V = List (String × V)

infix 50 ◌same◌
abbrev pub ◌same◌ : String → String → Bool
s same t = s =ₛ t

module _ {ℓ} {V : Type ℓ} where
  abbrev pub lookup : String → Assoc V → Option V
  lookup k [] = none
  lookup k ((j, v) ∷ m) = if j same k then some v else lookup k m

  -- `map.set(k, v)`: a key that is there keeps its place.
  abbrev pub insert : String → V → Assoc V → Assoc V
  insert k v [] = (k, v) ∷ []
  insert k v ((j, w) ∷ m) = if j same k then (k, v) ∷ m else (j, w) ∷ insert k v m

  -- `map.delete(k)`.
  abbrev pub erase : String → Assoc V → Assoc V
  erase k [] = []
  erase k ((j, w) ∷ m) = if j same k then erase k m else (j, w) ∷ erase k m

  pub lookup-insert :
      (k j : String) (v : V) (m : Assoc V)
      → lookup j (insert k v m) ≡ (if k same j then some v else lookup j m)
  lookup-insert k j v [] = refl
  lookup-insert k j v ((i, w) ∷ m) =
      ground (arith, eq_iff k j, eq_iff i k, eq_iff i j, lookup-insert k j v m)

  pub lookup-erase :
      (k j : String) (m : Assoc V) → lookup j (erase k m) ≡ (if k same j then none else lookup j m)
  lookup-erase k j [] = ground arith
  lookup-erase k j ((i, w) ∷ m) =
      ground (arith, eq_iff k j, eq_iff i k, eq_iff i j, lookup-erase k j m)
