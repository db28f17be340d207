-- ===== src/Common/Latest.antt =====
-- What a list of options says: whether one is given, and what the last one that has a say says.
use mathlib.Core.Bool.{Bool, false, ◌||◌}
use mathlib.Core.Option.{Option, none, some}
use mathlib.Core.List.{List, [], ◌∷◌}

module _ {ℓ} {O : Type ℓ} where
  abbrev pub given : (O → Bool) → List O → Bool
  given p [] = false
  given p (o ∷ os) = p o || given p os

  abbrev pub latest {κ} : {A : Type κ} → (O → Option A) → A → List O → A
  latest f a [] = a
  latest f a (o ∷ os) = latest f (elim (f o) [ none ↦ a | some b ↦ b ]) os
