-- ===== src/Common/Map.antt =====
-- Rust's HashMap as an association list with distinct keys.
use mathlib.Core.Path.{◌≡◌, refl, subst}
use mathlib.Core.Bool.{Bool}
use mathlib.Core.Logic.{inl, inr}
use mathlib.Core.Option.{Option, none, some}
use mathlib.Core.List.{List, [], ◌∷◌}
use native.Mathlib.Omega.{arith}
use digital_wellbeing.Common.Tests.{if◌then◌else◌, Bool-cases}
use digital_wellbeing.Common.Eq.{Eq}

abbrev pub keep_if {ℓ} : {V : Type ℓ} → (V → Bool) → Option V → Option V
keep_if p none = none
keep_if p (some v) = if p v then some v else none

module _ {ℓ κ} {K : Type ℓ} {V : Type κ} (e : Eq K) where
  abbrev pub get : K → List (K × V) → Option V
  get k [] = none
  get k ((j, v) ∷ m) = if e.beq j k then some v else get k m

  abbrev pub remove : K → List (K × V) → List (K × V)
  remove k [] = []
  remove k ((j, v) ∷ m) = if e.beq j k then remove k m else (j, v) ∷ remove k m

  abbrev pub insert : K → V → List (K × V) → List (K × V)
  insert k v m = (k, v) ∷ remove k m

  pub get-remove :
      (k j : K) (m : List (K × V)) → get j (remove k m) ≡ (if e.beq k j then none else get j m)
  get-remove k j [] = ground arith
  get-remove k j ((i, v) ∷ m) =
      ground (arith, get-remove k j m, e.beq_iff k j, e.beq_iff i k, e.beq_iff i j)

  pub get-insert :
      (k j : K) (v : V) (m : List (K × V))
      → get j (insert k v m) ≡ (if e.beq k j then some v else get j m)
  get-insert k j v m = ground (arith, get-remove k j m)

  -- No key stands twice.
  abbrev pub IsMap : List (K × V) → Type κ
  IsMap [] = Unit
  IsMap ((k, v) ∷ m) = (get k m ≡ none) × IsMap m

  pub remove-IsMap : (k : K) (m : List (K × V)) → IsMap m → IsMap (remove k m)
  remove-IsMap k [] h = tt
  remove-IsMap k ((j, v) ∷ m) h = elim (Bool-cases (e.beq j k)) [
    | inl same ↦ rw same (remove-IsMap k m h.1)
    | inr other ↦ rw other (ground (arith, get-remove k j m), remove-IsMap k m h.1)
  ]

  pub insert-IsMap : (k : K) (v : V) (m : List (K × V)) → IsMap m → IsMap (insert k v m)
  insert-IsMap k v m h = (ground (arith, get-remove k k m, e.beq_iff k k), remove-IsMap k m h)

  -- `HashMap::retain`, by a test of the value.
  abbrev pub retain : (V → Bool) → List (K × V) → List (K × V)
  retain p [] = []
  retain p ((k, v) ∷ m) = if p v then (k, v) ∷ retain p m else retain p m

  pub get-retain :
      (p : V → Bool) (k : K) (m : List (K × V)) → IsMap m → get k (retain p m) ≡ keep_if p (get k m)
  get-retain p k [] h = refl
  get-retain p k ((j, v) ∷ m) h = elim (Bool-cases (p v)) [
    | inl kept ↦ rw kept (ground (arith, get-retain p k m h.1))
    | inr gone ↦ rw gone (elim (Bool-cases (e.beq j k)) [
      | inl same ↦
          let absent : get k m ≡ none = subst (λ i. get i m ≡ none) ((e.beq_iff j k).0 same) h.0 in
          rw (same, get-retain p k m h.1, absent) (simp gone)
      | inr other ↦ rw (other, get-retain p k m h.1)
    ])
  ]

  pub retain-IsMap : (p : V → Bool) (m : List (K × V)) → IsMap m → IsMap (retain p m)
  retain-IsMap p [] h = tt
  retain-IsMap p ((j, v) ∷ m) h = elim (Bool-cases (p v)) [
    | inl kept ↦ rw kept (ground (arith, get-retain p j m h.1), retain-IsMap p m h.1)
    | inr gone ↦ rw gone (retain-IsMap p m h.1)
  ]
