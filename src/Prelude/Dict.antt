-- ===== src/Prelude/Dict.antt =====
-- A Python dict with text keys, in insertion order.
use Prim.Native.String.{String}
use mathlib.Core.Path.{◌≡◌, refl}
use mathlib.Core.Logic.{inl, inr}
use mathlib.Core.Bool.{Bool, false}
use mathlib.Core.Option.{Option, none, some}
use mathlib.Core.List.{List, [], ◌∷◌}
use native.Mathlib.Omega.{arith}
use text.Mathlib.Text.{◌==◌}
use text.Mathlib.TextEquality.{eq_iff}
use tag2now_be.Prelude.Lists.{All}
use tag2now_be.Prelude.Tests.{if◌then◌else◌, is_some, Bool-cases}

abbrev pub Dict {ℓ} : Type ℓ → Type ℓ
Dict V = List (String × V)

module _ {ℓ} {V : Type ℓ} where
  -- `d.get(k)`.
  unfoldable pub lookup : String → Dict V → Option V
  lookup k [] = none
  lookup k ((j, v) ∷ d) = if j == k then some v else lookup k d

  -- `d[k] = v`.
  unfoldable pub insert : String → V → Dict V → Dict V
  insert k v [] = (k, v) ∷ []
  insert k v ((j, w) ∷ d) = if j == k then (k, v) ∷ d else (j, w) ∷ insert k v d

  -- `d.pop(k, None)`.
  unfoldable pub erase : String → Dict V → Dict V
  erase k [] = []
  erase k ((j, v) ∷ d) = let rest = erase k d in if j == k then rest else (j, v) ∷ rest

  -- The entries that pass.
  unfoldable pub keep : (String → V → Bool) → Dict V → Dict V
  keep p [] = []
  keep p ((j, v) ∷ d) = let rest = keep p d in if p j v then (j, v) ∷ rest else rest

  pub lookup-insert :
      (k j : String) (v : V) (d : Dict V)
      → lookup j (insert k v d) ≡ (if k == j then some v else lookup j d)
  unfolding lookup insert
  lookup-insert k j v [] = refl
  lookup-insert k j v ((i, w) ∷ d) =
      ground (arith, eq_iff k j, eq_iff i k, eq_iff i j, lookup-insert k j v d)

  pub lookup-erase :
      (k j : String) (d : Dict V) → lookup j (erase k d) ≡ (if k == j then none else lookup j d)
  unfolding lookup erase
  lookup-erase k j [] = ground arith
  lookup-erase k j ((i, w) ∷ d) =
      ground (arith, eq_iff k j, eq_iff i k, eq_iff i j, lookup-erase k j d)

  -- Each key has one entry, as in every Python dict.
  abbrev pub IsKeyed : Dict V → Type ℓ
  IsKeyed [] = Unit
  IsKeyed ((k, _) ∷ d) = (lookup k d ≡ none) × IsKeyed d

  pub insert-IsKeyed : (k : String) (v : V) (d : Dict V) → IsKeyed d → IsKeyed (insert k v d)
  unfolding insert lookup
  insert-IsKeyed k v [] h = (refl, tt)
  insert-IsKeyed k v ((j, w) ∷ d) h =
      ground (arith, eq_iff j k, insert-IsKeyed k v d h.1, lookup-insert k j v d, eq_iff k j)

  pub erase-IsKeyed : (k : String) (d : Dict V) → IsKeyed d → IsKeyed (erase k d)
  unfolding erase
  erase-IsKeyed k [] h = tt
  erase-IsKeyed k ((j, v) ∷ d) h = ground (arith, erase-IsKeyed k d h.1, lookup-erase k j d)

  -- Whether there is a value that passes.
  abbrev pub passes_value : (V → Bool) → Option V → Bool
  passes_value p none = false
  passes_value p (some v) = p v

  pub lookup-keep-absent :
      (p : String → V → Bool) (k : String) (d : Dict V)
      → lookup k d ≡ none
      → lookup k (keep p d) ≡ none
  unfolding lookup keep
  lookup-keep-absent p k [] h = refl
  lookup-keep-absent p k ((j, v) ∷ d) h = ground (arith, lookup-keep-absent p k d)

  pub keep-IsKeyed : (p : String → V → Bool) (d : Dict V) → IsKeyed d → IsKeyed (keep p d)
  unfolding keep
  keep-IsKeyed p [] h = tt
  keep-IsKeyed p ((j, v) ∷ d) h = ground (arith, keep-IsKeyed p d h.1, lookup-keep-absent p j d h.0)

  pub lookup-keep :
      (p : V → Bool) (k : String) (d : Dict V)
      → IsKeyed d
      → is_some (lookup k (keep (λ _. p) d)) ≡ passes_value p (lookup k d)
  unfolding lookup keep
  lookup-keep p k [] h = refl
  lookup-keep p k ((j, v) ∷ d) h =
      ground (arith, eq_iff j k, lookup-keep p k d h.1, lookup-keep-absent (λ _. p) k d)

  module _ {κ} (P : String × V → Type κ) where
    pub All-insert : (k : String) (v : V) (d : Dict V) → P (k, v) → All P d → All P (insert k v d)
    unfolding insert
    All-insert k v [] p h = (p, tt)
    All-insert k v ((j, w) ∷ d) p h = elim (Bool-cases (j == k)) [
      | inl same ↦ rw same (p, h.1)
      | inr other ↦ rw other (h.0, All-insert k v d p h.1)
    ]

    pub All-erase : (k : String) (d : Dict V) → All P d → All P (erase k d)
    unfolding erase
    All-erase k [] h = tt
    All-erase k ((j, v) ∷ d) h = elim (Bool-cases (j == k)) [
      | inl same ↦ rw same (All-erase k d h.1)
      | inr other ↦ rw other (h.0, All-erase k d h.1)
    ]

    pub All-keep : (p : String → V → Bool) (d : Dict V) → All P d → All P (keep p d)
    unfolding keep
    All-keep p [] h = tt
    All-keep p ((j, v) ∷ d) h = elim (Bool-cases (p j v)) [
      | inl kept ↦ rw kept (h.0, All-keep p d h.1)
      | inr dropped ↦ rw dropped (All-keep p d h.1)
    ]

    -- What holds of each lookup's answer holds of each entry.
    pub All-lookup :
        (d : Dict V) → IsKeyed d → ((k : String) (v : V) → lookup k d ≡ some v → P (k, v)) → All P d
    unfolding lookup
    All-lookup [] h f = tt
    All-lookup ((j, v) ∷ d) h f = (
      f j v (ground (arith, eq_iff j j)),
      All-lookup d h.1 (λ k w e. f k w (ground (arith, eq_iff j k, h.0))),
    )
