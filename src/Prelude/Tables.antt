-- ===== src/Prelude/Tables.antt =====
-- A table with a primary key: rows in the order of their keys' insertion, each under its key.
-- The names are those of an association list; `count`, `find?` and `map_values` are what
-- `SELECT count(*)`, `SELECT … LIMIT 1` and a bulk `UPDATE` read and write.
use Prim.Native.Nat.{ℕ, ◌+◌, ◌≤◌}
use mathlib.Core.Path.{◌≡◌, refl}
use mathlib.Core.Bool.{Bool, true, false, ◌&&◌}
use mathlib.Core.Option
use mathlib.Core.Option.{Option, none, some}
use mathlib.Core.List.{List, [], ◌∷◌}
use native.Mathlib.Omega.{arith}
use mathlib.Core.Logic.{inl, inr}
use tag2now_be.Prelude.Tests.{◌==◌, if◌then◌else◌, to_ℕ, Bool-cases}
use tag2now_be.Prelude.Lists.{All, All-both, All-sort_by, All-unsort_by, count_of, sort_by}

abbrev pub Table {ℓ} : Type ℓ → Type ℓ
Table V = List (ℕ × V)

module _ {ℓ} {V : Type ℓ} where
  abbrev pub lookup : ℕ → Table V → Option V
  lookup k [] = none
  lookup k ((j, v) ∷ t) = if j == k then some v else lookup k t

  -- Writes the row of a key in place, or adds it at the end.
  unfoldable pub insert : ℕ → V → Table V → Table V
  insert k v [] = (k, v) ∷ []
  insert k v (e ∷ t) = if e.0 == k then (k, v) ∷ t else e ∷ insert k v t

  -- `DELETE … WHERE key = k`.
  unfoldable pub erase : ℕ → Table V → Table V
  erase k [] = []
  erase k ((j, v) ∷ t) = let rest = erase k t in if j == k then rest else (j, v) ∷ rest

  unfoldable pub count : (V → Bool) → Table V → ℕ
  count p [] = 0
  count p ((_, v) ∷ t) = to_ℕ (p v) + count p t

  -- The first row that passes, with its key.
  unfoldable pub find? : (V → Bool) → Table V → Option (ℕ × V)
  find? p [] = none
  find? p ((k, v) ∷ t) = if p v then some (k, v) else find? p t

  -- Every row that passes, with its key.
  unfoldable pub select : (ℕ → V → Bool) → Table V → Table V
  select p [] = []
  select p ((k, v) ∷ t) = let rest = select p t in if p k v then (k, v) ∷ rest else rest

  unfoldable pub map_values : (ℕ → V → V) → Table V → Table V
  map_values f [] = []
  map_values f ((k, v) ∷ t) = (k, f k v) ∷ map_values f t

  -- No key has two rows: the primary key's constraint.
  abbrev pub IsKeyed : Table V → Type ℓ
  IsKeyed [] = Unit
  IsKeyed ((k, v) ∷ t) = (lookup k t ≡ none) × IsKeyed t

  pub lookup-insert :
      (k j : ℕ) (v : V) (t : Table V)
      → lookup j (insert k v t) ≡ (if k == j then some v else lookup j t)
  unfolding insert
  lookup-insert k j v [] = refl
  lookup-insert k j v (e ∷ t) = ground (arith, lookup-insert k j v t)

  pub lookup-erase :
      (k j : ℕ) (t : Table V) → lookup j (erase k t) ≡ (if k == j then none else lookup j t)
  unfolding erase
  lookup-erase k j [] = ground arith
  lookup-erase k j ((i, v) ∷ t) = ground (arith, lookup-erase k j t)

  pub lookup-map_values :
      (f : ℕ → V → V) (k : ℕ) (t : Table V)
      → lookup k (map_values f t) ≡ Option.map (f k) (lookup k t)
  unfolding map_values
  lookup-map_values f k [] = refl
  lookup-map_values f k ((j, v) ∷ t) = ground (arith, lookup-map_values f k t)

  pub insert-IsKeyed : (k : ℕ) (v : V) (t : Table V) → IsKeyed t → IsKeyed (insert k v t)
  unfolding insert
  insert-IsKeyed k v [] h = (refl, tt)
  insert-IsKeyed k v (e ∷ t) h = ground (arith, insert-IsKeyed k v t h.1, lookup-insert k e.0 v t)

  pub map_values-IsKeyed : (f : ℕ → V → V) (t : Table V) → IsKeyed t → IsKeyed (map_values f t)
  unfolding map_values
  map_values-IsKeyed f [] h = tt
  map_values-IsKeyed f ((k, v) ∷ t) h =
      ground (arith, map_values-IsKeyed f t h.1, lookup-map_values f k t)

  -- A row that is written over changes the count by what the two rows add.
  pub count-insert :
      (p : V → Bool) (k : ℕ) (old v : V) (t : Table V)
      → lookup k t ≡ some old
      → count p (insert k v t) + to_ℕ (p old) ≡ count p t + to_ℕ (p v)
  unfolding insert count
  count-insert p k old v [] e = ground arith
  count-insert p k old v (x ∷ t) e = ground (arith, count-insert p k old v t)

  pub count-insert_new :
      (p : V → Bool) (k : ℕ) (v : V) (t : Table V)
      → lookup k t ≡ none
      → count p (insert k v t) ≡ count p t + to_ℕ (p v)
  unfolding insert count
  count-insert_new p k v [] e = ground arith
  count-insert_new p k v (x ∷ t) e = ground (arith, count-insert_new p k v t)

  -- A table without a row that passes counts none, and the other way round.
  pub count-find_none : (p : V → Bool) (t : Table V) → find? p t ≡ none → count p t ≡ 0
  unfolding find? count
  count-find_none p [] e = refl
  count-find_none p ((k, v) ∷ t) e = ground (arith, count-find_none p t)

  pub find-lookup :
      (p : V → Bool) (t : Table V) (k : ℕ) (v : V)
      → IsKeyed t
      → find? p t ≡ some (k, v)
      → (lookup k t ≡ some v) × (p v ≡ true)
  unfolding find?
  find-lookup p [] k v h e = ground arith
  find-lookup p ((j, w) ∷ t) k v h e = ground (arith, find-lookup p t k v h.1)

  pub count-find_some :
      (p : V → Bool) (t : Table V) (k : ℕ) (v : V) → find? p t ≡ some (k, v) → 1 ≤ count p t
  unfolding find? count
  count-find_some p [] k v e = ground arith
  count-find_some p ((j, w) ∷ t) k v e = ground (arith, count-find_some p t k v)

  -- The first row that passes is the new one, if none did before.
  pub find-insert_new :
      (p : V → Bool) (k : ℕ) (v : V) (t : Table V)
      → find? p t ≡ none
      → lookup k t ≡ none
      → p v ≡ true
      → find? p (insert k v t) ≡ some (k, v)
  unfolding find? insert
  find-insert_new p k v [] e fresh h = ground arith
  find-insert_new p k v ((j, w) ∷ t) e fresh h = ground (arith, find-insert_new p k v t)

  -- A stricter test counts no more rows.
  pub count-le :
      (p q : V → Bool) (t : Table V) → ((v : V) → p v ≡ true → q v ≡ true) → count p t ≤ count q t
  unfolding count
  count-le p q [] h = omega arith
  count-le p q ((k, v) ∷ t) h = ground (arith, count-le p q t h, h v)

  pub count-map_values_same :
      (p : V → Bool) (f : ℕ → V → V) (t : Table V)
      → ((k : ℕ) (v : V) → p (f k v) ≡ p v)
      → count p (map_values f t) ≡ count p t
  unfolding count map_values
  count-map_values_same p f [] h = refl
  count-map_values_same p f ((k, v) ∷ t) h = ground (arith, count-map_values_same p f t h, h k v)

  pub count-map_values_none :
      (p : V → Bool) (f : ℕ → V → V) (t : Table V)
      → ((k : ℕ) (v : V) → p (f k v) ≡ false)
      → count p (map_values f t) ≡ 0
  unfolding count map_values
  count-map_values_none p f [] h = refl
  count-map_values_none p f ((k, v) ∷ t) h = ground (arith, count-map_values_none p f t h, h k v)

  -- The rows of a key among those that pass: the table's own row, if it passes.
  abbrev pub passing : (ℕ → V → Bool) → ℕ → Option V → ℕ
  passing p k none = 0
  passing p k (some v) = to_ℕ (p k v)

  pub count_of-select :
      (p : ℕ → V → Bool) (k : ℕ) (t : Table V)
      → IsKeyed t
      → count_of (λ (e : ℕ × V). e.0 == k) (select p t) ≡ passing p k (lookup k t)
  unfolding count_of select
  count_of-select p k [] h = refl
  count_of-select p k ((j, v) ∷ t) h = ground (arith, count_of-select p k t h.1)

  pub All-select :
      (p : ℕ → V → Bool) (t : Table V) → All (λ (e : ℕ × V). p e.0 e.1 ≡ true) (select p t)
  unfolding select
  All-select p [] = tt
  All-select p ((k, v) ∷ t) = elim (Bool-cases (p k v)) [
    | inl e ↦ rw e (e, All-select p t)
    | inr e ↦ rw e (All-select p t)
  ]

  -- What is left of an optional row by a test.
  abbrev pub only_if : (V → Bool) → Option V → Option V
  only_if p none = none
  only_if p (some v) = if p v then some v else none

  pub lookup-select_absent :
      (p : ℕ → V → Bool) (k : ℕ) (t : Table V) → lookup k t ≡ none → lookup k (select p t) ≡ none
  unfolding select
  lookup-select_absent p k [] h = refl
  lookup-select_absent p k ((j, v) ∷ t) h = ground (arith, lookup-select_absent p k t)

  pub lookup-select :
      (p : V → Bool) (k : ℕ) (t : Table V)
      → IsKeyed t
      → lookup k (select (λ _. p) t) ≡ only_if p (lookup k t)
  unfolding select
  lookup-select p k [] h = refl
  lookup-select p k ((j, v) ∷ t) h =
      ground (arith, lookup-select p k t h.1, lookup-select_absent (λ _. p) k t)

  pub select-IsKeyed : (p : ℕ → V → Bool) (t : Table V) → IsKeyed t → IsKeyed (select p t)
  unfolding select
  select-IsKeyed p [] h = tt
  select-IsKeyed p ((k, v) ∷ t) h =
      ground (arith, select-IsKeyed p t h.1, lookup-select_absent p k t h.0)

  -- Rows that a test keeps count as before; a test that no kept row passes counts none.
  pub count-select_kept :
      (p q : V → Bool) (t : Table V)
      → ((v : V) → q v ≡ true → p v ≡ true)
      → count q (select (λ _. p) t) ≡ count q t
  unfolding count select
  count-select_kept p q [] h = refl
  count-select_kept p q ((k, v) ∷ t) h = ground (arith, count-select_kept p q t h, h v)

  pub count-select_none :
      (p q : V → Bool) (t : Table V)
      → ((v : V) → p v ≡ true → q v ≡ false)
      → count q (select (λ _. p) t) ≡ 0
  unfolding count select
  count-select_none p q [] h = refl
  count-select_none p q ((k, v) ∷ t) h = ground (arith, count-select_none p q t h, h v)

  pub erase-IsKeyed : (k : ℕ) (t : Table V) → IsKeyed t → IsKeyed (erase k t)
  unfolding erase
  erase-IsKeyed k [] h = tt
  erase-IsKeyed k ((j, v) ∷ t) h = ground (arith, erase-IsKeyed k t h.1, lookup-erase k j t)

  pub count-le_select : (p q : V → Bool) (t : Table V) → count q (select (λ _. p) t) ≤ count q t
  unfolding count select
  count-le_select p q [] = omega arith
  count-le_select p q ((k, v) ∷ t) = ground (arith, count-le_select p q t)

  -- What holds of each key's row holds of each row.
  pub All-lookup {κ} :
      (P : ℕ × V → Type κ) (t : Table V)
      → IsKeyed t
      → ((k : ℕ) (v : V) → lookup k t ≡ some v → P (k, v))
      → All P t
  All-lookup P [] h f = tt
  All-lookup P ((j, v) ∷ t) h f =
      (f j v (ground arith), All-lookup P t h.1 (λ k w e. f k w (ground (arith, h.0))))

  pub count_of-select_key :
      (p : V → Bool) (q : V → Bool) (k : ℕ) (t : Table V)
      → IsKeyed t
      → count_of (λ (e : ℕ × V). q e.1 && e.0 == k) (select (λ _. p) t)
        ≡ passing (λ _ v. p v && q v) k (lookup k t)
  unfolding count_of select
  count_of-select_key p q k [] h = refl
  count_of-select_key p q k ((j, v) ∷ t) h = ground (arith, count_of-select_key p q k t h.1)

  pub All-select_of {κ} :
      (P : ℕ × V → Type κ) (p : ℕ → V → Bool) (t : Table V) → All P t → All P (select p t)
  unfolding select
  All-select_of P p [] h = tt
  All-select_of P p ((k, v) ∷ t) h = elim (Bool-cases (p k v)) [
    | inl e ↦ rw e (h.0, All-select_of P p t h.1)
    | inr e ↦ rw e (All-select_of P p t h.1)
  ]

  -- What holds of the rows that a query finds holds of each row of the table that passes.
  All-select_lookup {κ} :
      (P : ℕ × V → Type κ) (p : V → Bool) (t : Table V) (k : ℕ) (v : V)
      → All P (select (λ _. p) t)
      → lookup k t ≡ some v
      → p v ≡ true
      → P (k, v)
  unfolding select
  All-select_lookup P p [] k v h e q = absurd (ground arith)
  All-select_lookup P p ((j, w) ∷ t) k v h e q = elim (Bool-cases (j == k)) [
    | inl same ↦
        let key : j ≡ k = ground arith in
        let row : w ≡ v = ground arith in
        let passes : p w ≡ true = rw row q in
        let whole = rw passes at h in rw (← key, ← row) whole.0
    | inr other ↦ elim (Bool-cases (p w)) [
      | inl passes ↦
          let whole = rw passes at h in All-select_lookup P p t k v whole.1 (ground arith) q
      | inr fails ↦ let whole = rw fails at h in All-select_lookup P p t k v whole (ground arith) q
    ]
  ]

  pub All-found_lookup {κ} :
      (P : ℕ × V → Type κ) (before : ℕ × V → ℕ × V → Bool) (p : V → Bool) (t : Table V) (k : ℕ)
      (v : V)
      → All P (sort_by before (select (λ _. p) t))
      → lookup k t ≡ some v
      → p v ≡ true
      → P (k, v)
  All-found_lookup P before p t k v h e q =
      All-select_lookup P p t k v (All-unsort_by before P (select (λ _. p) t) h) e q

  -- The rows that a query finds are rows of the table that pass.
  pub All-found :
      (before : ℕ × V → ℕ × V → Bool) (p : V → Bool) (t : Table V)
      → IsKeyed t
      → All (λ e. (lookup e.0 t ≡ some e.1) × (p e.1 ≡ true)) (sort_by before (select (λ _. p) t))
  All-found before p t keyed =
      All-sort_by before (λ e. (lookup e.0 t ≡ some e.1) × (p e.1 ≡ true)) (select (λ _. p) t)
        (All-both (λ e. lookup e.0 t ≡ some e.1) (λ e. p e.1 ≡ true) (select (λ _. p) t)
          (All-select_of (λ e. lookup e.0 t ≡ some e.1) (λ _. p) t
            (All-lookup (λ e. lookup e.0 t ≡ some e.1) t keyed (λ k v e. e)))
          (All-select (λ _. p) t))
