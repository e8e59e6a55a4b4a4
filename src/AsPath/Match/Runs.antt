-- ===== src/AsPath/Match/Runs.antt =====
-- Runs of sets among the positions of as_path_match of nest/a-path.c, and what pm_mark marks.
use bird.Common.{
  ℕ, zero, suc, ◌+◌, ◌-◌, ◌≤◌, ◌<◌, ◌≡◌, ap, ◌∙◌, Bool, true, false, ltb, leb, ◌==◌, ◌||◌, ◌&&◌,
  List, [], ◌∷◌, length, if◌then◌else◌, arith, Bool-cases, inl, inr,
}
use bird.AsPath.Match.{
  Position, sp, asn, MaskItem, set_at, match_at, Marks, write, run_end, mark_run, next_index,
  pm_mark,
}

pub set_at-lt : (ps : List Position) (i : ℕ) → set_at ps i ≡ true → i < length ps
unfolding set_at
set_at-lt [] i h = absurd (ground arith)
set_at-lt (p ∷ ps) zero h = omega arith
set_at-lt (sp b ∷ ps) (suc i) h = omega (arith, set_at-lt ps i h)
set_at-lt (asn a ∷ ps) (suc i) h = omega (arith, set_at-lt ps i h)

pub match_at-lt :
    (ps : List Position) (item : MaskItem) (i : ℕ) → match_at ps item i ≡ true → i < length ps
unfolding match_at
match_at-lt [] item i h = absurd (ground arith)
match_at-lt (p ∷ ps) item zero h = omega arith
match_at-lt (p ∷ ps) item (suc i) h = omega (arith, match_at-lt ps item i h)

module _ (ps : List Position) where
  run_end-ge : (n j : ℕ) → j ≤ run_end ps n j
  unfolding run_end
  run_end-ge zero j = omega arith
  run_end-ge (suc n) j = elim (Bool-cases (set_at ps j)) [
    | inl e ↦ rw e (omega (arith, run_end-ge n (suc j)))
    | inr e ↦ rw e (omega arith)
  ]

  run_inside : (n j k : ℕ) → j ≤ k → k < run_end ps n j → set_at ps k ≡ true
  unfolding run_end
  run_inside zero j k le lt = absurd (omega arith)
  run_inside (suc n) j k le lt = elim (Bool-cases (set_at ps j)) [
    | inl e ↦ elim (Bool-cases (k == j)) [
      | inl same ↦ ap (set_at ps) (ground arith) ∙ e
      | inr other ↦ run_inside n (suc j) k (ground arith) (ground arith)
    ]
    | inr e ↦ absurd (ground arith)
  ]

  run_stops : (n j : ℕ) → length ps ≤ j + n → set_at ps (run_end ps n j) ≡ false
  unfolding run_end
  run_stops zero j le = elim (Bool-cases (set_at ps j)) [
    | inl e ↦ absurd (omega (arith, set_at-lt ps j e))
    | inr e ↦ e
  ]
  run_stops (suc n) j le = elim (Bool-cases (set_at ps j)) [
    | inl e ↦ rw e (run_stops n (suc j) (omega arith))
    | inr e ↦ rw e e
  ]

  -- The first position from `i` on that is no set.
  abbrev pub stop : ℕ → ℕ
  stop i = run_end ps (length ps - i) i

  pub stop-ge : (i : ℕ) → i ≤ stop i
  stop-ge i = run_end-ge (length ps - i) i

  pub stop-clear : (i : ℕ) → set_at ps (stop i) ≡ false
  stop-clear i = run_stops (length ps - i) i (omega arith)

  pub stop-inside : (i k : ℕ) → i ≤ k → k < stop i → set_at ps k ≡ true
  stop-inside i k le lt = run_inside (length ps - i) i k le lt

  pub stop-same : (i k : ℕ) → i ≤ k → k ≤ stop i → stop k ≡ stop i
  stop-same i k le end = elim (Bool-cases (ltb (stop i) (stop k))) [
    | inl e ↦ absurd (ground (arith, stop-inside k (stop i) end, stop-clear i))
    | inr e ↦ elim (Bool-cases (ltb (stop k) (stop i))) [
      | inl f ↦ absurd (ground (arith, stop-inside i (stop k), stop-ge k, stop-clear k))
      | inr f ↦ ground arith
    ]
  ]

  pub stop-le : (i : ℕ) → i ≤ length ps → stop i ≤ length ps
  stop-le i le = elim (Bool-cases (ltb (length ps) (stop i))) [
    | inl e ↦ absurd (ground (arith, stop-inside i (length ps) le, set_at-lt ps (length ps)))
    | inr e ↦ ground arith
  ]

  -- The positions that pm_mark marks at `i`.
  unfoldable pub next : ℕ → ℕ → Bool
  next i k = if set_at ps i then leb i k && leb k (stop i) else k == i + 1

  mark_run_lem :
      (n j : ℕ) (mark : ℕ → Bool) (k : ℕ)
      → mark_run ps n j mark k ≡ (leb j k && ltb k (run_end ps n j) || mark k)
  unfolding mark_run run_end
  mark_run_lem zero j mark k = ground arith
  mark_run_lem (suc n) j mark k = elim (Bool-cases (set_at ps j)) [
    | inl e ↦
        rw e (ground (arith, mark_run_lem n (suc j) (write mark j true) k, run_end-ge n (suc j)))
    | inr e ↦ rw e (ground arith)
  ]

  pub pm_mark_lem : (m : Marks) (i k : ℕ) → (pm_mark ps m i).mark k ≡ (next i k || m.mark k)
  unfolding pm_mark next next_index
  pm_mark_lem m i k = elim (Bool-cases (set_at ps i)) [
    | inl e ↦ rw e (ground (arith, mark_run_lem (length ps - i) i m.mark k, stop-ge i))
    | inr e ↦ rw e (ground arith)
  ]
