-- ===== src/AsPath/Match/Masks.antt =====
-- The state machine of as_path_match of nest/a-path.c: positions are states, the items of a mask
-- its input.
use bird.Common.{ℕ, ◌≤◌, ◌≡◌, Bool, true, false, List, [], ◌∷◌, length, arith}
use bird.AsPath.Match.{Position, MaskItem, pm_asterisk, pm_loop}
use bird.AsPath.Match.Chains.{Chain}

-- The items that the label `step` handles.
unfoldable pub is_step : MaskItem → Bool
is_step pm_asterisk = false
is_step pm_loop = false
is_step _ = true

-- The state machine: from a position the mask leads to the one behind the last. An asterisk leads
-- to any later position, a loop lets the next step repeat, and a loop at the end accepts nothing.
pub data Accepts (ps : List Position) : Bool → List MaskItem → ℕ → Type 0 where
  done : {loop : Bool} {i : ℕ} → i ≡ length ps → Accepts ps loop [] i
  star :
      {loop : Bool} {mask : List MaskItem} {i k : ℕ}
      → i ≤ k
      → k ≤ length ps
      → Accepts ps loop mask k
      → Accepts ps loop (pm_asterisk ∷ mask) i
  flag :
      {loop : Bool} {item : MaskItem} {mask : List MaskItem} {i : ℕ}
      → Accepts ps true (item ∷ mask) i
      → Accepts ps loop (pm_loop ∷ item ∷ mask) i
  step :
      {loop : Bool} {item : MaskItem} {mask : List MaskItem} {i k : ℕ}
      → is_step item ≡ true
      → Chain ps item loop i k
      → Accepts ps false mask k
      → Accepts ps loop (item ∷ mask) i

module _ (ps : List Position) where
  pub flag_accepts :
      (loop : Bool) (item : MaskItem) (mask : List MaskItem) (i : ℕ)
      → Accepts ps loop (pm_loop ∷ item ∷ mask) i
      → Accepts ps true (item ∷ mask) i
  unfolding is_step
  flag_accepts loop item mask i (flag a) = a
  flag_accepts loop item mask i (step e c a) = absurd (ground arith)

  pub step_accepts :
      (loop : Bool) (item : MaskItem) (mask : List MaskItem) (i : ℕ)
      → is_step item ≡ true
      → Accepts ps loop (item ∷ mask) i
      → (k : ℕ) × Chain ps item loop i k × Accepts ps false mask k
  unfolding is_step
  step_accepts loop item mask i e (step {k = k} f c a) = (k, c, a)
  step_accepts loop item mask i e (star le le' a) = absurd (ground arith)
  step_accepts loop item mask i e (flag a) = absurd (ground arith)

  pub no_flag_accepts : (loop : Bool) (i : ℕ) → Accepts ps loop (pm_loop ∷ []) i → false ≡ true
  unfolding is_step
  no_flag_accepts loop i (step e c a) = e
