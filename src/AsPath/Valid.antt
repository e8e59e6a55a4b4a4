-- ===== src/AsPath/Valid.antt =====
-- The check of a received path, as_path_valid of nest/a-path.c.
use bird.Common.{
  ℕ, zero, suc, ◌+◌, ◌*◌, Bool, true, false, not, ltb, ◌==◌, ◌||◌, Option, none, some, List, [],
  ◌∷◌, length, drop, if◌then◌else◌,
}
use bird.AsPath.{path_set, path_sequence, confed_sequence, confed_set}

-- The texts that the error message begins with.
pub data Problem : Type 0 where
  framing as_set confed_sequence_here confed_set_here unknown zero_length : Problem

-- `bad` holds the text, the value and the position of the message; `stuck` is fuel that ran out.
pub data Verdict : Type 0 where
  valid : Verdict
  bad : Problem → ℕ → ℕ → Verdict
  stuck : Verdict

module _ (bs : ℕ) (sets confed : Bool) where
  -- The switch over the type of a segment.
  unfoldable pub type_problem : ℕ → Option Problem
  type_problem t =
      if t == path_set
      then (if not sets then some as_set else none)
      else if t == path_sequence
      then none
      else if t == confed_sequence
      then (if not confed then some confed_sequence_here else none)
      else if t == confed_set
      then (if not sets || not confed then some confed_set_here else none)
      else some unknown

  -- The loop, at `at` bytes behind the start.
  unfoldable pub valid_from : ℕ → List ℕ → ℕ → Verdict
  valid_from zero pos at = stuck
  valid_from (suc fuel) [] at = valid
  valid_from (suc fuel) (t ∷ []) at = bad framing 0 at
  valid_from (suc fuel) (t ∷ n ∷ pos) at =
      let len = length (t ∷ n ∷ pos) in
      let slen = 2 + bs * n in
      elim (ltb len slen) [
        | true ↦ bad framing len at
        | false ↦ elim (type_problem t) [
          | some problem ↦ bad problem t at
          | none ↦ elim (n == 0) [
            | true ↦ bad zero_length t at
            | false ↦ valid_from fuel (drop (bs * n) pos) (at + slen)
          ]
        ]
      ]

unfoldable pub as_path_valid : List ℕ → ℕ → Bool → Bool → Verdict
as_path_valid path bs sets confed = valid_from bs sets confed (suc (length path)) path 0
