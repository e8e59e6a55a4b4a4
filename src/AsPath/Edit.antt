-- ===== src/AsPath/Edit.antt =====
-- The functions of nest/a-path.c that make a new path. `none` is a read behind the end, a call of
-- bug() on an unknown type, or fuel that ran out; `fuel` is more than the number of bytes left.
use bird.Common.{
  ℕ, zero, suc, ◌+◌, ◌-◌, ◌*◌, ◌/◌, ◌%◌, ◌^◌, true, false, ltb, ◌==◌, ◌&&◌, ◌||◌, Option, none,
  some, List, [], ◌∷◌, ◌++◌, length, drop, if◌then◌else◌,
}
use mathlib.Core.Option
use bird.AsPath.{path_set, path_sequence, as_trans, put_as, get_as}
use bird.AsPath.Queries.{metric}

-- A copy of `n` bytes, which reads behind the end where there are fewer.
unfoldable pub copy : ℕ → List ℕ → Option (List ℕ)
copy zero p = some []
copy (suc n) [] = none
copy (suc n) (x ∷ p) = Option.map (λ r. x ∷ r) (copy n p)

unfoldable pub as_path_prepend2 : List ℕ → ℕ → ℕ → Option (List ℕ)
as_path_prepend2 [] seq asn = some (seq ∷ 1 ∷ put_as asn)
as_path_prepend2 (t ∷ []) seq asn = if t == seq then none else some (seq ∷ 1 ∷ put_as asn ++ t ∷ [])
as_path_prepend2 (t ∷ n ∷ p) seq asn =
    if t == seq && ltb n 255
    then Option.map (λ old. seq ∷ (n + 1) ∷ put_as asn ++ old ++ drop (4 * n) p) (copy (4 * n) p)
    else some (seq ∷ 1 ∷ put_as asn ++ t ∷ n ∷ p)

-- The loop of as_path_strip_confed: the segments that it copies.
unfoldable pub strip_from : ℕ → List ℕ → Option (List ℕ)
strip_from zero src = none
strip_from (suc fuel) [] = some []
strip_from (suc fuel) (t ∷ []) = none
strip_from (suc fuel) (t ∷ l ∷ src) = elim (t == path_set || t == path_sequence) [
  | true ↦ elim (copy (4 * l) src) [
    | none ↦ none
    | some kept ↦ Option.map (λ r. t ∷ l ∷ kept ++ r) (strip_from fuel (drop (4 * l) src))
  ]
  | false ↦ strip_from fuel (drop (4 * l) src)
]

unfoldable pub as_path_strip_confed : List ℕ → Option (List ℕ)
as_path_strip_confed path = strip_from (suc (length path)) path

-- The inner loop of as_path_to_old: the numbers of a segment rewritten, and what follows them.
unfoldable pub old_numbers : ℕ → List ℕ → Option (List ℕ × List ℕ)
old_numbers zero p = some ([], p)
old_numbers (suc n) (a ∷ b ∷ c ∷ d ∷ p) =
    Option.map
      (λ r.
        ((if ltb 0xffff (get_as a b c d) then put_as as_trans else a ∷ b ∷ c ∷ d ∷ []) ++ r.0, r.1))
      (old_numbers n p)
old_numbers (suc n) _ = none

unfoldable pub to_old_from : ℕ → List ℕ → Option (List ℕ)
to_old_from zero pos = none
to_old_from (suc fuel) [] = some []
to_old_from (suc fuel) (t ∷ []) = none
to_old_from (suc fuel) (t ∷ n ∷ p) = elim (old_numbers n p) [
  | none ↦ none
  | some (done, rest) ↦ Option.map (λ r. t ∷ n ∷ done ++ r) (to_old_from fuel rest)
]

unfoldable pub as_path_to_old : List ℕ → Option (List ℕ)
as_path_to_old path = to_old_from (suc (length path)) path

-- The loop of as_path_cut: what is kept of the bytes from `pos` on. A segment that does not fit is
-- cut to `num` numbers, the count in its header rewritten, or left out where num is 0.
unfoldable pub cut_from : ℕ → List ℕ → ℕ → Option (List ℕ)
cut_from zero pos num = none
cut_from (suc fuel) [] num = some []
cut_from (suc fuel) (t ∷ []) num = none
cut_from (suc fuel) (t ∷ l ∷ pos) num = elim (metric t l) [
  | none ↦ none
  | some n ↦ elim (ltb num n) [
    | true ↦ if num == 0 then some [] else Option.map (λ kept. t ∷ num ∷ kept) (copy (4 * num) pos)
    | false ↦ elim (copy (4 * l) pos) [
      | none ↦ none
      | some kept ↦ Option.map (λ r. t ∷ l ∷ kept ++ r) (cut_from fuel (drop (4 * l) pos) (num - n))
    ]
  ]
]

unfoldable pub as_path_cut : List ℕ → ℕ → Option (List ℕ)
as_path_cut path num = cut_from (suc (length path)) path num

unfoldable pub as_path_merge : List ℕ → List ℕ → List ℕ
as_path_merge p1 p2 = if length p1 == 0 then p2 else if length p2 == 0 then p1 else p1 ++ p2

-- The conversions between numbers of two and of four bytes: the inner loops, then the outer ones.
unfoldable pub widen_numbers : ℕ → List ℕ → Option (List ℕ × List ℕ)
widen_numbers zero src = some ([], src)
widen_numbers (suc n) (a ∷ b ∷ src) =
    Option.map (λ r. (put_as (a * 2 ^ 8 + b) ++ r.0, r.1)) (widen_numbers n src)
widen_numbers (suc n) _ = none

unfoldable pub widen_from : ℕ → List ℕ → Option (List ℕ)
widen_from zero src = none
widen_from (suc fuel) [] = some []
widen_from (suc fuel) (t ∷ []) = none
widen_from (suc fuel) (t ∷ n ∷ src) = elim (widen_numbers n src) [
  | none ↦ none
  | some (done, rest) ↦ Option.map (λ r. t ∷ n ∷ done ++ r) (widen_from fuel rest)
]

unfoldable pub as_path_16to32 : List ℕ → Option (List ℕ)
as_path_16to32 src = widen_from (suc (length src)) src

abbrev pub put_u16 : ℕ → List ℕ
put_u16 a = a / 2 ^ 8 % 2 ^ 8 ∷ a % 2 ^ 8 ∷ []

unfoldable pub narrow_numbers : ℕ → List ℕ → Option (List ℕ × List ℕ)
narrow_numbers zero src = some ([], src)
narrow_numbers (suc n) (a ∷ b ∷ c ∷ d ∷ src) =
    Option.map (λ r. (put_u16 (get_as a b c d) ++ r.0, r.1)) (narrow_numbers n src)
narrow_numbers (suc n) _ = none

unfoldable pub narrow_from : ℕ → List ℕ → Option (List ℕ)
narrow_from zero src = none
narrow_from (suc fuel) [] = some []
narrow_from (suc fuel) (t ∷ []) = none
narrow_from (suc fuel) (t ∷ n ∷ src) = elim (narrow_numbers n src) [
  | none ↦ none
  | some (done, rest) ↦ Option.map (λ r. t ∷ n ∷ done ++ r) (narrow_from fuel rest)
]

unfoldable pub as_path_32to16 : List ℕ → Option (List ℕ)
as_path_32to16 src = narrow_from (suc (length src)) src
