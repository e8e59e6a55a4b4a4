-- ===== src/AsPath/Walk.antt =====
-- Walking through the numbers of a path and comparing two paths: as_path_walk and as_path_compare
-- of nest/a-path.c.
use bird.Common.{
  ℕ, zero, suc, ◌+◌, ◌-◌, ◌*◌, ltb, ◌==◌, Option, none, some, List, [], ◌∷◌, length, drop, Ordering,
  if◌then◌else◌,
}
use bird.AsPath.Queries.{read_as}

-- The result 1 with *val and *pos moved on by one, or 0 with both as they were.
pub data Walk : Type 0 where
  walked : ℕ → Walk
  ended : Walk
  fault : Walk

abbrev walked_or_fault : Option ℕ → Walk
walked_or_fault none = fault
walked_or_fault (some a) = walked a

-- The loop of as_path_walk; `x` counts the numbers still to skip.
unfoldable pub walk_from : ℕ → ℕ → List ℕ → Walk
walk_from zero x p = fault
walk_from (suc fuel) x [] = ended
walk_from (suc fuel) x (t ∷ []) = fault
walk_from (suc fuel) x (t ∷ n ∷ p) =
    let rest = walk_from fuel (x - n) (drop (4 * n) p) in
    if ltb x n then walked_or_fault (read_as (drop (4 * x) p)) else rest

unfoldable pub as_path_walk : Option (List ℕ) → ℕ → Walk
as_path_walk none pos = ended
as_path_walk (some path) pos = walk_from (suc (length path)) pos path

-- The order of two numbers that differ, the result -1 or 1.
abbrev pub order : ℕ → ℕ → Ordering
order a b = if ltb a b then Ordering.lt else Ordering.gt

-- The loop of as_path_compare, with pos1, val1, pos2 and val2 and fuel for its rounds.
unfoldable pub compare_from : ℕ → List ℕ → List ℕ → ℕ → ℕ → ℕ → ℕ → Option Ordering
compare_from zero path1 path2 pos1 val1 pos2 val2 = none
compare_from (suc fuel) path1 path2 pos1 val1 pos2 val2 = elim (as_path_walk (some path1) pos1) [
  | fault ↦ none
  | ended ↦ elim (as_path_walk (some path2) pos2) [
    | fault ↦ none
    | ended ↦ some Ordering.eq
    | walked b ↦
        let rest = compare_from fuel path1 path2 pos1 val1 (pos2 + 1) b in
        if val1 == b then rest else some (order val1 b)
  ]
  | walked a ↦ elim (as_path_walk (some path2) pos2) [
    | fault ↦ none
    | ended ↦
        let rest = compare_from fuel path1 path2 (pos1 + 1) a pos2 val2 in
        if a == val2 then rest else some (order a val2)
    | walked b ↦
        let rest = compare_from fuel path1 path2 (pos1 + 1) a (pos2 + 1) b in
        if a == b then rest else some (order a b)
  ]
]

-- A round moves on in one path at least, so the bytes of both are more than enough rounds.
unfoldable pub as_path_compare : List ℕ → List ℕ → Option Ordering
as_path_compare path1 path2 = compare_from (suc (length path1 + length path2)) path1 path2 0 0 0 0
