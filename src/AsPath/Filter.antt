-- ===== src/AsPath/Filter.antt =====
-- as_path_match_set and as_path_filter of nest/a-path.c. `none` is a read behind the end, or fuel
-- that ran out; `fuel` is more than the number of bytes left.
pub mod Kept
pub mod Selected
use bird.Common.{
  ℕ, zero, suc, ◌==◌, Bool, true, false, not, Option, none, some, List, [], ◌∷◌, ◌++◌, length,
  if◌then◌else◌,
}
use mathlib.Core.Option
use bird.AsPath.{get_as, put_as}
use bird.AsPath.Queries.{Scan, hit, miss, fault}
use bird.AsPath.Match.{Tree, find_tree}

-- The inner loop of as_path_match_set.
unfoldable pub scan_set : Tree → ℕ → List ℕ → Scan
scan_set set zero p = miss 0 p
scan_set set (suc n) (a ∷ b ∷ c ∷ d ∷ p) =
    let rest = scan_set set n p in if find_tree set (get_as a b c d) then hit else rest
scan_set set (suc n) _ = fault

unfoldable pub match_set_from : Tree → ℕ → List ℕ → Option Bool
match_set_from set zero p = none
match_set_from set (suc fuel) [] = some false
match_set_from set (suc fuel) (t ∷ []) = none
match_set_from set (suc fuel) (t ∷ n ∷ p) = elim (scan_set set n p) [
  | hit ↦ some true
  | miss k rest ↦ match_set_from set fuel rest
  | fault ↦ none
]

unfoldable pub as_path_match_set : List ℕ → Tree → Option Bool
as_path_match_set path set = match_set_from set (suc (length path)) path

-- The argument `set` of as_path_filter, a value of the type T_SET or T_INT.
pub data FilterSet : Type 0 where
  t_set : Tree → FilterSet
  t_int : ℕ → FilterSet

unfoldable pub in_set : FilterSet → ℕ → Bool
in_set (t_set t) a = find_tree t a
in_set (t_int i) a = a == i

-- The test `match == pos`.
unfoldable pub is_kept : FilterSet → Bool → ℕ → Bool
is_kept set pos a = if pos then in_set set a else not (in_set set a)

-- The inner loop of as_path_filter: the bytes kept, their number `dn`, and what follows the segment.
unfoldable pub filter_numbers : (ℕ → Bool) → ℕ → List ℕ → Option (List ℕ × ℕ × List ℕ)
filter_numbers keep zero p = some ([], 0, p)
filter_numbers keep (suc n) (a ∷ b ∷ c ∷ d ∷ p) =
    Option.map
      (λ r. if keep (get_as a b c d) then (put_as (get_as a b c d) ++ r.0, suc r.1, r.2) else r)
      (filter_numbers keep n p)
filter_numbers keep (suc n) _ = none

unfoldable pub filter_from : (ℕ → Bool) → ℕ → List ℕ → Option (List ℕ)
filter_from keep zero p = none
filter_from keep (suc fuel) [] = some []
filter_from keep (suc fuel) (bt ∷ []) = none
filter_from keep (suc fuel) (bt ∷ sn ∷ p) = elim (filter_numbers keep sn p) [
  | none ↦ none
  | some (kept, dn, rest) ↦
      Option.map (λ r. if dn == 0 then r else bt ∷ dn ∷ kept ++ r) (filter_from keep fuel rest)
]

unfoldable pub as_path_filter : Option (List ℕ) → FilterSet → Bool → Option (Option (List ℕ))
as_path_filter none set pos = some none
as_path_filter (some path) set pos =
    Option.map (λ r. some r) (filter_from (is_kept set pos) (suc (length path)) path)
