-- ===== src/ASet/Int.antt =====
-- The operations of nest/a-set.c on sets of u32 values (standard communities, cluster lists).
pub mod Members
pub mod Distinct
pub mod Order
use bird.Common.{
  ℕ, ◌-◌, ◌+◌, Bool, true, false, not, ltb, leb, ◌==◌, if◌then◌else◌, Option, none, some, List, [],
  ◌∷◌, ◌++◌, Ordering, length, drop, get_elem?,
}
use bird.ASet.{Adata, words_of}

-- The loop of int_set_contains.
unfoldable pub words_contain : Adata → ℕ → Bool
words_contain [] val = false
words_contain (x ∷ xs) val = if x == val then true else words_contain xs val

unfoldable pub int_set_contains : Option Adata → ℕ → Bool
int_set_contains none val = false
int_set_contains (some l) val = words_contain l val

unfoldable pub int_set_prepend : Option Adata → ℕ → Option Adata
int_set_prepend list val = if int_set_contains list val then list else some (val ∷ words_of list)

unfoldable pub int_set_add : Option Adata → ℕ → Option Adata
int_set_add list val = if int_set_contains list val then list else some (words_of list ++ val ∷ [])

-- The words that the loop of int_set_del copies.
unfoldable pub words_without : ℕ → Adata → Adata
words_without val [] = []
words_without val (x ∷ xs) = let rest = words_without val xs in if x == val then rest else x ∷ rest

-- int_set_del allocates one word less than the list has, and fills it from the front. What the
-- loop does not reach is the memory that lp_alloc, a parameter here, returned: it clears nothing.
unfoldable pub int_set_del : (ℕ → Adata) → Option Adata → ℕ → Option Adata
int_set_del lp_alloc none val = none
int_set_del lp_alloc (some l) val =
    if not (words_contain l val)
    then some l
    else let kept = words_without val l in
      some (kept ++ drop (length kept) (lp_alloc (length l - 1)))

-- The words of the second list that int_set_union collects in `tmp`.
unfoldable pub new_words : Adata → Adata → Adata
new_words l1 [] = []
new_words l1 (x ∷ xs) =
    let rest = new_words l1 xs in if not (words_contain l1 x) then x ∷ rest else rest

unfoldable pub join_new : Adata → Adata → Adata
join_new l1 [] = l1
join_new l1 (x ∷ tmp) = l1 ++ x ∷ tmp

unfoldable pub int_set_union : Option Adata → Option Adata → Option Adata
int_set_union none l2 = l2
int_set_union (some l1) none = some l1
int_set_union (some l1) (some l2) = some (join_new l1 (new_words l1 l2))

-- `lt`, `eq` and `gt` are the results -1, 0 and 1.
unfoldable pub int_set_cmp : ℕ → ℕ → Ordering
int_set_cmp x y = if ltb x y then Ordering.lt else if ltb y x then Ordering.gt else Ordering.eq

-- qsort of the C library is a parameter: it takes the comparison and the array.
unfoldable pub int_set_sort : ((ℕ → ℕ → Ordering) → Adata → Adata) → Adata → Adata
int_set_sort qsort src = qsort int_set_cmp src

abbrev is_gt : Ordering → Bool
is_gt Ordering.gt = true
is_gt _ = false

abbrev is_lt : Ordering → Bool
is_lt Ordering.lt = true
is_lt _ = false

-- The loops of int_set_min and int_set_max, with the value found so far.
unfoldable pub min_from : ℕ → Adata → ℕ
min_from val [] = val
min_from val (x ∷ xs) = min_from (if is_gt (int_set_cmp val x) then x else val) xs

unfoldable pub max_from : ℕ → Adata → ℕ
max_from val [] = val
max_from val (x ∷ xs) = max_from (if is_lt (int_set_cmp val x) then x else val) xs

-- `none` is the result 0, `some v` the result 1 with *val = v.
unfoldable pub int_set_min : Option Adata → Option ℕ
int_set_min none = none
int_set_min (some []) = none
int_set_min (some (x ∷ xs)) = some (min_from x xs)

unfoldable pub int_set_max : Option Adata → Option ℕ
int_set_max none = none
int_set_max (some []) = none
int_set_max (some (x ∷ xs)) = some (max_from x xs)

-- The step of a walk: the value at *pos and the position behind it.
unfoldable pub int_set_walk : Option Adata → ℕ → Option (ℕ × ℕ)
int_set_walk none pos = none
int_set_walk (some l) pos =
    if leb (length l) pos
    then none
    else elim (get_elem? l pos) [ none ↦ none | some val ↦ some (val, pos + 1) ]
