-- ===== src/ASet/Ec.antt =====
-- The operations of nest/a-set.c on sets of extended communities: u64 values, the high word first.
-- An array has an even number of words; behind an odd one the code would read past the end, which
-- the clauses for a single word leave out.
pub mod Members
pub mod Union
use bird.Common.{
  ℕ, zero, suc, ◌+◌, ◌-◌, ◌/◌, ◌%◌, ◌^◌, Bool, true, false, not, ltb, leb, ◌==◌, ◌&&◌,
  if◌then◌else◌, Option, none, some, List, [], ◌∷◌, ◌++◌, Ordering, length, drop,
}
use bird.ASet.{Adata, words_of, ec_hi, ec_lo, ec_generic}

-- The loop of ec_set_contains, for the halves of the value.
unfoldable pub pairs_contain : Adata → ℕ → ℕ → Bool
pairs_contain [] eh el = false
pairs_contain (x ∷ []) eh el = false
pairs_contain (x ∷ y ∷ l) eh el = if x == eh && y == el then true else pairs_contain l eh el

unfoldable pub ec_set_contains : Option Adata → ℕ → Bool
ec_set_contains none val = false
ec_set_contains (some l) val = pairs_contain l (ec_hi val) (ec_lo val)

unfoldable pub ec_set_add : Option Adata → ℕ → Option Adata
ec_set_add list val =
    if ec_set_contains list val then list else some (words_of list ++ ec_hi val ∷ ec_lo val ∷ [])

-- The words that the loop of ec_set_del copies.
unfoldable pub pairs_without : ℕ → ℕ → Adata → Adata
pairs_without eh el [] = []
pairs_without eh el (x ∷ []) = []
pairs_without eh el (x ∷ y ∷ l) =
    let rest = pairs_without eh el l in if not (x == eh && y == el) then x ∷ y ∷ rest else rest

-- As in int_set_del, the new array is one item shorter, and lp_alloc does not clear it.
unfoldable pub ec_set_del : (ℕ → Adata) → Option Adata → ℕ → Option Adata
ec_set_del lp_alloc none val = none
ec_set_del lp_alloc (some l) val =
    if not (ec_set_contains (some l) val)
    then some l
    else let kept = pairs_without (ec_hi val) (ec_lo val) l in
      some (kept ++ drop (length kept) (lp_alloc (length l - 2)))

-- ec_get(l, i) of the pair of words at i.
abbrev pub ec_get : ℕ → ℕ → ℕ
ec_get x y = ec_generic x y

-- The pairs of the second list that ec_set_union collects in `tmp`.
unfoldable pub new_pairs : Adata → Adata → Adata
new_pairs l1 [] = []
new_pairs l1 (x ∷ []) = []
new_pairs l1 (x ∷ y ∷ l) =
    let rest = new_pairs l1 l in
    if not (ec_set_contains (some l1) (ec_get x y)) then x ∷ y ∷ rest else rest

unfoldable pub join_pairs : Adata → Adata → Adata
join_pairs l1 [] = l1
join_pairs l1 (x ∷ tmp) = l1 ++ x ∷ tmp

unfoldable pub ec_set_union : Option Adata → Option Adata → Option Adata
ec_set_union none l2 = l2
ec_set_union (some l1) none = some l1
ec_set_union (some l1) (some l2) = some (join_pairs l1 (new_pairs l1 l2))

-- src[i] & EC_TBIT, with EC_TBIT = 2 ^ 30.
abbrev pub has_tbit : ℕ → Bool
has_tbit x = (x / 2 ^ 30) % 2 == 1

unfoldable pub ec_set_del_nontrans : Adata → Adata
ec_set_del_nontrans [] = []
ec_set_del_nontrans (x ∷ []) = []
ec_set_del_nontrans (x ∷ y ∷ l) =
    let rest = ec_set_del_nontrans l in if has_tbit x then rest else x ∷ y ∷ rest

-- ec_set_cmp on the u64 values of two pairs.
unfoldable pub ec_set_cmp : ℕ → ℕ → Ordering
ec_set_cmp x y = if ltb x y then Ordering.lt else if ltb y x then Ordering.gt else Ordering.eq

abbrev is_gt : Ordering → Bool
is_gt Ordering.gt = true
is_gt _ = false

abbrev is_lt : Ordering → Bool
is_lt Ordering.lt = true
is_lt _ = false

-- The loops of ec_set_min and ec_set_max; `h` and `l` are the words that `res` points to.
unfoldable pub min_from : ℕ → ℕ → Adata → ℕ
min_from h l [] = ec_generic h l
min_from h l (x ∷ []) = ec_generic h l
min_from h l (x ∷ y ∷ rest) =
    let less = is_gt (ec_set_cmp (ec_get h l) (ec_get x y)) in
    min_from (if less then x else h) (if less then y else l) rest

unfoldable pub max_from : ℕ → ℕ → Adata → ℕ
max_from h l [] = ec_generic h l
max_from h l (x ∷ []) = ec_generic h l
max_from h l (x ∷ y ∷ rest) =
    let more = is_lt (ec_set_cmp (ec_get h l) (ec_get x y)) in
    max_from (if more then x else h) (if more then y else l) rest

-- `none` is the result 0, `some v` the result 1 with *val = v.
unfoldable pub ec_set_min : Option Adata → Option ℕ
ec_set_min none = none
ec_set_min (some []) = none
ec_set_min (some (x ∷ [])) = none
ec_set_min (some (x ∷ y ∷ l)) = some (min_from x y l)

unfoldable pub ec_set_max : Option Adata → Option ℕ
ec_set_max none = none
ec_set_max (some []) = none
ec_set_max (some (x ∷ [])) = none
ec_set_max (some (x ∷ y ∷ l)) = some (max_from x y l)

-- The value of the first two words, and none if they are not there.
first_pair : Adata → Option ℕ
first_pair [] = none
first_pair (x ∷ []) = none
first_pair (x ∷ y ∷ l) = some (ec_generic x y)

-- The step of a walk: the value at *pos and the position behind it.
unfoldable pub ec_set_walk : Option Adata → ℕ → Option (ℕ × ℕ)
unfolding first_pair
ec_set_walk none pos = none
ec_set_walk (some l) pos =
    if leb (length l) pos
    then none
    else elim (first_pair (drop pos l)) [ none ↦ none | some val ↦ some (val, pos + 2) ]
