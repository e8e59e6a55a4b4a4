-- ===== src/ASet/Lc.antt =====
-- The operations of nest/a-set.c on sets of large communities, three words for an item.
-- An array has a multiple of three words; behind any other the code would read past the end, which
-- the clauses for one or two words leave out.
pub mod Members
pub mod Union
use bird.Common.{
  ℕ, ◌+◌, ◌-◌, Bool, true, false, not, ltb, leb, ◌==◌, ◌!=◌, ◌&&◌, if◌then◌else◌, Option, none,
  some, List, [], ◌∷◌, ◌++◌, Ordering, length, drop,
}
use bird.ASet.{Adata, words_of, Lcomm}

-- lc_match(l, i, v) of the three words at i.
unfoldable pub lc_match : ℕ → ℕ → ℕ → Lcomm → Bool
lc_match a b c v = a == v.asn && (b == v.ldp1 && c == v.ldp2)

-- The loop of lc_set_contains.
unfoldable pub items_contain : Adata → Lcomm → Bool
items_contain [] val = false
items_contain (a ∷ []) val = false
items_contain (a ∷ b ∷ []) val = false
items_contain (a ∷ b ∷ c ∷ l) val = if lc_match a b c val then true else items_contain l val

unfoldable pub lc_set_contains : Option Adata → Lcomm → Bool
lc_set_contains none val = false
lc_set_contains (some l) val = items_contain l val

unfoldable pub lc_set_add : Option Adata → Lcomm → Option Adata
lc_set_add list val =
    if lc_set_contains list val
    then list
    else some (words_of list ++ val.asn ∷ val.ldp1 ∷ val.ldp2 ∷ [])

-- The words that the loop of lc_set_del copies.
unfoldable pub items_without : Lcomm → Adata → Adata
items_without val [] = []
items_without val (a ∷ []) = []
items_without val (a ∷ b ∷ []) = []
items_without val (a ∷ b ∷ c ∷ l) =
    let rest = items_without val l in if not (lc_match a b c val) then a ∷ b ∷ c ∷ rest else rest

-- As in int_set_del, the new array is one item shorter, and lp_alloc does not clear it.
unfoldable pub lc_set_del : (ℕ → Adata) → Option Adata → Lcomm → Option Adata
lc_set_del lp_alloc none val = none
lc_set_del lp_alloc (some l) val =
    if not (items_contain l val)
    then some l
    else let kept = items_without val l in
      some (kept ++ drop (length kept) (lp_alloc (length l - 3)))

-- The items of the second list that lc_set_union collects in `tmp`.
unfoldable pub new_items : Adata → Adata → Adata
new_items l1 [] = []
new_items l1 (a ∷ []) = []
new_items l1 (a ∷ b ∷ []) = []
new_items l1 (a ∷ b ∷ c ∷ l) =
    let rest = new_items l1 l in
    if not (items_contain l1 (record { asn = a; ldp1 = b; ldp2 = c }))
    then a ∷ b ∷ c ∷ rest
    else rest

unfoldable pub join_items : Adata → Adata → Adata
join_items l1 [] = l1
join_items l1 (x ∷ tmp) = l1 ++ x ∷ tmp

unfoldable pub lc_set_union : Option Adata → Option Adata → Option Adata
lc_set_union none l2 = l2
lc_set_union (some l1) none = some l1
lc_set_union (some l1) (some l2) = some (join_items l1 (new_items l1 l2))

-- `lt`, `eq` and `gt` are the results -1, 0 and 1.
unfoldable pub lc_set_cmp : Lcomm → Lcomm → Ordering
lc_set_cmp x y =
    if x.asn != y.asn
    then (if ltb y.asn x.asn then Ordering.gt else Ordering.lt)
    else if x.ldp1 != y.ldp1
    then (if ltb y.ldp1 x.ldp1 then Ordering.gt else Ordering.lt)
    else if x.ldp2 != y.ldp2
    then (if ltb y.ldp2 x.ldp2 then Ordering.gt else Ordering.lt)
    else Ordering.eq

abbrev is_gt : Ordering → Bool
is_gt Ordering.gt = true
is_gt _ = false

abbrev is_lt : Ordering → Bool
is_lt Ordering.lt = true
is_lt _ = false

-- The loops of lc_set_min and lc_set_max; `res` is the item that the pointer of that name shows.
unfoldable pub min_from : Lcomm → Adata → Lcomm
min_from res [] = res
min_from res (a ∷ []) = res
min_from res (a ∷ b ∷ []) = res
min_from res (a ∷ b ∷ c ∷ l) =
    let x : Lcomm = record { asn = a; ldp1 = b; ldp2 = c } in
    min_from (if is_gt (lc_set_cmp res x) then x else res) l

unfoldable pub max_from : Lcomm → Adata → Lcomm
max_from res [] = res
max_from res (a ∷ []) = res
max_from res (a ∷ b ∷ []) = res
max_from res (a ∷ b ∷ c ∷ l) =
    let x : Lcomm = record { asn = a; ldp1 = b; ldp2 = c } in
    max_from (if is_lt (lc_set_cmp res x) then x else res) l

-- The first three words as an item, and none if they are not there.
first_item : Adata → Option Lcomm
first_item [] = none
first_item (a ∷ []) = none
first_item (a ∷ b ∷ []) = none
first_item (a ∷ b ∷ c ∷ l) = some (record { asn = a; ldp1 = b; ldp2 = c })

-- `none` is the result 0, `some v` the result 1 with *val = v.
unfoldable pub lc_set_min : Option Adata → Option Lcomm
unfolding first_item
lc_set_min none = none
lc_set_min (some l) = elim (first_item l) [ none ↦ none | some x ↦ some (min_from x (drop 3 l)) ]

unfoldable pub lc_set_max : Option Adata → Option Lcomm
unfolding first_item
lc_set_max none = none
lc_set_max (some l) = elim (first_item l) [ none ↦ none | some x ↦ some (max_from x (drop 3 l)) ]

-- The step of a walk: the value at *pos and the position behind it.
unfoldable pub lc_set_walk : Option Adata → ℕ → Option (Lcomm × ℕ)
unfolding first_item
lc_set_walk none pos = none
lc_set_walk (some l) pos =
    if leb (length l) pos
    then none
    else elim (first_item (drop pos l)) [ none ↦ none | some val ↦ some (val, pos + 3) ]
