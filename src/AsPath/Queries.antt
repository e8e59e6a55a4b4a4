-- ===== src/AsPath/Queries.antt =====
-- The functions of nest/a-path.c that read a path. `none` is a read behind the end, a call of bug()
-- on an unknown type, or fuel that ran out; `fuel` is more than the number of bytes left.
use bird.Common.{
  ℕ, zero, suc, ◌+◌, ◌-◌, ◌*◌, Bool, true, false, ltb, ◌==◌, ◌||◌, Option, none, some, List, [],
  ◌∷◌, length, drop, if◌then◌else◌,
}
use bird.AsPath.{path_set, path_sequence, confed_sequence, confed_set, get_as}

-- What a segment of `l` numbers adds to the length of the path.
abbrev pub metric : ℕ → ℕ → Option ℕ
metric t l =
    if t == path_set
    then some 1
    else if t == path_sequence
    then some l
    else if t == confed_sequence || t == confed_set
    then some 0
    else none

-- The loop of as_path_getlen.
unfoldable pub getlen_from : ℕ → ℕ → List ℕ → Option ℕ
getlen_from zero res pos = none
getlen_from (suc fuel) res [] = some res
getlen_from (suc fuel) res (t ∷ []) = none
getlen_from (suc fuel) res (t ∷ l ∷ pos) = elim (metric t l) [
  | none ↦ none
  | some n ↦ getlen_from fuel (res + n) (drop (4 * l) pos)
]

unfoldable pub as_path_getlen : List ℕ → Option ℕ
as_path_getlen path = getlen_from (suc (length path)) 0 path

-- The loops of as_path_contains_confed and as_path_contains_set.
unfoldable pub find_type : (ℕ → Bool) → ℕ → List ℕ → Option Bool
find_type wanted zero pos = none
find_type wanted (suc fuel) [] = some false
find_type wanted (suc fuel) (t ∷ []) = none
find_type wanted (suc fuel) (t ∷ l ∷ pos) = elim (wanted t) [
  | true ↦ some true
  | false ↦ find_type wanted fuel (drop (4 * l) pos)
]

abbrev pub is_confed : ℕ → Bool
is_confed t = t == confed_sequence || t == confed_set

abbrev pub is_set_type : ℕ → Bool
is_set_type t = t == path_set || t == confed_set

unfoldable pub as_path_contains_confed : List ℕ → Option Bool
as_path_contains_confed path = find_type is_confed (suc (length path)) path

unfoldable pub as_path_contains_set : List ℕ → Option Bool
as_path_contains_set path = find_type is_set_type (suc (length path)) path

-- How a scan of the numbers of one segment ends: by the early return, or behind the segment with
-- the count so far.
pub data Scan : Type 0 where
  hit : Scan
  miss : ℕ → List ℕ → Scan
  fault : Scan

-- The inner loop of as_path_contains: `num` counts up to `least`, the argument min.
unfoldable pub scan_numbers : ℕ → ℕ → ℕ → ℕ → List ℕ → Scan
scan_numbers asn least zero num p = miss num p
scan_numbers asn least (suc n) num (a ∷ b ∷ c ∷ d ∷ p) =
    let same = get_as a b c d == asn in
    let num' = if same then num + 1 else num in
    let rest = scan_numbers asn least n num' p in
    if same then (if num' == least then hit else rest) else rest
scan_numbers asn least (suc n) num _ = fault

unfoldable pub contains_from : ℕ → ℕ → ℕ → ℕ → List ℕ → Option Bool
contains_from asn least zero num p = none
contains_from asn least (suc fuel) num [] = some false
contains_from asn least (suc fuel) num (t ∷ []) = none
contains_from asn least (suc fuel) num (t ∷ n ∷ p) = elim (scan_numbers asn least n num p) [
  | hit ↦ some true
  | miss num' p' ↦ contains_from asn least fuel num' p'
  | fault ↦ none
]

unfoldable pub as_path_contains : List ℕ → ℕ → ℕ → Option Bool
as_path_contains path asn least = contains_from asn least (suc (length path)) 0 path

-- The inner loop of as_path_contains_as4.
unfoldable pub scan_as4 : ℕ → List ℕ → Scan
scan_as4 zero p = miss 0 p
scan_as4 (suc n) (a ∷ b ∷ c ∷ d ∷ p) =
    let rest = scan_as4 n p in if ltb 0xffff (get_as a b c d) then hit else rest
scan_as4 (suc n) _ = fault

unfoldable pub contains_as4_from : ℕ → List ℕ → Option Bool
contains_as4_from zero p = none
contains_as4_from (suc fuel) [] = some false
contains_as4_from (suc fuel) (t ∷ []) = none
contains_as4_from (suc fuel) (t ∷ n ∷ p) = elim (scan_as4 n p) [
  | hit ↦ some true
  | miss _ p' ↦ contains_as4_from fuel p'
  | fault ↦ none
]

unfoldable pub as_path_contains_as4 : List ℕ → Option Bool
as_path_contains_as4 path = contains_as4_from (suc (length path)) path

-- get_as of the first four bytes.
unfoldable pub read_as : List ℕ → Option ℕ
read_as (a ∷ b ∷ c ∷ d ∷ _) = some (get_as a b c d)
read_as _ = none

-- The result of a function that finds a number: it is there, it is not, or the code faults.
pub data Found : Type 0 where
  found : ℕ → Found
  not_found : Found
  fault : Found

abbrev found_or_fault : Option ℕ → Found
found_or_fault none = Found.fault
found_or_fault (some a) = found a

unfoldable pub as_path_get_first : List ℕ → Found
unfolding read_as
as_path_get_first [] = not_found
as_path_get_first (t ∷ []) = if t == path_sequence then Found.fault else not_found
as_path_get_first (t ∷ l ∷ p) =
    if t == path_sequence
    then (if l == 0 then not_found else found_or_fault (read_as p))
    else not_found

-- The loop of as_path_get_first_regular.
unfoldable pub first_regular_from : ℕ → List ℕ → Found
first_regular_from zero pos = Found.fault
first_regular_from (suc fuel) [] = not_found
first_regular_from (suc fuel) (t ∷ []) = Found.fault
first_regular_from (suc fuel) (t ∷ l ∷ pos) =
    let rest = first_regular_from fuel (drop (4 * l) pos) in
    if t == path_set
    then not_found
    else if t == path_sequence
    then (if l == 0 then not_found else found_or_fault (read_as pos))
    else if t == confed_sequence || t == confed_set
    then rest
    else Found.fault

unfoldable pub as_path_get_first_regular : List ℕ → Found
as_path_get_first_regular path = first_regular_from (suc (length path)) path

-- The loop of as_path_get_last; `last` is val where found is set, and not_found where it is not.
unfoldable pub last_from : ℕ → Found → List ℕ → Found
last_from zero last pos = Found.fault
last_from (suc fuel) last [] = last
last_from (suc fuel) last (t ∷ []) = Found.fault
last_from (suc fuel) last (t ∷ l ∷ pos) =
    let after = drop (4 * l) pos in
    elim (l == 0) [
      | true ↦ last_from fuel last pos
      | false ↦ elim (is_set_type t) [
        | true ↦ last_from fuel not_found after
        | false ↦ elim (t == path_sequence || t == confed_sequence) [
          | true ↦ elim (read_as (drop (4 * (l - 1)) pos)) [
            | none ↦ Found.fault
            | some a ↦ last_from fuel (found a) after
          ]
          | false ↦ Found.fault
        ]
      ]
    ]

unfoldable pub as_path_get_last : List ℕ → Found
as_path_get_last path = last_from (suc (length path)) not_found path

-- The loop of as_path_get_last_nonaggregated.
unfoldable pub last_nonaggregated_from : ℕ → ℕ → List ℕ → Option ℕ
last_nonaggregated_from zero val pos = none
last_nonaggregated_from (suc fuel) val [] = some val
last_nonaggregated_from (suc fuel) val (t ∷ []) = none
last_nonaggregated_from (suc fuel) val (t ∷ l ∷ pos) = elim (l == 0) [
  | true ↦ last_nonaggregated_from fuel val pos
  | false ↦ elim (is_set_type t) [
    | true ↦ some val
    | false ↦ elim (t == path_sequence || t == confed_sequence) [
      | true ↦ elim (read_as (drop (4 * (l - 1)) pos)) [
        | none ↦ none
        | some a ↦ last_nonaggregated_from fuel a (drop (4 * l) pos)
      ]
      | false ↦ none
    ]
  ]
]

unfoldable pub as_path_get_last_nonaggregated : List ℕ → Option ℕ
as_path_get_last_nonaggregated path = last_nonaggregated_from (suc (length path)) 0 path
