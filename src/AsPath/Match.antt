-- ===== src/AsPath/Match.antt =====
-- Matching a path with a path mask: parse_path, pm_match, pm_mark and as_path_match of
-- nest/a-path.c, with find_tree of filter/tree.c on trees of numbers.
pub mod Runs
pub mod Chains
pub mod Sweep
pub mod Rounds
pub mod Steps
pub mod Items
pub mod Masks
pub mod States
pub mod Decides
pub mod Paths
use bird.Common.{
  ℕ, zero, suc, ◌+◌, ◌-◌, ◌*◌, min, max, Bool, true, false, not, ltb, leb, ◌==◌, ◌||◌, ◌&&◌, Option,
  none, some, List, [], ◌∷◌, ◌++◌, map, length, drop, get_elem?, if◌then◌else◌,
}
use mathlib.Core.Option
use bird.AsPath.{path_set, path_sequence, confed_sequence, confed_set, get_as}

-- struct pm_pos without its mark: a set, with the bytes at `sp`, or a number.
pub data Position : Type 0 where
  sp : List ℕ → Position
  asn : ℕ → Position

-- struct f_tree with numbers: the range of the node, and the trees at the left and the right.
pub data Tree : Type 0 where
  null : Tree
  node : ℕ → ℕ → Tree → Tree → Tree

-- struct f_path_mask_item by its kind, without PM_ASN_EXPR, which is a call of bug().
pub data MaskItem : Type 0 where
  pm_asn : ℕ → MaskItem
  pm_question pm_asterisk pm_loop : MaskItem
  pm_asn_range : ℕ → ℕ → MaskItem
  pm_asn_set : Tree → MaskItem

unfoldable pub find_tree : Tree → ℕ → Bool
find_tree null val = false
find_tree (node from to left right) val =
    let at_right = find_tree right val in
    let at_left = find_tree left val in
    if leb from val && leb val to then true else if ltb from val then at_right else at_left

-- The numbers of a sequence as positions, and what follows them.
unfoldable pub sequence_from : ℕ → List ℕ → Option (List Position × List ℕ)
sequence_from zero pos = some ([], pos)
sequence_from (suc n) (a ∷ b ∷ c ∷ d ∷ pos) =
    Option.map (λ r. (asn (get_as a b c d) ∷ r.0, r.1)) (sequence_from n pos)
sequence_from (suc n) _ = none

-- `none` is a read behind the end, a call of bug() on an unknown type, or fuel that ran out.
unfoldable pub parse_from : ℕ → List ℕ → Option (List Position)
parse_from zero pos = none
parse_from (suc fuel) [] = some []
parse_from (suc fuel) (type ∷ []) = none
parse_from (suc fuel) (type ∷ len ∷ pos) = elim (type == path_set || type == confed_set) [
  | true ↦ Option.map (λ r. sp (len ∷ pos) ∷ r) (parse_from fuel (drop (4 * len) pos))
  | false ↦ elim (type == path_sequence || type == confed_sequence) [
    | true ↦ elim (sequence_from len pos) [
      | none ↦ none
      | some (numbers, rest) ↦ Option.map (λ r. numbers ++ r) (parse_from fuel rest)
    ]
    | false ↦ none
  ]
]

unfoldable pub parse_path : List ℕ → Option (List Position)
parse_path path = parse_from (suc (length path)) path

-- Some number of a set passes the test; parse_path has read the bytes of the set's segment.
unfoldable pub any_number : (ℕ → Bool) → ℕ → List ℕ → Bool
any_number test zero p = false
any_number test (suc n) (a ∷ b ∷ c ∷ d ∷ p) = test (get_as a b c d) || any_number test n p
any_number test (suc n) _ = false

unfoldable pub match_position : (ℕ → Bool) → Position → Bool
match_position test (asn a) = test a
match_position test (sp []) = false
match_position test (sp (len ∷ p)) = any_number test len p

abbrev pub in_range : ℕ → ℕ → ℕ → Bool
in_range lo hi a = leb lo a && leb a hi

-- pm_match, with the range that as_path_match has set for the item.
unfoldable pub pm_match : Position → MaskItem → Bool
pm_match pos (pm_asn a) = match_position (in_range a a) pos
pm_match pos pm_question = true
pm_match pos pm_asterisk = false
pm_match pos pm_loop = false
pm_match pos (pm_asn_range from to) = match_position (in_range from to) pos
pm_match pos (pm_asn_set set) = match_position (find_tree set) pos

-- The field `set` and the result of pm_match at an index; the position behind the last is no set.
unfoldable pub set_at : List Position → ℕ → Bool
set_at [] i = false
set_at (sp p ∷ ps) zero = true
set_at (asn a ∷ ps) zero = false
set_at (_ ∷ ps) (suc i) = set_at ps i

unfoldable pub match_at : List Position → MaskItem → ℕ → Bool
match_at [] item i = false
match_at (p ∷ ps) item zero = pm_match p item
match_at (p ∷ ps) item (suc i) = match_at ps item i

-- The marks of the positions, and nl and nh, none for -1.
pub record Marks : Type 0 where
  pub mark : ℕ → Bool
  pub nl : Option ℕ
  pub nh : Option ℕ

abbrev pub write : (ℕ → Bool) → ℕ → Bool → ℕ → Bool
write mark i b k = if k == i then b else mark k

-- The loop of pm_mark over consecutive sets, for at most `n` positions: where it ends, and the marks.
unfoldable pub run_end : List Position → ℕ → ℕ → ℕ
run_end ps zero j = j
run_end ps (suc n) j = let rest = run_end ps n (suc j) in if set_at ps j then rest else j

unfoldable pub mark_run : List Position → ℕ → ℕ → (ℕ → Bool) → ℕ → Bool
mark_run ps zero j mark = mark
mark_run ps (suc n) j mark =
    let rest = mark_run ps n (suc j) (write mark j true) in if set_at ps j then rest else mark

-- Where pm_mark leaves *i.
unfoldable pub next_index : List Position → ℕ → ℕ
next_index ps i = if set_at ps i then run_end ps (length ps - i) i else i + 1

unfoldable pub lower : Option ℕ → ℕ → ℕ
lower none l = l
lower (some n) l = min n l

unfoldable pub upper : Option ℕ → ℕ → ℕ
upper none j = j
upper (some n) j = max n j

unfoldable pub pm_mark : List Position → Marks → ℕ → Marks
pm_mark ps m i =
    let j = next_index ps i in
    let l = if set_at ps i then i else j in
    let marked = if set_at ps i then mark_run ps (length ps - i) i m.mark else m.mark in
    record { mark = write marked j true; nl = some (lower m.nl l); nh = some (upper m.nh j) }

-- From the label `match` on, with fuel for the jumps back to it.
unfoldable pub match_label : List Position → MaskItem → Bool → ℕ → ℕ → Marks → ℕ → Marks
match_label ps item loop last zero m j = m
match_label ps item loop last (suc fuel) m j =
    let m' = pm_mark ps m j in
    let j' = next_index ps j in
    let again = match_label ps item loop last fuel m' j' in
    if match_at ps item j then (if loop && ltb j' last then again else m') else m

-- The loop over i from h down to l: `count` values are left.
unfoldable pub sweep : List Position → MaskItem → Bool → ℕ → ℕ → ℕ → Marks → Marks
sweep ps item loop l zero last m = m
sweep ps item loop l (suc count) last m =
    let i = l + count in
    let cleared = record m { mark = write m.mark i false } in
    if m.mark i
    then sweep ps item loop l count i (match_label ps item loop last (length ps) cleared i)
    else sweep ps item loop l count last m

-- From the label `step` on: the marks, l and h afterwards, or none for the result 0.
unfoldable pub take_step :
    List Position → MaskItem → (ℕ → Bool) → ℕ → ℕ → Bool → Option ((ℕ → Bool) × ℕ × ℕ)
take_step ps item mark l h loop =
    let m =
      sweep ps item loop l (suc h - l) (length ps) (record { mark = mark; nl = none; nh = none }) in
    elim m.nh [
      | none ↦ none
      | some h' ↦ elim m.nl [ none ↦ none | some l' ↦ some (m.mark, l', h') ]
    ]

-- The loop over the mask. A state is the marks, l, h and loop; every round begins with the mark of
-- the last position removed.
unfoldable pub match_from : List Position → List MaskItem → (ℕ → Bool) → ℕ → ℕ → Bool → Bool
match_from ps [] mark l h loop = mark (length ps)
match_from ps (pm_asterisk ∷ mask) mark l h loop =
    let cleared = write mark (length ps) false in
    match_from ps mask (λ k. leb l k && leb k (length ps) || cleared k) l (length ps) loop
match_from ps (pm_loop ∷ mask) mark l h loop =
    match_from ps mask (write mark (length ps) false) l h true
match_from ps (item ∷ mask) mark l h loop =
    elim (take_step ps item (write mark (length ps) false) l h loop) [
      | none ↦ false
      | some (mark', l', h') ↦ match_from ps mask mark' l' h' false
    ]

-- The array `pos` has room for 2048 positions and the one behind; `none` is also a longer path,
-- which writes behind the array.
unfoldable pub as_path_match : List ℕ → List MaskItem → Option Bool
as_path_match path mask = elim (parse_path path) [
  | none ↦ none
  | some ps ↦
      if ltb 2048 (length ps) then none else some (match_from ps mask (λ k. k == 0) 0 0 false)
]
