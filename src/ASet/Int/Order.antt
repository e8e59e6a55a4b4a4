-- ===== src/ASet/Int/Order.antt =====
-- Least and greatest values, sorting and walking of the sets of u32 values of nest/a-set.c.
use bird.Common.{
  ℕ, zero, suc, ◌≤◌, ◌<◌, ◌≡◌, ◌≢◌, refl, sym, ◌∙◌, Bool, true, false, Option, none, some, List, [],
  ◌∷◌, arith, length, drop, get_elem?, Ordering, ==_self, Bool-cases, inl, inr, ltb,
}
use mathlib.Core.Bool.{false≢true}
use bird.ASet.{Adata}
use bird.ASet.Int.{
  words_contain, int_set_cmp, int_set_sort, min_from, max_from, int_set_min, int_set_max,
  int_set_walk,
}

min_from_lem :
    (val : ℕ) (l : Adata)
    → (words_contain (val ∷ l) (min_from val l) ≡ true)
      × (min_from val l ≤ val)
      × ((x : ℕ) → words_contain l x ≡ true → min_from val l ≤ x)
unfolding words_contain min_from int_set_cmp
min_from_lem val [] = (ground arith, ground arith, λ x h. cc)
min_from_lem val (y ∷ l) = elim (Bool-cases (ltb y val)) [
  | inl less ↦
      let ih = min_from_lem y l in
      (ground (arith, less, ih), ground (arith, less, ih), λ x h. ground (arith, less, ih, ih.2 x))
  | inr more ↦
      let ih = min_from_lem val l in
      (ground (arith, more, ih), ground (arith, more, ih), λ x h. ground (arith, more, ih, ih.2 x))
]

max_from_lem :
    (val : ℕ) (l : Adata)
    → (words_contain (val ∷ l) (max_from val l) ≡ true)
      × (val ≤ max_from val l)
      × ((x : ℕ) → words_contain l x ≡ true → x ≤ max_from val l)
unfolding words_contain max_from int_set_cmp
max_from_lem val [] = (ground arith, ground arith, λ x h. cc)
max_from_lem val (y ∷ l) = elim (Bool-cases (ltb val y)) [
  | inl less ↦
      let ih = max_from_lem y l in
      (ground (arith, less, ih), ground (arith, less, ih), λ x h. ground (arith, less, ih, ih.2 x))
  | inr more ↦
      let ih = max_from_lem val l in
      (ground (arith, more, ih), ground (arith, more, ih), λ x h. ground (arith, more, ih, ih.2 x))
]

-- `m` is in the list, and no value of the list is less, or none is greater.
pub record IsLeast (l : Adata) (m : ℕ) : Type 0 where
  pub found : words_contain l m ≡ true
  pub bound : (x : ℕ) → words_contain l x ≡ true → m ≤ x

pub record IsGreatest (l : Adata) (m : ℕ) : Type 0 where
  pub found : words_contain l m ≡ true
  pub bound : (x : ℕ) → words_contain l x ≡ true → x ≤ m

min-IsLeast : (l : Adata) (m : ℕ) → int_set_min (some l) ≡ some m → IsLeast l m
unfolding int_set_min words_contain
min-IsLeast [] m h = absurd (cc)
min-IsLeast (y ∷ l) m h = record {
  found = ground (arith, min_from_lem y l);
  bound = λ x k. ground (arith, min_from_lem y l, (min_from_lem y l).2 x);
}

max-IsGreatest : (l : Adata) (m : ℕ) → int_set_max (some l) ≡ some m → IsGreatest l m
unfolding int_set_max words_contain
max-IsGreatest [] m h = absurd (cc)
max-IsGreatest (y ∷ l) m h = record {
  found = ground (arith, max_from_lem y l);
  bound = λ x k. ground (arith, max_from_lem y l, (max_from_lem y l).2 x);
}

-- No item is greater by `cmp` than the next.
abbrev pub IsSorted : (ℕ → ℕ → Ordering) → Adata → Type 0
IsSorted cmp [] = Unit
IsSorted cmp (x ∷ []) = Unit
IsSorted cmp (x ∷ y ∷ l) = (cmp x y ≢ Ordering.gt) × IsSorted cmp (y ∷ l)

cmp_le : (x y : ℕ) → int_set_cmp x y ≢ Ordering.gt → x ≤ y
unfolding int_set_cmp
cmp_le x y h = ground arith

sorted_head :
    (x : ℕ) (l : Adata) → IsSorted int_set_cmp (x ∷ l) → (y : ℕ) → words_contain l y ≡ true → x ≤ y
unfolding words_contain
sorted_head x [] s y h = cc
sorted_head x (z ∷ l) s y h = ground (arith, cmp_le x z s.0, sorted_head z l s.1 y)

no_member : (l : Adata) → ((x : ℕ) → words_contain l x ≡ false) → l ≡ []
unfolding words_contain
no_member [] h = refl
no_member (x ∷ l) h = absurd (false≢true (sym (h x) ∙ ground arith))

sorted-least :
    (s l : Adata)
    → IsSorted int_set_cmp s
    → ((x : ℕ) → words_contain s x ≡ words_contain l x)
    → get_elem? s 0 ≡ int_set_min (some l)
unfolding int_set_min words_contain
sorted-least [] [] sorts keeps = refl
sorted-least [] (y ∷ l) sorts keeps = absurd (false≢true (keeps y ∙ ground arith))
sorted-least (x ∷ s) [] sorts keeps = absurd (false≢true (sym (keeps x) ∙ ground arith))
sorted-least (x ∷ s) (y ∷ l) sorts keeps =
    let m = min_from y l in
    let least = min-IsLeast (y ∷ l) m refl in
    ground (arith, least.found, least.bound x, keeps x, keeps m, ==_self x, sorted_head x s sorts m)

-- With a qsort that sorts by int_set_cmp and keeps the members, the first value that
-- int_set_sort returns is the one that int_set_min finds.
pub sort-min :
    (qsort : (ℕ → ℕ → Ordering) → Adata → Adata) (l : Adata)
    → ((a : Adata) → IsSorted int_set_cmp (qsort int_set_cmp a))
    → ((a : Adata) (x : ℕ) → words_contain (qsort int_set_cmp a) x ≡ words_contain a x)
    → get_elem? (int_set_sort qsort l) 0 ≡ int_set_min (some l)
unfolding int_set_sort
sort-min qsort l sorts keeps = sorted-least (qsort int_set_cmp l) l (sorts l) (keeps l)

-- int_set_min and int_set_max find a value of the set that no other is below, or above, and
-- fail just on the empty set.
pub int_set_extremes :
    (l : Adata)
    → l ≢ []
    → (m : ℕ) × (n : ℕ) × (int_set_min (some l) ≡ some m)
      × IsLeast l m
      × (int_set_max (some l) ≡ some n)
      × IsGreatest l n
int_set_extremes [] h = absurd (h refl)
int_set_extremes (y ∷ l) h = (
  min_from y l,
  max_from y l,
  unfold int_set_min in refl,
  min-IsLeast (y ∷ l) (min_from y l) (unfold int_set_min in refl),
  unfold int_set_max in refl,
  max-IsGreatest (y ∷ l) (max_from y l) (unfold int_set_max in refl),
)

-- Calls of int_set_walk from a position until it returns 0, at most `fuel` of them: the values
-- seen, and whether the walk came to its end.
pub walk_values : ℕ → Option Adata → ℕ → List ℕ × Bool
walk_values zero list pos = ([], false)
walk_values (suc fuel) list pos = elim (int_set_walk list pos) [
  | none ↦ ([], true)
  | some (val, pos') ↦ let rest = walk_values fuel list pos' in (val ∷ rest.0, rest.1)
]

at_drop :
    (l : Adata) (pos : ℕ) {x : ℕ} {r : Adata}
    → drop pos l ≡ x ∷ r
    → (get_elem? l pos ≡ some x) × (pos < length l) × (drop (suc pos) l ≡ r)
at_drop [] zero h = absurd (cc)
at_drop [] (suc pos) h = absurd (cc)
at_drop (y ∷ l) zero h = (ground arith, omega arith, ground arith)
at_drop (y ∷ l) (suc pos) h = let ih = at_drop l pos h in (ih.0, omega (arith, ih.1), ih.2)

past_end : (l : Adata) (pos : ℕ) → drop pos l ≡ [] → length l ≤ pos
past_end [] pos h = omega arith
past_end (y ∷ l) zero h = absurd (cc)
past_end (y ∷ l) (suc pos) h = omega (arith, past_end l pos h)

walk_step :
    (l : Adata) (pos : ℕ) {x : ℕ} {r : Adata}
    → drop pos l ≡ x ∷ r
    → int_set_walk (some l) pos ≡ some (x, suc pos)
unfolding int_set_walk
walk_step l pos h = ground (arith, at_drop l pos h)

walk_end : (l : Adata) (pos : ℕ) → drop pos l ≡ [] → int_set_walk (some l) pos ≡ none
unfolding int_set_walk
walk_end l pos h = ground (arith, past_end l pos h)

walk-drop :
    (l r : Adata) (fuel pos : ℕ)
    → drop pos l ≡ r
    → length r < fuel
    → walk_values fuel (some l) pos ≡ (r, true)
unfolding walk_values
walk-drop l r zero pos h k = absurd (omega arith)
walk-drop l [] (suc fuel) pos h k = rw (walk_end l pos h, walk_values) refl
walk-drop l (x ∷ r) (suc fuel) pos h k =
    rw (walk_step l pos h, walk_values)
      (rw (walk-drop l r fuel (suc pos) (at_drop l pos h).2 (omega arith)) refl)

-- A walk from the start of a set ends within one call more than there are values, and shows the
-- values in their order.
pub int_set_walk-all :
    (l : Adata) (fuel : ℕ) → length l < fuel → walk_values fuel (some l) 0 ≡ (l, true)
int_set_walk-all l fuel h = walk-drop l l fuel 0 refl h
