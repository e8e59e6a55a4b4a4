-- ===== src/Examples/Sorting.antt =====
-- An insertion sort in the place of the C library's qsort, for sets of nest/a-set.c.
use bird.Common.{
  ℕ, ◌≡◌, ◌≢◌, refl, Bool, true, false, ◌==◌, [], ◌∷◌, arith, Ordering, if◌then◌else◌, Bool-cases,
  inl, inr,
}
use bird.ASet.{Adata}
use bird.ASet.Int.{words_contain, int_set_cmp}
use bird.ASet.Int.Order.{IsSorted}

abbrev is_greater : Ordering → Bool
is_greater Ordering.gt = true
is_greater _ = false

abbrev pub insert_by : (ℕ → ℕ → Ordering) → ℕ → Adata → Adata
insert_by cmp x [] = x ∷ []
insert_by cmp x (y ∷ l) =
    let rest = insert_by cmp x l in if is_greater (cmp x y) then y ∷ rest else x ∷ y ∷ l

abbrev pub sort_by : (ℕ → ℕ → Ordering) → Adata → Adata
sort_by cmp [] = []
sort_by cmp (x ∷ l) = insert_by cmp x (sort_by cmp l)

not_greater : (o : Ordering) → is_greater o ≡ false → o ≢ Ordering.gt
not_greater o h = ground arith

flipped : (x y : ℕ) → is_greater (int_set_cmp x y) ≡ true → int_set_cmp y x ≢ Ordering.gt
unfolding int_set_cmp
flipped x y h = ground arith

insert_behind :
    (y x : ℕ) (l : Adata)
    → IsSorted int_set_cmp (y ∷ l)
    → int_set_cmp y x ≢ Ordering.gt
    → IsSorted int_set_cmp (y ∷ insert_by int_set_cmp x l)
insert_behind y x [] s h = (h, tt)
insert_behind y x (z ∷ l) s h =
    let ih = insert_behind z x l s.1 in
    elim (Bool-cases (is_greater (int_set_cmp x z))) [
      | inl later ↦ rw later ((s.0, ih (flipped x z later)))
      | inr here ↦ rw here ((h, (not_greater (int_set_cmp x z) here, s.1)))
    ]

insert-IsSorted :
    (x : ℕ) (l : Adata) → IsSorted int_set_cmp l → IsSorted int_set_cmp (insert_by int_set_cmp x l)
insert-IsSorted x [] s = tt
insert-IsSorted x (y ∷ l) s = elim (Bool-cases (is_greater (int_set_cmp x y))) [
  | inl later ↦ rw later (insert_behind y x l s (flipped x y later))
  | inr here ↦ rw here ((not_greater (int_set_cmp x y) here, s))
]

pub sort-IsSorted : (l : Adata) → IsSorted int_set_cmp (sort_by int_set_cmp l)
sort-IsSorted [] = tt
sort-IsSorted (x ∷ l) = insert-IsSorted x (sort_by int_set_cmp l) (sort-IsSorted l)

insert_members :
    (x : ℕ) (l : Adata) (v : ℕ)
    → words_contain (insert_by int_set_cmp x l) v ≡ (if x == v then true else words_contain l v)
unfolding words_contain
insert_members x [] v = refl
insert_members x (y ∷ l) v =
    let ih = insert_members x l v in
    elim (Bool-cases (is_greater (int_set_cmp x y))) [
      | inl later ↦ rw later (ground (arith, ih))
      | inr here ↦ rw here refl
    ]

pub sort_members : (l : Adata) (v : ℕ) → words_contain (sort_by int_set_cmp l) v ≡ words_contain l v
unfolding words_contain
sort_members [] v = refl
sort_members (x ∷ l) v =
    ground (arith, insert_members x (sort_by int_set_cmp l) v, sort_members l v)
