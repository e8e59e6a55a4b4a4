-- ===== src/ASet/Int/Distinct.antt =====
-- Which sets of u32 values of nest/a-set.c hold no value twice, and what int_set_del does to others.
use bird.Common.{
  ℕ, zero, suc, ◌+◌, ◌-◌, ◌≤◌, ◌≡◌, refl, true, false, ◌==◌, none, some, [], ◌∷◌, ◌++◌, arith,
  length, drop, get_elem?, Bool-cases, inl, inr, ==_self,
}
use mathlib.Core.Bool.{false≢true}
use bird.ASet.{Adata, words_of}
use bird.ASet.Int.{
  words_contain, int_set_contains, int_set_prepend, int_set_add, words_without, int_set_del,
  new_words, int_set_union,
}
use bird.ASet.Int.Members.{
  IsDistinct, words_contain-append, contain-words_without, words_contain-new_words, join_new-append,
  int_set_del-distinct,
}

IsDistinct-append :
    (l1 l2 : Adata)
    → IsDistinct l1
    → IsDistinct l2
    → ((x : ℕ) → words_contain l1 x ≡ true → words_contain l2 x ≡ false)
    → IsDistinct (l1 ++ l2)
unfolding words_contain
IsDistinct-append [] l2 d e apart = e
IsDistinct-append (y ∷ l1) l2 d e apart = (
  rw (words_contain-append l1 l2 y) (ground (arith, d.0, apart y, ==_self y)),
  IsDistinct-append l1 l2 d.1 e (λ x h. ground (arith, apart x)),
)

IsDistinct-new_words : (l1 l2 : Adata) → IsDistinct l2 → IsDistinct (new_words l1 l2)
unfolding words_contain new_words
IsDistinct-new_words l1 [] d = tt
IsDistinct-new_words l1 (y ∷ l2) d = elim (Bool-cases (words_contain l1 y)) [
  | inl old ↦ rw old (IsDistinct-new_words l1 l2 d.1)
  | inr new ↦
      rw new
        ((ground (arith, d.0, words_contain-new_words l1 l2 y), IsDistinct-new_words l1 l2 d.1))
]

IsDistinct-without : (v : ℕ) (l : Adata) → IsDistinct l → IsDistinct (words_without v l)
unfolding words_without words_contain
IsDistinct-without v [] d = tt
IsDistinct-without v (y ∷ l) d = elim (Bool-cases (y == v)) [
  | inl same ↦ rw same (IsDistinct-without v l d.1)
  | inr other ↦
      rw other ((ground (arith, d.0, contain-words_without v l y), IsDistinct-without v l d.1))
]

add-IsDistinct : (l : Adata) (v : ℕ) → IsDistinct l → IsDistinct (words_of (int_set_add (some l) v))
unfolding int_set_add int_set_contains words_contain
add-IsDistinct l v d = elim (Bool-cases (words_contain l v)) [
  | inl old ↦ rw old d
  | inr new ↦ rw new (
      IsDistinct-append l (v ∷ []) d (refl, tt)
        (λ x h. elim (Bool-cases (v == x)) [
          | inl same ↦ absurd (false≢true (ground (arith, same, new)))
          | inr other ↦ ground (arith, other)
        ]))
]

prepend-IsDistinct :
    (l : Adata) (v : ℕ) → IsDistinct l → IsDistinct (words_of (int_set_prepend (some l) v))
unfolding int_set_prepend int_set_contains
prepend-IsDistinct l v d = elim (Bool-cases (words_contain l v)) [
  | inl old ↦ rw old d
  | inr new ↦ rw new ((new, d))
]

union-IsDistinct :
    (l m : Adata)
    → IsDistinct l
    → IsDistinct m
    → IsDistinct (words_of (int_set_union (some l) (some m)))
unfolding int_set_union
union-IsDistinct l m d e = rw (join_new-append l (new_words l m)) (
    IsDistinct-append l (new_words l m) d (IsDistinct-new_words l m e)
      (λ x h. ground (arith, words_contain-new_words l m x)))

-- Adding, prepending, deleting and uniting keep a set free of repetitions.
pub int_set_ops-IsDistinct :
    (lp_alloc : ℕ → Adata) (l m : Adata) (v : ℕ)
    → ((n : ℕ) → length (lp_alloc n) ≡ n)
    → IsDistinct l
    → IsDistinct m
    → IsDistinct (words_of (int_set_add (some l) v))
      × IsDistinct (words_of (int_set_prepend (some l) v))
      × IsDistinct (words_of (int_set_del lp_alloc (some l) v))
      × IsDistinct (words_of (int_set_union (some l) (some m)))
int_set_ops-IsDistinct lp_alloc l m v sized d e = (
  add-IsDistinct l v d,
  prepend-IsDistinct l v d,
  rw (int_set_del-distinct lp_alloc l v sized d) (IsDistinct-without v l d),
  union-IsDistinct l m d e,
)

length-without_le : (v : ℕ) (l : Adata) → length (words_without v l) ≤ length l
unfolding words_without
length-without_le v [] = omega arith
length-without_le v (x ∷ l) = ground (arith, length-without_le v l)

length-without_lt :
    (v : ℕ) (l : Adata) → words_contain l v ≡ true → length (words_without v l) + 1 ≤ length l
unfolding words_without words_contain
length-without_lt v [] h = cc
length-without_lt v (x ∷ l) h = ground (arith, length-without_lt v l, length-without_le v l)

length-without_twice :
    (v : ℕ) (l m : Adata)
    → words_contain m v ≡ true
    → length (words_without v (l ++ v ∷ m)) + 2 ≤ length (l ++ v ∷ m)
unfolding words_without
length-without_twice v [] m h = ground (arith, length-without_lt v m h, ==_self v)
length-without_twice v (x ∷ l) m h = ground (arith, length-without_twice v l m h)

contains-middle : (v : ℕ) (l m : Adata) → words_contain (l ++ v ∷ m) v ≡ true
unfolding words_contain
contains-middle v [] m = ground arith
contains-middle v (x ∷ l) m = ground (arith, contains-middle v l m)

get_elem?-overlay :
    (xs ys : Adata) (i : ℕ)
    → length xs ≤ i
    → get_elem? (xs ++ drop (length xs) ys) i ≡ get_elem? ys i
get_elem?-overlay [] ys i h = refl
get_elem?-overlay (x ∷ xs) ys zero h = absurd (omega arith)
get_elem?-overlay (x ∷ xs) [] (suc i) h = beyond xs i (omega arith)
  where
    beyond : (xs : Adata) (i : ℕ) → length xs ≤ i → get_elem? (xs ++ []) i ≡ none
    beyond [] i h = refl
    beyond (x ∷ xs) zero h = absurd (omega arith)
    beyond (x ∷ xs) (suc i) h = beyond xs i (omega arith)
get_elem?-overlay (x ∷ xs) (y ∷ ys) (suc i) h = get_elem?-overlay xs ys i (omega arith)

-- Where the deleted value stands twice or more, int_set_del ends its result with a word that was
-- never written: the last word of the new array is whatever the allocator left there.
pub int_set_del-stale :
    (lp_alloc : ℕ → Adata) (l m : Adata) (v : ℕ)
    → words_contain m v ≡ true
    → let list = l ++ v ∷ m in
      get_elem? (words_of (int_set_del lp_alloc (some list) v)) (length list - 2)
      ≡ get_elem? (lp_alloc (length list - 1)) (length list - 2)
unfolding int_set_del
int_set_del-stale lp_alloc l m v twice =
    let list = l ++ v ∷ m in
    let kept = words_without v list in
    rw (contains-middle v l m) (
      get_elem?-overlay kept (lp_alloc (length list - 1)) (length list - 2)
        (omega (arith, length-without_twice v l m twice)))
