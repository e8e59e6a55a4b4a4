-- ===== src/ASet/Int/Members.antt =====
-- Membership in the sets of u32 values of nest/a-set.c.
use bird.Common.{
  ℕ, ◌+◌, ◌-◌, ◌≡◌, refl, true, false, not, ◌==◌, ◌&&◌, ◌||◌, Option, none, some, [], ◌∷◌, ◌++◌,
  arith, length, drop-eq_nil, Bool-cases, inl, inr,
}
use mathlib.Core.List.{append-nil}
use bird.ASet.{Adata, words_of}
use bird.ASet.Int.{
  words_contain, int_set_contains, int_set_prepend, int_set_add, words_without, int_set_del,
  new_words, join_new, int_set_union,
}

-- No value stands twice.
abbrev pub IsDistinct : Adata → Type 0
IsDistinct [] = Unit
IsDistinct (x ∷ xs) = (words_contain xs x ≡ false) × IsDistinct xs

pub words_contain-append :
    (xs ys : Adata) (v : ℕ)
    → words_contain (xs ++ ys) v ≡ (words_contain xs v || words_contain ys v)
unfolding words_contain
words_contain-append [] ys v = refl
words_contain-append (x ∷ xs) ys v = ground (arith, words_contain-append xs ys v)

contains-words_of : (s : Option Adata) (v : ℕ) → int_set_contains s v ≡ words_contain (words_of s) v
unfolding int_set_contains words_contain
contains-words_of none v = refl
contains-words_of (some l) v = refl

add-words :
    (s : Option Adata) (v x : ℕ)
    → words_contain (words_of (int_set_add s v)) x ≡ (x == v || words_contain (words_of s) x)
unfolding int_set_add int_set_contains words_contain
add-words none v x = ground arith
add-words (some l) v x = elim (Bool-cases (words_contain l v)) [
  | inl old ↦ rw old (ground (arith, old))
  | inr new ↦ rw (new, words_contain-append l (v ∷ []) x) (ground arith)
]

prepend-words :
    (s : Option Adata) (v x : ℕ)
    → words_contain (words_of (int_set_prepend s v)) x ≡ (x == v || words_contain (words_of s) x)
unfolding int_set_prepend int_set_contains words_contain
prepend-words none v x = ground arith
prepend-words (some l) v x = ground arith

-- After adding `v` at either end a set holds exactly `v` and what it held before.
pub int_set_contains-add :
    (s : Option Adata) (v x : ℕ)
    → (int_set_contains (int_set_add s v) x ≡ (x == v || int_set_contains s x))
      × (int_set_contains (int_set_prepend s v) x ≡ (x == v || int_set_contains s x))
int_set_contains-add s v x = (
  rw (contains-words_of (int_set_add s v) x, contains-words_of s x) (add-words s v x),
  rw (contains-words_of (int_set_prepend s v) x, contains-words_of s x) (prepend-words s v x),
)

pub contain-words_without :
    (v : ℕ) (l : Adata) (x : ℕ)
    → words_contain (words_without v l) x ≡ (not (x == v) && words_contain l x)
unfolding words_contain words_without
contain-words_without v [] x = ground arith
contain-words_without v (y ∷ l) x = ground (arith, contain-words_without v l x)

pub without-absent : (v : ℕ) (l : Adata) → words_contain l v ≡ false → words_without v l ≡ l
unfolding words_contain words_without
without-absent v [] h = refl
without-absent v (y ∷ l) h = ground (arith, without-absent v l)

length-without :
    (v : ℕ) (l : Adata)
    → IsDistinct l
    → words_contain l v ≡ true
    → length l ≡ length (words_without v l) + 1
unfolding words_contain words_without
length-without v [] d h = cc
length-without v (y ∷ l) d h = ground (arith, length-without v l d.1, without-absent v l)

-- On a set without repetitions int_set_del returns exactly the other words, and nothing of what
-- the allocator left in the new array.
pub int_set_del-distinct :
    (lp_alloc : ℕ → Adata) (l : Adata) (v : ℕ)
    → ((n : ℕ) → length (lp_alloc n) ≡ n)
    → IsDistinct l
    → int_set_del lp_alloc (some l) v ≡ some (words_without v l)
unfolding int_set_del
int_set_del-distinct lp_alloc l v sized d = elim (Bool-cases (words_contain l v)) [
  | inl present ↦
      rw
        (
          present,
          drop-eq_nil (length (words_without v l)) (lp_alloc (length l - 1))
              (omega (arith, sized (length l - 1), length-without v l d present)),
          append-nil,
        )
        refl
  | inr absent ↦ rw (absent, without-absent v l absent) refl
]

-- Deleting `v` from a set without repetitions removes `v` and nothing else.
pub int_set_contains-del :
    (lp_alloc : ℕ → Adata) (l : Adata) (v x : ℕ)
    → ((n : ℕ) → length (lp_alloc n) ≡ n)
    → IsDistinct l
    → int_set_contains (int_set_del lp_alloc (some l) v) x
      ≡ (not (x == v) && int_set_contains (some l) x)
unfolding int_set_contains
int_set_contains-del lp_alloc l v x sized d =
    rw (int_set_del-distinct lp_alloc l v sized d) (contain-words_without v l x)

pub words_contain-new_words :
    (l1 l2 : Adata) (x : ℕ)
    → words_contain (new_words l1 l2) x ≡ (not (words_contain l1 x) && words_contain l2 x)
unfolding words_contain new_words
words_contain-new_words l1 [] x = ground arith
words_contain-new_words l1 (y ∷ l2) x = elim (Bool-cases (words_contain l1 y)) [
  | inl old ↦ rw old (ground (arith, old, words_contain-new_words l1 l2 x))
  | inr new ↦ rw new (ground (arith, new, words_contain-new_words l1 l2 x))
]

pub join_new-append : (l1 l2 : Adata) → join_new l1 l2 ≡ l1 ++ l2
unfolding join_new
join_new-append l1 [] = rw append-nil refl
join_new-append l1 (x ∷ l2) = refl

-- A union holds what either of the two sets holds, null sets included.
pub int_set_contains-union :
    (s t : Option Adata) (x : ℕ)
    → int_set_contains (int_set_union s t) x ≡ (int_set_contains s x || int_set_contains t x)
unfolding int_set_union int_set_contains
int_set_contains-union none t x = refl
int_set_contains-union (some l1) none x = ground arith
int_set_contains-union (some l1) (some l2) x =
    rw (join_new-append l1 (new_words l1 l2), words_contain-append l1 (new_words l1 l2) x)
      (ground (arith, words_contain-new_words l1 l2 x))
