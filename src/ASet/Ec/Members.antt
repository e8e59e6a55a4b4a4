-- ===== src/ASet/Ec/Members.antt =====
-- Membership in the sets of extended communities of nest/a-set.c.
use bird.Common.{
  ℕ, ◌+◌, ◌-◌, ◌^◌, ◌<◌, ◌≡◌, refl, true, false, not, ◌==◌, ◌&&◌, ◌||◌, Option, none, some, [], ◌∷◌,
  ◌++◌, arith, length, drop-eq_nil, Bool-cases, inl, inr,
}
use mathlib.Core.List.{append-nil}
use bird.ASet.{Adata, words_of, ec_hi, ec_lo}
use bird.ASet.Ec.{pairs_contain, ec_set_contains, ec_set_add, pairs_without, ec_set_del}

-- An array of u64 items: an even number of words, each below 2 ^ 32.
abbrev pub IsPairs : Adata → Type 0
IsPairs [] = Unit
IsPairs (x ∷ []) = ⊥
IsPairs (x ∷ y ∷ l) = (x < 2 ^ 32) × (y < 2 ^ 32) × IsPairs l

-- A set, or the null pointer, that is well formed.
abbrev pub IsEcSet : Option Adata → Type 0
IsEcSet s = IsPairs (words_of s)

pub pairs_contain-append :
    (l m : Adata) (h k : ℕ)
    → IsPairs l
    → pairs_contain (l ++ m) h k ≡ (pairs_contain l h k || pairs_contain m h k)
unfolding pairs_contain
pairs_contain-append [] m h k p = refl
pairs_contain-append (x ∷ []) m h k p = absurd p
pairs_contain-append (x ∷ y ∷ l) m h k p = ground (arith, pairs_contain-append l m h k p.2)

contains-words_of :
    (s : Option Adata) (v : ℕ)
    → ec_set_contains s v ≡ pairs_contain (words_of s) (ec_hi v) (ec_lo v)
unfolding ec_set_contains pairs_contain
contains-words_of none v = refl
contains-words_of (some l) v = refl

-- The two halves determine a u64.
halves_eq :
    (v x : ℕ) → v < 2 ^ 64 → x < 2 ^ 64 → (ec_hi x == ec_hi v && ec_lo x == ec_lo v) ≡ (x == v)
halves_eq v x p q = ground arith

add-words :
    (s : Option Adata) (v h k : ℕ)
    → IsEcSet s
    → pairs_contain (words_of (ec_set_add s v)) h k
      ≡ ((h == ec_hi v && k == ec_lo v) || pairs_contain (words_of s) h k)
unfolding ec_set_add ec_set_contains pairs_contain
add-words none v h k p = ground arith
add-words (some l) v h k p = elim (Bool-cases (pairs_contain l (ec_hi v) (ec_lo v))) [
  | inl old ↦ rw old (ground (arith, old))
  | inr new ↦ rw (new, pairs_contain-append l (ec_hi v ∷ ec_lo v ∷ []) h k p) (ground arith)
]

-- After adding `v` a set of extended communities holds exactly `v` and what it held before.
pub ec_set_contains-add :
    (s : Option Adata) (v x : ℕ)
    → IsEcSet s
    → v < 2 ^ 64
    → x < 2 ^ 64
    → ec_set_contains (ec_set_add s v) x ≡ (x == v || ec_set_contains s x)
ec_set_contains-add s v x p q r =
    rw
      (
        contains-words_of (ec_set_add s v) x,
        contains-words_of s x,
        add-words s v (ec_hi x) (ec_lo x) p,
        halves_eq v x q r,
      )
      refl

pairs_contain-without :
    (eh el : ℕ) (l : Adata) (h k : ℕ)
    → pairs_contain (pairs_without eh el l) h k ≡ (not (h == eh && k == el) && pairs_contain l h k)
unfolding pairs_contain pairs_without
pairs_contain-without eh el [] h k = ground arith
pairs_contain-without eh el (x ∷ []) h k = ground arith
pairs_contain-without eh el (x ∷ y ∷ l) h k = ground (arith, pairs_contain-without eh el l h k)

-- No item stands twice.
abbrev pub IsDistinct : Adata → Type 0
IsDistinct [] = Unit
IsDistinct (x ∷ []) = Unit
IsDistinct (x ∷ y ∷ l) = (pairs_contain l x y ≡ false) × IsDistinct l

without-absent :
    (eh el : ℕ) (l : Adata) → IsPairs l → pairs_contain l eh el ≡ false → pairs_without eh el l ≡ l
unfolding pairs_contain pairs_without
without-absent eh el [] p h = refl
without-absent eh el (x ∷ []) p h = absurd p
without-absent eh el (x ∷ y ∷ l) p h = ground (arith, without-absent eh el l p.2)

same_absent :
    (x y eh el : ℕ) (l : Adata)
    → pairs_contain l x y ≡ false
    → (x == eh && y == el) ≡ true
    → pairs_contain l eh el ≡ false
same_absent x y eh el l d h = ground arith

length-without :
    (eh el : ℕ) (l : Adata)
    → IsPairs l
    → IsDistinct l
    → pairs_contain l eh el ≡ true
    → length l ≡ length (pairs_without eh el l) + 2
unfolding pairs_contain pairs_without
length-without eh el [] p d h = cc
length-without eh el (x ∷ []) p d h = absurd p
length-without eh el (x ∷ y ∷ l) p d h = elim (Bool-cases (x == eh && y == el)) [
  | inl same ↦
      rw same
        (ground (arith, d.0, same, without-absent eh el l p.2 (same_absent x y eh el l d.0 same)))
  | inr other ↦ rw other (omega (arith, length-without eh el l p.2 d.1 (rw other at h)))
]

del-distinct :
    (lp_alloc : ℕ → Adata) (l : Adata) (v : ℕ)
    → ((n : ℕ) → length (lp_alloc n) ≡ n)
    → IsPairs l
    → IsDistinct l
    → ec_set_del lp_alloc (some l) v ≡ some (pairs_without (ec_hi v) (ec_lo v) l)
unfolding ec_set_del ec_set_contains
del-distinct lp_alloc l v sized p d = elim (Bool-cases (pairs_contain l (ec_hi v) (ec_lo v))) [
  | inl present ↦
      rw
        (
          present,
          drop-eq_nil (length (pairs_without (ec_hi v) (ec_lo v) l)) (lp_alloc (length l - 2)) (
              omega
                (arith, sized (length l - 2), length-without (ec_hi v) (ec_lo v) l p d present)),
          append-nil,
        )
        refl
  | inr absent ↦ rw (absent, without-absent (ec_hi v) (ec_lo v) l p absent) refl
]

-- Deleting `v` from a set without repetitions removes `v` and nothing else, whatever memory the
-- allocator returns.
pub ec_set_contains-del :
    (lp_alloc : ℕ → Adata) (l : Adata) (v x : ℕ)
    → ((n : ℕ) → length (lp_alloc n) ≡ n)
    → IsPairs l
    → IsDistinct l
    → v < 2 ^ 64
    → x < 2 ^ 64
    → ec_set_contains (ec_set_del lp_alloc (some l) v) x
      ≡ (not (x == v) && ec_set_contains (some l) x)
unfolding ec_set_contains
ec_set_contains-del lp_alloc l v x sized p d q r =
    rw
      (
        del-distinct lp_alloc l v sized p d,
        pairs_contain-without (ec_hi v) (ec_lo v) l (ec_hi x) (ec_lo x),
        halves_eq v x q r,
      )
      refl
