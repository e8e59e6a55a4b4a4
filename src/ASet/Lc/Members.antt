-- ===== src/ASet/Lc/Members.antt =====
-- Membership in the sets of large communities of nest/a-set.c.
use bird.Common.{
  ℕ, ◌+◌, ◌-◌, ◌≡◌, refl, Bool, true, false, not, ◌==◌, ◌&&◌, ◌||◌, Option, none, some, [], ◌∷◌,
  ◌++◌, arith, length, drop-eq_nil, Bool-cases, inl, inr,
}
use mathlib.Core.List.{append-nil}
use bird.ASet.{Adata, words_of, Lcomm}
use bird.ASet.Lc.{lc_match, items_contain, lc_set_contains, lc_set_add, items_without, lc_set_del}

-- An array of three-word items.
abbrev pub IsItems : Adata → Type 0
IsItems [] = Unit
IsItems (a ∷ []) = ⊥
IsItems (a ∷ b ∷ []) = ⊥
IsItems (a ∷ b ∷ c ∷ l) = IsItems l

-- Equality of two large communities, component by component.
abbrev pub same_lc : Lcomm → Lcomm → Bool
same_lc x v = x.asn == v.asn && (x.ldp1 == v.ldp1 && x.ldp2 == v.ldp2)

pub items_contain-append :
    (l m : Adata) (v : Lcomm)
    → IsItems l
    → items_contain (l ++ m) v ≡ (items_contain l v || items_contain m v)
unfolding items_contain
items_contain-append [] m v p = refl
items_contain-append (a ∷ []) m v p = absurd p
items_contain-append (a ∷ b ∷ []) m v p = absurd p
items_contain-append (a ∷ b ∷ c ∷ l) m v p = ground (arith, items_contain-append l m v p)

contains-words_of :
    (s : Option Adata) (v : Lcomm) → lc_set_contains s v ≡ items_contain (words_of s) v
unfolding lc_set_contains items_contain
contains-words_of none v = refl
contains-words_of (some l) v = refl

same_lc-sym : (v x : Lcomm) → same_lc v x ≡ same_lc x v
same_lc-sym v x = ground arith

one_item : (v x : Lcomm) → items_contain (v.asn ∷ v.ldp1 ∷ v.ldp2 ∷ []) x ≡ same_lc x v
unfolding items_contain lc_match
one_item v x = ground (arith, same_lc-sym v x)

pub same_member :
    (l : Adata) (v x : Lcomm) → same_lc x v ≡ true → items_contain l x ≡ items_contain l v
unfolding items_contain lc_match
same_member l v x h = ground arith

add-words :
    (s : Option Adata) (v x : Lcomm)
    → IsItems (words_of s)
    → items_contain (words_of (lc_set_add s v)) x ≡ (same_lc x v || items_contain (words_of s) x)
unfolding lc_set_add lc_set_contains
add-words none v x p = rw (one_item v x) (unfold items_contain in ground arith)
add-words (some l) v x p = elim (Bool-cases (items_contain l v)) [
  | inl old ↦ rw old (ground (arith, old, same_member l v x))
  | inr new ↦
      rw (new, items_contain-append l (v.asn ∷ v.ldp1 ∷ v.ldp2 ∷ []) x p, one_item v x)
        (ground arith)
]

-- After adding `v` a set of large communities holds exactly `v` and what it held before.
pub lc_set_contains-add :
    (s : Option Adata) (v x : Lcomm)
    → IsItems (words_of s)
    → lc_set_contains (lc_set_add s v) x ≡ (same_lc x v || lc_set_contains s x)
lc_set_contains-add s v x p =
    rw (contains-words_of (lc_set_add s v) x, contains-words_of s x) (add-words s v x p)

pub match_same :
    (a b c : ℕ) (v x : Lcomm) → lc_match a b c v ≡ true → lc_match a b c x ≡ same_lc x v
unfolding lc_match
match_same a b c v x h = ground arith

match_congr : (a b c : ℕ) (v x : Lcomm) → same_lc x v ≡ true → lc_match a b c x ≡ lc_match a b c v
unfolding lc_match
match_congr a b c v x h = ground arith

items_contain-without :
    (v : Lcomm) (l : Adata) (x : Lcomm)
    → items_contain (items_without v l) x ≡ (not (same_lc x v) && items_contain l x)
unfolding items_contain items_without
items_contain-without v [] x = ground arith
items_contain-without v (a ∷ []) x = ground arith
items_contain-without v (a ∷ b ∷ []) x = ground arith
items_contain-without v (a ∷ b ∷ c ∷ l) x = elim (Bool-cases (lc_match a b c v)) [
  | inl out ↦ rw out (ground (arith, items_contain-without v l x, match_same a b c v x out))
  | inr kept ↦ rw kept (ground (arith, kept, items_contain-without v l x, match_congr a b c v x))
]

-- No item stands twice.
abbrev pub IsDistinct : Adata → Type 0
IsDistinct [] = Unit
IsDistinct (a ∷ []) = Unit
IsDistinct (a ∷ b ∷ []) = Unit
IsDistinct (a ∷ b ∷ c ∷ l) =
    (items_contain l (record { asn = a; ldp1 = b; ldp2 = c }) ≡ false) × IsDistinct l

without-absent :
    (v : Lcomm) (l : Adata) → IsItems l → items_contain l v ≡ false → items_without v l ≡ l
unfolding items_contain items_without
without-absent v [] p h = refl
without-absent v (a ∷ []) p h = absurd p
without-absent v (a ∷ b ∷ []) p h = absurd p
without-absent v (a ∷ b ∷ c ∷ l) p h = ground (arith, without-absent v l p)

same_absent :
    (a b c : ℕ) (v : Lcomm) (l : Adata)
    → items_contain l (record { asn = a; ldp1 = b; ldp2 = c }) ≡ false
    → lc_match a b c v ≡ true
    → items_contain l v ≡ false
unfolding lc_match
same_absent a b c v l d h = ground arith

length-without :
    (v : Lcomm) (l : Adata)
    → IsItems l
    → IsDistinct l
    → items_contain l v ≡ true
    → length l ≡ length (items_without v l) + 3
unfolding items_contain items_without
length-without v [] p d h = cc
length-without v (a ∷ []) p d h = absurd p
length-without v (a ∷ b ∷ []) p d h = absurd p
length-without v (a ∷ b ∷ c ∷ l) p d h = elim (Bool-cases (lc_match a b c v)) [
  | inl same ↦ rw same (ground (arith, without-absent v l p (same_absent a b c v l d.0 same)))
  | inr other ↦ rw other (omega (arith, length-without v l p d.1 (rw other at h)))
]

del-distinct :
    (lp_alloc : ℕ → Adata) (l : Adata) (v : Lcomm)
    → ((n : ℕ) → length (lp_alloc n) ≡ n)
    → IsItems l
    → IsDistinct l
    → lc_set_del lp_alloc (some l) v ≡ some (items_without v l)
unfolding lc_set_del
del-distinct lp_alloc l v sized p d = elim (Bool-cases (items_contain l v)) [
  | inl present ↦
      rw
        (
          present,
          drop-eq_nil (length (items_without v l)) (lp_alloc (length l - 3))
              (omega (arith, sized (length l - 3), length-without v l p d present)),
          append-nil,
        )
        refl
  | inr absent ↦ rw (absent, without-absent v l p absent) refl
]

-- Deleting `v` from a set without repetitions removes `v` and nothing else, whatever memory the
-- allocator returns.
pub lc_set_contains-del :
    (lp_alloc : ℕ → Adata) (l : Adata) (v x : Lcomm)
    → ((n : ℕ) → length (lp_alloc n) ≡ n)
    → IsItems l
    → IsDistinct l
    → lc_set_contains (lc_set_del lp_alloc (some l) v) x
      ≡ (not (same_lc x v) && lc_set_contains (some l) x)
unfolding lc_set_contains
lc_set_contains-del lp_alloc l v x sized p d =
    rw (del-distinct lp_alloc l v sized p d) (items_contain-without v l x)
