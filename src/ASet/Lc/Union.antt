-- ===== src/ASet/Lc/Union.antt =====
-- Unions of the sets of large communities of nest/a-set.c.
use bird.Common.{
  ℕ, ◌≡◌, refl, true, not, ◌&&◌, ◌||◌, Option, none, some, [], ◌∷◌, ◌++◌, arith, Bool-cases, inl,
  inr,
}
use mathlib.Core.List.{append-nil}
use bird.ASet.{Adata, words_of, Lcomm}
use bird.ASet.Lc.{lc_match, items_contain, lc_set_contains, new_items, join_items, lc_set_union}
use bird.ASet.Lc.Members.{IsItems, items_contain-append, same_member, match_same}

match_self : (a b c : ℕ) → lc_match a b c (record { asn = a; ldp1 = b; ldp2 = c }) ≡ true
unfolding lc_match
match_self a b c = ground arith

items_contain-new_items :
    (l m : Adata) (x : Lcomm)
    → IsItems m
    → items_contain (new_items l m) x ≡ (not (items_contain l x) && items_contain m x)
unfolding items_contain new_items
items_contain-new_items l [] x p = ground arith
items_contain-new_items l (a ∷ []) x p = absurd p
items_contain-new_items l (a ∷ b ∷ []) x p = absurd p
items_contain-new_items l (a ∷ b ∷ c ∷ m) x p =
    let item : Lcomm = record { asn = a; ldp1 = b; ldp2 = c } in
    let ih = items_contain-new_items l m x p in
    let same = match_same a b c item x (match_self a b c) in
    elim (Bool-cases (items_contain l item)) [
      | inl old ↦ rw old (ground (arith, old, ih, same, same_member l item x))
      | inr new ↦ rw new (ground (arith, new, ih, same, same_member l item x))
    ]

join_items-append : (l m : Adata) → join_items l m ≡ l ++ m
unfolding join_items
join_items-append l [] = rw append-nil refl
join_items-append l (x ∷ m) = refl

-- A union holds what either of the two sets holds, null sets included.
pub lc_set_contains-union :
    (s t : Option Adata) (x : Lcomm)
    → IsItems (words_of s)
    → IsItems (words_of t)
    → lc_set_contains (lc_set_union s t) x ≡ (lc_set_contains s x || lc_set_contains t x)
unfolding lc_set_union lc_set_contains
lc_set_contains-union none t x p q = refl
lc_set_contains-union (some l1) none x p q = ground arith
lc_set_contains-union (some l1) (some l2) x p q =
    rw (join_items-append l1 (new_items l1 l2), items_contain-append l1 (new_items l1 l2) x p)
      (ground (arith, items_contain-new_items l1 l2 x q))
