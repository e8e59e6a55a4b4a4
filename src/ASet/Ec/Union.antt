-- ===== src/ASet/Ec/Union.antt =====
-- Unions and the transitive part of the sets of extended communities of nest/a-set.c.
use bird.Common.{
  ℕ, ◌%◌, ◌/◌, ◌^◌, ◌<◌, ◌≡◌, refl, not, ◌==◌, ◌&&◌, ◌||◌, Option, none, some, [], ◌∷◌, ◌++◌, arith,
  Bool-cases, inl, inr,
}
use mathlib.Core.List.{append-nil}
use bird.ASet.{Adata, ec_hi, ec_lo}
use bird.ASet.Ec.{
  pairs_contain, ec_set_contains, ec_get, new_pairs, join_pairs, ec_set_union, has_tbit,
  ec_set_del_nontrans,
}
use bird.ASet.Ec.Members.{IsPairs, IsEcSet, pairs_contain-append}

get_halves :
    (x y : ℕ) → x < 2 ^ 32 → y < 2 ^ 32 → (ec_hi (ec_get x y) ≡ x) × (ec_lo (ec_get x y) ≡ y)
get_halves x y p q = (omega arith, omega arith)

pairs_contain-new_pairs :
    (l m : Adata) (h k : ℕ)
    → IsPairs m
    → pairs_contain (new_pairs l m) h k ≡ (not (pairs_contain l h k) && pairs_contain m h k)
unfolding pairs_contain new_pairs ec_set_contains
pairs_contain-new_pairs l [] h k p = ground arith
pairs_contain-new_pairs l (x ∷ []) h k p = absurd p
pairs_contain-new_pairs l (x ∷ y ∷ m) h k p =
    rw ((get_halves x y p.0 p.1).0, (get_halves x y p.0 p.1).1)
      (elim (Bool-cases (pairs_contain l x y)) [
        | inl old ↦ rw old (ground (arith, old, pairs_contain-new_pairs l m h k p.2))
        | inr new ↦ rw new (ground (arith, new, pairs_contain-new_pairs l m h k p.2))
      ])

join_pairs-append : (l m : Adata) → join_pairs l m ≡ l ++ m
unfolding join_pairs
join_pairs-append l [] = rw append-nil refl
join_pairs-append l (x ∷ m) = refl

-- A union holds what either of the two sets holds, null sets included.
pub ec_set_contains-union :
    (s t : Option Adata) (x : ℕ)
    → IsEcSet s
    → IsEcSet t
    → ec_set_contains (ec_set_union s t) x ≡ (ec_set_contains s x || ec_set_contains t x)
unfolding ec_set_union ec_set_contains
ec_set_contains-union none t x p q = refl
ec_set_contains-union (some l1) none x p q = ground arith
ec_set_contains-union (some l1) (some l2) x p q =
    rw
      (
        join_pairs-append l1 (new_pairs l1 l2),
        pairs_contain-append l1 (new_pairs l1 l2) (ec_hi x) (ec_lo x) p,
      )
      (ground (arith, pairs_contain-new_pairs l1 l2 (ec_hi x) (ec_lo x) q))

tbit : (v : ℕ) → v < 2 ^ 64 → ec_hi v / 2 ^ 30 % 2 ≡ (v / 2 ^ 62) % 2
tbit v h = omega arith

del_nontrans-pairs :
    (l : Adata) (h k : ℕ)
    → pairs_contain (ec_set_del_nontrans l) h k ≡ (not (has_tbit h) && pairs_contain l h k)
unfolding pairs_contain ec_set_del_nontrans
del_nontrans-pairs [] h k = ground arith
del_nontrans-pairs (x ∷ []) h k = ground arith
del_nontrans-pairs (x ∷ y ∷ l) h k = elim (Bool-cases (has_tbit x)) [
  | inl out ↦ rw out (ground (arith, out, del_nontrans-pairs l h k))
  | inr kept ↦ rw kept (ground (arith, kept, del_nontrans-pairs l h k))
]

-- Removing the non-transitive communities keeps exactly those whose bit EC_TBIT, bit 62 of the
-- value, is clear.
pub ec_set_contains-del_nontrans :
    (l : Adata) (v : ℕ)
    → v < 2 ^ 64
    → ec_set_contains (some (ec_set_del_nontrans l)) v
      ≡ (not ((v / 2 ^ 62) % 2 == 1) && ec_set_contains (some l) v)
unfolding ec_set_contains
ec_set_contains-del_nontrans l v h =
    rw (del_nontrans-pairs l (ec_hi v) (ec_lo v)) (rw (tbit v h) refl)
