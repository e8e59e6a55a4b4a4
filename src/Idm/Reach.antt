-- ===== src/Idm/Reach.antt =====
-- The users of the map of IDs of lib/idm.c as a step relation: they hold the IDs given to them and
-- give them back in any order.
use bird.Common.{
  ℕ, ◌≤◌, ◌<◌, ◌^◌, ◌≡◌, ◌≢◌, refl, sym, ap, ◌∙◌, Bool, true, false, not, ◌==◌, ◌&&◌, ◌||◌, some,
  none, List, [], ◌∷◌, arith, Bool-cases, inl, inr, if◌then◌else◌,
}
use mathlib.Core.Path.{subst}
use bird.Idm.{Idm, idm_init, idm_alloc, idm_free, in_use}
use bird.Idm.Invariant.{IsValid, init-IsValid, init_in_use}
use bird.Idm.Alloc.{IsAllocated, idm_alloc_lem}
use bird.Idm.Free.{idm_free_lem}

-- The abstract view: a list of IDs, membership, removal, and that no ID stands twice.
unfoldable pub holds : List ℕ → ℕ → Bool
holds [] k = false
holds (x ∷ xs) k = k == x || holds xs k

unfoldable pub without : ℕ → List ℕ → List ℕ
without id [] = []
without id (x ∷ xs) = if x == id then without id xs else x ∷ without id xs

unfoldable pub AreDistinct : List ℕ → Type 0
AreDistinct [] = Unit
AreDistinct (x ∷ xs) = (holds xs x ≡ false) × AreDistinct xs

holds-without :
    (id : ℕ) (xs : List ℕ) (k : ℕ) → holds (without id xs) k ≡ (not (k == id) && holds xs k)
unfolding holds without
holds-without id [] k = ground arith
holds-without id (x ∷ xs) k = elim (Bool-cases (x == id)) [
  | inl e ↦ rw e (ground (arith, holds-without id xs k))
  | inr e ↦ rw e (ground (arith, holds-without id xs k))
]

without-AreDistinct : (id : ℕ) (xs : List ℕ) → AreDistinct xs → AreDistinct (without id xs)
unfolding AreDistinct without
without-AreDistinct id [] d = tt
without-AreDistinct id (x ∷ xs) (new, d) = elim (Bool-cases (x == id)) [
  | inl e ↦ rw e (without-AreDistinct id xs d)
  | inr e ↦ rw e ((ground (arith, holds-without id xs x), without-AreDistinct id xs d))
]

-- A map and the IDs that its users hold, from a new map on.
pub data IsReachable : Idm → List ℕ → Type 0 where
  created : (size : ℕ) → 0 < size → size ≤ 2 ^ 26 → IsReachable (idm_init size) []
  alloc :
      {m : Idm} {live : List ℕ} (m' : Idm) (id : ℕ)
      → IsReachable m live
      → m.size ≤ 2 ^ 26
      → idm_alloc m ≡ some (m', id)
      → IsReachable m' (id ∷ live)
  free :
      {m : Idm} {live : List ℕ} (m' : Idm) (id : ℕ)
      → IsReachable m live
      → holds live id ≡ true
      → idm_free m id ≡ some m'
      → IsReachable m' (without id live)

-- The map implements the list: it is valid, the IDs in use are those of the list and the reserved
-- one, which is not on the list, and no ID is on the list twice.
pub record Implements (m : Idm) (live : List ℕ) : Type 0 where
  pub valid : IsValid m
  pub same : (k : ℕ) → in_use m k ≡ (k == 0 || holds live k)
  pub unreserved : holds live 0 ≡ false
  pub distinct : AreDistinct live

some_same : {A : Type 0} {a b : A} → some a ≡ some b → a ≡ b
some_same {a = a} e = ap (λ o. elim o [ none ↦ a | some x ↦ x ]) e

pub allocated :
    (m m' : Idm) (id : ℕ)
    → IsValid m
    → m.size ≤ 2 ^ 26
    → idm_alloc m ≡ some (m', id)
    → IsAllocated m m' id
allocated m m' id v small e =
    let (n, i, run, al) = idm_alloc_lem m v small in
    let same : (n, i) ≡ (m', id) = some_same (sym run ∙ e) in
    subst (λ r. IsAllocated m r.0 r.1) same al

freed :
    (m m' : Idm) (id : ℕ)
    → IsValid m
    → in_use m id ≡ true
    → id ≢ 0
    → idm_free m id ≡ some m'
    → ((k : ℕ) → in_use m' k ≡ (not (k == id) && in_use m k)) × IsValid m'
freed m m' id v used ne e =
    let (n, run, marked, valid) = idm_free_lem m id v used ne in
    let same : n ≡ m' = some_same (sym run ∙ e) in
    subst (λ r. ((k : ℕ) → in_use r k ≡ (not (k == id) && in_use m k)) × IsValid r) same
      (marked, valid)

alloc-Implements :
    (m m' : Idm) (live : List ℕ) (id : ℕ)
    → Implements m live
    → IsAllocated m m' id
    → Implements m' (id ∷ live)
unfolding holds AreDistinct
alloc-Implements m m' live id r al = record {
  valid = al.valid;
  same = λ k. ground (arith, al.marked k, r.same k);
  unreserved = ground (arith, al.fresh, r.same id, r.unreserved);
  distinct = (ground (arith, al.fresh, r.same id), r.distinct);
}

free-Implements :
    (m m' : Idm) (live : List ℕ) (id : ℕ)
    → Implements m live
    → holds live id ≡ true
    → idm_free m id ≡ some m'
    → Implements m' (without id live)
free-Implements m m' live id r held e =
    let ne : id ≢ 0 = λ z. absurd (ground (arith, ap (holds live) z, r.unreserved)) in
    let (marked, valid) = freed m m' id r.valid (ground (arith, r.same id)) ne e in
    record {
      valid = valid;
      same = λ k. ground (arith, marked k, r.same k, holds-without id live k, ne);
      unreserved = ground (arith, holds-without id live 0, r.unreserved);
      distinct = without-AreDistinct id live r.distinct;
    }

-- Whatever the users ask for and give back, in any order, the map implements the list of IDs that
-- they hold: no ID is given to two of them, and none is the reserved 0.
pub IsReachable-Implements : {m : Idm} {live : List ℕ} → IsReachable m live → Implements m live
unfolding holds AreDistinct
IsReachable-Implements (created size pos small) = record {
  valid = init-IsValid size pos small;
  same = λ k. ground (arith, init_in_use size k pos);
  unreserved = refl;
  distinct = tt;
}
IsReachable-Implements (alloc {m = m} {live = live} m' id r small e) =
    let i = IsReachable-Implements r in
    alloc-Implements m m' live id i (allocated m m' id i.valid small e)
IsReachable-Implements (free {m = m} {live = live} m' id r held e) =
    free-Implements m m' live id (IsReachable-Implements r) held e
