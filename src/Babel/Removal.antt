-- ===== src/Babel/Removal.antt =====
-- The list of an entry's routes in proto/babel/babel.c when a route leaves it.
use bird.Common.{ℕ, ◌≡◌, ◌==◌, refl, false, Bool-cases, inl, inr, arith, List, [], ◌∷◌, none, All}
use mathlib.Core.Path.{subst}
use bird.Babel.{Route, babel_find_route}
use bird.Babel.Routes.{IsKeyed}
use bird.Babel.Select.{remove_route}

pub find-remove_other :
    (m : ℕ) (rs : List Route) (n : ℕ)
    → (m == n) ≡ false
    → babel_find_route (remove_route m rs) n ≡ babel_find_route rs n
unfolding babel_find_route remove_route
find-remove_other m [] n e = refl
find-remove_other m (r ∷ rs) n e = ground (arith, find-remove_other m rs n)

find-remove_absent :
    (m : ℕ) (rs : List Route) (n : ℕ)
    → babel_find_route rs n ≡ none
    → babel_find_route (remove_route m rs) n ≡ none
unfolding babel_find_route remove_route
find-remove_absent m [] n e = refl
find-remove_absent m (r ∷ rs) n e = ground (arith, find-remove_absent m rs n)

pub find-remove_self :
    (m : ℕ) (rs : List Route) → IsKeyed rs → babel_find_route (remove_route m rs) m ≡ none
unfolding babel_find_route remove_route
find-remove_self m [] k = refl
find-remove_self m (r ∷ rs) k = elim (Bool-cases (r.neigh == m)) [
  | inl e ↦
      let d : r.neigh ≡ m = ground arith in
      rw (remove_route, e) (subst (λ t. babel_find_route rs t ≡ none) d k.0)
  | inr e ↦ rw (remove_route, e) (rw (babel_find_route, e) (find-remove_self m rs k.1))
]

pub remove-IsKeyed : (m : ℕ) (rs : List Route) → IsKeyed rs → IsKeyed (remove_route m rs)
unfolding remove_route
remove-IsKeyed m [] k = tt
remove-IsKeyed m (r ∷ rs) k = elim (Bool-cases (r.neigh == m)) [
  | inl e ↦ rw (remove_route, e) k.1
  | inr e ↦ rw (remove_route, e) (find-remove_absent m rs r.neigh k.0, remove-IsKeyed m rs k.1)
]

pub remove-All :
    (P : Route → Type 0) (m : ℕ) (rs : List Route) → All P rs → All P (remove_route m rs)
unfolding remove_route
remove-All P m [] a = tt
remove-All P m (r ∷ rs) a = elim (Bool-cases (r.neigh == m)) [
  | inl e ↦ rw (remove_route, e) a.1
  | inr e ↦ rw (remove_route, e) (a.0, remove-All P m rs a.1)
]
