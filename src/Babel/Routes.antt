-- ===== src/Babel/Routes.antt =====
-- The list of an entry's routes in proto/babel/babel.c as a map from neighbors to routes.
use bird.Common.{
  ℕ, ◌≡◌, ◌≢◌, ◌==◌, refl, sym, ◌∙◌, true, false, Bool-cases, inl, inr, ==_self, arith, List, [],
  ◌∷◌, ◌++◌, none, some, All, All-map,
}
use mathlib.Core.Path.{subst}
use mathlib.Core.Option.{some-injective}
use bird.Babel.{Route, babel_find_route, put_route}

-- No two routes come from one neighbor.
abbrev pub IsKeyed : List Route → Type 0
IsKeyed [] = Unit
IsKeyed (r ∷ rs) = (babel_find_route rs r.neigh ≡ none) × IsKeyed rs

pub find_neigh :
    (rs : List Route) (n : ℕ) (r : Route) → babel_find_route rs n ≡ some r → r.neigh ≡ n
unfolding babel_find_route
find_neigh [] n r h = ground arith
find_neigh (q ∷ rs) n r h = ground (arith, find_neigh rs n r)

pub find-put_other :
    (m : Route) (rs : List Route) (n : ℕ)
    → (m.neigh == n) ≡ false
    → babel_find_route (put_route m rs) n ≡ babel_find_route rs n
unfolding babel_find_route put_route
find-put_other m [] n e = refl
find-put_other m (r ∷ rs) n e = ground (arith, find-put_other m rs n)

pub find-put_absent :
    (m : Route) (rs : List Route) (n : ℕ)
    → babel_find_route rs n ≡ none
    → babel_find_route (put_route m rs) n ≡ none
unfolding babel_find_route put_route
find-put_absent m [] n e = refl
find-put_absent m (r ∷ rs) n e = ground (arith, find-put_absent m rs n)

pub find-put_self :
    (m r : Route) (rs : List Route)
    → babel_find_route rs m.neigh ≡ some r
    → babel_find_route (put_route m rs) m.neigh ≡ some m
unfolding babel_find_route put_route
find-put_self m r [] e = ground arith
find-put_self m r (q ∷ rs) e = ground (arith, find-put_self m r rs)

pub put-IsKeyed : (m : Route) (rs : List Route) → IsKeyed rs → IsKeyed (put_route m rs)
unfolding put_route
put-IsKeyed m [] k = tt
put-IsKeyed m (r ∷ rs) k = elim (Bool-cases (r.neigh == m.neigh)) [
  | inl e ↦
      let d : r.neigh ≡ m.neigh = ground arith in
      rw (put_route, e) (subst (λ t. babel_find_route rs t ≡ none) d k.0, k.1)
  | inr e ↦ rw (put_route, e) (find-put_absent m rs r.neigh k.0, put-IsKeyed m rs k.1)
]

-- What holds of all routes and of the one that is put among them.
pub put-All :
    (P : Route → Type 0) (m : Route) (rs : List Route) → P m → All P rs → All P (put_route m rs)
unfolding put_route
put-All P m [] p a = tt
put-All P m (r ∷ rs) p a = elim (Bool-cases (r.neigh == m.neigh)) [
  | inl e ↦ rw (put_route, e) (p, a.1)
  | inr e ↦ rw (put_route, e) (a.0, put-All P m rs p a.1)
]

pub find-append :
    (rs : List Route) (q : Route) (n : ℕ) (r : Route)
    → babel_find_route rs n ≡ some r
    → babel_find_route (rs ++ q ∷ []) n ≡ some r
unfolding babel_find_route
find-append [] q n r e = ground arith
find-append (s ∷ rs) q n r e = ground (arith, find-append rs q n r)

pub find-append_none :
    (rs : List Route) (q : Route) (n : ℕ)
    → babel_find_route rs n ≡ none
    → (q.neigh == n) ≡ false
    → babel_find_route (rs ++ q ∷ []) n ≡ none
unfolding babel_find_route
find-append_none [] q n e d = ground arith
find-append_none (s ∷ rs) q n e d = ground (arith, find-append_none rs q n)

pub find-append_new :
    (rs : List Route) (q : Route)
    → babel_find_route rs q.neigh ≡ none
    → babel_find_route (rs ++ q ∷ []) q.neigh ≡ some q
unfolding babel_find_route
find-append_new [] q e = ground arith
find-append_new (s ∷ rs) q e = ground (arith, find-append_new rs q)

pub append-IsKeyed :
    (rs : List Route) (q : Route)
    → babel_find_route rs q.neigh ≡ none
    → IsKeyed rs
    → IsKeyed (rs ++ q ∷ [])
unfolding babel_find_route
append-IsKeyed [] q e k = (refl, tt)
append-IsKeyed (s ∷ rs) q e k =
    let d : (q.neigh == s.neigh) ≡ false = ground arith in
    let g : babel_find_route rs q.neigh ≡ none = ground arith in
    (find-append_none rs q s.neigh k.0 d, append-IsKeyed rs q g k.1)

find_behind :
    (r : Route) (rs : List Route) (q : Route)
    → babel_find_route rs r.neigh ≡ none
    → babel_find_route rs q.neigh ≡ some q
    → babel_find_route (r ∷ rs) q.neigh ≡ some q
unfolding babel_find_route
find_behind r rs q k h = elim (Bool-cases (r.neigh == q.neigh)) [
  | inl e ↦
      let d : r.neigh ≡ q.neigh = ground arith in
      let c : babel_find_route rs q.neigh ≡ none = subst (λ t. babel_find_route rs t ≡ none) d k in
      absurd (ground arith)
  | inr e ↦ rw (babel_find_route, e) h
]

-- In a list with distinct neighbors every route is found.
pub find-All_self :
    (rs : List Route) → IsKeyed rs → All (λ r. babel_find_route rs r.neigh ≡ some r) rs
unfolding babel_find_route
find-All_self [] k = tt
find-All_self (r ∷ rs) k =
    let own : babel_find_route (r ∷ rs) r.neigh ≡ some r =
      rw (babel_find_route, ==_self r.neigh) refl in
    let step = λ (q : Route) (h : babel_find_route rs q.neigh ≡ some q). find_behind r rs q k.0 h in
    (
      own,
      All-map (λ q. babel_find_route rs q.neigh ≡ some q)
          (λ q. babel_find_route (r ∷ rs) q.neigh ≡ some q) rs step (find-All_self rs k.1),
    )

nothing_found : (n : ℕ) (r : Route) → babel_find_route [] n ≢ some r
unfolding babel_find_route
nothing_found n r e = ground arith

found_first :
    (q : Route) (rs : List Route) (n : ℕ)
    → (q.neigh == n) ≡ true
    → babel_find_route (q ∷ rs) n ≡ some q
unfolding babel_find_route
found_first q rs n x = rw (babel_find_route, x) refl

found_later :
    (q : Route) (rs : List Route) (n : ℕ)
    → (q.neigh == n) ≡ false
    → babel_find_route (q ∷ rs) n ≡ babel_find_route rs n
unfolding babel_find_route
found_later q rs n x = rw (babel_find_route, x) refl

pub find-All :
    (P : Route → Type 0) (rs : List Route) (n : ℕ) (r : Route)
    → All P rs
    → babel_find_route rs n ≡ some r
    → P r
find-All P [] n r a e = absurd (nothing_found n r e)
find-All P (q ∷ rs) n r a e = elim (Bool-cases (q.neigh == n)) [
  | inl x ↦
      let d : some q ≡ some r = sym (found_first q rs n x) ∙ e in subst P (some-injective q r d) a.0
  | inr x ↦ find-All P rs n r a.1 (sym (found_later q rs n x) ∙ e)
]
