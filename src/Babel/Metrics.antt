-- ===== src/Babel/Metrics.antt =====
-- The metrics of routes in proto/babel/babel.c when the cost of their neighbor changes.
use bird.Common.{
  ℕ, ◌+◌, ◌≡◌, ◌==◌, refl, sym, ◌∙◌, true, false, ◌&&◌, Bool-cases, Option-cases, inl, inr, arith,
  List, [], ◌∷◌, none, some, All, min, if◌then◌else◌, ltb,
}
use mathlib.Core.Path.{subst}
use bird.Babel.{Entry, Route, infinity, babel_find_route, put_route, babel_compute_metric}
use bird.Babel.Routes.{find_neigh, IsKeyed}
use bird.Babel.Select.{
  metric_or, selected_route, is_selected, best_from, admissible, babel_select_route,
}
use bird.Babel.Chosen.{commit-routes}
use bird.Babel.Update.{on_entries}
use bird.Babel.Cost.{recost}

-- The metrics that a cost of the neighbor gives its routes, worked out anew.
abbrev pub recosted : ℕ → ℕ → Route → Route
recosted address cost r =
    if r.neigh == address then record r { metric = min (r.advert_metric + cost) infinity } else r

abbrev pub recosted_all : ℕ → ℕ → List Route → List Route
recosted_all address cost [] = []
recosted_all address cost (r ∷ rs) = recosted address cost r ∷ recosted_all address cost rs

-- The routes of all entries, with the metrics for the cost.
abbrev pub route_lists : List Entry → List (List Route)
route_lists [] = []
route_lists (e ∷ es) = e.routes ∷ route_lists es

abbrev pub recosted_lists : ℕ → ℕ → List Entry → List (List Route)
recosted_lists address cost [] = []
recosted_lists address cost (e ∷ es) =
    recosted_all address cost e.routes ∷ recosted_lists address cost es

recosted_other :
    (address cost : ℕ) (r : Route) → (r.neigh == address) ≡ false → recosted address cost r ≡ r
recosted_other address cost r d = rw d refl

absent-recosted :
    (address cost : ℕ) (rs : List Route)
    → babel_find_route rs address ≡ none
    → recosted_all address cost rs ≡ rs
unfolding babel_find_route
absent-recosted address cost [] f = refl
absent-recosted address cost (r ∷ rs) f =
    let d : (r.neigh == address) ≡ false = ground arith in
    rw (recosted_other address cost r d, absent-recosted address cost rs (ground arith)) refl

put-recosted :
    (address cost : ℕ) (r : Route) (rs : List Route)
    → IsKeyed rs
    → babel_find_route rs address ≡ some r
    → put_route (record r { metric = min (r.advert_metric + cost) infinity }) rs
      ≡ recosted_all address cost rs
unfolding babel_find_route put_route
put-recosted address cost r [] k f = absurd (ground arith)
put-recosted address cost r (q ∷ rs) k f = elim (Bool-cases (q.neigh == address)) [
  | inl x ↦
      let q_r : q ≡ r = ground arith in
      let at : q.neigh ≡ address = ground arith in
      let own : (q.neigh == r.neigh) ≡ true = ground arith in
      let gone : babel_find_route rs address ≡ none =
        subst (λ t. babel_find_route rs t ≡ none) at k.0 in
      rw (put_route, own, absent-recosted address cost rs gone, x, q_r) refl
  | inr x ↦
      let later : babel_find_route rs address ≡ some r = ground arith in
      let at : r.neigh ≡ address = find_neigh rs address r later in
      let other : (q.neigh == r.neigh) ≡ false = ground arith in
      rw
        (
          put_route,
          other,
          recosted_other address cost q x,
          put-recosted address cost r rs k.1 later,
        )
        refl
]

pub select-routes :
    (now own : ℕ) (e : Entry) (changed : Route)
    → (babel_select_route now own e (some changed)).0.routes ≡ e.routes
unfolding babel_select_route
select-routes now own e changed = elim (Bool-cases (is_selected e changed)) [
  | inl s ↦
      rw (babel_select_route, s)
        (commit-routes now own e (best_from (admissible (selected_route e)) e.routes))
  | inr s ↦
      elim (Bool-cases (ltb changed.metric (metric_or (selected_route e)) && changed.feasible)) [
        | inl w ↦ rw (babel_select_route, s, w) (commit-routes now own e (some changed))
        | inr w ↦ rw (babel_select_route, s, w) refl
      ]
]

pub recost-routes :
    (now own address cost : ℕ) (e : Entry)
    → IsKeyed e.routes
    → (recost now own address cost e).0.routes ≡ recosted_all address cost e.routes
unfolding recost
recost-routes now own address cost e k = elim (Option-cases (babel_find_route e.routes address)) [
  | inl f ↦ rw (recost, f) (sym (absent-recosted address cost e.routes f))
  | inr (r, f) ↦
      let new : Route = record r { metric = babel_compute_metric cost r.advert_metric } in
      rw (recost, f)
        (select-routes now own (record e { routes = put_route new e.routes }) new
          ∙ put-recosted address cost r e.routes k f)
]

pub on_entries-recosted :
    (now own address cost : ℕ) (es : List Entry)
    → All (λ e. IsKeyed e.routes) es
    → route_lists (on_entries (recost now own address cost) es).0 ≡ recosted_lists address cost es
unfolding on_entries
on_entries-recosted now own address cost [] a = refl
on_entries-recosted now own address cost (e ∷ es) a =
    rw (recost-routes now own address cost e a.0, on_entries-recosted now own address cost es a.1)
      refl
