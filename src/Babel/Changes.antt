-- ===== src/Babel/Changes.antt =====
-- Changes of one route of an entry in proto/babel/babel.c keep the choice of the best one, with
-- babel_select_route where the code calls it.
use bird.Common.{
  ℕ, ◌≤◌, ◌<◌, ◌≡◌, ◌==◌, refl, ap, sym, ◌∙◌, true, false, ◌&&◌, Bool-cases, Option-cases, inl, inr,
  arith, List, none, some, ltb, All-map,
}
use mathlib.Core.Path.{subst}
use bird.Babel.{Entry, Route, infinity, babel_find_route, put_route}
use bird.Babel.Routes.{find-All, find-put_other, find-put_self, put-IsKeyed, put-All}
use bird.Babel.Select.{metric_or, selected_route, is_selected, babel_select_route}
use bird.Babel.Chosen.{
  AtLeast, IsAdmissible, IsBounded, IsChosen, selected_is, IsChosen-of, commit-IsChosen, metric_le,
  selected-Holds, select_all-IsChosen,
}

-- Putting a route among the others keeps the lower bound of the feasible metrics.
AtLeast-put :
    (m : ℕ) (new : Route) (rs : List Route)
    → (new.feasible ≡ true → m ≤ new.metric)
    → AtLeast m rs
    → AtLeast m (put_route new rs)
AtLeast-put m new rs h a = put-All (λ r. r.feasible ≡ true → m ≤ r.metric) new rs h a

AtLeast-le : (m n : ℕ) (rs : List Route) → m ≤ n → AtLeast n rs → AtLeast m rs
AtLeast-le m n rs h a =
    All-map (λ r. r.feasible ≡ true → n ≤ r.metric) (λ r. r.feasible ≡ true → m ≤ r.metric) rs
      (λ r k f. ground (arith, k f)) a

-- The selected route is still there when a route is rewritten.
pub held_put :
    (e : Entry) (new : Route)
    → ((n : ℕ) → e.selected ≡ some n → (r : Route) × (babel_find_route e.routes n ≡ some r))
    → (n : ℕ) → e.selected ≡ some n
    → (r : Route) × (babel_find_route (put_route new e.routes) n ≡ some r)
held_put e new h n d =
    let f = h n d in
    elim (Bool-cases (new.neigh == n)) [
      | inl x ↦
          let q : new.neigh ≡ n = ground arith in
          (
            new,
            subst (λ t. babel_find_route (put_route new e.routes) t ≡ some new) q
                (find-put_self new f.0 e.routes
                  (subst (λ t. babel_find_route e.routes t ≡ some f.0) (sym q) f.1)),
          )
      | inr x ↦ (f.0, find-put_other new e.routes n x ∙ f.1)
    ]

unselected_same :
    (e : Entry) (new : Route)
    → is_selected e new ≡ false
    → selected_route (record e { routes = put_route new e.routes }) ≡ selected_route e
unselected_same e new s = elim (Option-cases e.selected) [
  | inl d ↦ rw d refl
  | inr (n, d) ↦
      let q : (n == new.neigh) ≡ false =
        subst (λ t. (elim t [ none ↦ false | some n ↦ n == new.neigh ]) ≡ false) d s in
      rw d (find-put_other new e.routes n (ground arith))
]

selected_at : (e : Entry) (r : Route) → is_selected e r ≡ true → e.selected ≡ some r.neigh
selected_at e r s = ground arith

pub selected_le : (e : Entry) → IsBounded e.routes → metric_or (selected_route e) ≤ infinity
selected_le e b = metric_le (selected_route e) (selected-Holds (λ r. r.metric ≤ infinity) e b)

-- babel_select_route after one route of a well-chosen entry was rewritten, and told so, leaves an
-- entry with the best feasible route selected, though it does not look at the other routes unless
-- the selected one has changed.
pub select_changed-IsChosen :
    (now own : ℕ) (e : Entry) (new old : Route)
    → IsChosen e
    → babel_find_route e.routes new.neigh ≡ some old
    → new.metric ≤ infinity
    → IsChosen
        (babel_select_route now own (record e { routes = put_route new e.routes }) (some new)).0
unfolding babel_select_route
select_changed-IsChosen now own e new old c f b =
    let v : Entry = record e { routes = put_route new e.routes } in
    let k = put-IsKeyed new e.routes c.keyed in
    let bd = put-All (λ r. r.metric ≤ infinity) new e.routes b c.bounded in
    let g = find-put_self new old e.routes f in
    let h = held_put e new c.held in
    elim (Bool-cases (is_selected v new)) [
      | inl s ↦ rw (babel_select_route, s) (select_all-IsChosen now own v k bd h)
      | inr s ↦
          let same : selected_route v ≡ selected_route e = unselected_same e new s in
          let le = selected_le v bd in
          let low : AtLeast (metric_or (selected_route v)) e.routes =
            subst (λ t. AtLeast (metric_or t) e.routes) (sym same) c.least in
          elim (Bool-cases (ltb new.metric (metric_or (selected_route v)) && new.feasible)) [
            | inl w ↦
                rw (babel_select_route, s, w)
                  (commit-IsChosen now own v (some new) k bd h g (ground arith, ground arith)
                    (AtLeast-put new.metric new e.routes (λ x. omega arith)
                      (AtLeast-le new.metric _ e.routes (ground arith) low)))
            | inr w ↦
                rw (babel_select_route, s, w)
                  (IsChosen-of v (selected_route v) k bd h refl
                    (subst IsAdmissible (sym same) c.fit)
                    (AtLeast-put _ new e.routes (λ x. ground arith) low))
          ]
    ]

-- Rewriting a route that is not selected and no better than the selected one.
pub put_unselected-IsChosen :
    (e : Entry) (new : Route)
    → IsChosen e
    → is_selected e new ≡ false
    → new.metric ≤ infinity
    → (new.feasible ≡ true → metric_or (selected_route e) ≤ new.metric)
    → IsChosen (record e { routes = put_route new e.routes })
put_unselected-IsChosen e new c s b h =
    let v : Entry = record e { routes = put_route new e.routes } in
    IsChosen-of v (selected_route e) (put-IsKeyed new e.routes c.keyed)
      (put-All (λ r. r.metric ≤ infinity) new e.routes b c.bounded) (held_put e new c.held)
      (unselected_same e new s) c.fit
      (AtLeast-put (metric_or (selected_route e)) new e.routes h c.least)

-- Rewriting a route without a change of what the selection reads.
pub rewritten-IsChosen :
    (e : Entry) (new old : Route)
    → IsChosen e
    → babel_find_route e.routes new.neigh ≡ some old
    → new.feasible ≡ old.feasible
    → new.metric ≡ old.metric
    → IsChosen (record e { routes = put_route new e.routes })
rewritten-IsChosen e new old c f x m =
    let v : Entry = record e { routes = put_route new e.routes } in
    let b : new.metric ≤ infinity =
      subst (λ t. t ≤ infinity) (sym m)
        (find-All (λ r. r.metric ≤ infinity) e.routes new.neigh old c.bounded f) in
    let l =
      find-All (λ r. r.feasible ≡ true → metric_or (selected_route e) ≤ r.metric) e.routes new.neigh
        old c.least f in
    let low : new.feasible ≡ true → metric_or (selected_route e) ≤ new.metric =
      λ y. subst (λ t. metric_or (selected_route e) ≤ t) (sym m) (l (sym x ∙ y)) in
    elim (Bool-cases (is_selected e new)) [
      | inr s ↦ put_unselected-IsChosen e new c s b low
      | inl s ↦
          let at = selected_at e new s in
          let was : selected_route e ≡ some old = selected_is e new.neigh old at f in
          let g = find-put_self new old e.routes f in
          let fit : IsAdmissible (some old) = subst IsAdmissible was c.fit in
          IsChosen-of v (some new) (put-IsKeyed new e.routes c.keyed)
            (put-All (λ r. r.metric ≤ infinity) new e.routes b c.bounded) (held_put e new c.held)
            (selected_is v new.neigh new at g) (x ∙ fit.0, subst (λ t. t < infinity) (sym m) fit.1)
            (AtLeast-put new.metric new e.routes (λ y. omega arith)
              (subst (λ t. AtLeast t e.routes) (ap metric_or was ∙ sym m) c.least))
    ]
