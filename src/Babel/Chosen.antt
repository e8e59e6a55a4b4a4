-- ===== src/Babel/Chosen.antt =====
-- The route that babel_select_route of proto/babel/babel.c selects is the best feasible one.
use bird.Common.{
  ℕ, ◌≤◌, ◌<◌, ◌≡◌, ◌==◌, refl, sym, ◌∙◌, true, false, ◌&&◌, ◌||◌, not, Bool-cases, Option-cases,
  inl, inr, arith, List, [], ◌∷◌, Option, none, some, All, ltb,
}
use mathlib.Core.Path.{subst}
use mathlib.Core.Option.{some-injective}
use bird.Babel.{Entry, Route, infinity, babel_find_route}
use bird.Babel.Routes.{find-All, IsKeyed, find_neigh, find-All_self}
use bird.Babel.Select.{metric_or, selected_route, babel_announce_rte, best_from, admissible, commit}

-- No feasible route has a metric below the number.
abbrev pub AtLeast : ℕ → List Route → Type 0
AtLeast m = All (λ r. r.feasible ≡ true → m ≤ r.metric)

-- A route that may be selected.
abbrev pub IsAdmissible : Option Route → Type 0
IsAdmissible none = Unit
IsAdmissible (some r) = (r.feasible ≡ true) × (r.metric < infinity)

-- Metrics that babel_compute_metric gives.
abbrev pub IsBounded : List Route → Type 0
IsBounded = All (λ r. r.metric ≤ infinity)

-- The selected route exists, is feasible and reachable, and no feasible route is better; without
-- one no feasible route is reachable. No neighbor has two routes.
pub record IsChosen (e : Entry) : Type 0 where
  pub keyed : IsKeyed e.routes
  pub bounded : IsBounded e.routes
  pub held : (n : ℕ) → e.selected ≡ some n → (r : Route) × (babel_find_route e.routes n ≡ some r)
  pub fit : IsAdmissible (selected_route e)
  pub least : AtLeast (metric_or (selected_route e)) e.routes

best_from-le :
    (best : Option Route) (rs : List Route) → metric_or (best_from best rs) ≤ metric_or best
unfolding best_from
best_from-le best [] = omega arith
best_from-le best (r ∷ rs) = elim (Bool-cases (ltb r.metric (metric_or best) && r.feasible)) [
  | inl e ↦ rw (best_from, e) (ground (arith, best_from-le (some r) rs))
  | inr e ↦ rw (best_from, e) (best_from-le best rs)
]

best_from-moves :
    (best : Option Route) (r : Route) (rs : List Route)
    → (ltb r.metric (metric_or best) && r.feasible) ≡ true
    → best_from best (r ∷ rs) ≡ best_from (some r) rs
unfolding best_from
best_from-moves best r rs e = rw (best_from, e) refl

best_from-stays :
    (best : Option Route) (r : Route) (rs : List Route)
    → (ltb r.metric (metric_or best) && r.feasible) ≡ false
    → best_from best (r ∷ rs) ≡ best_from best rs
unfolding best_from
best_from-stays best r rs e = rw (best_from, e) refl

best_from-AtLeast :
    (best : Option Route) (rs : List Route) → AtLeast (metric_or (best_from best rs)) rs
best_from-AtLeast best [] = tt
best_from-AtLeast best (r ∷ rs) =
    let P = λ (t : Option Route). AtLeast (metric_or t) (r ∷ rs) in
    elim (Bool-cases (ltb r.metric (metric_or best) && r.feasible)) [
      | inl e ↦
          subst P (sym (best_from-moves best r rs e))
            (λ f. best_from-le (some r) rs, best_from-AtLeast (some r) rs)
      | inr e ↦
          subst P (sym (best_from-stays best r rs e))
            (λ f. ground (arith, best_from-le best rs), best_from-AtLeast best rs)
    ]

best_from-IsAdmissible :
    (best : Option Route) (rs : List Route)
    → metric_or best ≤ infinity
    → IsAdmissible best
    → IsAdmissible (best_from best rs)
unfolding best_from
best_from-IsAdmissible best [] b a = a
best_from-IsAdmissible best (r ∷ rs) b a =
    elim (Bool-cases (ltb r.metric (metric_or best) && r.feasible)) [
      | inl e ↦ rw (best_from, e) (best_from-IsAdmissible (some r) rs (ground arith) (ground arith))
      | inr e ↦ rw (best_from, e) (best_from-IsAdmissible best rs b a)
    ]

-- What holds of the best route so far and of all others holds of the result.
abbrev Holds : (Route → Type 0) → Option Route → Type 0
Holds P none = Unit
Holds P (some r) = P r

best_from-Holds :
    (P : Route → Type 0) (best : Option Route) (rs : List Route)
    → Holds P best
    → All P rs
    → Holds P (best_from best rs)
unfolding best_from
best_from-Holds P best [] h a = h
best_from-Holds P best (r ∷ rs) h a =
    elim (Bool-cases (ltb r.metric (metric_or best) && r.feasible)) [
      | inl e ↦ rw (best_from, e) (best_from-Holds P (some r) rs a.0 a.1)
      | inr e ↦ rw (best_from, e) (best_from-Holds P best rs h a.1)
    ]

-- What the end of the selection leaves: the same routes, and the best one selected.
pub commit-routes :
    (now own : ℕ) (e : Entry) (best : Option Route) → (commit now own e best).0.routes ≡ e.routes
unfolding commit babel_announce_rte
commit-routes now own e none = ground arith
commit-routes now own e (some r) = refl

commit-some :
    (now own : ℕ) (e : Entry) (r : Route) → (commit now own e (some r)).0.selected ≡ some r.neigh
unfolding commit babel_announce_rte
commit-some now own e r = refl

announce_selected : (own : ℕ) (e : Entry) → (babel_announce_rte own e none).0.selected ≡ e.selected
unfolding babel_announce_rte
announce_selected own e = ground arith

commit-none :
    (now own : ℕ) (e : Entry)
    → ((n : ℕ) → e.selected ≡ some n → (r : Route) × (babel_find_route e.routes n ≡ some r))
    → (commit now own e none).0.selected ≡ none
unfolding commit
commit-none now own e h = elim (Option-cases e.selected) [
  | inl d ↦ let s : selected_route e ≡ none = rw d refl in rw (commit, s) d
  | inr (n, d) ↦
      let f = h n d in
      let s : selected_route e ≡ some f.0 = rw d f.1 in rw (commit, s) (announce_selected own _)
]

pub selected_is :
    (v : Entry) (n : ℕ) (r : Route)
    → v.selected ≡ some n
    → babel_find_route v.routes n ≡ some r
    → selected_route v ≡ some r
selected_is v n r s f = rw s f

pub selected_none : (v : Entry) → v.selected ≡ none → selected_route v ≡ none
selected_none v s = rw s refl

-- An entry whose selected route is known, and is as it should be.
pub IsChosen-of :
    (v : Entry) (best : Option Route)
    → IsKeyed v.routes
    → IsBounded v.routes
    → ((n : ℕ) → v.selected ≡ some n → (r : Route) × (babel_find_route v.routes n ≡ some r))
    → selected_route v ≡ best
    → IsAdmissible best
    → AtLeast (metric_or best) v.routes
    → IsChosen v
IsChosen-of v best k b h s a l = record {
  keyed = k;
  bounded = b;
  held = h;
  fit = subst IsAdmissible (sym s) a;
  least = subst (λ t. AtLeast (metric_or t) v.routes) (sym s) l;
}

-- A best route among the routes of the entry makes a choice.
pub commit-IsChosen :
    (now own : ℕ) (e : Entry) (best : Option Route)
    → IsKeyed e.routes
    → IsBounded e.routes
    → ((n : ℕ) → e.selected ≡ some n → (r : Route) × (babel_find_route e.routes n ≡ some r))
    → Holds (λ r. babel_find_route e.routes r.neigh ≡ some r) best
    → IsAdmissible best
    → AtLeast (metric_or best) e.routes
    → IsChosen (commit now own e best).0
commit-IsChosen now own e none k b h f a l =
    let v = (commit now own e none).0 in
    let q : v.routes ≡ e.routes = commit-routes now own e none in
    let s = commit-none now own e h in
    IsChosen-of v none (subst IsKeyed (sym q) k) (subst IsBounded (sym q) b)
      (λ n d. absurd (ground (arith, s, d))) (selected_none v s) tt
      (subst (AtLeast infinity) (sym q) l)
commit-IsChosen now own e (some r) k b h f a l =
    let v = (commit now own e (some r)).0 in
    let q : v.routes ≡ e.routes = commit-routes now own e (some r) in
    let s = commit-some now own e r in
    let g : babel_find_route v.routes r.neigh ≡ some r =
      subst (λ t. babel_find_route t r.neigh ≡ some r) (sym q) f in
    IsChosen-of v (some r) (subst IsKeyed (sym q) k) (subst IsBounded (sym q) b)
      (λ n d.
        let e : r.neigh ≡ n = some-injective r.neigh n (sym s ∙ d) in
        (r, subst (λ t. babel_find_route v.routes t ≡ some r) e g))
      (selected_is v r.neigh r s g) a (subst (AtLeast r.metric) (sym q) l)

found_at :
    (e : Entry) (r : Route) → selected_route e ≡ some r → babel_find_route e.routes r.neigh ≡ some r
found_at e r d = elim (Option-cases e.selected) [
  | inl s ↦ absurd (ground (arith, selected_none e s, d))
  | inr (n, s) ↦
      let f : babel_find_route e.routes n ≡ some r =
        subst (λ t. (elim t [ none ↦ none | some n ↦ babel_find_route e.routes n ]) ≡ some r) s d in
      subst (λ t. babel_find_route e.routes t ≡ some r) (sym (find_neigh e.routes n r f)) f
]

selected_found :
    (e : Entry)
    → IsKeyed e.routes
    → Holds (λ r. babel_find_route e.routes r.neigh ≡ some r) (selected_route e)
selected_found e k = elim (Option-cases (selected_route e)) [
  | inl d ↦ subst (Holds (λ r. babel_find_route e.routes r.neigh ≡ some r)) (sym d) tt
  | inr (r, d) ↦
      let f = found_at e r d in
      subst (Holds (λ q. babel_find_route e.routes q.neigh ≡ some q)) (sym d) f
]

admissible-Holds : (P : Route → Type 0) (o : Option Route) → Holds P o → Holds P (admissible o)
admissible-Holds P none h = tt
admissible-Holds P (some r) h = elim (Bool-cases (r.metric == infinity || not r.feasible)) [
  | inl e ↦ rw e tt
  | inr e ↦ rw e h
]

admissible-IsAdmissible :
    (o : Option Route)
    → Holds (λ r. r.metric ≤ infinity) o
    → (metric_or (admissible o) ≤ infinity) × IsAdmissible (admissible o)
admissible-IsAdmissible none h = (omega arith, tt)
admissible-IsAdmissible (some r) h = elim (Bool-cases (r.metric == infinity || not r.feasible)) [
  | inl e ↦ rw e (omega arith, tt)
  | inr e ↦ rw e (h, (ground arith, ground arith))
]

pub metric_le : (o : Option Route) → Holds (λ r. r.metric ≤ infinity) o → metric_or o ≤ infinity
metric_le none h = omega arith
metric_le (some r) h = h

-- What holds of all routes holds of the selected one.
pub selected-Holds : (P : Route → Type 0) (e : Entry) → All P e.routes → Holds P (selected_route e)
selected-Holds P e a = elim (Option-cases (selected_route e)) [
  | inl d ↦ subst (Holds P) (sym d) tt
  | inr (r, d) ↦ subst (Holds P) (sym d) (find-All P e.routes r.neigh r a (found_at e r d))
]

-- The choice among all routes.
pub select_all-IsChosen :
    (now own : ℕ) (e : Entry)
    → IsKeyed e.routes
    → IsBounded e.routes
    → ((n : ℕ) → e.selected ≡ some n → (r : Route) × (babel_find_route e.routes n ≡ some r))
    → IsChosen (commit now own e (best_from (admissible (selected_route e)) e.routes)).0
select_all-IsChosen now own e k b h =
    let best = admissible (selected_route e) in
    let P = λ (r : Route). babel_find_route e.routes r.neigh ≡ some r in
    let adm =
      admissible-IsAdmissible (selected_route e) (selected-Holds (λ r. r.metric ≤ infinity) e b) in
    commit-IsChosen now own e (best_from best e.routes) k b h
      (best_from-Holds P best e.routes (admissible-Holds P (selected_route e) (selected_found e k))
        (find-All_self e.routes k))
      (best_from-IsAdmissible best e.routes adm.0 adm.1) (best_from-AtLeast best e.routes)
