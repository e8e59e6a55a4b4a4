-- ===== src/Babel/Expiry.antt =====
-- Routes that expire in proto/babel/babel.c: what holds of an entry when a route is rewritten or
-- leaves.
use bird.Common.{
  ℕ, ◌≤◌, ◌≡◌, ◌==◌, refl, sym, ◌∙◌, Bool, true, false, ◌&&◌, Bool-cases, Option-cases, inl, inr,
  arith, none, some, ◌!=◌, leb, if◌then◌else◌,
}
use mathlib.Core.Path.{subst}
use bird.Babel.{Entry, Route, infinity, babel_find_route, put_route}
use bird.Babel.Routes.{IsKeyed, put-IsKeyed, put-All}
use bird.Babel.Removal.{find-remove_other, remove-IsKeyed, remove-All}
use bird.Babel.Select.{selected_route, metric_or, is_selected, babel_flush_route}
use bird.Babel.Chosen.{IsChosen, IsBounded, IsChosen-of}
use bird.Babel.Changes.{held_put}

-- What the walk keeps even when the selected route expires.
pub record IsSound (e : Entry) : Type 0 where
  pub keyed : IsKeyed e.routes
  pub bounded : IsBounded e.routes
  pub held : (n : ℕ) → e.selected ≡ some n → (r : Route) × (babel_find_route e.routes n ≡ some r)

abbrev pub is_expired : ℕ → Route → Bool
is_expired now r = r.expires != 0 && leb r.expires now

pub put-IsSound :
    (e : Entry) (new : Route)
    → IsSound e
    → new.metric ≤ infinity
    → IsSound (record e { routes = put_route new e.routes })
put-IsSound e new s b = record {
  keyed = put-IsKeyed new e.routes s.keyed;
  bounded = put-All (λ r. r.metric ≤ infinity) new e.routes b s.bounded;
  held = held_put e new s.held;
}

pub unselected_apart :
    (e : Entry) (r : Route) (n : ℕ)
    → is_selected e r ≡ false
    → e.selected ≡ some n
    → (r.neigh == n) ≡ false
unselected_apart e r n s d =
    let q : (n == r.neigh) ≡ false =
      subst (λ t. (elim t [ none ↦ false | some n ↦ n == r.neigh ]) ≡ false) d s in
    ground arith

pub flush-held :
    (e : Entry) (r : Route)
    → IsSound e
    → (n : ℕ) → (babel_flush_route e r).selected ≡ some n
    → (q : Route) × (babel_find_route (babel_flush_route e r).routes n ≡ some q)
flush-held e r s n d = elim (Bool-cases (is_selected e r)) [
  | inl x ↦ absurd (ground (arith, subst (λ t. (if t then none else e.selected) ≡ some n) x d))
  | inr x ↦
      let at : e.selected ≡ some n = subst (λ t. (if t then none else e.selected) ≡ some n) x d in
      let f = s.held n at in
      (f.0, find-remove_other r.neigh e.routes n (unselected_apart e r n x at) ∙ f.1)
]

pub flush-IsSound : (e : Entry) (r : Route) → IsSound e → IsSound (babel_flush_route e r)
flush-IsSound e r s = record {
  keyed = remove-IsKeyed r.neigh e.routes s.keyed;
  bounded = remove-All (λ r. r.metric ≤ infinity) r.neigh e.routes s.bounded;
  held = flush-held e r s;
}

pub chosen-IsSound : (e : Entry) → IsChosen e → IsSound e
chosen-IsSound e c = record { keyed = c.keyed; bounded = c.bounded; held = c.held }

pub flush-IsChosen :
    (e : Entry) (r : Route)
    → IsChosen e
    → is_selected e r ≡ false
    → IsChosen (babel_flush_route e r)
flush-IsChosen e r c x =
    let v = babel_flush_route e r in
    let s = flush-IsSound e r (chosen-IsSound e c) in
    let same : v.selected ≡ e.selected =
      subst (λ t. (if t then none else e.selected) ≡ e.selected) (sym x) refl in
    let route : selected_route v ≡ selected_route e = elim (Option-cases e.selected) [
      | inl d ↦ rw (x, d) refl
      | inr (n, d) ↦ rw (x, d) (find-remove_other r.neigh e.routes n (unselected_apart e r n x d))
    ] in
    IsChosen-of v (selected_route e) s.keyed s.bounded s.held route c.fit (
      remove-All (λ q. q.feasible ≡ true → metric_or (selected_route e) ≤ q.metric) r.neigh e.routes
        c.least)
