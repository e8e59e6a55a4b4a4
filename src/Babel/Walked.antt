-- ===== src/Babel/Walked.antt =====
-- What holds of an entry on the walk of babel_expire_routes_ in proto/babel/babel.c over its routes.
use bird.Common.{
  ℕ, ◌≤◌, ◌≡◌, ◌==◌, refl, sym, ◌∙◌, Bool, true, false, Bool-cases, inl, inr, arith, List, [], ◌∷◌,
  none, some, All,
}
use mathlib.Core.Path.{subst}
use mathlib.Core.Option.{some-injective}
use bird.Babel.{Entry, Route, infinity, babel_find_route, put_route}
use bird.Babel.Routes.{IsKeyed, find-put_other, find-put_self, find-All}
use bird.Babel.Removal.{find-remove_other, find-remove_self}
use bird.Babel.Select.{remove_route, babel_flush_route}
use bird.Babel.Chosen.{IsChosen}
use bird.Babel.Changes.{rewritten-IsChosen}
use bird.Babel.Expiry.{IsSound, is_expired, put-IsSound, flush-IsSound}

-- What holds on the way, with the routes that are left: those are as they were, the others are not
-- expired, and the choice is the best one unless the flag says otherwise.
pub record Walked (now : ℕ) (changed : Bool) (rs : List Route) (e : Entry) : Type 0 where
  pub sound : IsSound e
  pub chosen : changed ≡ false → IsChosen e
  pub left : All (λ q. babel_find_route e.routes q.neigh ≡ some q) rs
  pub fresh :
      (n : ℕ) (q : Route)
      → babel_find_route e.routes n ≡ some q
      → babel_find_route rs n ≡ none
      → is_expired now q ≡ false

behind :
    (r : Route) (rs : List Route) (n : ℕ)
    → babel_find_route rs n ≡ none
    → (r.neigh == n) ≡ false
    → babel_find_route (r ∷ rs) n ≡ none
unfolding babel_find_route
behind r rs n f d = rw (babel_find_route, d) f

ahead :
    (r : Route) (rs : List Route) (n : ℕ)
    → babel_find_route (r ∷ rs) n ≡ none
    → ((r.neigh == n) ≡ false) × (babel_find_route rs n ≡ none)
unfolding babel_find_route
ahead r rs n f = ground arith

left_put :
    (m : Route) (es rs : List Route)
    → babel_find_route rs m.neigh ≡ none
    → All (λ q. babel_find_route es q.neigh ≡ some q) rs
    → All (λ q. babel_find_route (put_route m es) q.neigh ≡ some q) rs
unfolding babel_find_route
left_put m es [] f a = tt
left_put m es (r ∷ rs) f a =
    (find-put_other m es r.neigh (ground arith) ∙ a.0, left_put m es rs (ground arith) a.1)

left_remove :
    (m : ℕ) (es rs : List Route)
    → babel_find_route rs m ≡ none
    → All (λ q. babel_find_route es q.neigh ≡ some q) rs
    → All (λ q. babel_find_route (remove_route m es) q.neigh ≡ some q) rs
unfolding babel_find_route
left_remove m es [] f a = tt
left_remove m es (r ∷ rs) f a =
    (find-remove_other m es r.neigh (ground arith) ∙ a.0, left_remove m es rs (ground arith) a.1)

pub same_neigh : (n m : ℕ) → (n == m) ≡ true → n ≡ m
same_neigh n m x = ground arith

-- A route that is rewritten and not expired then.
pub put-Walked :
    (now : ℕ) (changed changed1 : Bool) (e : Entry) (r new : Route) (rs : List Route)
    → Walked now changed (r ∷ rs) e
    → IsKeyed (r ∷ rs)
    → new.neigh ≡ r.neigh
    → new.metric ≤ infinity
    → is_expired now new ≡ false
    → (changed1 ≡ false → IsChosen (record e { routes = put_route new e.routes }))
    → Walked now changed1 rs (record e { routes = put_route new e.routes })
put-Walked now ch ch1 e r new rs w k same b x c =
    let own = subst (λ t. babel_find_route e.routes t ≡ some r) (sym same) w.left.0 in
    record {
      sound = put-IsSound e new w.sound b;
      chosen = c;
      left =
          left_put new e.routes rs (subst (λ t. babel_find_route rs t ≡ none) (sym same) k.0)
            w.left.1;
      fresh = λ n q f g. elim (Bool-cases (new.neigh == n)) [
        | inl y ↦
            let at : babel_find_route (put_route new e.routes) n ≡ some new =
              subst (λ t. babel_find_route (put_route new e.routes) t ≡ some new)
                (same_neigh new.neigh n y) (find-put_self new r e.routes own) in
            let d : new ≡ q = some-injective new q (sym at ∙ f) in
            subst (λ t. is_expired now t ≡ false) d x
        | inr y ↦
            w.fresh n q (sym (find-put_other new e.routes n y) ∙ f)
              (behind r rs n g (subst (λ t. (t == n) ≡ false) same y))
      ];
    }

-- A route that is left alone and not expired.
pub skip-Walked :
    (now : ℕ) (changed : Bool) (e : Entry) (r : Route) (rs : List Route)
    → Walked now changed (r ∷ rs) e
    → is_expired now r ≡ false
    → Walked now changed rs e
skip-Walked now ch e r rs w x = record {
  sound = w.sound;
  chosen = w.chosen;
  left = w.left.1;
  fresh = λ n q f g. elim (Bool-cases (r.neigh == n)) [
    | inl y ↦
        let at =
          subst (λ t. babel_find_route e.routes t ≡ some r) (same_neigh r.neigh n y) w.left.0 in
        subst (λ t. is_expired now t ≡ false) (some-injective r q (sym at ∙ f)) x
    | inr y ↦ w.fresh n q f (behind r rs n g y)
  ];
}

-- A route that leaves the entry.
pub flush-Walked :
    (now : ℕ) (changed changed1 : Bool) (e : Entry) (r : Route) (rs : List Route)
    → Walked now changed (r ∷ rs) e
    → IsKeyed (r ∷ rs)
    → (changed1 ≡ false → IsChosen (babel_flush_route e r))
    → Walked now changed1 rs (babel_flush_route e r)
flush-Walked now ch ch1 e r rs w k c = record {
  sound = flush-IsSound e r w.sound;
  chosen = c;
  left = left_remove r.neigh e.routes rs k.0 w.left.1;
  fresh = λ n q f g. elim (Bool-cases (r.neigh == n)) [
    | inl y ↦
        let at =
          subst (λ t. babel_find_route (remove_route r.neigh e.routes) t ≡ none)
            (same_neigh r.neigh n y) (find-remove_self r.neigh e.routes w.sound.keyed) in
        absurd (ground (arith, sym at ∙ f))
    | inr y ↦ w.fresh n q (sym (find-remove_other r.neigh e.routes n y) ∙ f) (behind r rs n g y)
  ];
}

-- The reset of the refresh time.
pub refresh-Walked :
    (now : ℕ) (changed : Bool) (e : Entry) (r : Route) (rs : List Route)
    → Walked now changed (r ∷ rs) e
    → IsKeyed (r ∷ rs)
    → let r1 : Route = record r { refresh_time = 0 } in
      Walked now changed (r1 ∷ rs) (record e { routes = put_route r1 e.routes })
refresh-Walked now ch e r rs w k =
    let r1 : Route = record r { refresh_time = 0 } in
    let b = find-All (λ r. r.metric ≤ infinity) e.routes r.neigh r w.sound.bounded w.left.0 in
    record {
      sound = put-IsSound e r1 w.sound b;
      chosen = λ x. rewritten-IsChosen e r1 r (w.chosen x) w.left.0 refl refl;
      left = (find-put_self r1 r e.routes w.left.0, left_put r1 e.routes rs k.0 w.left.1);
      fresh = λ n q f g.
          let a = ahead r1 rs n g in
          w.fresh n q (sym (find-put_other r1 e.routes n a.0) ∙ f) (behind r rs n a.1 a.0);
    }
