-- ===== src/Babel/Walk.antt =====
-- The walk of babel_expire_routes_ in proto/babel/babel.c over the routes of an entry keeps the
-- choice, unless its flag says otherwise, and leaves no expired route.
use bird.Common.{
  ℕ, ◌+◌, ◌<◌, ◌≡◌, refl, ◌∙◌, Bool, false, ◌&&◌, ◌||◌, Bool-cases, inl, inr, arith, List, [], ◌∷◌,
  none, some, All, ◌!=◌, leb, ltb, All-map,
}
use bird.Babel.{Entry, Route, infinity, babel_find_route, put_route}
use bird.Babel.Routes.{IsKeyed, find-All_self}
use bird.Babel.Select.{is_selected, babel_expire_route, babel_refresh_route}
use bird.Babel.Chosen.{IsChosen}
use bird.Babel.Changes.{put_unselected-IsChosen, selected_le}
use bird.Babel.Cost.{expire_one, expire_walk}
use bird.Babel.Expiry.{is_expired, flush-IsChosen, chosen-IsSound}
use bird.Babel.Walked.{Walked, put-Walked, skip-Walked, flush-Walked, refresh-Walked}

expire-Walked :
    (now hold_time : ℕ) (changed : Bool) (e : Entry) (r : Route) (rs : List Route)
    → 0 < hold_time
    → Walked now changed (r ∷ rs) e
    → IsKeyed (r ∷ rs)
    → Walked now (changed || is_selected e r) rs (babel_expire_route now hold_time e r)
unfolding babel_expire_route
expire-Walked now hold_time ch e r rs h w k =
    let gone : Route = record r {
      metric = infinity;
      advert_metric = infinity;
      expires = now + hold_time;
    } in
    elim (Bool-cases (ltb r.metric infinity)) [
      | inl x ↦
          rw (babel_expire_route, x)
            (put-Walked now ch (ch || is_selected e r) e r gone rs w k refl (omega arith)
              (ground arith)
              (λ y.
                let c = w.chosen (ground arith) in
                put_unselected-IsChosen e gone c (ground arith) (omega arith)
                  (λ f. selected_le e c.bounded)))
      | inr x ↦
          rw (babel_expire_route, x)
            (flush-Walked now ch (ch || is_selected e r) e r rs w k
              (λ y. flush-IsChosen e r (w.chosen (ground arith)) (ground arith)))
    ]

one-Walked :
    (now hold_time : ℕ) (e : Entry) (r : Route) (changed : Bool) (rs : List Route)
    → 0 < hold_time
    → Walked now changed (r ∷ rs) e
    → IsKeyed (r ∷ rs)
    → let one = expire_one now hold_time e r changed in Walked now one.1 rs one.0
unfolding expire_one babel_refresh_route
one-Walked now hold_time e r ch rs h w k =
    let r1 : Route = record r { refresh_time = 0 } in
    let e1 : Entry = record e { routes = put_route r1 e.routes } in
    let w1 = refresh-Walked now ch e r rs w k in
    elim (Bool-cases (r.refresh_time != 0 && leb r.refresh_time now)) [
      | inl a ↦ elim (Bool-cases (is_expired now r)) [
        | inl x ↦ rw (expire_one, a, x) (expire-Walked now hold_time ch e1 r1 rs h w1 k)
        | inr x ↦ rw (expire_one, a, x) (skip-Walked now ch e1 r1 rs w1 x)
      ]
      | inr a ↦ elim (Bool-cases (is_expired now r)) [
        | inl x ↦ rw (expire_one, a, x) (expire-Walked now hold_time ch e r rs h w k)
        | inr x ↦ rw (expire_one, a, x) (skip-Walked now ch e r rs w x)
      ]
    ]

pub walk-Walked :
    (now hold_time : ℕ) (e : Entry) (changed : Bool) (rs : List Route)
    → 0 < hold_time
    → Walked now changed rs e
    → IsKeyed rs
    → let end = expire_walk now hold_time e changed rs in Walked now end.1 [] end.0
unfolding expire_walk
walk-Walked now hold_time e ch [] h w k = w
walk-Walked now hold_time e ch (r ∷ rs) h w k =
    let one = expire_one now hold_time e r ch in
    walk-Walked now hold_time one.0 one.1 rs h (one-Walked now hold_time e r ch rs h w k) k.1

abbrev pub AllFresh : ℕ → Entry → Type 0
AllFresh now e = All (λ q. is_expired now q ≡ false) e.routes

nothing_left : (n : ℕ) → babel_find_route [] n ≡ none
unfolding babel_find_route
nothing_left n = refl

pub Walked-AllFresh :
    (now : ℕ) (changed : Bool) (e : Entry) → Walked now changed [] e → AllFresh now e
Walked-AllFresh now ch e w =
    All-map (λ q. babel_find_route e.routes q.neigh ≡ some q) (λ q. is_expired now q ≡ false)
      e.routes (λ q f. w.fresh q.neigh q f (nothing_left q.neigh))
      (find-All_self e.routes w.sound.keyed)

pub start-Walked : (now : ℕ) (e : Entry) → IsChosen e → Walked now false e.routes e
start-Walked now e c = record {
  sound = chosen-IsSound e c;
  chosen = λ x. c;
  left = find-All_self e.routes c.keyed;
  fresh = λ n q f g. absurd (ground (arith, f, g));
}

one_fresh :
    (now hold_time : ℕ) (e : Entry) (r : Route) (changed : Bool)
    → is_expired now r ≡ false
    → (expire_one now hold_time e r changed).1 ≡ changed
unfolding expire_one
one_fresh now hold_time e r ch x = rw (expire_one, x) refl

-- A walk without expired routes tells of no change.
pub walk_fresh :
    (now hold_time : ℕ) (e : Entry) (changed : Bool) (rs : List Route)
    → All (λ q. is_expired now q ≡ false) rs
    → (expire_walk now hold_time e changed rs).1 ≡ changed
unfolding expire_walk
walk_fresh now hold_time e ch [] a = refl
walk_fresh now hold_time e ch (r ∷ rs) a =
    let one = expire_one now hold_time e r ch in
    walk_fresh now hold_time one.0 one.1 rs a.1 ∙ one_fresh now hold_time e r ch a.0

one_unreachable :
    (now hold_time : ℕ) (e : Entry) (r : Route) (changed : Bool)
    → (expire_one now hold_time e r changed).0.unreachable ≡ e.unreachable
unfolding expire_one babel_refresh_route babel_expire_route
one_unreachable now hold_time e r ch = ground arith

pub walk_unreachable :
    (now hold_time : ℕ) (e : Entry) (changed : Bool) (rs : List Route)
    → (expire_walk now hold_time e changed rs).0.unreachable ≡ e.unreachable
unfolding expire_walk
walk_unreachable now hold_time e ch [] = refl
walk_unreachable now hold_time e ch (r ∷ rs) =
    let one = expire_one now hold_time e r ch in
    walk_unreachable now hold_time one.0 one.1 rs ∙ one_unreachable now hold_time e r ch
