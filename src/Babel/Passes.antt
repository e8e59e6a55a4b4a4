-- ===== src/Babel/Passes.antt =====
-- The passes of babel_expire_routes_ in proto/babel/babel.c over an entry come to an end, with the
-- best feasible route selected.
use bird.Common.{
  ℕ, suc, ◌+◌, ◌<◌, ◌≡◌, ◌==◌, refl, sym, ◌∙◌, true, false, ◌&&◌, ◌||◌, Bool-cases, inl, inr, arith,
  List, [], ◌∷◌, ◌++◌, none, some, All, leb, All-append, if◌then◌else◌,
}
use mathlib.Core.Path.{subst}
use bird.Babel.{Entry, Event, babel_expire_sources}
use bird.Babel.Requests.{babel_expire_requests}
use bird.Babel.Select.{best_from, admissible, selected_route, babel_select_route}
use bird.Babel.Chosen.{select_all-IsChosen, commit-routes, IsChosen}
use bird.Babel.Expiry.{IsSound, is_expired}
use bird.Babel.Handled.{same_choice-IsChosen}
use bird.Babel.Cost.{
  expire_walk, expire_rest, expire_entry, expire_passes, expire_routes, finished, repeated, deleted,
  is_empty,
}
use bird.Babel.Walk.{
  AllFresh, walk-Walked, Walked-AllFresh, start-Walked, walk_fresh, walk_unreachable,
}

-- The passes over an entry end within the fuel, and leave the entry well-chosen, or nothing.
abbrev Ends : ℕ → ℕ → ℕ → ℕ → Entry → Type 0
Ends k now own hold_time e =
    (r : List Entry × List Event) × (expire_passes k now own hold_time e ≡ some r)
    × All IsChosen r.0

stop-Ends :
    (k now own hold_time : ℕ) (e : Entry)
    → (expire_entry now own hold_time e).1 ≡ finished
    → IsChosen (expire_entry now own hold_time e).0
    → Ends (suc k) now own hold_time e
unfolding expire_passes
stop-Ends k now own hold_time e p c =
    let one = expire_entry now own hold_time e in
    ((one.0 ∷ [], one.2), rw (expire_passes, p) refl, (c, tt))

delete-Ends :
    (k now own hold_time : ℕ) (e : Entry)
    → (expire_entry now own hold_time e).1 ≡ deleted
    → Ends (suc k) now own hold_time e
unfolding expire_passes
delete-Ends k now own hold_time e p =
    let one = expire_entry now own hold_time e in (([], one.2), rw (expire_passes, p) refl, tt)

repeat-Ends :
    (k now own hold_time : ℕ) (e : Entry)
    → (expire_entry now own hold_time e).1 ≡ repeated
    → Ends k now own hold_time (expire_entry now own hold_time e).0
    → Ends (suc k) now own hold_time e
unfolding expire_passes
repeat-Ends k now own hold_time e p (r, q, c) =
    let one = expire_entry now own hold_time e in
    ((r.0, one.2 ++ r.1), rw (expire_passes, p, q) refl, c)

-- What expire_rest leaves.
data Outcome (now own hold_time : ℕ) (e : Entry) : Type 0 where
  goes_on : (expire_rest now own hold_time e).1 ≡ finished → Outcome now own hold_time e
  drops : (expire_rest now own hold_time e).1 ≡ deleted → Outcome now own hold_time e
  retracts :
      e.unreachable ≡ true
      → (expire_rest now own hold_time e).1 ≡ repeated
      → (expire_rest now own hold_time e).0.unreachable ≡ false
      → Outcome now own hold_time e

expire_rest-Outcome : (now own hold_time : ℕ) (e : Entry) → Outcome now own hold_time e
unfolding expire_rest
expire_rest-Outcome now own hold_time e =
    let old = e.valid == 2 && leb (e.updated + hold_time) now in
    let e1 : Entry = record e { valid = if old then 0 else e.valid } in
    elim (Bool-cases (e1.unreachable && (e1.valid == 0 || e1.router_id == own))) [
      | inl x ↦ retracts (ground arith) (rw (expire_rest, x) refl) (rw (expire_rest, x) refl)
      | inr x ↦
          let requests = (babel_expire_requests now e1.requests).0 in
          let sources = babel_expire_sources now e1.sources in
          elim (Bool-cases
            (e1.valid == 0 && is_empty e1.routes && is_empty sources && is_empty requests)) [
              | inl y ↦ drops (rw (expire_rest, x, y) refl)
              | inr y ↦ goes_on (rw (expire_rest, x, y) refl)
            ]
    ]

rest_same :
    (now own hold_time : ℕ) (e : Entry)
    → let v = (expire_rest now own hold_time e).0 in
      (v.routes ≡ e.routes) × (v.selected ≡ e.selected)
unfolding expire_rest
rest_same now own hold_time e =
    let old = e.valid == 2 && leb (e.updated + hold_time) now in
    let e1 : Entry = record e { valid = if old then 0 else e.valid } in
    elim (Bool-cases (e1.unreachable && (e1.valid == 0 || e1.router_id == own))) [
      | inl x ↦ rw (expire_rest, x) (refl, refl)
      | inr x ↦ rw (expire_rest, x) (refl, refl)
    ]

entry_rest :
    (now own hold_time : ℕ) (e : Entry)
    → let walked = expire_walk now hold_time e false e.routes in
      walked.1 ≡ false
      → ((expire_entry now own hold_time e).0 ≡ (expire_rest now own hold_time walked.0).0)
        × ((expire_entry now own hold_time e).1 ≡ (expire_rest now own hold_time walked.0).1)
unfolding expire_entry
entry_rest now own hold_time e x = rw (expire_entry, x) (refl, refl)

entry_again :
    (now own hold_time : ℕ) (e : Entry)
    → let walked = expire_walk now hold_time e false e.routes in
      walked.1 ≡ true
      → ((expire_entry now own hold_time e).0 ≡ (babel_select_route now own walked.0 none).0)
        × ((expire_entry now own hold_time e).1 ≡ repeated)
unfolding expire_entry
entry_again now own hold_time e x = rw (expire_entry, x) (refl, refl)

select-all :
    (now own : ℕ) (e : Entry)
    → IsSound e
    → IsChosen (babel_select_route now own e none).0
      × ((babel_select_route now own e none).0.routes ≡ e.routes)
unfolding babel_select_route
select-all now own e s = (
  select_all-IsChosen now own e s.keyed s.bounded s.held,
  commit-routes now own e (best_from (admissible (selected_route e)) e.routes),
)

-- A pass in which the selected route does not expire, with what comes after a retraction.
quiet-Ends :
    (k now own hold_time : ℕ) (e : Entry)
    → 0 < hold_time
    → IsChosen e
    → (expire_walk now hold_time e false e.routes).1 ≡ false
    → ((v : Entry)
        → IsChosen v
        → AllFresh now v
        → e.unreachable ≡ true
        → v.unreachable ≡ false
        → Ends k now own hold_time v)
    → Ends (suc k) now own hold_time e
quiet-Ends k now own hold_time e h c x after =
    let walked = expire_walk now hold_time e false e.routes in
    let w = walk-Walked now hold_time e false e.routes h (start-Walked now e c) c.keyed in
    let v = expire_rest now own hold_time walked.0 in
    let at = entry_rest now own hold_time e x in
    let s = rest_same now own hold_time walked.0 in
    let good : IsChosen v.0 = same_choice-IsChosen walked.0 v.0 s.0 s.1 (w.chosen x) in
    let fresh : AllFresh now v.0 =
      subst (All (λ q. is_expired now q ≡ false)) (sym s.0)
        (Walked-AllFresh now walked.1 walked.0 w) in
    elim (expire_rest-Outcome now own hold_time walked.0) [
      | goes_on p ↦ stop-Ends k now own hold_time e (at.1 ∙ p) (subst IsChosen (sym at.0) good)
      | drops p ↦ delete-Ends k now own hold_time e (at.1 ∙ p)
      | retracts u p q ↦ repeat-Ends k now own hold_time e (at.1 ∙ p) (
          subst (Ends k now own hold_time) (sym at.0)
            (after v.0 good fresh (sym (walk_unreachable now hold_time e false e.routes) ∙ u) q))
    ]

settled-Ends :
    (k now own hold_time : ℕ) (e : Entry)
    → 0 < hold_time
    → IsChosen e
    → AllFresh now e
    → e.unreachable ≡ false
    → Ends (suc k) now own hold_time e
settled-Ends k now own hold_time e h c f u =
    quiet-Ends k now own hold_time e h c (walk_fresh now hold_time e false e.routes f)
      (λ v d g t r. absurd (ground (arith, u, t)))

fresh-Ends :
    (k now own hold_time : ℕ) (e : Entry)
    → 0 < hold_time
    → IsChosen e
    → AllFresh now e
    → Ends (suc (suc k)) now own hold_time e
fresh-Ends k now own hold_time e h c f =
    quiet-Ends (suc k) now own hold_time e h c (walk_fresh now hold_time e false e.routes f)
      (λ v d g t r. settled-Ends k now own hold_time v h d g r)

entry-Ends :
    (now own hold_time : ℕ) (e : Entry) → 0 < hold_time → IsChosen e → Ends 3 now own hold_time e
entry-Ends now own hold_time e h c =
    let walked = expire_walk now hold_time e false e.routes in
    elim (Bool-cases walked.1) [
      | inr x ↦
          quiet-Ends 2 now own hold_time e h c x
            (λ v d g t r. settled-Ends 1 now own hold_time v h d g r)
      | inl x ↦
          let w = walk-Walked now hold_time e false e.routes h (start-Walked now e c) c.keyed in
          let s = select-all now own walked.0 w.sound in
          let at = entry_again now own hold_time e x in
          let fresh =
            subst (All (λ q. is_expired now q ≡ false)) (sym s.1)
              (Walked-AllFresh now walked.1 walked.0 w) in
          repeat-Ends 2 now own hold_time e at.1 (
            subst (Ends 2 now own hold_time) (sym at.0) (
              fresh-Ends 0 now own hold_time (babel_select_route now own walked.0 none).0 h s.0
                fresh))
    ]

-- The iteration of babel_expire_routes_ comes to an end: with a hold time above zero it needs no
-- more than three passes over an entry, and of well-chosen entries it leaves well-chosen ones,
-- though selected routes expire on the way.
pub expire_routes-IsChosen :
    (now own hold_time : ℕ) (es : List Entry)
    → 0 < hold_time
    → All IsChosen es
    → (r : List Entry × List Event) × (expire_routes now own hold_time es ≡ some r)
      × All IsChosen r.0
unfolding expire_routes
expire_routes-IsChosen now own hold_time [] h a = (([], []), refl, tt)
expire_routes-IsChosen now own hold_time (e ∷ es) h a =
    let one = entry-Ends now own hold_time e h a.0 in
    let rest = expire_routes-IsChosen now own hold_time es h a.1 in
    (
      (one.0.0 ++ rest.0.0, one.0.1 ++ rest.0.1),
      rw (expire_routes, one.1, rest.1) refl,
      All-append IsChosen one.0.0 rest.0.0 one.2 rest.2,
    )
