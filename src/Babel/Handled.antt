-- ===== src/Babel/Handled.antt =====
-- Every update that babel_handle_update of proto/babel/babel.c handles leaves all entries with
-- the best feasible route selected.
use bird.Common.{
  ℕ, ◌+◌, ◌*◌, ◌≤◌, ◌≡◌, ◌==◌, refl, sym, ◌∙◌, Bool, true, false, ◌&&◌, ◌||◌, not, Bool-cases,
  Option-cases, inl, inr, arith, List, [], ◌∷◌, ◌++◌, Option, none, some, All, if◌then◌else◌,
  All-append, ap₂, ◌/◌,
}
use mathlib.Core.Path.{subst}
use bird.Babel.{
  Entry, Route, Event, infinity, babel_find_route, babel_get_route, new_route, babel_find_source,
  babel_is_feasible, babel_compute_metric,
}
use bird.Babel.Routes.{IsKeyed, find_neigh, find-append, find-append_new, append-IsKeyed}
use bird.Babel.Requests.{babel_satisfy_seqno_request}
use bird.Babel.Select.{metric_or, selected_route, is_selected, babel_retract_route}
use bird.Babel.Chosen.{IsChosen, AtLeast, IsBounded, IsChosen-of}
use bird.Babel.Changes.{
  select_changed-IsChosen, put_unselected-IsChosen, rewritten-IsChosen, selected_le,
}
use bird.Babel.Update.{
  UpdateMsg, Neighbor, BabelProto, regular_update, retraction, on_entry, on_entries,
  babel_handle_update, updated_route, is_unchanged,
}

-- The list with a new, not yet feasible route.
appended-IsChosen :
    (e : Entry) (n : ℕ)
    → IsChosen e
    → babel_find_route e.routes n ≡ none
    → IsChosen (record e { routes = e.routes ++ new_route n ∷ [] })
appended-IsChosen e n c f =
    let rs = e.routes ++ new_route n ∷ [] in
    let v : Entry = record e { routes = rs } in
    let best = selected_route e in
    let held : (k : ℕ) → e.selected ≡ some k → (r : Route) × (babel_find_route rs k ≡ some r) =
      λ k d. let g = c.held k d in (g.0, find-append e.routes (new_route n) k g.0 g.1) in
    let same : selected_route v ≡ best = elim (Option-cases e.selected) [
      | inl d ↦ rw d refl
      | inr (k, d) ↦
          let g = c.held k d in rw d (find-append e.routes (new_route n) k g.0 g.1 ∙ sym g.1)
    ] in
    IsChosen-of v best (append-IsKeyed e.routes (new_route n) f c.keyed)
      (All-append (λ r. r.metric ≤ infinity) e.routes (new_route n ∷ []) c.bounded
        (omega arith, tt))
      held same c.fit
      (All-append (λ r. r.feasible ≡ true → metric_or best ≤ r.metric) e.routes (new_route n ∷ [])
        c.least ((λ x. absurd (ground arith)), tt))

-- babel_get_route gives a route of the list that it leaves, and keeps the choice.
get_route-IsChosen :
    (e : Entry) (n : ℕ)
    → IsChosen e
    → let got = babel_get_route e.routes n in
      IsChosen (record e { routes = got.1 })
      × (babel_find_route got.1 n ≡ some got.0)
      × (got.0.neigh ≡ n)
unfolding babel_get_route
get_route-IsChosen e n c = elim (Option-cases (babel_find_route e.routes n)) [
  | inl f ↦
      rw (babel_get_route, f)
        (appended-IsChosen e n c f, find-append_new e.routes (new_route n) f, refl)
  | inr (r, f) ↦ rw (babel_get_route, f) (c, f, find_neigh e.routes n r f)
]

-- The choice only depends on the routes and on which one is selected.
pub same_choice-IsChosen :
    (e v : Entry) → v.routes ≡ e.routes → v.selected ≡ e.selected → IsChosen e → IsChosen v
same_choice-IsChosen e v r s c =
    let sel = λ (x : Option ℕ) (y : List Route). elim x as (λ z. Option Route) [
      | none ↦ none
      | some n ↦ babel_find_route y n
    ] in
    let same : selected_route v ≡ selected_route e = ap₂ sel s r in
    IsChosen-of v (selected_route e) (subst IsKeyed (sym r) c.keyed)
      (subst IsBounded (sym r) c.bounded)
      (λ n d.
        let g = c.held n (sym s ∙ d) in
        (g.0, subst (λ t. babel_find_route t n ≡ some g.0) (sym r) g.1))
      same c.fit (subst (AtLeast (metric_or (selected_route e))) (sym r) c.least)

retract-IsChosen :
    (now own : ℕ) (e : Entry) (r : Route)
    → IsChosen e
    → babel_find_route e.routes r.neigh ≡ some r
    → IsChosen (babel_retract_route now own e r).0
unfolding babel_retract_route
retract-IsChosen now own e r c f =
    let gone : Route = record r { metric = infinity; advert_metric = infinity } in
    elim (Bool-cases (is_selected e r)) [
      | inl s ↦
          rw (babel_retract_route, s) (select_changed-IsChosen now own e gone r c f (omega arith))
      | inr s ↦
          rw (babel_retract_route, s)
            (put_unselected-IsChosen e gone c s (omega arith) (λ x. selected_le e c.bounded))
    ]

retraction-IsChosen :
    (now own : ℕ) (nbr : Neighbor) (e : Entry) → IsChosen e → IsChosen (retraction now own nbr e).0
unfolding retraction
retraction-IsChosen now own nbr e c = elim (Option-cases (babel_find_route e.routes nbr.address)) [
  | inl f ↦ rw (retraction, f) c
  | inr (r, f) ↦
      let n = find_neigh e.routes nbr.address r f in
      rw (retraction, f)
        (retract-IsChosen now own e r c
          (subst (λ t. babel_find_route e.routes t ≡ some r) (sym n) f))
]

updated_neigh :
    (now : ℕ) (r : Route) (feasible : Bool) (metric : ℕ) (msg : UpdateMsg)
    → (updated_route now r feasible metric msg).neigh ≡ r.neigh
unfolding updated_route
updated_neigh now r feasible metric msg = refl

updated_metric :
    (now : ℕ) (r : Route) (feasible : Bool) (metric : ℕ) (msg : UpdateMsg)
    → (updated_route now r feasible metric msg).metric ≡ metric
unfolding updated_route
updated_metric now r feasible metric msg = refl

-- A regular update may ignore the route, renew its times, or change it and select again.
regular-IsChosen :
    (now own : ℕ) (e : Entry) (nbr : Neighbor) (msg : UpdateMsg)
    → IsChosen e
    → IsChosen (regular_update now own e nbr msg).0
unfolding regular_update
regular-IsChosen now own e nbr msg c =
    let got = babel_get_route e.routes nbr.address in
    let r = got.0 in
    let g = get_route-IsChosen e nbr.address c in
    let e1 : Entry = record e { routes = got.1 } in
    let found : babel_find_route got.1 r.neigh ≡ some r =
      subst (λ t. babel_find_route got.1 t ≡ some r) (sym g.2) g.1 in
    let feasible =
      babel_is_feasible (babel_find_source e.sources msg.router_id) msg.seqno msg.metric in
    let metric = babel_compute_metric nbr.cost msg.metric in
    let timed : Route = record r {
      expires = now + msg.interval * 7 / 2;
      refresh_time = now + msg.interval * 5 / 2;
    } in
    let new = updated_route now r feasible metric msg in
    let satisfied = babel_satisfy_seqno_request e.requests msg.router_id msg.seqno in
    let base : Entry = record e1 {
      requests = satisfied.1;
      updated = if satisfied.0 then now else e.updated;
    } in
    elim (Bool-cases (is_selected e r && (not feasible && msg.router_id == r.router_id))) [
      | inl x ↦ rw (regular_update, x) g.0
      | inr x ↦ elim (Bool-cases (is_unchanged r feasible metric msg)) [
        | inl y ↦ rw (regular_update, x, y) (rewritten-IsChosen e1 timed r g.0 found refl refl)
        | inr y ↦
            rw (regular_update, x, y)
              (select_changed-IsChosen now own base new r
                (same_choice-IsChosen e1 base refl refl g.0)
                (subst (λ t. babel_find_route got.1 t ≡ some r)
                  (sym (updated_neigh now r feasible metric msg)) found)
                (subst (λ t. t ≤ infinity) (sym (updated_metric now r feasible metric msg))
                  (omega arith)))
      ]
    ]

-- An operation that keeps the choice of one entry keeps that of all.
pub on_entry-All :
    (f : Entry → Entry × List Event) (creates : Bool) (now net : ℕ) (es : List Entry)
    → ((e : Entry) → IsChosen e → IsChosen (f e).0)
    → All IsChosen es
    → All IsChosen (on_entry f creates now net es).0
unfolding on_entry
on_entry-All f true now net [] h a = (
  h _ (record {
    keyed = tt;
    bounded = tt;
    held = λ n d. absurd (ground arith);
    fit = tt;
    least = tt;
  }),
  tt,
)
on_entry-All f false now net [] h a = tt
on_entry-All f creates now net (e ∷ es) h a = elim (Bool-cases (e.net == net)) [
  | inl x ↦ rw (on_entry, x) (h e a.0, a.1)
  | inr x ↦ rw (on_entry, x) (a.0, on_entry-All f creates now net es h a.1)
]

pub on_entries-All :
    (f : Entry → Entry × List Event) (es : List Entry)
    → ((e : Entry) → IsChosen e → IsChosen (f e).0)
    → All IsChosen es
    → All IsChosen (on_entries f es).0
unfolding on_entries
on_entries-All f [] h a = tt
on_entries-All f (e ∷ es) h a = (h e a.0, on_entries-All f es h a.1)

-- Through every call of babel_handle_update, whatever the update says and whether the neighbor is
-- known or not, each entry keeps its best route selected: the selected route exists, is feasible
-- and has a finite metric, no feasible route has a smaller one, and without a selected route no
-- feasible one is reachable; no neighbor has two routes, and metrics stay within 16 bits.
pub handle_update-IsChosen :
    (now : ℕ) (p : BabelProto) (nbr : Option Neighbor) (channel_up ext_next_hop : Bool)
    (msg : UpdateMsg)
    → All IsChosen p.entries
    → All IsChosen (babel_handle_update now p nbr channel_up ext_next_hop msg).entries
unfolding babel_handle_update
handle_update-IsChosen now p none up ext msg a = a
handle_update-IsChosen now p (some nbr) up ext msg a =
    let own = p.router_id in
    elim (Bool-cases
      (msg.router_id == own || not up || (msg.is_ip4 && msg.next_hop_is_ip6 && not ext))) [
        | inl x ↦ rw (babel_handle_update, x) a
        | inr x ↦ elim (Bool-cases (msg.metric == infinity)) [
          | inl y ↦ elim (Bool-cases msg.wildcard) [
            | inl z ↦
                rw (babel_handle_update, x, y, z)
                  (on_entries-All (retraction now own nbr) p.entries
                    (retraction-IsChosen now own nbr) a)
            | inr z ↦
                rw (babel_handle_update, x, y, z)
                  (on_entry-All (retraction now own nbr) false now msg.net p.entries
                    (retraction-IsChosen now own nbr) a)
          ]
          | inr y ↦
              rw (babel_handle_update, x, y)
                (on_entry-All (λ e. regular_update now own e nbr msg) true now msg.net p.entries
                  (λ e. regular-IsChosen now own e nbr msg) a)
        ]
      ]
