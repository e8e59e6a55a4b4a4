-- ===== src/Babel/Select.antt =====
-- The selection of routes in proto/babel/babel.c, and the retraction and expiry of routes. `own`
-- is the router's identifier.
use bird.Common.{
  ℕ, ◌+◌, ◌==◌, Bool, true, false, ◌&&◌, ◌||◌, not, List, [], ◌∷◌, ◌++◌, Option, none, some,
  if◌then◌else◌, ltb, ◌!=◌,
}
use bird.Common.Word.{u16}
use bird.Babel.{
  Entry, Route, Event, announce, announce_unreachable, retract, send_route_request, infinity,
  babel_find_route, put_route,
}
use bird.Babel.Requests.{babel_add_seqno_request}

abbrev pub metric_or : Option Route → ℕ
metric_or none = infinity
metric_or (some r) = r.metric

-- The route that e->selected points at.
abbrev pub selected_route : Entry → Option Route
selected_route e = elim e.selected [ none ↦ none | some n ↦ babel_find_route e.routes n ]

abbrev pub is_selected : Entry → Route → Bool
is_selected e r = elim e.selected [ none ↦ false | some n ↦ n == r.neigh ]

-- babel_announce_rte: what the tables hear, and whether the entry is unreachable.
unfoldable pub babel_announce_rte : ℕ → Entry → Option Route → Entry × List Event
babel_announce_rte own e (some r) = (record e { unreachable = false }, announce r ∷ [])
babel_announce_rte own e none =
    if e.valid != 0 && e.router_id != own
    then (record e { unreachable = true }, announce_unreachable ∷ [])
    else (record e { unreachable = false }, retract ∷ [])

-- The better one of the routes so far and those of the list.
unfoldable pub best_from : Option Route → List Route → Option Route
best_from best [] = best
best_from best (r ∷ rs) =
    let moves = best_from (some r) rs in
    let stays = best_from best rs in
    if ltb r.metric (metric_or best) && r.feasible then moves else stays

-- A selected route may no longer be admissible.
abbrev pub admissible : Option Route → Option Route
admissible none = none
admissible (some r) = if r.metric == infinity || not r.feasible then none else some r

-- The end of babel_select_route, with the best route found.
unfoldable pub commit : ℕ → ℕ → Entry → Option Route → Entry × List Event
commit now own e (some r) = babel_announce_rte own (record e { selected = some r.neigh }) (some r)
commit now own e none = elim (selected_route e) [
  | none ↦ (e, [])
  | some old ↦
      let asked =
        babel_add_seqno_request now e.requests old.router_id (u16 (old.seqno + 1)) 0 none in
      let asks = e.valid != 0 && old.router_id == e.router_id in
      let e1 : Entry = record e {
        requests = if asks then asked.0 else e.requests;
        selected = none;
      } in
      let told = babel_announce_rte own e1 none in
      (told.0, (if asks then asked.1 else []) ++ told.1)
]

unfoldable pub babel_select_route : ℕ → ℕ → Entry → Option Route → Entry × List Event
babel_select_route now own e none =
    commit now own e (best_from (admissible (selected_route e)) e.routes)
babel_select_route now own e (some changed) =
    let full = commit now own e (best_from (admissible (selected_route e)) e.routes) in
    let picked = commit now own e (some changed) in
    if is_selected e changed
    then full
    else if ltb changed.metric (metric_or (selected_route e)) && changed.feasible
    then picked
    else (e, [])

-- babel_retract_route.
unfoldable pub babel_retract_route : ℕ → ℕ → Entry → Route → Entry × List Event
babel_retract_route now own e r =
    let gone : Route = record r { metric = infinity; advert_metric = infinity } in
    let e1 : Entry = record e { routes = put_route gone e.routes } in
    let chosen = babel_select_route now own e1 (some gone) in
    if is_selected e r then chosen else (e1, [])

-- babel_flush_route: the route of a neighbor leaves the entry.
unfoldable pub remove_route : ℕ → List Route → List Route
remove_route n [] = []
remove_route n (r ∷ rs) = let rest = remove_route n rs in if r.neigh == n then rs else r ∷ rest

abbrev pub babel_flush_route : Entry → Route → Entry
babel_flush_route e r = record e {
  routes = remove_route r.neigh e.routes;
  selected = if is_selected e r then none else e.selected;
}

unfoldable pub babel_expire_route : ℕ → ℕ → Entry → Route → Entry
babel_expire_route now hold_time e r =
    let gone : Route = record r {
      metric = infinity;
      advert_metric = infinity;
      expires = now + hold_time;
    } in
    if ltb r.metric infinity
    then record e { routes = put_route gone e.routes }
    else babel_flush_route e r

unfoldable pub babel_refresh_route : Entry → Route → Entry × List Event
babel_refresh_route e r = (
  record e { routes = put_route (record r { refresh_time = 0 }) e.routes },
  if is_selected e r then send_route_request r.neigh ∷ [] else [],
)
