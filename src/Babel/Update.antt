-- ===== src/Babel/Update.antt =====
-- Updates in proto/babel/babel.c: what an incoming one does, and what an outgoing one notes.
use bird.Common.{
  ℕ, ◌+◌, ◌*◌, ◌==◌, Bool, true, false, ◌&&◌, ◌||◌, not, List, [], ◌∷◌, ◌++◌, Option, none, some,
  if◌then◌else◌, ltb, ◌/◌, ◌!=◌,
}
use bird.Common.Word.{u16}
use bird.Babel.{
  Entry, Route, Source, SeqnoRequest, Event, send_seqno_request, trigger_update, infinity,
  gt_mod64k, garbage_interval, babel_find_source, babel_find_route, babel_get_source,
  babel_get_route, put_route, babel_is_feasible, babel_compute_metric,
}
use bird.Babel.Requests.{babel_satisfy_seqno_request}
use bird.Babel.Select.{
  metric_or, selected_route, is_selected, babel_select_route, babel_retract_route,
}

-- struct babel_msg_update.
pub record UpdateMsg : Type 0 where
  pub wildcard : Bool
  pub net : ℕ
  pub is_ip4 : Bool
  pub interval : ℕ
  pub seqno : ℕ
  pub metric : ℕ
  pub router_id : ℕ
  pub next_hop : ℕ
  pub next_hop_is_ip6 : Bool

-- struct babel_neighbor.
pub record Neighbor : Type 0 where
  pub address : ℕ
  pub cost : ℕ

-- struct babel_proto, with the entries of its tables and what was sent.
pub record BabelProto : Type 0 where
  pub router_id : ℕ
  pub entries : List Entry
  pub events : List Event

-- The one-off request to the sender of an unfeasible update.
unfoldable pub unfeasible_request : Entry → Neighbor → UpdateMsg → List Event
unfeasible_request e nbr msg = elim (babel_find_source e.sources msg.router_id) [
  | none ↦ []
  | some s ↦
      let metric = babel_compute_metric nbr.cost msg.metric in
      let best = selected_route e in
      let closer : Bool = elim e.selected [
        | none ↦ true
        | some n ↦ n == nbr.address || ltb metric (metric_or best)
      ] in
      let q : SeqnoRequest = record {
        router_id = s.router_id;
        seqno = u16 (s.seqno + 1);
        forwarded = false;
        hop_count = 255;
        count = 0;
        expires = 0;
        dup_suppress_time = 0;
      } in
      if not (babel_is_feasible (some s) msg.seqno msg.metric) && (metric != infinity && closer)
      then send_seqno_request q (some nbr.address) ∷ []
      else []
]

-- The route of the neighbor with the contents of the update.
unfoldable pub updated_route : ℕ → Route → Bool → ℕ → UpdateMsg → Route
updated_route now r feasible metric msg = record r {
  feasible = feasible;
  seqno = msg.seqno;
  metric = metric;
  advert_metric = msg.metric;
  router_id = msg.router_id;
  next_hop = msg.next_hop;
  expires = now + msg.interval * 7 / 2;
  refresh_time = now + msg.interval * 5 / 2;
}

abbrev pub same_bool : Bool → Bool → Bool
same_bool true b = b
same_bool false b = not b

unfoldable pub is_unchanged : Route → Bool → ℕ → UpdateMsg → Bool
is_unchanged r feasible metric msg =
    same_bool r.feasible feasible
    && (r.seqno == msg.seqno
        && (r.metric == metric
            && (r.advert_metric == msg.metric
                && (r.router_id == msg.router_id && r.next_hop == msg.next_hop))))

-- A regular update, from the entry that babel_get_entry gives.
unfoldable pub regular_update : ℕ → ℕ → Entry → Neighbor → UpdateMsg → Entry × List Event
regular_update now own e nbr msg =
    let got = babel_get_route e.routes nbr.address in
    let r = got.0 in
    let e1 : Entry = record e { routes = got.1 } in
    let feasible =
      babel_is_feasible (babel_find_source e.sources msg.router_id) msg.seqno msg.metric in
    let metric = babel_compute_metric nbr.cost msg.metric in
    let asked = unfeasible_request e nbr msg in
    let timed : Route = record r {
      expires = now + msg.interval * 7 / 2;
      refresh_time = now + msg.interval * 5 / 2;
    } in
    let new = updated_route now r feasible metric msg in
    let satisfied = babel_satisfy_seqno_request e.requests msg.router_id msg.seqno in
    let e2 : Entry = record e1 {
      routes = put_route new got.1;
      requests = satisfied.1;
      updated = if satisfied.0 then now else e.updated;
    } in
    let chosen = babel_select_route now own e2 (some new) in
    if is_selected e r && (not feasible && msg.router_id == r.router_id)
    then (e1, asked)
    else if is_unchanged r feasible metric msg
    then (record e1 { routes = put_route timed got.1 }, asked)
    else (chosen.0, asked ++ (if satisfied.0 then trigger_update ∷ [] else []) ++ chosen.1)

-- The retraction of the neighbor's route of an entry, if it has one.
unfoldable pub retraction : ℕ → ℕ → Neighbor → Entry → Entry × List Event
retraction now own nbr e = elim (babel_find_route e.routes nbr.address) [
  | none ↦ (e, [])
  | some r ↦ babel_retract_route now own e r
]

-- An operation on the entry of a network; with `creates`, a missing entry is made first.
unfoldable pub on_entry :
    (Entry → Entry × List Event) → Bool → ℕ → ℕ → List Entry → List Entry × List Event
on_entry f creates now net [] =
    let e : Entry = record {
      net = net;
      selected = none;
      routes = [];
      sources = [];
      requests = [];
      valid = 0;
      unreachable = false;
      seqno = 0;
      metric = 0;
      router_id = 0;
      updated = now;
    } in
    if creates then ((f e).0 ∷ [], (f e).1) else ([], [])
on_entry f creates now net (e ∷ es) =
    let rest = on_entry f creates now net es in
    if e.net == net then ((f e).0 ∷ es, (f e).1) else (e ∷ rest.0, rest.1)

-- An operation on all entries, in the order of the list.
unfoldable pub on_entries : (Entry → Entry × List Event) → List Entry → List Entry × List Event
on_entries f [] = ([], [])
on_entries f (e ∷ es) = let rest = on_entries f es in ((f e).0 ∷ rest.0, (f e).1 ++ rest.1)

-- babel_handle_update. The neighbor that the sender is, if it is known, whether the channel of the
-- address family is up, and whether IPv4 routes may have IPv6 next hops, are arguments.
unfoldable pub babel_handle_update :
    ℕ → BabelProto → Option Neighbor → (channel_up ext_next_hop : Bool) → UpdateMsg → BabelProto
babel_handle_update now p none channel_up ext_next_hop msg = p
babel_handle_update now p (some nbr) channel_up ext_next_hop msg =
    let own = p.router_id in
    let finish =
      λ (r : List Entry × List Event). record p { entries = r.0; events = p.events ++ r.1 } in
    let all = finish (on_entries (retraction now own nbr) p.entries) in
    let one = finish (on_entry (retraction now own nbr) false now msg.net p.entries) in
    let regular =
      finish (on_entry (λ e. regular_update now own e nbr msg) true now msg.net p.entries) in
    if msg.router_id == own
      || not channel_up
      || (msg.is_ip4 && msg.next_hop_is_ip6 && not ext_next_hop)
    then p
    else if msg.metric == infinity
    then (if msg.wildcard then all else one)
    else regular

-- The feasibility distance that babel_send_update_ notes for an entry that it sends.
unfoldable pub note_sent : ℕ → Source → (seqno metric : ℕ) → Source
note_sent now s seqno metric =
    if gt_mod64k seqno s.seqno || (seqno == s.seqno && ltb metric s.metric)
    then record s { expires = now + garbage_interval; seqno = seqno; metric = metric }
    else record s { expires = now + garbage_interval }

unfoldable pub put_source : Source → List Source → List Source
put_source new [] = []
put_source new (s ∷ ss) =
    let rest = put_source new ss in if s.router_id == new.router_id then new ∷ ss else s ∷ rest

-- babel_send_update_ for one entry that has a next hop: its own sequence number may have moved on,
-- and what is sent is noted, if it is sent at all.
unfoldable pub babel_send_entry : ℕ → (own update_seqno changed : ℕ) → Entry → Entry × Bool
babel_send_entry now own update_seqno changed e =
    let moves = e.router_id == own && gt_mod64k update_seqno e.seqno in
    let e1 : Entry = if moves then record e { seqno = update_seqno; updated = now } else e in
    let got = babel_get_source now e1.sources e1.router_id e1.seqno in
    let noted = put_source (note_sent now got.0 e1.seqno e1.metric) got.1 in
    if e.valid == 0
    then (e, false)
    else if ltb e1.updated changed
    then (e1, false)
    else if e1.router_id == own
    then (e1, true)
    else (record e1 { sources = noted }, true)
