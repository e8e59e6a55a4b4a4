-- ===== src/Babel.antt =====
-- The data of the Babel protocol: entries, routes, sources and requests of proto/babel/babel.h,
-- and the functions of proto/babel/babel.c that find and keep them.
pub mod Requests
pub mod Removal
pub mod Expiry
pub mod Passes
pub mod Walk
pub mod Walked
pub mod Select
pub mod Cost
pub mod Recost
pub mod Metrics
pub mod Feasibility
pub mod Handled
pub mod Chosen
pub mod Changes
pub mod Routes
pub mod Update
use bird.Common.{
  ℕ, zero, suc, ◌+◌, ◌-◌, ◌*◌, ◌≤◌, ◌<◌, ◌≡◌, ◌≢◌, ◌==◌, refl, ap, sym, ◌∙◌, Bool, true, false,
  ◌&&◌, ◌||◌, not, Bool-cases, Option-cases, inl, inr, ◌⊎◌, ==_self, arith, List, [], ◌∷◌, ◌++◌,
  length, length-append, Option, none, some, All, if◌then◌else◌, ltb, min, ◌!=◌, leb,
}
use bird.Common.Word.{u16}

abbrev pub infinity : ℕ
infinity = 65535

-- The comparison of sequence numbers, of 16 bits each; the difference wraps.
abbrev pub ge_mod64k : ℕ → ℕ → Bool
ge_mod64k a b = ltb (u16 (a + (65536 - b))) 32768

abbrev pub gt_mod64k : ℕ → ℕ → Bool
gt_mod64k a b = ge_mod64k a b && a != b

-- struct babel_source: the feasibility distance of a router for one network.
pub record Source : Type 0 where
  pub router_id : ℕ
  pub seqno : ℕ
  pub metric : ℕ
  pub expires : ℕ

-- struct babel_route; `neigh` names the neighbor that it came from.
pub record Route : Type 0 where
  pub neigh : ℕ
  pub feasible : Bool
  pub seqno : ℕ
  pub metric : ℕ
  pub advert_metric : ℕ
  pub router_id : ℕ
  pub next_hop : ℕ
  pub refresh_time : ℕ
  pub expires : ℕ

-- struct babel_seqno_request.
pub record SeqnoRequest : Type 0 where
  pub router_id : ℕ
  pub seqno : ℕ
  pub forwarded : Bool
  pub hop_count : ℕ
  pub count : ℕ
  pub expires : ℕ
  pub dup_suppress_time : ℕ

-- struct babel_entry; `valid` is 0, 1 or 2 (BABEL_ENTRY_*), and `selected` names a neighbor.
pub record Entry : Type 0 where
  pub net : ℕ
  pub selected : Option ℕ
  pub routes : List Route
  pub sources : List Source
  pub requests : List SeqnoRequest
  pub valid : ℕ
  pub unreachable : Bool
  pub seqno : ℕ
  pub metric : ℕ
  pub router_id : ℕ
  pub updated : ℕ

-- What goes out: route updates to the tables, requests to neighbors (to all without a target), and
-- triggered updates.
pub data Event : Type 0 where
  announce : Route → Event
  announce_unreachable : Event
  retract : Event
  send_route_request : ℕ → Event
  send_seqno_request : SeqnoRequest → Option ℕ → Event
  trigger_update : Event

unfoldable pub babel_find_source : List Source → ℕ → Option Source
babel_find_source [] id = none
babel_find_source (s ∷ ss) id = if s.router_id == id then some s else babel_find_source ss id

unfoldable pub babel_find_route : List Route → ℕ → Option Route
babel_find_route [] n = none
babel_find_route (r ∷ rs) n = if r.neigh == n then some r else babel_find_route rs n

-- BABEL_GARBAGE_INTERVAL.
abbrev pub garbage_interval : ℕ
garbage_interval = 300 * 1000000

-- The source, and the list with it.
unfoldable pub babel_get_source : ℕ → List Source → ℕ → ℕ → Source × List Source
babel_get_source now ss id initial_seqno = elim (babel_find_source ss id) [
  | some s ↦ (s, ss)
  | none ↦
      let s : Source = record {
        router_id = id;
        seqno = initial_seqno;
        metric = infinity;
        expires = now + garbage_interval;
      } in
      (s, ss ++ s ∷ [])
]

unfoldable pub babel_expire_sources : ℕ → List Source → List Source
babel_expire_sources now [] = []
babel_expire_sources now (s ∷ ss) =
    let rest = babel_expire_sources now ss in
    if s.expires != 0 && leb s.expires now then rest else s ∷ rest

abbrev pub new_route : ℕ → Route
new_route n = record {
  neigh = n;
  feasible = false;
  seqno = 0;
  metric = 0;
  advert_metric = 0;
  router_id = 0;
  next_hop = 0;
  refresh_time = 0;
  expires = 0;
}

unfoldable pub babel_get_route : List Route → ℕ → Route × List Route
babel_get_route rs n = elim (babel_find_route rs n) [
  | some r ↦ (r, rs)
  | none ↦ (new_route n, rs ++ new_route n ∷ [])
]

-- A write to the route of a neighbor.
unfoldable pub put_route : Route → List Route → List Route
put_route new [] = []
put_route new (r ∷ rs) =
    let rest = put_route new rs in if r.neigh == new.neigh then new ∷ rs else r ∷ rest

unfoldable pub babel_is_feasible : Option Source → ℕ → ℕ → Bool
babel_is_feasible none seqno metric = true
babel_is_feasible (some s) seqno metric =
    metric == infinity || gt_mod64k seqno s.seqno || (seqno == s.seqno && ltb metric s.metric)

abbrev pub babel_compute_metric : ℕ → ℕ → ℕ
babel_compute_metric cost metric = min (metric + cost) infinity
