-- ===== src/Babel/Cost.antt =====
-- The cost of a neighbor in proto/babel/babel.c, and the passes over the routes of an entry when
-- costs change and when times run out.
use bird.Common.{
  ℕ, zero, suc, ◌+◌, ◌-◌, ◌*◌, ◌==◌, Bool, false, ◌&&◌, ◌||◌, not, List, [], ◌∷◌, ◌++◌, none, some,
  if◌then◌else◌, ◌>>=◌, leb, ltb, min, ◌!=◌, ◌%◌, ◌/◌, Option, true,
}
use mathlib.Core.Option
use bird.Common.Word.{u32}
use bird.Babel.{
  retract, Entry, Route, Event, infinity, babel_find_route, put_route, babel_compute_metric,
  babel_expire_sources,
}
use bird.Babel.Requests.{babel_expire_requests}
use bird.Babel.Select.{is_selected, babel_select_route, babel_expire_route, babel_refresh_route}
use bird.Babel.Update.{on_entries}

-- What babel_update_cost reads of struct babel_iface_config. The other types of an interface,
-- wired and tunnel, are treated alike.
pub record IfaceConfig : Type 0 where
  pub is_wireless : Bool
  pub rxcost : ℕ
  pub limit : ℕ
  pub rtt_cost : ℕ
  pub rtt_min : ℕ
  pub rtt_max : ℕ

-- And of struct babel_neighbor; `up` is that of its interface.
pub record Link : Type 0 where
  pub address : ℕ
  pub up : Bool
  pub hello_map : ℕ
  pub hello_cnt : ℕ
  pub rxcost : ℕ
  pub txcost : ℕ
  pub cost : ℕ
  pub srtt : ℕ
  pub ihu_cnt : ℕ

-- The number of bits set among the lowest ones.
unfoldable pub popcount : ℕ → ℕ → ℕ
popcount zero n = 0
popcount (suc k) n = n % 2 + popcount k (n / 2)

-- rxcost and txcost by the type of the interface. The products stay below 2 ^ 32.
unfoldable pub link_costs : IfaceConfig → Link → ℕ × ℕ
link_costs cf l =
    let rcv = popcount 32 l.hello_map in
    let top = l.hello_cnt in
    if cf.is_wireless
    then (min (cf.rxcost * top / rcv) infinity, min (l.txcost * top / rcv) infinity)
    else if ltb (rcv * 16) (cf.limit * top)
    then (infinity, infinity)
    else (cf.rxcost, l.txcost)

-- The penalty for the round trip time: the product is one of 32 bits.
unfoldable pub rtt_penalty : IfaceConfig → ℕ → ℕ
rtt_penalty cf srtt =
    if ltb srtt cf.rtt_max
    then u32 (cf.rtt_cost * u32 (srtt - cf.rtt_min)) / u32 (cf.rtt_max - cf.rtt_min)
    else cf.rtt_cost

unfoldable pub add_rtt : IfaceConfig → ℕ → ℕ → ℕ
add_rtt cf srtt txcost =
    if cf.rtt_cost != 0 && ltb cf.rtt_min srtt
    then min (txcost + rtt_penalty cf srtt) infinity
    else txcost

-- Both costs: none of a link that is down or has not been heard of.
unfoldable pub costs : IfaceConfig → Link → ℕ × ℕ
costs cf l =
    let c = link_costs cf l in
    if popcount 32 l.hello_map == 0 || not l.up
    then (infinity, infinity)
    else (c.0, add_rtt cf l.srtt c.1)

-- The route of the neighbor with a new metric, and the choice anew.
unfoldable pub recost : ℕ → ℕ → ℕ → ℕ → Entry → Entry × List Event
recost now own address cost e = elim (babel_find_route e.routes address) [
  | none ↦ (e, [])
  | some r ↦
      let new : Route = record r { metric = babel_compute_metric cost r.advert_metric } in
      babel_select_route now own (record e { routes = put_route new e.routes }) (some new)
]

unfoldable pub babel_update_cost :
    ℕ → ℕ → IfaceConfig → Link → List Entry → Link × List Entry × List Event
babel_update_cost now own cf l entries =
    let c = costs cf l in
    let l1 : Link = if c.0 == l.rxcost then l else record l { rxcost = c.0; ihu_cnt = 0 } in
    let l2 : Link = record l1 { cost = c.1 } in
    let redone = on_entries (recost now own l.address c.1) entries in
    if c.1 == l.cost then (l1, entries, []) else (l2, redone.0, redone.1)

-- One route of the walk of babel_expire_routes_: it is refreshed, and it may expire. The flag says
-- that the selected route expired.
unfoldable pub expire_one : ℕ → ℕ → Entry → Route → Bool → Entry × Bool × List Event
expire_one now hold_time e r changed =
    let refreshed = babel_refresh_route e r in
    let again = r.refresh_time != 0 && leb r.refresh_time now in
    let e1 : Entry = if again then refreshed.0 else e in
    let r1 : Route = if again then record r { refresh_time = 0 } else r in
    let sent = if again then refreshed.1 else [] in
    if r.expires != 0 && leb r.expires now
    then (babel_expire_route now hold_time e1 r1, changed || is_selected e1 r1, sent)
    else (e1, changed, sent)

-- The walk over the routes that were there when it began.
unfoldable pub expire_walk : ℕ → ℕ → Entry → Bool → List Route → Entry × Bool × List Event
expire_walk now hold_time e changed [] = (e, changed, [])
expire_walk now hold_time e changed (r ∷ rs) =
    let one = expire_one now hold_time e r changed in
    let rest = expire_walk now hold_time one.0 one.1 rs in (rest.0, rest.1, one.2 ++ rest.2)

-- What the iteration of babel_expire_routes_ does after an entry: it goes on, comes back to the
-- entry, or goes on without it.
pub data Pass : Type 0 where
  finished : Pass
  repeated : Pass
  deleted : Pass

abbrev pub is_empty {ℓ} : {A : Type ℓ} → List A → Bool
is_empty [] = true
is_empty (x ∷ xs) = false

-- The end of a pass over an entry: a stale entry becomes a dummy, what is no longer unreachable is
-- retracted, or else sources and requests expire.
unfoldable pub expire_rest : ℕ → ℕ → ℕ → Entry → Entry × Pass × List Event
expire_rest now own hold_time e =
    let old = e.valid == 2 && leb (e.updated + hold_time) now in
    let e1 : Entry = record e { valid = if old then 0 else e.valid } in
    let asked = babel_expire_requests now e1.requests in
    let e2 : Entry = record e1 {
      sources = babel_expire_sources now e1.sources;
      requests = asked.0;
    } in
    let empty =
      e2.valid == 0 && is_empty e2.routes && is_empty e2.sources && is_empty e2.requests in
    if e1.unreachable && (e1.valid == 0 || e1.router_id == own)
    then (record e1 { unreachable = false }, repeated, retract ∷ [])
    else (e2, if empty then deleted else finished, asked.1)

-- The pass over an entry in babel_expire_routes_, with a choice anew if the selected route expired.
unfoldable pub expire_entry : ℕ → ℕ → ℕ → Entry → Entry × Pass × List Event
expire_entry now own hold_time e =
    let walked = expire_walk now hold_time e false e.routes in
    let chosen = babel_select_route now own walked.0 none in
    let rest = expire_rest now own hold_time walked.0 in
    if walked.1
    then (chosen.0, repeated, walked.2 ++ chosen.1)
    else (rest.0, rest.1, walked.2 ++ rest.2)

-- babel_expire_routes_; fuel is for the passes over one entry.
unfoldable pub expire_passes : ℕ → ℕ → ℕ → ℕ → Entry → Option (List Entry × List Event)
expire_passes zero now own hold_time e = none
expire_passes (suc k) now own hold_time e =
    let one = expire_entry now own hold_time e in
    let rest = expire_passes k now own hold_time one.0 in
    elim one.1 [
      | finished ↦ some (one.0 ∷ [], one.2)
      | repeated ↦ Option.map (λ r. (r.0, one.2 ++ r.1)) rest
      | deleted ↦ some ([], one.2)
    ]

unfoldable pub expire_routes : ℕ → ℕ → ℕ → List Entry → Option (List Entry × List Event)
expire_routes now own hold_time [] = some ([], [])
expire_routes now own hold_time (e ∷ es) = do
  one ← expire_passes 3 now own hold_time e
  rest ← expire_routes now own hold_time es
  some (one.0 ++ rest.0, one.1 ++ rest.1)
