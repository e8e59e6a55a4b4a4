-- ===== src/Examples/Babel.antt =====
-- The Babel protocol at concrete inputs.
use bird.Common.{ℕ, ◌≤◌, ◌<◌, ◌≡◌, refl, true, false, arith, [], ◌∷◌, some, All, ◌^◌, List, ◌&&◌}
use bird.Babel.{
  Entry, Event, Route, Source, infinity, ge_mod64k, gt_mod64k, babel_find_route, babel_find_source,
  babel_is_feasible,
}
use bird.Babel.Chosen.{IsChosen}
use bird.Babel.Update.{BabelProto, Neighbor, UpdateMsg, babel_handle_update, babel_send_entry}
use bird.Babel.Handled.{handle_update-IsChosen}
use bird.Babel.Cost.{
  IfaceConfig, Link, popcount, costs, rtt_penalty, link_costs, add_rtt, babel_update_cost,
  expire_routes,
}
use bird.Babel.Passes.{expire_routes-IsChosen}
use bird.Babel.Metrics.{route_lists, recosted_lists}
use bird.Babel.Recost.{update_cost-IsChosen, costs_lem}
use bird.Babel.Feasibility.{gt_mod64k_lem, NotWorse, send_entry-infeasible}

-- A route with the metric 200 from neighbor 1, selected, and a feasible one that is farther.
abbrev route : ℕ → ℕ → Route
route n m = record {
  neigh = n;
  feasible = true;
  seqno = 7;
  metric = m;
  advert_metric = m;
  router_id = 50;
  next_hop = n;
  refresh_time = 0;
  expires = 0;
}

abbrev source : Source
source = record { router_id = 50; seqno = 7; metric = 300; expires = 0 }

abbrev entry : Entry
entry = record {
  net = 1;
  selected = some 1;
  routes = route 1 200 ∷ route 2 250 ∷ [];
  sources = source ∷ [];
  requests = [];
  valid = 1;
  unreachable = false;
  seqno = 7;
  metric = 200;
  router_id = 50;
  updated = 10;
}

entry-IsChosen : IsChosen entry
unfolding babel_find_route
entry-IsChosen = record {
  keyed = (refl, (refl, tt));
  bounded = (omega arith, (omega arith, tt));
  held = λ n d. (route 1 200, ground arith);
  fit = (refl, omega arith);
  least = ((λ f. omega arith), ((λ f. omega arith), tt));
}

abbrev proto : BabelProto
proto = record { router_id = 99; entries = entry ∷ []; events = [] }

abbrev neighbor : Neighbor
neighbor = record { address = 2; cost = 20 }

-- The second neighbor has come closer.
abbrev closer : UpdateMsg
closer = record {
  wildcard = false;
  net = 1;
  is_ip4 = false;
  interval = 1000;
  seqno = 8;
  metric = 100;
  router_id = 50;
  next_hop = 2;
  next_hop_is_ip6 = true;
}

handle_update-IsChosen_example :
    All IsChosen (babel_handle_update 20 proto (some neighbor) true true closer).entries
handle_update-IsChosen_example =
    handle_update-IsChosen 20 proto (some neighbor) true true closer (entry-IsChosen, tt)

gt_mod64k_lem_example :
    (ge_mod64k 65535 65535 ≡ true)
    × (gt_mod64k 2 65535 ≡ true)
    × ((gt_mod64k 65535 2 && ge_mod64k 2 65535) ≡ false)
    × (ge_mod64k 4 7 ≡ ge_mod64k 65535 2)
gt_mod64k_lem_example =
    gt_mod64k_lem 65535 2 3 5 (omega arith) (omega arith) (omega arith) (omega arith)

source_small : (s : Source) → babel_find_source (source ∷ []) 50 ≡ some s → s.seqno < 2 ^ 16
unfolding babel_find_source
source_small s e = ground arith

send_entry-infeasible_example :
    let v = (babel_send_entry 20 99 5 0 entry).0 in
    (babel_is_feasible (babel_find_source v.sources 50) 7 220 ≡ false)
    × NotWorse (babel_find_source v.sources 50) (babel_find_source (source ∷ []) 50)
    × (babel_find_source v.sources 60 ≡ babel_find_source (source ∷ []) 60)
send_entry-infeasible_example =
    send_entry-infeasible 20 99 5 0 entry 220 60 (λ e. absurd (ground arith)) (omega arith)
      (λ e. absurd (ground arith)) (omega arith) source_small (omega arith) (omega arith)
      (λ e. absurd (ground arith))

-- At time 40 both routes have expired, the selected one as well.
abbrev aging : Entry
aging = record entry {
  routes = record (route 1 200) { expires = 30 } ∷ record (route 2 250) { expires = 35 } ∷ [];
}

aging-IsChosen : IsChosen aging
unfolding babel_find_route
aging-IsChosen = record {
  keyed = (refl, (refl, tt));
  bounded = (omega arith, (omega arith, tt));
  held = λ n d. (record (route 1 200) { expires = 30 }, ground arith);
  fit = (refl, omega arith);
  least = ((λ f. omega arith), ((λ f. omega arith), tt));
}

expire_routes-IsChosen_example :
    (r : List Entry × List Event) × (expire_routes 40 99 10 (aging ∷ []) ≡ some r)
    × All IsChosen r.0
expire_routes-IsChosen_example =
    expire_routes-IsChosen 40 99 10 (aging ∷ []) (omega arith) (aging-IsChosen, tt)

abbrev wireless : IfaceConfig
wireless = record {
  is_wireless = true;
  rxcost = 256;
  limit = 12;
  rtt_cost = 96;
  rtt_min = 10000;
  rtt_max = 120000;
}

-- Twelve of sixteen hellos came.
abbrev link : Link
link = record {
  address = 2;
  up = true;
  hello_map = 4095;
  hello_cnt = 16;
  rxcost = 256;
  txcost = 256;
  cost = 256;
  srtt = 20000;
  ihu_cnt = 1;
}

-- The route of neighbor 2 at its cost of 256.
abbrev costed : Entry
costed = record entry { routes = route 1 200 ∷ record (route 2 506) { advert_metric = 250 } ∷ [] }

costed-IsChosen : IsChosen costed
unfolding babel_find_route
costed-IsChosen = record {
  keyed = (refl, (refl, tt));
  bounded = (omega arith, (omega arith, tt));
  held = λ n d. (route 1 200, ground arith);
  fit = (refl, omega arith);
  least = ((λ f. omega arith), ((λ f. omega arith), tt));
}

update_cost-IsChosen_example :
    let v = babel_update_cost 20 99 wireless link (costed ∷ []) in
    (v.0.cost ≡ (costs wireless link).1)
    × (route_lists v.1 ≡ recosted_lists 2 v.0.cost (costed ∷ []))
    × All IsChosen v.1
update_cost-IsChosen_example =
    update_cost-IsChosen 20 99 wireless link (costed ∷ []) (costed-IsChosen, tt) refl

-- The cost becomes 349: 256 * 16 / 12, and 8 for the round trip time.
new_cost : (costs wireless link).1 ≡ 349
unfolding costs link_costs add_rtt rtt_penalty popcount
new_cost = refl

few_hellos : popcount 32 link.hello_map ≤ link.hello_cnt
unfolding popcount
few_hellos = omega arith

costs_lem_example :
    ((costs wireless link).1 ≤ infinity)
    × (256 ≤ (costs wireless link).1)
    × (rtt_penalty wireless 20000 ≤ 96)
costs_lem_example =
    costs_lem wireless link (omega arith) few_hellos (omega arith) (omega arith) (omega arith)

-- The wrap of the product: with the largest cost, 70 ms above the minimum cost less than 60 ms.
wrapped_penalty :
    (rtt_penalty (record wireless { rtt_cost = 65534 }) 70000 ≡ 35745)
    × (rtt_penalty (record wireless { rtt_cost = 65534 }) 80000 ≡ 2658)
unfolding rtt_penalty
wrapped_penalty = (refl, refl)
