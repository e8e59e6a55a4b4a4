-- ===== src/Babel/Recost.antt =====
-- Changes of costs in proto/babel/babel.c keep the best routes selected, and the costs in range.
use bird.Common.Word.{u32}
use bird.Common.{
  ℕ, ◌-◌, ◌*◌, ◌≤◌, ◌<◌, ◌≡◌, ◌≢◌, ◌==◌, refl, sym, ◌||◌, not, Bool-cases, Option-cases, inl, inr,
  arith, List, some, All, ◌^◌, ltb, ◌/◌, All-map,
}
use mathlib.Core.Path.{subst}
use native.Mathlib.Nat.{
  le-div_iff_mul-le, mul-le-mul_left, mul-le-mul_right, div-le_of_le-mul, mul_comm,
}
use bird.Babel.{Entry, Route, infinity, babel_find_route, babel_compute_metric}
use bird.Babel.Routes.{find_neigh, IsKeyed}
use bird.Babel.Chosen.{IsChosen}
use bird.Babel.Changes.{select_changed-IsChosen}
use bird.Babel.Metrics.{route_lists, recosted_lists, on_entries-recosted}
use bird.Babel.Handled.{on_entries-All}
use bird.Babel.Cost.{
  IfaceConfig, Link, popcount, link_costs, rtt_penalty, add_rtt, costs, recost, babel_update_cost,
}

recost-IsChosen :
    (now own address cost : ℕ) (e : Entry) → IsChosen e → IsChosen (recost now own address cost e).0
unfolding recost
recost-IsChosen now own address cost e c = elim (Option-cases (babel_find_route e.routes address)) [
  | inl f ↦ rw (recost, f) c
  | inr (r, f) ↦
      let new : Route = record r { metric = babel_compute_metric cost r.advert_metric } in
      let n = find_neigh e.routes address r f in
      let g : babel_find_route e.routes r.neigh ≡ some r =
        subst (λ t. babel_find_route e.routes t ≡ some r) (sym n) f in
      rw (recost, f) (select_changed-IsChosen now own e new r c g (omega arith))
]

-- babel_update_cost leaves the neighbor with the cost worked out, every route of the neighbor with
-- the metric for that cost, the other routes as they were, and in each entry the best route under
-- these metrics selected. Before the call the best routes were selected, and the metrics of the
-- neighbor's routes were those for its cost then.
pub update_cost-IsChosen :
    (now own : ℕ) (cf : IfaceConfig) (l : Link) (entries : List Entry)
    → All IsChosen entries
    → recosted_lists l.address l.cost entries ≡ route_lists entries
    → let v = babel_update_cost now own cf l entries in
      (v.0.cost ≡ (costs cf l).1)
      × (route_lists v.1 ≡ recosted_lists l.address v.0.cost entries)
      × All IsChosen v.1
unfolding babel_update_cost
update_cost-IsChosen now own cf l entries a m =
    let c = costs cf l in
    let keyed = All-map IsChosen (λ e. IsKeyed e.routes) entries (λ e d. d.keyed) a in
    elim (Bool-cases (c.1 == l.cost)) [
      | inl x ↦ elim (Bool-cases (c.0 == l.rxcost)) [
        | inl y ↦ rw (babel_update_cost, x, y) (ground arith, sym m, a)
        | inr y ↦ rw (babel_update_cost, x, y) (ground arith, sym m, a)
      ]
      | inr x ↦
          rw (babel_update_cost, x)
            (
              refl,
              on_entries-recosted now own l.address c.1 entries keyed,
              on_entries-All (recost now own l.address c.1) entries
                  (recost-IsChosen now own l.address c.1) a,
            )
    ]

small : (n : ℕ) → n < 2 ^ 32 → u32 n ≡ n
small n h = omega arith

-- A loss of hellos makes a cost no smaller.
scaled_le : (tx rcv top : ℕ) → rcv ≢ 0 → rcv ≤ top → tx ≤ tx * top / rcv
scaled_le tx rcv top z h =
    (le-div_iff_mul-le {k = rcv} {x = tx} {y = tx * top} (omega (arith, z))).1
      (mul-le-mul_left tx h)

part_le : (cost d k : ℕ) → d ≤ k → cost * d / k ≤ cost
part_le cost d k h =
    div-le_of_le-mul k {m = cost * d} {n = cost}
      (subst (λ t. t ≤ k * cost) (mul_comm d cost) (mul-le-mul_right cost h))

penalty_le :
    (cf : IfaceConfig) (srtt : ℕ)
    → cf.rtt_min < cf.rtt_max
    → cf.rtt_max < 2 ^ 32
    → cf.rtt_cost * (cf.rtt_max - cf.rtt_min) < 2 ^ 32
    → rtt_penalty cf srtt ≤ cf.rtt_cost
unfolding rtt_penalty
penalty_le cf srtt m w q = elim (Bool-cases (ltb srtt cf.rtt_max)) [
  | inl x ↦
      let d = srtt - cf.rtt_min in
      let k = cf.rtt_max - cf.rtt_min in
      let below : srtt < cf.rtt_max = ground arith in
      let le : d ≤ k = omega (arith, below) in
      let product : cf.rtt_cost * d < 2 ^ 32 = omega (arith, mul-le-mul_left cf.rtt_cost le) in
      rw
        (
          rtt_penalty,
          x,
          small d (omega (arith, below)),
          small k (omega arith),
          small (cf.rtt_cost * d) product,
        )
        (part_le cf.rtt_cost d k le)
  | inr x ↦ rw (rtt_penalty, x) (omega arith)
]

link_costs_le :
    (cf : IfaceConfig) (l : Link)
    → l.txcost ≤ infinity
    → popcount 32 l.hello_map ≢ 0
    → popcount 32 l.hello_map ≤ l.hello_cnt
    → ((link_costs cf l).1 ≤ infinity) × (l.txcost ≤ (link_costs cf l).1)
unfolding link_costs
link_costs_le cf l t z p =
    ground (arith, scaled_le l.txcost (popcount 32 l.hello_map) l.hello_cnt z p)

add_rtt_le :
    (cf : IfaceConfig) (srtt tx : ℕ)
    → tx ≤ infinity
    → (add_rtt cf srtt tx ≤ infinity) × (tx ≤ add_rtt cf srtt tx)
unfolding add_rtt
add_rtt_le cf srtt tx t = ground arith

costs_le :
    (cf : IfaceConfig) (l : Link)
    → l.txcost ≤ infinity
    → popcount 32 l.hello_map ≤ l.hello_cnt
    → ((costs cf l).1 ≤ infinity) × (l.txcost ≤ (costs cf l).1)
unfolding costs
costs_le cf l t p = elim (Bool-cases (popcount 32 l.hello_map == 0 || not l.up)) [
  | inl x ↦ rw (costs, x) (omega arith, t)
  | inr x ↦
      let c = link_costs_le cf l t (ground arith) p in
      let a = add_rtt_le cf l.srtt (link_costs cf l).1 c.0 in
      rw (costs, x) (a.0, omega (arith, a.1, c.1))
]

-- The cost of a neighbor lies between the one that it announced and infinity, whatever the type of
-- the interface and the round trip time, and the penalty for the round trip time is at most the
-- configured one. The announced cost has 16 bits, no more hellos came than were expected, the
-- maximum of the round trip time is above its minimum and below 2 ^ 32, and the product of the
-- configured penalty with the interval between the two stays within 32 bits.
pub costs_lem :
    (cf : IfaceConfig) (l : Link)
    → l.txcost ≤ infinity
    → popcount 32 l.hello_map ≤ l.hello_cnt
    → cf.rtt_min < cf.rtt_max
    → cf.rtt_max < 2 ^ 32
    → cf.rtt_cost * (cf.rtt_max - cf.rtt_min) < 2 ^ 32
    → ((costs cf l).1 ≤ infinity)
      × (l.txcost ≤ (costs cf l).1)
      × (rtt_penalty cf l.srtt ≤ cf.rtt_cost)
costs_lem cf l t p m w q = let c = costs_le cf l t p in (c.0, c.1, penalty_le cf l.srtt m w q)
