-- ===== src/Bgp/Best.antt =====
-- BGP routes in a routing table: bgp_rte_better of proto/bgp/attrs.c as the hook of
use bird.Common.{
  ℕ, ◌≡◌, ◌==◌, refl, ap, sym, ◌∙◌, Bool, true, false, ◌&&◌, arith, Option, none, some,
  if◌then◌else◌,
}
-- rte_recalculate of nest/rt-table.c, and the routes that bgp_rte_mergable joins.
use bird.Rt.{Rte, RteSrc}
use bird.Rt.Better.{BetterHook, tie_break}
use bird.Rt.Order.{IsOrder, HasBestFirst}
use bird.Rt.Cases.{From}
use bird.Rt.Best.{IgnoresRefresh, rte_recalculate-HasBestFirst}
use bird.Rt.Recalculate.{IdMaps, World, rte_recalculate, refreshed}
use bird.Rt.Recalculate.Place.{RecalculateHook}
use bird.Bgp.{BgpOf}
use bird.Bgp.Decision.{
  rte_stale, bgp_total_aigp_metric, path_length, better_peer, better_med, better_path,
  bgp_get_neighbor, bgp_rte_better, aigp_step,
}
use bird.Bgp.Order.{IsUniform, bgp_rte_better_lem}

-- P->rte_better of the BGP protocols, those with proto_bgp for their kind; no other has a hook.
abbrev pub bgp_hook : ℕ → BgpOf → BetterHook
bgp_hook proto_bgp bgp p = if p.proto == proto_bgp then some (bgp_rte_better bgp) else none

-- P->rte_recalculate without deterministic_med.
abbrev pub no_recalculate : RecalculateHook
no_recalculate p = none

hook_if :
    (c : Bool) (f : Rte → Rte → Bool) (a b : Rte)
    → (elim (if c then some f else none) [ none ↦ false | some better ↦ better a b ]) ≡ c && f a b
hook_if true f a b = refl
hook_if false f a b = refl

tie_bgp :
    (proto_bgp : ℕ) (bgp : BgpOf) (a b : Rte)
    → tie_break (bgp_hook proto_bgp bgp) a b
      ≡ (a.src.proto.proto == proto_bgp) && bgp_rte_better bgp a b
tie_bgp proto_bgp bgp a b = hook_if (a.src.proto.proto == proto_bgp) (bgp_rte_better bgp) a b

module _ (proto_bgp : ℕ) (bgp : BgpOf) (compares : Bool) (u : IsUniform bgp compares) where
  bgp_hook-IsOrder : IsOrder (bgp_hook proto_bgp bgp)
  bgp_hook-IsOrder =
      let k = bgp_rte_better_lem bgp compares u in
      record {
        asym = λ a b e h.
            let p = sym (tie_bgp proto_bgp bgp a b) ∙ h in
            tie_bgp proto_bgp bgp b a ∙ ground (arith, (k a b a).1);
        negtrans = λ a b c e f h g.
            let p = sym (tie_bgp proto_bgp bgp a b) ∙ h in
            let q = sym (tie_bgp proto_bgp bgp b c) ∙ g in
            tie_bgp proto_bgp bgp a c ∙ ground (arith, (k a b c).2);
      }

module _ (bgp : BgpOf) where
  rte_stale-refreshed : (a : Rte) → (rte_stale (refreshed a)).0 ≡ (rte_stale a).0
  unfolding rte_stale
  rte_stale-refreshed a = ground arith

  path_refreshed_left : (a b : Rte) → better_path bgp (refreshed a) b ≡ better_path bgp a b
  unfolding better_path better_med better_peer path_length bgp_get_neighbor
  path_refreshed_left a b = refl

  path_refreshed_right : (a b : Rte) → better_path bgp a (refreshed b) ≡ better_path bgp a b
  unfolding better_path better_med better_peer path_length bgp_get_neighbor
  path_refreshed_right a b = refl

  total_refreshed : (a : Rte) → bgp_total_aigp_metric (refreshed a) ≡ bgp_total_aigp_metric a
  unfolding bgp_total_aigp_metric aigp_step
  total_refreshed a = refl

  better_refreshed_left : (a b : Rte) → bgp_rte_better bgp (refreshed a) b ≡ bgp_rte_better bgp a b
  unfolding bgp_rte_better
  better_refreshed_left a b =
      rw (rte_stale-refreshed a, path_refreshed_left a b, total_refreshed a) refl

  better_refreshed_right : (a b : Rte) → bgp_rte_better bgp a (refreshed b) ≡ bgp_rte_better bgp a b
  unfolding bgp_rte_better
  better_refreshed_right a b =
      rw (rte_stale-refreshed b, path_refreshed_right a b, total_refreshed b) refl

bgp_hook-IgnoresRefresh : (proto_bgp : ℕ) (bgp : BgpOf) → IgnoresRefresh (bgp_hook proto_bgp bgp)
bgp_hook-IgnoresRefresh proto_bgp bgp = record {
  left = λ a b.
      tie_bgp proto_bgp bgp (refreshed a) b
      ∙ ap (λ t. (a.src.proto.proto == proto_bgp) && t) (better_refreshed_left bgp a b)
      ∙ sym (tie_bgp proto_bgp bgp a b);
  right = λ a b.
      tie_bgp proto_bgp bgp a (refreshed b)
      ∙ ap (λ t. (a.src.proto.proto == proto_bgp) && t) (better_refreshed_right bgp a b)
      ∙ sym (tie_bgp proto_bgp bgp a b);
}

-- With the comparison of the BGP protocols, the head of a network's routes in a table that is not
-- sorted stays the best route through every call of rte_recalculate, whatever protocols the
-- routes come from. All BGP protocols compare the MED always, none prefers older routes or has
-- deterministic MEDs, all compare the lengths of paths or none does, and no other protocol has a
-- comparison of its own; the new route comes from the source.
pub bgp-HasBestFirst :
    (proto_bgp : ℕ) (bgp : BgpOf) (compares : Bool)
    → IsUniform bgp compares
    → (M : IdMaps) (now : ℕ) (w : World M) (new : Option Rte) (src : RteSrc)
    → w.table.sorted ≡ false
    → From src new
    → HasBestFirst (bgp_hook proto_bgp bgp) w.routes
    → HasBestFirst
        (bgp_hook proto_bgp bgp)
        (rte_recalculate M now (bgp_hook proto_bgp bgp) no_recalculate w new src).routes
bgp-HasBestFirst proto_bgp bgp compares u M now w new src e f p =
    rte_recalculate-HasBestFirst (bgp_hook proto_bgp bgp) no_recalculate src refl M now w new
      (bgp_hook-IsOrder proto_bgp bgp compares u) (bgp_hook-IgnoresRefresh proto_bgp bgp) e f p
