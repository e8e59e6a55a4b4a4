-- ===== src/Examples/Routes.antt =====
-- Routing tables at concrete inputs.
use bird.Common.{ℕ, suc, ◌≤◌, ◌≡◌, refl, Bool, true, false, inr, arith, [], ◌∷◌, none, some, ltb}
use bird.Rt.{Proto, RteSrc, RefFlags, Rte, Channel, ChannelLimit, pla_none, pla_block, pls_initial}
use bird.Rt.Better.{BetterHook, valid_better, rte_better}
use bird.Rt.Order.{IsOrder, HasBestFirst}
use bird.Rt.Best.{IgnoresRefresh, rte_recalculate-HasBestFirst}
use bird.Rt.Refine.{OnePerSource}
use bird.Rt.Sources.{routes_of}
use bird.Rt.Splits.{listed}
use bird.Rt.Sorted.{IsSorted, rte_recalculate-IsSorted, place_sorted-full_scan}
use bird.Rt.Updates.{rte_recalculate-other, rte_recalculate-own}
use bird.Rt.Stats.{HasRoom, IsBalanced}
use bird.Rt.Balance.{rte_recalculate-IsBalanced}
use bird.Rt.Blocking.{rte_recalculate-limited, rte_recalculate-refused}
use bird.Rt.Recalculate.{IdMaps, World, number_new, rte_recalculate}
use bird.Rt.Recalculate.Place.{RecalculateHook, split_old, insert_sorted, place_sorted}

-- A smaller metric wins.
abbrev metric_hook : BetterHook
metric_hook p = some (λ new old. ltb new.attrs.igp_metric old.attrs.igp_metric)

metric-IsOrder : IsOrder metric_hook
metric-IsOrder = record { asym = λ a b h k. ground arith; negtrans = λ a b c h k p q. ground arith }

metric-IgnoresRefresh : IgnoresRefresh metric_hook
metric-IgnoresRefresh = record { left = λ a b. refl; right = λ a b. refl }

abbrev no_recalc : RecalculateHook
no_recalc p = none

-- Numbers are given out in turn and not used again.
abbrev ids : IdMaps
ids = record { Hmap = ℕ; first_zero = λ m. m; set = λ m i. suc m; clear = λ m i. m }

abbrev rip : Proto
rip = record { address = 8; proto = 100 }

abbrev source : ℕ → RteSrc
source n = record { proto = rip; global_id = n }

abbrev no_flags : RefFlags
no_flags = record { cow = false; filtered = false; stale = false; discard = false; modify = false }

abbrev route : ℕ → ℕ → Rte
route src metric = record {
  src = source src;
  sender = 8;
  attrs = record { address = metric; pref = 120; dest = 0; igp_metric = metric; eattrs = [] };
  id = src;
  flags = no_flags;
  pflags = 0;
  lastmod = 0;
}

abbrev limit_of : ℕ → ChannelLimit
limit_of n = record { limit = n; action = pla_block; state = pls_initial }

abbrev no_limit : ChannelLimit
no_limit = record { limit = 0; action = pla_none; state = pls_initial }

abbrev channel : ChannelLimit → ChannelLimit → Channel
channel rx imp = record {
  proto = 8;
  stats = record {
    imp_routes = 2;
    filt_routes = 0;
    imp_updates_ignored = 0;
    imp_updates_accepted = 2;
    imp_withdraws_ignored = 0;
    imp_withdraws_accepted = 0;
  };
  rx_limit = rx;
  in_limit = imp;
  has_in_table = false;
  in_keep_filtered = false;
  is_up = true;
  down = none;
}

-- A network with two routes, the better one first.
abbrev world : Bool → ChannelLimit → ChannelLimit → World ids
world sorted rx imp = record {
  channel = channel rx imp;
  table = record {
    sorted = sorted;
    gc_threshold = 10;
    rt_count = 2;
    gc_counter = 0;
    last_rt_change = 0;
    id_map = 3;
  };
  routes = route 1 10 ∷ route 2 20 ∷ [];
  events = [];
}

abbrev free_world : Bool → World ids
free_world sorted = world sorted no_limit no_limit

two_routes-OnePerSource : (sorted : Bool) → OnePerSource (free_world sorted).routes
unfolding routes_of
two_routes-OnePerSource sorted id = ground arith

two-HasBestFirst : HasBestFirst metric_hook (free_world false).routes
unfolding rte_better valid_better
two-HasBestFirst = (λ v. refl, tt)

two-IsSorted : IsSorted metric_hook (free_world true).routes
unfolding rte_better valid_better
two-IsSorted = ((λ v. refl, tt), (tt, tt))

rte_recalculate-HasBestFirst_example :
    HasBestFirst metric_hook
      (rte_recalculate ids 5 metric_hook no_recalc
        (free_world false)
        (some (route 3 5))
        (source 3)).routes
rte_recalculate-HasBestFirst_example =
    rte_recalculate-HasBestFirst metric_hook no_recalc (source 3) refl ids 5 (free_world false)
      (some (route 3 5)) metric-IsOrder metric-IgnoresRefresh refl refl two-HasBestFirst

rte_recalculate-IsSorted_example :
    IsSorted metric_hook
      (rte_recalculate ids 5 metric_hook no_recalc
        (free_world true)
        (some (route 1 30))
        (source 1)).routes
rte_recalculate-IsSorted_example =
    rte_recalculate-IsSorted ids 5 metric_hook no_recalc (source 1) (free_world true)
      (some (route 1 30)) metric-IsOrder metric-IgnoresRefresh refl refl two-IsSorted

place_sorted-full_scan_example :
    place_sorted metric_hook (split_old 2 (free_world true).routes) (some (route 2 30))
    ≡ insert_sorted metric_hook (route 2 30) (route 1 10 ∷ [])
unfolding split_old
place_sorted-full_scan_example =
    place_sorted-full_scan metric_hook metric-IsOrder 2 (free_world true).routes (route 2 30)
      two-IsSorted

rte_recalculate-other_example :
    let after =
      (rte_recalculate ids 5 metric_hook no_recalc (free_world false) none (source 1)).routes in
    (routes_of 2 after ≡ routes_of 2 (free_world false).routes) × OnePerSource after
rte_recalculate-other_example =
    rte_recalculate-other metric_hook no_recalc (source 1) refl ids 5 (free_world false) none tt
      (two_routes-OnePerSource false) 2 refl

no_third : (sorted : Bool) → (split_old 3 (free_world sorted).routes).old ≡ none
unfolding split_old
no_third sorted = refl

rte_recalculate-own_example :
    routes_of 3
      (rte_recalculate ids 5 metric_hook no_recalc
        (free_world true)
        (some (route 3 5))
        (source 3)).routes
    ≡ listed (number_new ids 5 3 (some (route 3 5)) (split_old 3 (free_world true).routes).old).1
rte_recalculate-own_example =
    rte_recalculate-own metric_hook no_recalc (source 3) refl ids 5 (free_world true)
      (some (route 3 5)) refl (two_routes-OnePerSource true) refl refl
      (λ o e. absurd (ground (arith, no_third true)))

two_routes-HasRoom : HasRoom ids (free_world false)
two_routes-HasRoom = record {
  imp = omega arith;
  imp_top = omega arith;
  filt = omega arith;
  filt_top = omega arith;
  rt = omega arith;
  rt_top = omega arith;
}

rte_recalculate-IsBalanced_example :
    IsBalanced ids
      (free_world false)
      (rte_recalculate ids 5 metric_hook no_recalc (free_world false) (some (route 2 5)) (source 2))
rte_recalculate-IsBalanced_example =
    rte_recalculate-IsBalanced ids 5 metric_hook no_recalc (source 2) refl (free_world false)
      (some (route 2 5)) two_routes-HasRoom refl

rte_recalculate-limited_example :
    (rte_recalculate ids 5 metric_hook no_recalc
      (world false no_limit (limit_of 2))
      (some (route 3 5))
      (source 3)).channel.stats.imp_routes
    ≤ 2
rte_recalculate-limited_example =
    rte_recalculate-limited ids 5 metric_hook no_recalc (source 3)
      (world false no_limit (limit_of 2)) (some (route 3 5)) refl (λ e. omega arith) (omega arith)

rte_recalculate-refused_example :
    let w = world false (limit_of 2) no_limit in
    let v = rte_recalculate ids 5 metric_hook no_recalc w (some (route 3 5)) (source 3) in
    (v.routes ≡ w.routes)
    × (v.table ≡ w.table)
    × (v.channel.stats.imp_routes ≡ 2)
    × (v.channel.stats.filt_routes ≡ 0)
rte_recalculate-refused_example =
    rte_recalculate-refused ids 5 metric_hook no_recalc (source 3)
      (world false (limit_of 2) no_limit) (some (route 3 5))
      (inr (no_third false, refl, refl, omega arith))
