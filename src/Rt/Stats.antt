-- ===== src/Rt/Stats.antt =====
-- The counters of routes that rte_recalculate of nest/rt-table.c keeps for a channel and a table.
use bird.Common.{
  ℕ, suc, ◌+◌, ◌≤◌, ◌<◌, ◌≡◌, ◌==◌, refl, ap, ◌∙◌, Bool, true, ◌&&◌, not, arith, List, ◌++◌, Option,
  none, some, if◌then◌else◌, ◌^◌,
}
use bird.Rt.{Rte, RteSrc, Channel, rte_is_ok, rte_is_filtered, ProtoStats}
use bird.Rt.Better.{BetterHook}
use mathlib.Core.Path.{subst}
use bird.Rt.Updates.{admits}
use bird.Rt.Splits.{listed, joined, split_old-joined}
use bird.Rt.Counts.{count, count-append, count-place}
use bird.Rt.Recalculate.{IdMaps, World, number_new, apply_change, count_change}
use bird.Rt.Recalculate.Limits.{
  check_in_limit, check_rx_limit, count_new, count_old, count_update, channel_notify_limit,
}
use bird.Rt.Recalculate.Place.{RecalculateHook, Split, split_old, place}

-- A valid route, and a filtered one, that came through the channel of a protocol.
abbrev pub imported : ℕ → Rte → Bool
imported proto r = not (rte_is_filtered r) && (r.sender == proto)

abbrev pub turned_away : ℕ → Rte → Bool
turned_away proto r = rte_is_filtered r && (r.sender == proto)

abbrev pub any : Rte → Bool
any r = true

-- The channel and the table count at least the network's routes of theirs, with room for one more.
pub record HasRoom (M : IdMaps) (w : World M) : Type 0 where
  pub imp : count (imported w.channel.proto) w.routes ≤ w.channel.stats.imp_routes
  pub imp_top : suc w.channel.stats.imp_routes < 2 ^ 32
  pub filt : count (turned_away w.channel.proto) w.routes ≤ w.channel.stats.filt_routes
  pub filt_top : suc w.channel.stats.filt_routes < 2 ^ 32
  pub rt : count any w.routes ≤ w.table.rt_count
  pub rt_top : suc w.table.rt_count < 2 ^ 32

-- Each counter has changed by as much as the number of the routes that it counts.
pub record IsBalanced (M : IdMaps) (w v : World M) : Type 0 where
  pub same : v.channel.proto ≡ w.channel.proto
  pub imp :
      v.channel.stats.imp_routes + count (imported w.channel.proto) w.routes
      ≡ w.channel.stats.imp_routes + count (imported w.channel.proto) v.routes
  pub filt :
      v.channel.stats.filt_routes + count (turned_away w.channel.proto) w.routes
      ≡ w.channel.stats.filt_routes + count (turned_away w.channel.proto) v.routes
  pub rt : v.table.rt_count + count any w.routes ≡ w.table.rt_count + count any v.routes

-- A route that the channel's protocol sent, if there is one.
abbrev pub SentBy : ℕ → Option Rte → Type 0
SentBy proto none = Unit
SentBy proto (some r) = r.sender ≡ proto

count_change-imp :
    (proto : ℕ) (stats : ProtoStats) (a b counted : Bool) (new old : Option Rte)
    → SentBy proto new
    → SentBy proto old
    → let s = if counted then count_update stats a b else stats in
      let t = count_old (count_new s new) old in
      suc stats.imp_routes < 2 ^ 32
      → count (imported proto) (listed old) ≤ stats.imp_routes
      → t.imp_routes + count (imported proto) (listed old)
        ≡ stats.imp_routes + count (imported proto) (listed new)
unfolding count_update
count_change-imp proto stats a b counted new old f g top low = ground arith

count_change-filt :
    (proto : ℕ) (stats : ProtoStats) (a b counted : Bool) (new old : Option Rte)
    → SentBy proto new
    → SentBy proto old
    → let s = if counted then count_update stats a b else stats in
      let t = count_old (count_new s new) old in
      suc stats.filt_routes < 2 ^ 32
      → count (turned_away proto) (listed old) ≤ stats.filt_routes
      → t.filt_routes + count (turned_away proto) (listed old)
        ≡ stats.filt_routes + count (turned_away proto) (listed new)
unfolding count_update
count_change-filt proto stats a b counted new old f g top low = ground arith

module _ (M : IdMaps) (now : ℕ) (hook : BetterHook) (recalc : RecalculateHook) (src : RteSrc) where
  -- What the change of the list counts, and what it leaves of the channel.
  pub changed_imp :
      (w : World M) (s : Split) (new : Option Rte) (counted : Bool)
      → let c = w.channel in
        let stats =
          if counted then count_update c.stats (rte_is_ok new) (rte_is_ok s.old) else c.stats in
        (count_change M now hook recalc w src s new counted).channel
        ≡ record c { stats = count_old (count_new stats new) s.old }
  unfolding count_change apply_change
  changed_imp w s new counted = refl

  changed_rt :
      (w : World M) (s : Split) (new : Option Rte) (counted : Bool)
      → suc w.table.rt_count < 2 ^ 32
      → count any (listed s.old) ≤ w.table.rt_count
      → (count_change M now hook recalc w src s new counted).table.rt_count
          + count any (listed s.old)
        ≡ w.table.rt_count + count any (listed new)
  unfolding count_change apply_change
  changed_rt w s new counted top low = ground arith

  listed_part :
      (p : Rte → Bool) (id : ℕ) (rs : List Rte)
      → count p (listed (split_old id rs).old) ≤ count p rs
  listed_part p id rs =
      let s = split_old id rs in
      let j : count p (joined s) ≡ count p rs = ap (count p) (split_old-joined id rs) in
      omega (
        arith,
        j,
        count-append p s.before (listed s.old ++ s.after),
        count-append p (listed s.old) s.after,
      )

  numbered_imp :
      (proto : ℕ) (ids : M.Hmap) (new old : Option Rte)
      → (count (imported proto) (listed (number_new M now ids new old).1)
          ≡ count (imported proto) (listed new))
        × (count (turned_away proto) (listed (number_new M now ids new old).1)
            ≡ count (turned_away proto) (listed new))
        × (count any (listed (number_new M now ids new old).1) ≡ count any (listed new))
  unfolding number_new
  numbered_imp proto ids none old = (refl, refl, refl)
  numbered_imp proto ids (some n) none = (refl, refl, refl)
  numbered_imp proto ids (some n) (some o) = (refl, refl, refl)

  pub count_change-IsBalanced :
      (w : World M) (new : Option Rte) (counted : Bool)
      → recalc src.proto ≡ none
      → HasRoom M w
      → SentBy w.channel.proto new
      → SentBy w.channel.proto (split_old src.global_id w.routes).old
      → IsBalanced M w
          (count_change M now hook recalc w src (split_old src.global_id w.routes) new counted)
  count_change-IsBalanced w new counted u room f g =
      let s = split_old src.global_id w.routes in
      let proto = w.channel.proto in
      let numbered = (number_new M now w.table.id_map new s.old).1 in
      let k = numbered_imp proto w.table.id_map new s.old in
      let v = count_change M now hook recalc w src s new counted in
      let rs = (place hook recalc w.table.sorted src s numbered).routes in
      let e : v.routes ≡ rs = admits hook recalc src u M now w s new counted in
      let c = changed_imp w s new counted in
      let stats =
        if counted
        then count_update w.channel.stats (rte_is_ok new) (rte_is_ok s.old)
        else w.channel.stats in
      record {
        same = rw c refl;
        imp =
            let low : count (imported proto) (listed s.old) ≤ w.channel.stats.imp_routes =
              omega (arith, listed_part (imported proto) src.global_id w.routes, room.imp) in
            let c1 = ap (λ (x : Channel). x.stats.imp_routes) c in
            omega (
              arith,
              ap (count (imported proto)) e,
              c1,
              count_change-imp proto w.channel.stats (rte_is_ok new) (rte_is_ok s.old) counted new
                  s.old f g room.imp_top low,
              count-place (imported proto) hook recalc src w.table.sorted w.routes numbered u,
              k.0,
            );
        filt =
            let low : count (turned_away proto) (listed s.old) ≤ w.channel.stats.filt_routes =
              omega (arith, listed_part (turned_away proto) src.global_id w.routes, room.filt) in
            let c1 = ap (λ (x : Channel). x.stats.filt_routes) c in
            omega (
              arith,
              ap (count (turned_away proto)) e,
              c1,
              count_change-filt proto w.channel.stats (rte_is_ok new) (rte_is_ok s.old) counted new
                  s.old f g room.filt_top low,
              count-place (turned_away proto) hook recalc src w.table.sorted w.routes numbered u,
              k.1,
            );
        rt =
            let low : count any (listed s.old) ≤ w.table.rt_count =
              omega (arith, listed_part any src.global_id w.routes, room.rt) in
            omega (
              arith,
              ap (count any) e,
              changed_rt w s new counted room.rt_top low,
              count-place any hook recalc src w.table.sorted w.routes numbered u,
              k.2,
            );
      }

-- The channels agree in what the counts are about.
pub record SameCounts (c d : Channel) : Type 0 where
  pub proto : d.proto ≡ c.proto
  pub imp : d.stats.imp_routes ≡ c.stats.imp_routes
  pub filt : d.stats.filt_routes ≡ c.stats.filt_routes

pub check_in_limit-SameCounts : (c : Channel) → SameCounts c (check_in_limit c).0
unfolding check_in_limit channel_notify_limit
check_in_limit-SameCounts c = ground arith

pub check_rx_limit-SameCounts : (c : Channel) → SameCounts c (check_rx_limit c).0
unfolding check_rx_limit channel_notify_limit
check_rx_limit-SameCounts c = ground arith

module _ (M : IdMaps) (w : World M) (c : Channel) (k : SameCounts w.channel c) where
  pub HasRoom-channel : HasRoom M w → HasRoom M (record w { channel = c })
  HasRoom-channel r = record {
    imp = rw (k.proto, k.imp) r.imp;
    imp_top = rw (k.imp) r.imp_top;
    filt = rw (k.proto, k.filt) r.filt;
    filt_top = rw (k.filt) r.filt_top;
    rt = r.rt;
    rt_top = r.rt_top;
  }

  pub IsBalanced-channel :
      (v : World M) → IsBalanced M (record w { channel = c }) v → IsBalanced M w v
  IsBalanced-channel v b = record {
    same = b.same ∙ k.proto;
    imp =
        subst
          (λ t.
            v.channel.stats.imp_routes + count (imported t) w.routes
            ≡ w.channel.stats.imp_routes + count (imported t) v.routes)
          k.proto (rw (← k.imp) b.imp);
    filt =
        subst
          (λ t.
            v.channel.stats.filt_routes + count (turned_away t) w.routes
            ≡ w.channel.stats.filt_routes + count (turned_away t) v.routes)
          k.proto (rw (← k.filt) b.filt);
    rt = b.rt;
  }

  pub IsBalanced-kept : IsBalanced M w (record w { channel = c })
  IsBalanced-kept = record { same = k.proto; imp = rw k.imp refl; filt = rw k.filt refl; rt = refl }
