-- ===== src/Rt/Recalculate.antt =====
-- rte_recalculate of nest/rt-table.c and channel_notify_limit of nest/proto.c. `now` is
-- current_time(). The set of numbers in use, an hmap of lib/bitmap.c, is reached by its
-- operations, and the hooks of the protocols are parameters.
pub mod Place
pub mod Limits
use bird.Common.{
  ℕ, suc, ◌+◌, ◌-◌, ◌%◌, ◌^◌, ltb, leb, ◌==◌, not, Bool, true, false, ◌&&◌, ◌||◌, Option, none,
  some, List, [], ◌∷◌, ◌++◌, if◌then◌else◌,
}
use bird.Common.Word.{u32}
use bird.Rt.{
  Action, pla_none, pla_warn, pla_block, pla_restart, pla_disable, LimitState, pls_initial,
  pls_active, pls_blocked, ChannelLimit, ProtoStats, Channel, Rte, RteSrc, Rta, RefFlags,
  rte_is_filtered, rte_is_ok,
}
use bird.Rt.Better.{BetterHook}
use bird.Rt.Recalculate.Limits.{
  inc, check_rx_limit, check_in_limit, filter_route, ignore_update, ignore_withdraw, count_update,
  count_new, count_old,
}
use bird.Rt.Recalculate.Place.{RecalculateHook, Split, split_old, head, place}

-- The sets of the numbers in use: hmap_first_zero, hmap_set and hmap_clear.
pub record IdMaps : Type 1 where
  pub Hmap : Type 0
  pub first_zero : Hmap → ℕ
  pub set : Hmap → ℕ → Hmap
  pub clear : Hmap → ℕ → Hmap

-- What happens outside the table, in order.
pub data Event : Type 0 where
  collision : Rte → Event
  announce : (new old new_best old_best : Option Rte) → Event
  kick_prune : Event
  rte_remove : Rte → Event
  rte_insert : Rte → Event

-- struct rtable, with its struct rtable_config.
pub record Rtable (M : IdMaps) : Type 0 where
  pub sorted : Bool
  pub gc_threshold : ℕ
  pub rt_count : ℕ
  pub gc_counter : ℕ
  pub last_rt_change : ℕ
  pub id_map : M.Hmap

-- The routes of the network, its table, the channel that changes them, and what was done.
pub record World (M : IdMaps) : Type 0 where
  pub channel : Channel
  pub table : Rtable M
  pub routes : List Rte
  pub events : List Event

abbrev pub is_some : Option Rte → Bool
is_some none = false
is_some (some r) = true

-- rte_same; a truth value is compared as one.
abbrev same_bool : Bool → Bool → Bool
same_bool true b = b
same_bool false b = not b

unfoldable pub rte_same : Rte → Rte → Bool
rte_same x y =
    (x.attrs.address == y.attrs.address)
    && ((x.src.global_id == y.src.global_id) && same_bool (rte_is_filtered x) (rte_is_filtered y))

-- The refresh of an old route that the new one equals.
abbrev pub refreshed : Rte → Rte
refreshed r = record r { flags = record r.flags { stale = false; discard = false; modify = false } }

module _ (M : IdMaps) where
  -- The set of numbers and the new route with its number and time.
  unfoldable pub number_new : ℕ → M.Hmap → (new old : Option Rte) → M.Hmap × Option Rte
  number_new now ids none old = (ids, none)
  number_new now ids (some new) none =
      let id = M.first_zero ids in (M.set ids id, some (record new { lastmod = now; id = id }))
  number_new now ids (some new) (some old) = (ids, some (record new { lastmod = now; id = old.id }))

  -- The number of a route that is withdrawn is free again.
  abbrev release : M.Hmap → (new old : Option Rte) → M.Hmap
  release ids none (some old) = M.clear ids old.id
  release ids _ _ = ids

  abbrev hooks_called : (new old : Option Rte) → List Event
  hooks_called new old =
      (elim old [ none ↦ [] | some o ↦ if rte_is_filtered o then [] else rte_remove o ∷ [] ])
      ++ (elim new [ none ↦ [] | some n ↦ if rte_is_filtered n then [] else rte_insert n ∷ [] ])

  -- The change of the list and all after it. The new route gets its number and time before it
  -- is linked and not behind it: no comparison of routes reads them.
  unfoldable pub apply_change :
      ℕ → BetterHook → RecalculateHook → World M → RteSrc → Split → Option Rte → World M
  apply_change now hook recalc w src s new =
      let t = w.table in
      let numbered = number_new now t.id_map new s.old in
      let p = place hook recalc t.sorted src s numbered.1 in
      let best = head p.routes in
      let kicked = is_some best || not (leb t.gc_threshold t.gc_counter) in
      let collected = record t {
        rt_count = u32 (
            t.rt_count
            + (if is_some s.old then 2 ^ 32 - 1 else 0)
            + (if is_some new then 1 else 0));
        gc_counter = if is_some best then t.gc_counter else inc t.gc_counter;
        id_map = release numbered.0 new s.old;
      } in
      record w {
        table = collected;
        routes = p.routes;
        events =
            w.events
            ++ (announce p.new p.old best p.old_best ∷ (if kicked then [] else kick_prune ∷ []))
            ++ hooks_called p.new p.old;
      }

  -- From the count of the update on; `counted` is false where the code skips it.
  unfoldable pub count_change :
      ℕ → BetterHook → RecalculateHook → World M → RteSrc → Split → Option Rte → Bool → World M
  count_change now hook recalc w src s new counted =
      let c = w.channel in
      let new_ok = rte_is_ok new in
      let old_ok = rte_is_ok s.old in
      let stats = if counted then count_update c.stats new_ok old_ok else c.stats in
      let changes = counted && (old_ok || new_ok) in
      let t = if changes then record w.table { last_rt_change = now } else w.table in
      let after = record w {
        channel = record c { stats = count_old (count_new stats new) s.old };
        table = t;
      } in
      apply_change now hook recalc after src s new

  -- The import limit; a route that it turns away is kept as a filtered one or dropped.
  unfoldable pub limit_import :
      ℕ → BetterHook → RecalculateHook → World M → RteSrc → Split → Option Rte → World M
  limit_import now hook recalc w src s new =
      let c = check_in_limit w.channel in
      let d = ignore_update c.0 in
      let v : World M = record w { channel = d } in
      let pass = count_change now hook recalc (record w { channel = c.0 }) src s new true in
      let skip = count_change now hook recalc w src s new true in
      elim new [
        | none ↦ skip
        | some n ↦
            let kept = count_change now hook recalc v src s (some (filter_route n)) false in
            let dropped = count_change now hook recalc v src s none false in
            if not (rte_is_ok s.old) && not (rte_is_filtered n)
            then (if c.1
                then if d.in_keep_filtered then kept else if is_some s.old then dropped else v
                else pass)
            else skip
      ]

  -- The receive limit, which only a route of a new source meets.
  unfoldable pub limit_receive :
      ℕ → BetterHook → RecalculateHook → World M → RteSrc → Split → Rte → World M
  limit_receive now hook recalc w src s new =
      let c = check_rx_limit w.channel in
      let rest = limit_import now hook recalc (record w { channel = c.0 }) src s (some new) in
      if c.1 then record w { channel = ignore_update c.0 } else rest

  unfoldable pub refresh : World M → Split → (old new : Rte) → World M
  refresh w s old new = record w {
    channel = if rte_is_filtered new then w.channel else ignore_update w.channel;
    routes = s.before ++ refreshed old ∷ s.after;
  }

  unfoldable pub rte_recalculate :
      ℕ → BetterHook → RecalculateHook → World M → Option Rte → RteSrc → World M
  rte_recalculate now hook recalc w new src =
      let s = split_old src.global_id w.routes in
      elim s.old [
        | none ↦ elim new [
          | none ↦ record w { channel = ignore_withdraw w.channel }
          | some n ↦ limit_receive now hook recalc w src s n
        ]
        | some old ↦
            if old.sender == w.channel.proto
            then (elim new [
              | none ↦ limit_import now hook recalc w src s none
              | some n ↦
                  if rte_same old n
                  then refresh w s old n
                  else limit_import now hook recalc w src s (some n)
            ])
            else (elim new [
              | none ↦ w
              | some n ↦ record w { events = w.events ++ collision n ∷ [] }
            ])
      ]
