-- ===== src/Rt/Recalculate/Limits.antt =====
-- The limits and counters of a channel in rte_recalculate of nest/rt-table.c, and
-- channel_notify_limit of nest/proto.c.
use bird.Common.{
  ℕ, ◌+◌, ◌-◌, ◌^◌, leb, not, Bool, true, false, ◌&&◌, Option, none, some, if◌then◌else◌,
}
use bird.Common.Word.{u32}
use bird.Rt.{
  pla_none, pla_warn, pla_block, pla_restart, pla_disable, pls_active, pls_blocked, ChannelLimit,
  ProtoStats, Channel, Rte, rte_is_filtered,
}

-- proto_schedule_down on what the protocol already asks for, where `true` is a restart: a restart
-- may change to a shutdown, but not otherwise. The timer and the code of the cause are left out.
unfoldable pub proto_schedule_down : Option Bool → Bool → Option Bool
proto_schedule_down none restart = some restart
proto_schedule_down (some true) restart = some restart
proto_schedule_down (some false) restart = some false

-- channel_notify_limit, the log aside.
unfoldable pub channel_notify_limit : Channel → ChannelLimit → Channel × ChannelLimit
channel_notify_limit c l = elim l.state [
  | pls_blocked ↦ (c, l)
  | _ ↦ elim l.action [
    | pla_none ↦ (c, l)
    | pla_warn ↦ (c, record l { state = pls_active })
    | pla_block ↦ (c, record l { state = pls_blocked })
    | pla_restart ↦ (
      if c.is_up then record c { down = proto_schedule_down c.down true } else c,
      record l { state = pls_blocked },
    )
    | pla_disable ↦ (
      if c.is_up then record c { down = proto_schedule_down c.down false } else c,
      record l { state = pls_blocked },
    )
  ]
]

abbrev pub acts : ChannelLimit → Bool
acts l = elim l.action [ pla_none ↦ false | _ ↦ true ]

abbrev pub blocked : ChannelLimit → Bool
blocked l = elim l.state [ pls_blocked ↦ true | _ ↦ false ]

-- A counter of type u32, one up and one down.
abbrev pub inc : ℕ → ℕ
inc n = u32 (n + 1)

abbrev pub dec : ℕ → ℕ
dec n = u32 (n + (2 ^ 32 - 1))

-- What a limit says: the channel after the check, and whether it is blocked.
unfoldable pub check_rx_limit : Channel → Channel × Bool
check_rx_limit c =
    let l = c.rx_limit in
    let all_routes = u32 (c.stats.imp_routes + c.stats.filt_routes) in
    let hit = channel_notify_limit c l in
    let notified = if leb l.limit all_routes then hit else (c, l) in
    if acts l && not c.has_in_table
    then (record notified.0 { rx_limit = notified.1 }, blocked notified.1)
    else (c, false)

unfoldable pub check_in_limit : Channel → Channel × Bool
check_in_limit c =
    let l = c.in_limit in
    let hit = channel_notify_limit c l in
    let notified = if leb l.limit c.stats.imp_routes then hit else (c, l) in
    if acts l then (record notified.0 { in_limit = notified.1 }, blocked notified.1) else (c, false)

abbrev pub filter_route : Rte → Rte
filter_route r = record r { flags = record r.flags { filtered = true } }

abbrev pub ignore_update : Channel → Channel
ignore_update c = record c {
  stats = record c.stats { imp_updates_ignored = inc c.stats.imp_updates_ignored };
}

abbrev pub ignore_withdraw : Channel → Channel
ignore_withdraw c = record c {
  stats = record c.stats { imp_withdraws_ignored = inc c.stats.imp_withdraws_ignored };
}

-- The counters up to skip_stats1.
unfoldable pub count_update : ProtoStats → (new_ok old_ok : Bool) → ProtoStats
count_update s new_ok old_ok =
    if new_ok
    then record s { imp_updates_accepted = inc s.imp_updates_accepted }
    else if old_ok
    then record s { imp_withdraws_accepted = inc s.imp_withdraws_accepted }
    else record s { imp_withdraws_ignored = inc s.imp_withdraws_ignored }

abbrev pub count_new : ProtoStats → Option Rte → ProtoStats
count_new s none = s
count_new s (some r) =
    if rte_is_filtered r
    then record s { filt_routes = inc s.filt_routes }
    else record s { imp_routes = inc s.imp_routes }

abbrev pub count_old : ProtoStats → Option Rte → ProtoStats
count_old s none = s
count_old s (some r) =
    if rte_is_filtered r
    then record s { filt_routes = dec s.filt_routes }
    else record s { imp_routes = dec s.imp_routes }
