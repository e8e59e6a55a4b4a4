-- ===== src/Rt/Blocking.antt =====
-- What the import limit of a channel prevents in rte_recalculate of nest/rt-table.c.
use bird.Common.{
  ℕ, ◌+◌, ◌≤◌, ◌<◌, ◌≡◌, ◌≢◌, ◌==◌, refl, ap, sym, Bool, true, false, ◌&&◌, not, Bool-cases,
  Option-cases, inl, inr, ◌⊎◌, arith, Option, none, some, if◌then◌else◌, ◌^◌,
}
use mathlib.Core.Path.{subst}
use bird.Common.{max}
use bird.Common.Word.{u32}
use bird.Rt.{
  Rte, RteSrc, Channel, ChannelLimit, Action, pla_block, pla_restart, pla_disable, pla_none,
  pla_warn, rte_is_ok, rte_is_filtered, ProtoStats,
}
use bird.Rt.Better.{BetterHook}
use bird.Rt.Stats.{changed_imp}
use bird.Rt.Recalculate.{
  IdMaps, World, rte_recalculate, rte_same, count_change, limit_import, limit_receive, refresh,
  is_some,
}
use bird.Rt.Recalculate.Limits.{
  check_in_limit, check_rx_limit, filter_route, ignore_update, count_new, count_old, count_update,
  channel_notify_limit,
}
use bird.Rt.Recalculate.Place.{RecalculateHook, Split, split_old}

-- The actions that turn routes away.
abbrev pub is_hard : Action → Bool
is_hard pla_none = false
is_hard pla_warn = false
is_hard pla_block = true
is_hard pla_restart = true
is_hard pla_disable = true

-- A hard limit lets a route through only below it.
check_in_limit-below :
    (c : Channel)
    → is_hard c.in_limit.action ≡ true
    → (check_in_limit c).1 ≡ false
    → c.stats.imp_routes < c.in_limit.limit
unfolding check_in_limit channel_notify_limit
check_in_limit-below c h b = ground arith

check_in_limit-keeps :
    (c : Channel)
    → let d = (check_in_limit c).0 in
      (d.stats ≡ c.stats)
      × (d.in_limit.limit ≡ c.in_limit.limit)
      × (d.proto ≡ c.proto)
      × (d.in_limit.action ≡ c.in_limit.action)
unfolding check_in_limit channel_notify_limit
check_in_limit-keeps c = ground arith

check_rx_limit-keeps :
    (c : Channel)
    → let d = (check_rx_limit c).0 in
      (d.stats ≡ c.stats) × (d.in_limit ≡ c.in_limit) × (d.proto ≡ c.proto)
unfolding check_rx_limit channel_notify_limit
check_rx_limit-keeps c = ground arith

check_rx_limit-blocked :
    (c : Channel)
    → is_hard c.rx_limit.action ≡ true
    → c.has_in_table ≡ false
    → c.rx_limit.limit ≤ u32 (c.stats.imp_routes + c.stats.filt_routes)
    → (check_rx_limit c).1 ≡ true
unfolding check_rx_limit channel_notify_limit
check_rx_limit-blocked c h t l = ground arith

bounded_counts :
    (stats : ProtoStats) (limit : ℕ) (a b counted : Bool) (new old : Option Rte)
    → (rte_is_ok new ≡ true → rte_is_ok old ≡ false → stats.imp_routes < limit)
    → (rte_is_ok old ≡ true → 0 < stats.imp_routes)
    → stats.imp_routes < 2 ^ 32
    → let s = if counted then count_update stats a b else stats in
      (count_old (count_new s new) old).imp_routes ≤ max stats.imp_routes limit
unfolding count_update
bounded_counts stats limit a b counted new old f g top = ground arith

-- No more routes are imported than before, or than the limit allows.
abbrev Within : (M : IdMaps) → ℕ → ℕ → World M → Type 0
Within M imp limit v = v.channel.stats.imp_routes ≤ max imp limit

either :
    (M : IdMaps) (imp limit : ℕ) (b : Bool) (x y : World M)
    → (b ≡ true → Within M imp limit x)
    → (b ≡ false → Within M imp limit y)
    → Within M imp limit (if b then x else y)
either M imp limit true x y p q = p refl
either M imp limit false x y p q = q refl

module _ (M : IdMaps) (now : ℕ) (hook : BetterHook) (recalc : RecalculateHook) (src : RteSrc) where
  count_change-Within :
      (w : World M) (c : Channel) (s : Split) (new : Option Rte) (counted : Bool) (limit : ℕ)
      → c.stats.imp_routes ≡ w.channel.stats.imp_routes
      → (rte_is_ok new ≡ true → rte_is_ok s.old ≡ false → w.channel.stats.imp_routes < limit)
      → (rte_is_ok s.old ≡ true → 0 < w.channel.stats.imp_routes)
      → w.channel.stats.imp_routes < 2 ^ 32
      → Within M w.channel.stats.imp_routes limit
          (count_change M now hook recalc (record w { channel = c }) src s new counted)
  count_change-Within w c s new counted limit e f g top =
      let v : World M = record w { channel = c } in
      let k =
        ap (λ (x : Channel). x.stats.imp_routes)
          (changed_imp M now hook recalc src v s new counted) in
      subst (λ t. t ≤ max w.channel.stats.imp_routes limit) (sym k)
        (subst
          (λ t.
            (count_old
              (count_new
                (if counted
                  then count_update c.stats (rte_is_ok new) (rte_is_ok s.old)
                  else c.stats)
                new)
              s.old).imp_routes
            ≤ max t limit)
          e
          (bounded_counts c.stats limit (rte_is_ok new) (rte_is_ok s.old) counted new s.old (rw e f)
            (rw e g) (rw e top)))

  limit_import-Within :
      (w : World M) (s : Split) (new : Option Rte)
      → is_hard w.channel.in_limit.action ≡ true
      → (rte_is_ok s.old ≡ true → 0 < w.channel.stats.imp_routes)
      → w.channel.stats.imp_routes < 2 ^ 32
      → Within M w.channel.stats.imp_routes w.channel.in_limit.limit
          (limit_import M now hook recalc w src s new)
  unfolding limit_import
  limit_import-Within w s none h g top =
      count_change-Within w w.channel s none true w.channel.in_limit.limit refl
        (λ x. absurd (ground arith)) g top
  limit_import-Within w s (some n) h g top =
      let imp = w.channel.stats.imp_routes in
      let limit = w.channel.in_limit.limit in
      let c = check_in_limit w.channel in
      let k : c.0.stats.imp_routes ≡ imp =
        ap (λ (x : ProtoStats). x.imp_routes) (check_in_limit-keeps w.channel).0 in
      let at = λ (x : Channel) (m : Option Rte) (b : Bool).
        count_change M now hook recalc (record w { channel = x }) src s m b in
      let kept = at (ignore_update c.0) (some (filter_route n)) false in
      let dropped = at (ignore_update c.0) none false in
      let v : World M = record w { channel = ignore_update c.0 } in
      let limited = if is_some s.old then dropped else v in
      let full = if c.0.in_keep_filtered then kept else limited in
      let pass = at c.0 (some n) true in
      let skip = at w.channel (some n) true in
      either M imp limit (not (rte_is_ok s.old) && not (rte_is_filtered n))
        (if c.1 then full else pass) skip
        (λ e.
          either M imp limit c.1 full pass
            (λ x.
              either M imp limit c.0.in_keep_filtered kept limited
                (λ y.
                  count_change-Within w (ignore_update c.0) s (some (filter_route n)) false limit k
                    (λ z. absurd (ground arith)) g top)
                (λ y.
                  either M imp limit (is_some s.old) dropped v
                    (λ z.
                      count_change-Within w (ignore_update c.0) s none false limit k
                        (λ q. absurd (ground arith)) g top)
                    (λ z. omega (arith, k))))
            (λ x.
              count_change-Within w c.0 s (some n) true limit k
                (λ p q. check_in_limit-below w.channel h x) g top))
        (λ e.
          count_change-Within w w.channel s (some n) true limit refl (λ p q. absurd (ground arith))
            g top)

  limit_receive-Within :
      (w : World M) (s : Split) (n : Rte)
      → is_hard w.channel.in_limit.action ≡ true
      → (rte_is_ok s.old ≡ true → 0 < w.channel.stats.imp_routes)
      → w.channel.stats.imp_routes < 2 ^ 32
      → Within M w.channel.stats.imp_routes w.channel.in_limit.limit
          (limit_receive M now hook recalc w src s n)
  unfolding limit_receive
  limit_receive-Within w s n h g top =
      let c = check_rx_limit w.channel in
      let k = check_rx_limit-keeps w.channel in
      let v : World M = record w { channel = c.0 } in
      let imp = w.channel.stats.imp_routes in
      let limit = w.channel.in_limit.limit in
      let e : c.0.stats.imp_routes ≡ imp = ap (λ (x : ProtoStats). x.imp_routes) k.0 in
      either M imp limit c.1 (record w { channel = ignore_update c.0 })
        (limit_import M now hook recalc v src s (some n)) (λ x. omega (arith, e))
        (λ x.
          subst (λ t. Within M t limit (limit_import M now hook recalc v src s (some n))) e
            (subst
              (λ (t : ChannelLimit).
                Within M c.0.stats.imp_routes t.limit
                  (limit_import M now hook recalc v src s (some n)))
              k.1 (limit_import-Within v s (some n) (rw (k.1) h) (rw e g) (rw e top))))

  -- With an import limit that blocks, restarts or disables, a call of rte_recalculate never
  -- leaves the channel with more imported routes than the limit, unless it had as many before.
  -- The counter is in its range and counts the old route, where that is valid.
  pub rte_recalculate-limited :
      (w : World M) (new : Option Rte)
      → is_hard w.channel.in_limit.action ≡ true
      → (rte_is_ok (split_old src.global_id w.routes).old ≡ true → 0 < w.channel.stats.imp_routes)
      → w.channel.stats.imp_routes < 2 ^ 32
      → (rte_recalculate M now hook recalc w new src).channel.stats.imp_routes
        ≤ max w.channel.stats.imp_routes w.channel.in_limit.limit
  unfolding rte_recalculate refresh split_old
  rte_recalculate-limited w none h g top =
      let s = split_old src.global_id w.routes in
      elim (Option-cases s.old) [
        | inl e ↦ rw (rte_recalculate, e) (omega arith)
        | inr (o, e) ↦ elim (Bool-cases (o.sender == w.channel.proto)) [
          | inl x ↦ rw (rte_recalculate, e, x) (limit_import-Within w s none h g top)
          | inr x ↦ rw (rte_recalculate, e, x) (omega arith)
        ]
      ]
  rte_recalculate-limited w (some n) h g top =
      let s = split_old src.global_id w.routes in
      elim (Option-cases s.old) [
        | inl e ↦ rw (rte_recalculate, e) (limit_receive-Within w s n h g top)
        | inr (o, e) ↦ elim (Bool-cases (o.sender == w.channel.proto)) [
          | inr x ↦ rw (rte_recalculate, e, x) (omega arith)
          | inl x ↦ elim (Bool-cases (rte_same o n)) [
            | inl y ↦ rw (rte_recalculate, e, x, y) (ground arith)
            | inr y ↦ rw (rte_recalculate, e, x, y) (limit_import-Within w s (some n) h g top)
          ]
        ]
      ]

  -- A call of rte_recalculate that is turned away leaves the network's routes, the table and the
  -- counts of routes as they were: where the source already has a route of another protocol's
  -- channel, a collision of pipes; and where a route of a new source meets a receive limit that
  -- blocks, restarts or disables, no import table stands in between, and as many routes as the
  -- limit have come already.
  pub rte_recalculate-refused :
      (w : World M) (new : Option Rte)
      → ((o : Rte) × ((split_old src.global_id w.routes).old ≡ some o)
          × (o.sender ≢ w.channel.proto))
        ⊎ (((split_old src.global_id w.routes).old ≡ none)
            × (is_hard w.channel.rx_limit.action ≡ true)
            × (w.channel.has_in_table ≡ false)
            × (w.channel.rx_limit.limit
                ≤ u32 (w.channel.stats.imp_routes + w.channel.stats.filt_routes)))
      → let v = rte_recalculate M now hook recalc w new src in
        (v.routes ≡ w.routes)
        × (v.table ≡ w.table)
        × (v.channel.stats.imp_routes ≡ w.channel.stats.imp_routes)
        × (v.channel.stats.filt_routes ≡ w.channel.stats.filt_routes)
  unfolding rte_recalculate split_old limit_receive
  rte_recalculate-refused w none (inl (o, e, d)) =
      let x : (o.sender == w.channel.proto) ≡ false = ground (arith, d) in
      rw (rte_recalculate, e, x) (refl, refl, refl, refl)
  rte_recalculate-refused w none (inr (e, h, t, l)) =
      rw (rte_recalculate, e) (refl, refl, refl, refl)
  rte_recalculate-refused w (some n) (inl (o, e, d)) =
      let x : (o.sender == w.channel.proto) ≡ false = ground (arith, d) in
      rw (rte_recalculate, e, x) (refl, refl, refl, refl)
  rte_recalculate-refused w (some n) (inr (e, h, t, l)) =
      let k = (check_rx_limit-keeps w.channel).0 in
      rw (rte_recalculate, e, check_rx_limit-blocked w.channel h t l)
        (
          refl,
          refl,
          ap (λ (x : ProtoStats). x.imp_routes) k,
          ap (λ (x : ProtoStats). x.filt_routes) k,
        )
