-- ===== src/Rt/Balance.antt =====
-- Through every path of rte_recalculate of nest/rt-table.c the counters stay those of the list.
use bird.Common.{
  ℕ, ◌≡◌, ◌==◌, refl, ap, sym, ◌∙◌, Bool, true, false, ◌&&◌, not, Bool-cases, Option-cases, inl,
  inr, arith, List, ◌∷◌, ◌++◌, Option, none, some, if◌then◌else◌,
}
use mathlib.Core.Path.{subst}
use bird.Rt.{Rte, RteSrc, Channel, rte_is_ok, rte_is_filtered}
use bird.Rt.Better.{BetterHook}
use bird.Rt.Counts.{count, count-append, one_if}
use bird.Rt.Splits.{listed, split_old-joined}
use bird.Rt.Stats.{
  imported, turned_away, any, HasRoom, IsBalanced, SentBy, count_change-IsBalanced, SameCounts,
  check_in_limit-SameCounts, check_rx_limit-SameCounts, HasRoom-channel, IsBalanced-channel,
  IsBalanced-kept,
}
use bird.Rt.Recalculate.{
  IdMaps, World, refreshed, rte_recalculate, rte_same, count_change, limit_import, limit_receive,
  refresh, is_some,
}
use bird.Rt.Recalculate.Limits.{
  check_in_limit, check_rx_limit, filter_route, ignore_update, ignore_withdraw,
}
use bird.Rt.Recalculate.Place.{RecalculateHook, split_old}

-- One more ignored update or withdrawal changes no count of routes.
ignore-SameCounts : (c d : Channel) → SameCounts c d → SameCounts c (ignore_update d)
ignore-SameCounts c d k = record { proto = k.proto; imp = k.imp; filt = k.filt }

same : (c : Channel) → SameCounts c c
same c = record { proto = refl; imp = refl; filt = refl }

either :
    (M : IdMaps) (w : World M) (b : Bool) (x y : World M)
    → IsBalanced M w x
    → IsBalanced M w y
    → IsBalanced M w (if b then x else y)
either M w true x y p q = p
either M w false x y p q = q

module _ (M : IdMaps) (now : ℕ) (hook : BetterHook) (recalc : RecalculateHook) (src : RteSrc)
    (u : recalc src.proto ≡ none) where
  -- The change, made behind a check of the channel.
  behind_check :
      (w : World M) (c : Channel) (new : Option Rte) (counted : Bool)
      → SameCounts w.channel c
      → HasRoom M w
      → SentBy w.channel.proto new
      → SentBy w.channel.proto (split_old src.global_id w.routes).old
      → IsBalanced M w (
          count_change M now hook recalc
            (record w { channel = c })
            src
            (split_old src.global_id w.routes)
            new
            counted)
  behind_check w c new counted k room f g =
      let f2 = subst (λ t. SentBy t new) (sym k.proto) f in
      let g2 = subst (λ t. SentBy t (split_old src.global_id w.routes).old) (sym k.proto) g in
      IsBalanced-channel M w c k _ (
        count_change-IsBalanced M now hook recalc src (record w { channel = c }) new counted u
          (HasRoom-channel M w c k room) f2 g2)

  limit_import-IsBalanced :
      (w : World M) (new : Option Rte)
      → HasRoom M w
      → SentBy w.channel.proto new
      → SentBy w.channel.proto (split_old src.global_id w.routes).old
      → IsBalanced M w (limit_import M now hook recalc w src (split_old src.global_id w.routes) new)
  unfolding limit_import
  limit_import-IsBalanced w none room f g =
      behind_check w w.channel none true (same w.channel) room f g
  limit_import-IsBalanced w (some n) room f g =
      let s = split_old src.global_id w.routes in
      let c = check_in_limit w.channel in
      let k = check_in_limit-SameCounts w.channel in
      let d = ignore-SameCounts w.channel c.0 k in
      let at = λ (x : Channel) (m : Option Rte) (b : Bool).
        count_change M now hook recalc (record w { channel = x }) src s m b in
      let kept = at (ignore_update c.0) (some (filter_route n)) false in
      let dropped = at (ignore_update c.0) none false in
      let v : World M = record w { channel = ignore_update c.0 } in
      let limited = if is_some s.old then dropped else v in
      let full = if c.0.in_keep_filtered then kept else limited in
      let pass = at c.0 (some n) true in
      let skip = at w.channel (some n) true in
      either M w (not (rte_is_ok s.old) && not (rte_is_filtered n)) (if c.1 then full else pass)
        skip
        (either M w c.1 full pass
          (either M w c.0.in_keep_filtered kept limited
            (behind_check w (ignore_update c.0) (some (filter_route n)) false d room f g)
            (either M w (is_some s.old) dropped v
              (behind_check w (ignore_update c.0) none false d room tt g)
              (IsBalanced-kept M w (ignore_update c.0) d)))
          (behind_check w c.0 (some n) true k room f g))
        (behind_check w w.channel (some n) true (same w.channel) room f g)

  limit_receive-IsBalanced :
      (w : World M) (n : Rte)
      → HasRoom M w
      → n.sender ≡ w.channel.proto
      → (split_old src.global_id w.routes).old ≡ none
      → IsBalanced M w (limit_receive M now hook recalc w src (split_old src.global_id w.routes) n)
  unfolding limit_receive
  limit_receive-IsBalanced w n room f e =
      let c = check_rx_limit w.channel in
      let k = check_rx_limit-SameCounts w.channel in
      let g : SentBy c.0.proto (split_old src.global_id w.routes).old =
        subst (SentBy c.0.proto) (sym e) tt in
      elim (Bool-cases c.1) [
        | inl x ↦
            rw (limit_receive, x)
              (IsBalanced-kept M w (ignore_update c.0) (ignore-SameCounts w.channel c.0 k))
        | inr x ↦
            rw (limit_receive, x)
              (IsBalanced-channel M w c.0 k _ (
                limit_import-IsBalanced (record w { channel = c.0 }) (some n)
                  (HasRoom-channel M w c.0 k room) (f ∙ sym k.proto) g))
      ]

  sent_by :
      (w : World M) (o : Rte)
      → (split_old src.global_id w.routes).old ≡ some o
      → (o.sender == w.channel.proto) ≡ true
      → SentBy w.channel.proto (split_old src.global_id w.routes).old
  sent_by w o e x =
      let d : o.sender ≡ w.channel.proto = ground arith in subst (SentBy w.channel.proto) (sym e) d

  refreshed_count :
      (p : Rte → Bool) (rs : List Rte) (o : Rte)
      → (split_old src.global_id rs).old ≡ some o
      → p (refreshed o) ≡ p o
      → count p
          ((split_old src.global_id rs).before ++ refreshed o ∷ (split_old src.global_id rs).after)
        ≡ count p rs
  refreshed_count p rs o e q =
      let s = split_old src.global_id rs in
      let j : count p (s.before ++ (o ∷ s.after)) ≡ count p rs =
        subst (λ x. count p (s.before ++ (listed x ++ s.after)) ≡ count p rs) e
          (ap (count p) (split_old-joined src.global_id rs)) in
      let k : one_if (p (refreshed o)) ≡ one_if (p o) = ap one_if q in
      omega (
        arith,
        j,
        k,
        count-append p s.before (o ∷ s.after),
        count-append p s.before (refreshed o ∷ s.after),
      )

  -- The marks that a refresh clears are not counted.
  refresh-IsBalanced :
      (w : World M) (o n : Rte)
      → (split_old src.global_id w.routes).old ≡ some o
      → IsBalanced M w (refresh M w (split_old src.global_id w.routes) o n)
  unfolding refresh
  refresh-IsBalanced w o n e =
      let proto = w.channel.proto in
      elim (Bool-cases (rte_is_filtered n)) [
        | inl x ↦
            rw (refresh, x)
              (record {
                same = refl;
                imp = rw (refreshed_count (imported proto) w.routes o e refl) refl;
                filt = rw (refreshed_count (turned_away proto) w.routes o e refl) refl;
                rt = rw (refreshed_count any w.routes o e refl) refl;
              })
        | inr x ↦
            rw (refresh, x)
              (record {
                same = refl;
                imp = rw (refreshed_count (imported proto) w.routes o e refl) refl;
                filt = rw (refreshed_count (turned_away proto) w.routes o e refl) refl;
                rt = rw (refreshed_count any w.routes o e refl) refl;
              })
      ]

  -- The counters of valid and of filtered routes of the channel, and the table's counter of
  -- routes, change in every call of rte_recalculate by exactly as much as the numbers of such
  -- routes in the network's list: on updates, withdrawals, refreshes, collisions of pipes, and
  -- where a limit turns the route away. The counters hold at least the network's routes and do
  -- not stand at their top, the new route was sent by the channel, and the source's protocol has
  -- no rte_recalculate hook.
  pub rte_recalculate-IsBalanced :
      (w : World M) (new : Option Rte)
      → HasRoom M w
      → SentBy w.channel.proto new
      → IsBalanced M w (rte_recalculate M now hook recalc w new src)
  unfolding rte_recalculate split_old
  rte_recalculate-IsBalanced w none room f =
      let s = split_old src.global_id w.routes in
      elim (Option-cases s.old) [
        | inl e ↦
            rw (rte_recalculate, e)
              (IsBalanced-kept M w (ignore_withdraw w.channel)
                (record { proto = refl; imp = refl; filt = refl }))
        | inr (o, e) ↦ elim (Bool-cases (o.sender == w.channel.proto)) [
          | inl x ↦
              rw (rte_recalculate, e, x) (limit_import-IsBalanced w none room f (sent_by w o e x))
          | inr x ↦ rw (rte_recalculate, e, x) (IsBalanced-kept M w w.channel (same w.channel))
        ]
      ]
  rte_recalculate-IsBalanced w (some n) room f =
      let s = split_old src.global_id w.routes in
      elim (Option-cases s.old) [
        | inl e ↦ rw (rte_recalculate, e) (limit_receive-IsBalanced w n room f e)
        | inr (o, e) ↦ elim (Bool-cases (o.sender == w.channel.proto)) [
          | inr x ↦
              rw (rte_recalculate, e, x)
                (record { same = refl; imp = refl; filt = refl; rt = refl })
          | inl x ↦ elim (Bool-cases (rte_same o n)) [
            | inl y ↦ rw (rte_recalculate, e, x, y) (refresh-IsBalanced w o n e)
            | inr y ↦
                rw (rte_recalculate, e, x, y)
                  (limit_import-IsBalanced w (some n) room f (sent_by w o e x))
          ]
        ]
      ]
