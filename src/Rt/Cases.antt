-- ===== src/Rt/Cases.antt =====
-- The ways in which rte_recalculate of nest/rt-table.c can leave a network's list of routes.
use bird.Common.{
  ℕ, ◌≡◌, Bool, true, false, inl, inr, Bool-cases, List, ◌∷◌, ◌++◌, Option, none, some, ◌&&◌,
  Option-cases, ◌||◌, not, ◌==◌,
}
use bird.Rt.{Rte, RteSrc, rte_is_ok, rte_is_filtered}
use bird.Rt.Better.{BetterHook}
use bird.Rt.Recalculate.Place.{RecalculateHook, Split, split_old, place}
use bird.Rt.Recalculate.{
  IdMaps, World, number_new, apply_change, count_change, limit_import, limit_receive, refresh,
  rte_recalculate, rte_same, refreshed, is_some,
}
use bird.Rt.Recalculate.Limits.{check_in_limit, check_rx_limit, filter_route}

-- The route, if there is one, comes from the source.
abbrev pub From : RteSrc → Option Rte → Type 0
From src none = Unit
From src (some r) = r.src ≡ src

pub number_new-From :
    (M : IdMaps) (now : ℕ) (src : RteSrc) (ids : M.Hmap) (new old : Option Rte)
    → From src new
    → From src (number_new M now ids new old).1
unfolding number_new
number_new-From M now src ids none old f = tt
number_new-From M now src ids (some n) none f = f
number_new-From M now src ids (some n) (some o) f = f

module _ {ℓ} (M : IdMaps) (now : ℕ) (hook : BetterHook) (recalc : RecalculateHook) (src : RteSrc)
    (P : List Rte → Type ℓ) where
  -- Whatever is put in place, the predicate holds of the list.
  abbrev Placed : Bool → Split → Type ℓ
  Placed sorted s = (n : Option Rte) → From src n → P (place hook recalc sorted src s n).routes

  apply_change-cases :
      (w : World M) (s : Split) (new : Option Rte)
      → From src new
      → Placed w.table.sorted s
      → P (apply_change M now hook recalc w src s new).routes
  unfolding apply_change
  apply_change-cases w s new f p =
      p (number_new M now w.table.id_map new s.old).1
        (number_new-From M now src w.table.id_map new s.old f)

  count_change-cases :
      (w : World M) (s : Split) (new : Option Rte) (counted : Bool)
      → From src new
      → Placed w.table.sorted s
      → P (count_change M now hook recalc w src s new counted).routes
  unfolding count_change
  count_change-cases w s new counted f p =
      let c = counted && (rte_is_ok s.old || rte_is_ok new) in
      elim (Bool-cases c) [
        | inl e ↦ rw e (apply_change-cases _ s new f p)
        | inr e ↦ rw e (apply_change-cases _ s new f p)
      ]

  limit_import-cases :
      (w : World M) (s : Split) (new : Option Rte)
      → From src new
      → Placed w.table.sorted s
      → P w.routes
      → P (limit_import M now hook recalc w src s new).routes
  unfolding limit_import
  limit_import-cases w s none f p q = count_change-cases w s none true f p
  limit_import-cases w s (some n) f p q =
      let c = check_in_limit w.channel in
      elim (Bool-cases (not (rte_is_ok s.old) && not (rte_is_filtered n))) [
        | inr e ↦ rw e (count_change-cases w s (some n) true f p)
        | inl e ↦ elim (Bool-cases c.1) [
          | inr d ↦ rw (e, d) (count_change-cases _ s (some n) true f p)
          | inl d ↦ elim (Bool-cases c.0.in_keep_filtered) [
            | inl k ↦ rw (e, d, k) (count_change-cases _ s (some (filter_route n)) false f p)
            | inr k ↦ elim (Bool-cases (is_some s.old)) [
              | inl o ↦ rw (e, d, k, o) (count_change-cases _ s none false tt p)
              | inr o ↦ rw (e, d, k, o) q
            ]
          ]
        ]
      ]

  limit_receive-cases :
      (w : World M) (s : Split) (new : Rte)
      → From src (some new)
      → Placed w.table.sorted s
      → P w.routes
      → P (limit_receive M now hook recalc w src s new).routes
  unfolding limit_receive
  limit_receive-cases w s new f p q = elim (Bool-cases (check_rx_limit w.channel).1) [
    | inl e ↦ rw e q
    | inr e ↦ rw e (limit_import-cases _ s (some new) f p q)
  ]

  -- The list is as it was, or holds the old route with its flags cleared, or has the new route
  -- put in place.
  pub rte_recalculate-cases :
      (w : World M) (new : Option Rte)
      → From src new
      → Placed w.table.sorted (split_old src.global_id w.routes)
      → P w.routes
      → ((o : Rte)
          → (split_old src.global_id w.routes).old ≡ some o
          → P (
              (split_old src.global_id w.routes).before
              ++ refreshed o ∷ (split_old src.global_id w.routes).after))
      → P (rte_recalculate M now hook recalc w new src).routes
  unfolding rte_recalculate refresh
  rte_recalculate-cases w none f p q r =
      let s = split_old src.global_id w.routes in
      elim (Option-cases s.old) [
        | inl e ↦ rw (rte_recalculate, e) q
        | inr (o, e) ↦ elim (Bool-cases (o.sender == w.channel.proto)) [
          | inl d ↦ rw (rte_recalculate, e, d) (limit_import-cases w s none tt p q)
          | inr d ↦ rw (rte_recalculate, e, d) q
        ]
      ]
  rte_recalculate-cases w (some n) f p q r =
      let s = split_old src.global_id w.routes in
      elim (Option-cases s.old) [
        | inl e ↦ rw (rte_recalculate, e) (limit_receive-cases w s n f p q)
        | inr (o, e) ↦ elim (Bool-cases (o.sender == w.channel.proto)) [
          | inr d ↦ rw (rte_recalculate, e, d) q
          | inl d ↦ elim (Bool-cases (rte_same o n)) [
            | inl k ↦ rw (rte_recalculate, e, d, k) (r o e)
            | inr k ↦ rw (rte_recalculate, e, d, k) (limit_import-cases w s (some n) f p q)
          ]
        ]
      ]
