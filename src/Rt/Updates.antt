-- ===== src/Rt/Updates.antt =====
-- What rte_recalculate of nest/rt-table.c does to a network's routes, seen as a map from their
-- sources.
use bird.Common.{
  ℕ, ◌≤◌, ◌≡◌, ◌==◌, refl, ap, sym, ◌∙◌, Bool, true, false, ◌&&◌, ◌||◌, not, Bool-cases,
  Option-cases, inl, inr, ==_self, arith, List, [], ◌∷◌, ◌++◌, length, Option, none, some,
}
use mathlib.Core.Path.{subst}
use bird.Rt.{Channel, Rte, RteSrc, rte_is_ok, rte_is_filtered, pla_none}
use bird.Rt.Better.{BetterHook}
use bird.Rt.Cases.{From, rte_recalculate-cases, number_new-From}
use bird.Rt.Best.{place_in_sorted, place_unsorted}
use bird.Rt.Splits.{listed, split_old-joined}
use bird.Rt.Sources.{routes_of}
use bird.Rt.Refine.{
  Extends-linked, OnePerSource, Extends, Extends-one, Extends-sorted, Extends-arranged, rest_own,
  rest_other, split_old_found,
}
use bird.Rt.Recalculate.{
  IdMaps, World, refreshed, rte_recalculate, rte_same, number_new, apply_change, count_change,
  limit_import, limit_receive,
}
use bird.Rt.Recalculate.Place.{RecalculateHook, Split, split_old, place}
use bird.Rt.Recalculate.Limits.{check_in_limit, check_rx_limit}

module _ (hook : BetterHook) (recalc : RecalculateHook) (src : RteSrc)
    (none_set : recalc src.proto ≡ none) where
  ==_true : (a b : ℕ) → (a == b) ≡ true → a ≡ b
  ==_true a b e = ground arith

  rest_one :
      (rs : List Rte)
      → OnePerSource rs
      → let s = split_old src.global_id rs in OnePerSource (s.before ++ s.after)
  rest_one rs one id = elim (Bool-cases (src.global_id == id)) [
    | inl e ↦
        let d : src.global_id ≡ id = ==_true src.global_id id e in
        subst
          (λ t.
            let s = split_old src.global_id rs in length (routes_of t (s.before ++ s.after)) ≤ 1)
          d (rw (rest_own src.global_id rs (one src.global_id)) (omega arith))
    | inr e ↦ rw (rest_other src.global_id rs id e) (one id)
  ]

  -- Putting a route in place gives its source that route and leaves the others alone.
  placed-Extends :
      (sorted : Bool) (rs : List Rte) (n : Option Rte)
      → OnePerSource rs
      → From src n
      → Extends src.global_id rs n
          (place hook recalc sorted src (split_old src.global_id rs) n).routes
  placed-Extends sorted rs n one f =
      let s = split_old src.global_id rs in
      let base = s.before ++ s.after in
      let own = rest_own src.global_id rs (one src.global_id) in
      let x : Extends src.global_id base n (place hook recalc sorted src s n).routes =
        elim (Bool-cases sorted) [
          | inl e ↦
              rw (e, place_in_sorted hook recalc src s n)
                (Extends-sorted hook s.before s.after s.old (rest_one rs one) src n f own)
          | inr e ↦
              rw (e, place_unsorted hook recalc src none_set s.before s.after s.old n)
                (Extends-arranged hook s.before s.after s.old (rest_one rs one) src n f own)
        ] in
      (λ id e. x.0 id e ∙ rest_other src.global_id rs id e, x.1)

  refreshed_one :
      (rs : List Rte) (o : Rte)
      → OnePerSource rs
      → (split_old src.global_id rs).old ≡ some o
      → let s = split_old src.global_id rs in
        let qs = s.before ++ refreshed o ∷ s.after in
        ((id : ℕ) → (src.global_id == id) ≡ false → routes_of id qs ≡ routes_of id rs)
        × OnePerSource qs
  refreshed_one rs o one e =
      let s = split_old src.global_id rs in
      let base = s.before ++ s.after in
      let qs = s.before ++ refreshed o ∷ s.after in
      let d : o.src.global_id ≡ src.global_id =
        ==_true o.src.global_id src.global_id (split_old_found src.global_id rs o e) in
      let own : routes_of o.src.global_id base ≡ [] =
        rw d (rest_own src.global_id rs (one src.global_id)) in
      let x : Extends src.global_id base (some (refreshed o)) qs =
        subst (λ t. Extends t base (some (refreshed o)) qs) d
          (Extends-linked (refreshed o) s.before s.after own) in
      let y : Extends src.global_id rs (some (refreshed o)) qs =
        (λ id ne. x.0 id ne ∙ rest_other src.global_id rs id ne, x.1) in
      (y.0, Extends-one src.global_id rs (some (refreshed o)) qs one y)

  -- A call of rte_recalculate leaves the routes of every other source as they are, and its own
  -- source with at most one route, in sorted and unsorted tables and on every path, errors
  -- included. Before the call no source had two, the new route comes from the source, and the
  -- source's protocol has no rte_recalculate hook.
  pub rte_recalculate-other :
      (M : IdMaps) (now : ℕ) (w : World M) (new : Option Rte)
      → From src new
      → OnePerSource w.routes
      → (id : ℕ) → (src.global_id == id) ≡ false
      → let after = (rte_recalculate M now hook recalc w new src).routes in
        (routes_of id after ≡ routes_of id w.routes) × OnePerSource after
  rte_recalculate-other M now w new f one id ne =
      rte_recalculate-cases M now hook recalc src
        (λ after. (routes_of id after ≡ routes_of id w.routes) × OnePerSource after) w new f
        (λ n g.
          let x = placed-Extends w.table.sorted w.routes n one g in
          (x.0 id ne, Extends-one src.global_id w.routes n _ one x))
        (refl, one) (λ o e. let x = refreshed_one w.routes o one e in (x.0 id ne, x.1))

  pub admits :
      (M : IdMaps) (now : ℕ) (w : World M) (s : Split) (new : Option Rte) (c : Bool)
      → (count_change M now hook recalc w src s new c).routes
        ≡ (place hook recalc w.table.sorted src s
            (number_new M now w.table.id_map new s.old).1).routes
  unfolding count_change apply_change
  admits M now w s new c = elim (Bool-cases (c && (rte_is_ok s.old || rte_is_ok new))) [
    | inl e ↦ rw (count_change, e) refl
    | inr e ↦ rw (count_change, e) refl
  ]

  in_unlimited : (c : Channel) → c.in_limit.action ≡ pla_none → check_in_limit c ≡ (c, false)
  unfolding check_in_limit
  in_unlimited c e = rw (check_in_limit, e) refl

  rx_unlimited : (c : Channel) → c.rx_limit.action ≡ pla_none → check_rx_limit c ≡ (c, false)
  unfolding check_rx_limit
  rx_unlimited c e = rw (check_rx_limit, e) refl

  import_unlimited :
      (M : IdMaps) (now : ℕ) (w : World M) (s : Split) (new : Option Rte)
      → w.channel.in_limit.action ≡ pla_none
      → (limit_import M now hook recalc w src s new).routes
        ≡ (place hook recalc w.table.sorted src s
            (number_new M now w.table.id_map new s.old).1).routes
  unfolding limit_import
  import_unlimited M now w s none e = admits M now w s none true
  import_unlimited M now w s (some n) e =
      elim (Bool-cases (not (rte_is_ok s.old) && not (rte_is_filtered n))) [
        | inl c ↦ rw (limit_import, c, in_unlimited w.channel e) (admits M now w s (some n) true)
        | inr c ↦ rw (limit_import, c) (admits M now w s (some n) true)
      ]

  receive_unlimited :
      (M : IdMaps) (now : ℕ) (w : World M) (s : Split) (n : Rte)
      → w.channel.rx_limit.action ≡ pla_none
      → w.channel.in_limit.action ≡ pla_none
      → (limit_receive M now hook recalc w src s n).routes
        ≡ (place hook recalc w.table.sorted src s
            (number_new M now w.table.id_map (some n) s.old).1).routes
  unfolding limit_receive
  receive_unlimited M now w s n rx e =
      rw (limit_receive, rx_unlimited w.channel rx) (import_unlimited M now w s (some n) e)

  absent :
      (rs : List Rte)
      → OnePerSource rs
      → (split_old src.global_id rs).old ≡ none
      → routes_of src.global_id rs ≡ []
  absent rs one e =
      let s = split_old src.global_id rs in
      let q : s.before ++ s.after ≡ rs =
        subst (λ x. s.before ++ (listed x ++ s.after) ≡ rs) e (split_old-joined src.global_id rs) in
      subst (λ t. routes_of src.global_id t ≡ []) q (rest_own src.global_id rs (one src.global_id))

  -- What the call comes to where the source has an old route that is to be replaced.
  replaces :
      (M : IdMaps) (now : ℕ) (w : World M) (new : Option Rte) (o : Rte)
      → (split_old src.global_id w.routes).old ≡ some o
      → o.sender ≡ w.channel.proto
      → ((n : Rte) → new ≡ some n → rte_same o n ≡ false)
      → (rte_recalculate M now hook recalc w new src).routes
        ≡ (limit_import M now hook recalc w src (split_old src.global_id w.routes) new).routes
  unfolding rte_recalculate split_old
  replaces M now w none o e d h =
      let c : (o.sender == w.channel.proto) ≡ true = rw d (==_self w.channel.proto) in
      rw (rte_recalculate, e, c) refl
  replaces M now w (some n) o e d h =
      let c : (o.sender == w.channel.proto) ≡ true = rw d (==_self w.channel.proto) in
      rw (rte_recalculate, e, c, h n refl) refl

  appears :
      (M : IdMaps) (now : ℕ) (w : World M) (n : Rte)
      → (split_old src.global_id w.routes).old ≡ none
      → (rte_recalculate M now hook recalc w (some n) src).routes
        ≡ (limit_receive M now hook recalc w src (split_old src.global_id w.routes) n).routes
  unfolding rte_recalculate split_old
  appears M now w n e = rw (rte_recalculate, e) refl

  ignored :
      (M : IdMaps) (now : ℕ) (w : World M)
      → (split_old src.global_id w.routes).old ≡ none
      → (rte_recalculate M now hook recalc w none src).routes ≡ w.routes
  unfolding rte_recalculate
  ignored M now w e = rw (rte_recalculate, e) refl

  none_stays :
      (M : IdMaps) (now : ℕ) (ids : M.Hmap) (old : Option Rte)
      → (number_new M now ids none old).1 ≡ none
  unfolding number_new
  none_stays M now ids old = refl

  put_own :
      (M : IdMaps) (now : ℕ) (w : World M) (new : Option Rte)
      → From src new
      → OnePerSource w.routes
      → let s = split_old src.global_id w.routes in
        let numbered = (number_new M now w.table.id_map new s.old).1 in
        routes_of src.global_id (place hook recalc w.table.sorted src s numbered).routes
        ≡ listed numbered
  put_own M now w new f one =
      let old = (split_old src.global_id w.routes).old in
      let numbered = (number_new M now w.table.id_map new old).1 in
      let g = number_new-From M now src w.table.id_map new old f in
      (placed-Extends w.table.sorted w.routes numbered one g).1

  own_cases :
      (M : IdMaps) (now : ℕ) (w : World M) (new : Option Rte)
      → From src new
      → OnePerSource w.routes
      → w.channel.rx_limit.action ≡ pla_none
      → w.channel.in_limit.action ≡ pla_none
      → let old = (split_old src.global_id w.routes).old in
        let result = routes_of src.global_id (rte_recalculate M now hook recalc w new src).routes in
        let wanted = listed (number_new M now w.table.id_map new old).1 in
        ((o : Rte) → old ≡ some o → result ≡ wanted) → result ≡ wanted
  own_cases M now w new f one rx imp known =
      let s = split_old src.global_id w.routes in
      elim (Option-cases s.old) [
        | inr (o, e) ↦ known o e
        | inl e ↦ elim (Option-cases new) [
          | inl d ↦
              subst
                (λ x.
                  routes_of src.global_id (rte_recalculate M now hook recalc w x src).routes
                  ≡ listed (number_new M now w.table.id_map x s.old).1)
                (sym d)
                (ap (routes_of src.global_id) (ignored M now w e)
                  ∙ absent w.routes one e
                  ∙ sym (ap listed (none_stays M now w.table.id_map s.old)))
          | inr (n, d) ↦
              let put = put_own M now w (some n) (subst (From src) d f) one in
              subst
                (λ x.
                  routes_of src.global_id (rte_recalculate M now hook recalc w x src).routes
                  ≡ listed (number_new M now w.table.id_map x s.old).1)
                (sym d)
                (ap (routes_of src.global_id)
                    (appears M now w n e ∙ receive_unlimited M now w s n rx imp)
                  ∙ put)
        ]
      ]

  -- Where no limit acts, the call makes the new route, with its number and time, the one route of
  -- its source, and a withdrawal leaves the source with none. An old route of the source came
  -- through the same protocol's channel and differs from the new one, no source had two routes
  -- before, the new route comes from the source, and the source's protocol has no
  -- rte_recalculate hook.
  pub rte_recalculate-own :
      (M : IdMaps) (now : ℕ) (w : World M) (new : Option Rte)
      → From src new
      → OnePerSource w.routes
      → w.channel.rx_limit.action ≡ pla_none
      → w.channel.in_limit.action ≡ pla_none
      → ((o : Rte)
          → (split_old src.global_id w.routes).old ≡ some o
          → (o.sender ≡ w.channel.proto) × ((n : Rte) → new ≡ some n → rte_same o n ≡ false))
      → routes_of src.global_id (rte_recalculate M now hook recalc w new src).routes
        ≡ listed (number_new M now w.table.id_map new (split_old src.global_id w.routes).old).1
  rte_recalculate-own M now w new f one rx imp h =
      let s = split_old src.global_id w.routes in
      let put = put_own M now w new f one in
      let known = λ (o : Rte) (e : s.old ≡ some o).
        ap (routes_of src.global_id)
          (replaces M now w new o e (h o e).0 (h o e).1 ∙ import_unlimited M now w s new imp)
        ∙ put in
      own_cases M now w new f one rx imp known
