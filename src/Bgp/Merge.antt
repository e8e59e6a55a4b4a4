-- ===== src/Bgp/Merge.antt =====
-- bgp_rte_mergable of proto/bgp/attrs.c beside bgp_rte_better.
use bird.Common.{
  ℕ, ◌≡◌, ◌==◌, refl, sym, ◌∙◌, Bool, true, false, ◌&&◌, ◌||◌, not, arith, if◌then◌else◌, ap₂,
}
use bird.Rt.{Rte}
use bird.Bgp.{BgpOf}
use bird.Bgp.Decision.{
  rte_stale, suppressed, rte_resolvable, local_pref, origin, med, igp, bgp_total_aigp_metric,
  path_length, better_peer, better_med, better_path, bgp_get_neighbor, bgp_rte_better,
  bgp_rte_mergable, one_if, less_first,
}

==_comm : (a b : ℕ) → (a == b) ≡ (b == a)
==_comm a b = ground arith

||_comm : (a b : Bool) → (a || b) ≡ (b || a)
||_comm a b = ground arith

both : (a b : Bool) → (a && b) ≡ true → (a ≡ true) × (b ≡ true)
both true true h = (refl, refl)
both true false h = ground arith
both false b h = ground arith

==_true : (a b : ℕ) → (a == b) ≡ true → a ≡ b
==_true a b h = ground arith

-- Equal numbers leave the choice to what follows.
tied : (n o : ℕ) (rest : Bool) → n ≡ o → less_first n o rest ≡ rest
tied n o rest e = ground arith

-- A number that is compared under a condition, and equal there.
tied_if :
    (c : Bool) (n o : ℕ) (rest : Bool)
    → (not c || n == o) ≡ true
    → (if c then less_first n o rest else rest) ≡ rest
tied_if true n o rest e = tied n o rest (==_true n o e)
tied_if false n o rest e = refl

module _ (bgp : BgpOf) (a b : Rte) where
  bgp_rte_mergable_comm : bgp_rte_mergable bgp a b ≡ bgp_rte_mergable bgp b a
  unfolding bgp_rte_mergable
  bgp_rte_mergable_comm =
      let p = (bgp a.src.proto).cf in
      let q = (bgp b.src.proto).cf in
      let compared = ||_comm p.compare_path_lengths q.compare_path_lengths in
      let same_path = ap₂ (λ c e. not c || e) compared (==_comm (path_length a) (path_length b)) in
      let neighbors = ==_comm (bgp_get_neighbor bgp a) (bgp_get_neighbor bgp b) in
      let meds = ap₂ (λ c e. c || e) (||_comm p.med_metric q.med_metric) neighbors in
      let same_med = ap₂ (λ c e. not c || e) meds (==_comm (med bgp a) (med bgp b)) in
      let and = λ (x y : Bool). x && y in
      ap₂ and (==_comm (suppressed a) (suppressed b)) (
        ap₂ and (==_comm (one_if (rte_resolvable a)) (one_if (rte_resolvable b))) (
          ap₂ and (==_comm (one_if (rte_stale a).0) (one_if (rte_stale b).0)) (
            ap₂ and (==_comm (local_pref bgp a) (local_pref bgp b)) (
              ap₂ and same_path (
                ap₂ and (==_comm (origin a) (origin b)) (
                  ap₂ and same_med (
                    ap₂ and (==_comm (bgp a.src.proto).is_interior (bgp b.src.proto).is_interior)
                      (==_comm (igp bgp a) (igp bgp b)))))))))

  better_med_tied :
      let c =
        ((bgp a.src.proto).cf.med_metric
          || (bgp b.src.proto).cf.med_metric
          || (bgp_get_neighbor bgp a == bgp_get_neighbor bgp b)) in
      (not c || (med bgp a == med bgp b)) ≡ true
      → (bgp a.src.proto).is_interior ≡ (bgp b.src.proto).is_interior
      → igp bgp a ≡ igp bgp b
      → better_med bgp a b ≡ better_peer bgp a b
  unfolding better_med
  better_med_tied h i g =
      let p = bgp a.src.proto in
      let q = bgp b.src.proto in
      let r = better_peer bgp a b in
      tied_if _ (med bgp a) (med bgp b)
        (less_first p.is_interior q.is_interior (less_first (igp bgp a) (igp bgp b) r)) h
      ∙ tied p.is_interior q.is_interior (less_first (igp bgp a) (igp bgp b) r) i
      ∙ tied (igp bgp a) (igp bgp b) r g

  better_path_tied :
      let c =
        ((bgp a.src.proto).cf.compare_path_lengths || (bgp b.src.proto).cf.compare_path_lengths) in
      (not c || (path_length a == path_length b)) ≡ true
      → origin a ≡ origin b
      → better_path bgp a b ≡ better_med bgp a b
  unfolding better_path
  better_path_tied h e =
      tied_if _ (path_length a) (path_length b)
        (less_first (origin a) (origin b) (better_med bgp a b)) h
      ∙ tied (origin a) (origin b) (better_med bgp a b) e

  mergable_tied :
      bgp_rte_mergable bgp a b ≡ true
      → bgp_total_aigp_metric a ≡ bgp_total_aigp_metric b
      → bgp_rte_better bgp a b ≡ better_peer bgp a b
  unfolding bgp_rte_mergable bgp_rte_better
  mergable_tied h e =
      let h1 = both _ _ h in
      let h2 = both _ _ h1.1 in
      let h3 = both _ _ h2.1 in
      let h4 = both _ _ h3.1 in
      let h5 = both _ _ h4.1 in
      let h6 = both _ _ h5.1 in
      let h7 = both _ _ h6.1 in
      let h8 = both _ _ h7.1 in
      let s1 = tied (suppressed a) (suppressed b) _ (==_true _ _ h1.0) in
      s1
      ∙ tied (one_if (rte_resolvable b)) (one_if (rte_resolvable a)) _ (sym (==_true _ _ h2.0))
      ∙ tied (one_if (rte_stale a).0) (one_if (rte_stale b).0) _ (==_true _ _ h3.0)
      ∙ tied (local_pref bgp b) (local_pref bgp a) _ (sym (==_true _ _ h4.0))
      ∙ tied (bgp_total_aigp_metric a) (bgp_total_aigp_metric b) _ e
      ∙ better_path_tied h5.0 (==_true _ _ h6.0)
      ∙ better_med_tied h7.0 (==_true _ _ h8.0) (==_true _ _ h8.1)

-- Routes that may be used together are equal for bgp_rte_better in every step down to the
-- metrics of the ways to their next hops, except for the accumulated IGP metric, which
-- bgp_rte_mergable leaves out: where that is equal as well, only the peers decide between them.
-- They may be used together in the other order, too.
pub bgp_rte_mergable_lem :
    (bgp : BgpOf) (a b : Rte)
    → bgp_rte_mergable bgp a b ≡ true
    → bgp_total_aigp_metric a ≡ bgp_total_aigp_metric b
    → (bgp_rte_better bgp a b ≡ better_peer bgp a b) × (bgp_rte_mergable bgp b a ≡ true)
bgp_rte_mergable_lem bgp a b m g =
    (mergable_tied bgp a b m g, sym (bgp_rte_mergable_comm bgp a b) ∙ m)
