-- ===== src/Bgp/Order.antt =====
-- bgp_rte_better of proto/bgp/attrs.c as an order of routes.
use bird.Common.{ℕ, ◌≡◌, refl, Bool, true, false, Bool-cases, inl, inr, arith, ◌&&◌, not}
use bird.Common.{ltb}
use bird.Rt.{Rte, Proto}
use bird.Bgp.{BgpOf}
use bird.Bgp.Decision.{
  less_first, more_first, suppressed, rte_resolvable, rte_stale, local_pref, bgp_total_aigp_metric,
  path_length, origin, med, igp, router_id, cluster_length, better_peer, better_med, better_path,
  bgp_rte_better, one_if,
}

-- A strict weak order of routes.
record IsStrictWeak (R : Rte → Rte → Bool) : Type 0 where
  asym : (a b : Rte) → R a b ≡ true → R b a ≡ false
  negtrans : (a b c : Rte) → R a b ≡ false → R b c ≡ false → R a c ≡ false

abbrev lexed : (Rte → ℕ) → (Rte → Rte → Bool) → Rte → Rte → Bool
lexed f R a b = less_first (f a) (f b) (R a b)

-- A number compared first and an order after it make an order.
IsStrictWeak-lexed :
    (f : Rte → ℕ) (R : Rte → Rte → Bool) → IsStrictWeak R → IsStrictWeak (lexed f R)
IsStrictWeak-lexed f R k = record {
  asym = λ a b h. ground (arith, k.asym a b);
  negtrans = λ a b c h g. ground (arith, k.negtrans a b c);
}

-- The same with the larger number first.
abbrev lexed_down : (Rte → ℕ) → (Rte → Rte → Bool) → Rte → Rte → Bool
lexed_down f R a b = more_first (f a) (f b) (R a b)

IsStrictWeak-lexed_down :
    (f : Rte → ℕ) (R : Rte → Rte → Bool) → IsStrictWeak R → IsStrictWeak (lexed_down f R)
IsStrictWeak-lexed_down f R k = record {
  asym = λ a b h. ground (arith, k.asym a b);
  negtrans = λ a b c h g. ground (arith, k.negtrans a b c);
}

IsStrictWeak-ltb : (f : Rte → ℕ) → IsStrictWeak (λ a b. ltb (f a) (f b))
IsStrictWeak-ltb f = record { asym = λ a b h. ground arith; negtrans = λ a b c h g. ground arith }

-- The settings that the comparison reads are the same in all protocols: paths are compared or
-- not, the MED always is, and older routes are not preferred.
pub record IsUniform (bgp : BgpOf) (compares : Bool) : Type 0 where
  pub paths : (p : Proto) → (bgp p).cf.compare_path_lengths ≡ compares
  pub meds : (p : Proto) → (bgp p).cf.med_metric ≡ true
  pub ages : (p : Proto) → (bgp p).cf.prefer_older ≡ false

module _ (bgp : BgpOf) where
  -- The comparison as one of numbers in turn.
  abbrev pub by_peer : Rte → Rte → Bool
  by_peer =
      lexed (router_id bgp)
        (lexed cluster_length (λ a b. ltb (bgp a.src.proto).remote_ip (bgp b.src.proto).remote_ip))

  abbrev pub by_med : Rte → Rte → Bool
  by_med = lexed (med bgp) (lexed (λ a. (bgp a.src.proto).is_interior) (lexed (igp bgp) by_peer))

  abbrev pub by_path : Bool → Rte → Rte → Bool
  by_path true = lexed path_length (lexed origin by_med)
  by_path false = lexed origin by_med

  abbrev pub by_all : Bool → Rte → Rte → Bool
  by_all compares = lexed suppressed (
      lexed_down (λ a. one_if (rte_resolvable a))
        (lexed (λ a. one_if (rte_stale a).0)
          (lexed_down (local_pref bgp) (lexed bgp_total_aigp_metric (by_path compares)))))

  by_med-IsStrictWeak : IsStrictWeak by_med
  by_med-IsStrictWeak = IsStrictWeak-lexed (med bgp) _ (
      IsStrictWeak-lexed (λ a. (bgp a.src.proto).is_interior) _
        (IsStrictWeak-lexed (igp bgp) _ (
          IsStrictWeak-lexed (router_id bgp) _ (
            IsStrictWeak-lexed cluster_length _
              (IsStrictWeak-ltb (λ a. (bgp a.src.proto).remote_ip))))))

  by_path-IsStrictWeak : (compares : Bool) → IsStrictWeak (by_path compares)
  by_path-IsStrictWeak true =
      IsStrictWeak-lexed path_length _ (IsStrictWeak-lexed origin _ by_med-IsStrictWeak)
  by_path-IsStrictWeak false = IsStrictWeak-lexed origin _ by_med-IsStrictWeak

  by_all-IsStrictWeak : (compares : Bool) → IsStrictWeak (by_all compares)
  by_all-IsStrictWeak compares = IsStrictWeak-lexed suppressed _ (
      IsStrictWeak-lexed_down (λ a. one_if (rte_resolvable a)) _
        (IsStrictWeak-lexed (λ a. one_if (rte_stale a).0) _
          (IsStrictWeak-lexed_down (local_pref bgp) _
            (IsStrictWeak-lexed bgp_total_aigp_metric _ (by_path-IsStrictWeak compares)))))

  module _ (compares : Bool) (u : IsUniform bgp compares) where
    better_peer_lem : (a b : Rte) → better_peer bgp a b ≡ by_peer a b
    unfolding better_peer
    better_peer_lem a b = rw (better_peer, u.ages a.src.proto, u.ages b.src.proto) refl

    better_med_lem : (a b : Rte) → better_med bgp a b ≡ by_med a b
    unfolding better_med
    better_med_lem a b = rw (better_med, u.meds a.src.proto, better_peer_lem a b) refl

    better_path_lem : (a b : Rte) → better_path bgp a b ≡ by_path compares a b
    unfolding better_path
    better_path_lem a b = elim (Bool-cases compares) [
      | inl e ↦
          rw (better_path, u.paths a.src.proto, u.paths b.src.proto, better_med_lem a b, e) refl
      | inr e ↦
          rw (better_path, u.paths a.src.proto, u.paths b.src.proto, better_med_lem a b, e) refl
    ]

    better_all_lem : (a b : Rte) → bgp_rte_better bgp a b ≡ by_all compares a b
    unfolding bgp_rte_better
    better_all_lem a b = rw (bgp_rte_better, better_path_lem a b) refl

    -- Where all protocols compare the MED always and none prefers older routes, and all compare
    -- the lengths of paths or none does, bgp_rte_better compares the numbers of the decision
    -- process one after the other, the first difference decides, and the result is a strict weak
    -- order: never both ways, and transitive where it does not hold.
    pub bgp_rte_better_lem :
        (a b c : Rte)
        → (bgp_rte_better bgp a b ≡ by_all compares a b)
          × ((bgp_rte_better bgp a b && bgp_rte_better bgp b a) ≡ false)
          × ((bgp_rte_better bgp a c
                && (not (bgp_rte_better bgp a b) && not (bgp_rte_better bgp b c)))
              ≡ false)
    bgp_rte_better_lem a b c =
        let k = by_all-IsStrictWeak compares in
        let asym : (by_all compares a b && by_all compares b a) ≡ false =
          elim (Bool-cases (by_all compares a b)) [
            | inl x ↦ rw (x, k.asym a b x) refl
            | inr x ↦ rw x refl
          ] in
        let trans : (by_all compares a c
              && (not (by_all compares a b) && not (by_all compares b c)))
            ≡ false =
          ground (arith, k.negtrans a b c) in
        (
          better_all_lem a b,
          rw (better_all_lem a b, better_all_lem b a) asym,
          rw (better_all_lem a c, better_all_lem a b, better_all_lem b c) trans,
        )
