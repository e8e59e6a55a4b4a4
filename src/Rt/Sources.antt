-- ===== src/Rt/Sources.antt =====
-- The list of a network's routes in nest/rt-table.c seen as a map from sources to routes, which
-- forgets the order of the list.
use bird.Common.{
  ℕ, ◌≤◌, ◌≡◌, ◌==◌, refl, ap, ◌∙◌, true, false, Bool-cases, inl, inr, ==_self, arith, List, [],
  ◌∷◌, ◌++◌, length, length-append, some, if◌then◌else◌,
}
use mathlib.Core.Path.{subst}
use mathlib.Core.List.{append-nil, append_assoc}
use bird.Rt.{Rte}
use bird.Rt.Better.{BetterHook, rte_better}
use bird.Rt.Recalculate.Place.{insert_sorted, elect_from, elect}

unfoldable pub routes_of : ℕ → List Rte → List Rte
routes_of id [] = []
routes_of id (r ∷ rs) =
    let rest = routes_of id rs in if r.src.global_id == id then r ∷ rest else rest

pub routes_of-append :
    (id : ℕ) (rs qs : List Rte) → routes_of id (rs ++ qs) ≡ routes_of id rs ++ routes_of id qs
unfolding routes_of
routes_of-append id [] qs = refl
routes_of-append id (r ∷ rs) qs = elim (Bool-cases (r.src.global_id == id)) [
  | inl e ↦ rw (e, routes_of-append id rs qs) refl
  | inr e ↦ rw (e, routes_of-append id rs qs) refl
]

pub routes_of-own :
    (r : Rte) (rs : List Rte)
    → routes_of r.src.global_id (r ∷ rs) ≡ r ∷ routes_of r.src.global_id rs
unfolding routes_of
routes_of-own r rs = rw (==_self r.src.global_id) refl

pub routes_of-other :
    (id : ℕ) (r : Rte) (rs : List Rte)
    → (r.src.global_id == id) ≡ false
    → routes_of id (r ∷ rs) ≡ routes_of id rs
unfolding routes_of
routes_of-other id r rs e = rw e refl

pub routes_of-match :
    (id : ℕ) (r : Rte) (rs : List Rte)
    → (r.src.global_id == id) ≡ true
    → routes_of id (r ∷ rs) ≡ r ∷ routes_of id rs
unfolding routes_of
routes_of-match id r rs e = rw e refl

-- The order of two parts does not count where they hold at most one route.
front_of_one :
    (b : Rte) (ps ss : List Rte) → length (ps ++ b ∷ ss) ≤ 1 → b ∷ ps ++ ss ≡ ps ++ b ∷ ss
front_of_one b [] ss h = refl
front_of_one b (p ∷ ps) ss h = absurd (omega (arith, length-append ps (b ∷ ss)))

front_first :
    (id : ℕ) (b : Rte) (ps ss : List Rte)
    → length (routes_of id (ps ++ b ∷ ss)) ≤ 1
    → routes_of id (b ∷ ps ++ ss) ≡ routes_of id (ps ++ b ∷ ss)
front_first id b ps ss h = elim (Bool-cases (b.src.global_id == id)) [
  | inl e ↦
      let q : routes_of id (ps ++ b ∷ ss) ≡ routes_of id ps ++ b ∷ routes_of id ss =
        routes_of-append id ps (b ∷ ss)
        ∙ ap (λ t. routes_of id ps ++ t) (routes_of-match id b ss e) in
      rw (q, routes_of-match id b (ps ++ ss) e, routes_of-append id ps ss)
        (front_of_one b (routes_of id ps) (routes_of id ss) (subst (λ t. length t ≤ 1) q h))
  | inr e ↦
      rw
        (
          routes_of-other id b (ps ++ ss) e,
          routes_of-append id ps ss,
          routes_of-append id ps (b ∷ ss),
          routes_of-other id b ss e,
        )
        refl
]

module _ (hook : BetterHook) where
  pub insert_sorted_other :
      (id : ℕ) (n : Rte) (rs : List Rte)
      → (n.src.global_id == id) ≡ false
      → routes_of id (insert_sorted hook n rs) ≡ routes_of id rs
  unfolding insert_sorted
  insert_sorted_other id n [] e = routes_of-other id n [] e
  insert_sorted_other id n (r ∷ rs) e = elim (Bool-cases (rte_better hook n (some r))) [
    | inl b ↦ rw b (routes_of-other id n (r ∷ rs) e)
    | inr b ↦ rw b (
        rw
          (
            routes_of-append id (r ∷ []) (insert_sorted hook n rs),
            routes_of-append id (r ∷ []) rs,
            insert_sorted_other id n rs e,
          )
          refl)
  ]

  pub insert_sorted_own :
      (n : Rte) (rs : List Rte)
      → routes_of n.src.global_id rs ≡ []
      → routes_of n.src.global_id (insert_sorted hook n rs) ≡ n ∷ []
  unfolding insert_sorted
  insert_sorted_own n [] e = routes_of-own n [] ∙ ap (λ t. n ∷ t) e
  insert_sorted_own n (r ∷ rs) e = elim (Bool-cases (rte_better hook n (some r))) [
    | inl b ↦ rw (b, routes_of-own n (r ∷ rs), e) refl
    | inr b ↦ elim (Bool-cases (r.src.global_id == n.src.global_id)) [
      | inl d ↦ ground (arith, routes_of-match n.src.global_id r rs d)
      | inr d ↦
          rw (b, routes_of-other n.src.global_id r (insert_sorted hook n rs) d)
            (insert_sorted_own n rs (rw (← routes_of-other n.src.global_id r rs d) e))
    ]
  ]

  elect_from_routes :
      (id : ℕ) (passed : List Rte) (best : Rte) (since rest : List Rte)
      → length (routes_of id (passed ++ best ∷ (since ++ rest))) ≤ 1
      → routes_of id (elect_from hook passed best since rest)
        ≡ routes_of id (passed ++ best ∷ (since ++ rest))
  unfolding elect_from
  elect_from_routes id passed best since [] h = rw (append-nil since) (
      front_first id best passed since
        (subst (λ t. length (routes_of id (passed ++ best ∷ t)) ≤ 1) (append-nil since) h))
  elect_from_routes id passed best since (r ∷ rs) h =
      let a : (passed ++ best ∷ since) ++ r ∷ rs ≡ passed ++ best ∷ (since ++ r ∷ rs) =
        append_assoc passed (best ∷ since) (r ∷ rs) in
      let b : (since ++ r ∷ []) ++ rs ≡ since ++ r ∷ rs = append_assoc since (r ∷ []) rs in
      elim (Bool-cases (rte_better hook r (some best))) [
        | inl e ↦
            rw e
              (elect_from_routes id (passed ++ best ∷ since) r [] rs (rw a h) ∙ ap (routes_of id) a)
        | inr e ↦ rw e (
            elect_from_routes id passed best (since ++ r ∷ []) rs (rw b h)
            ∙ ap (λ t. routes_of id (passed ++ best ∷ t)) b)
      ]

  pub elect_routes :
      (id : ℕ) (rs : List Rte)
      → length (routes_of id rs) ≤ 1
      → routes_of id (elect hook rs) ≡ routes_of id rs
  unfolding elect
  elect_routes id [] h = refl
  elect_routes id (r ∷ rs) h = elect_from_routes id [] r [] rs h
