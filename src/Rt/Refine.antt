-- ===== src/Rt/Refine.antt =====
-- rte_recalculate of nest/rt-table.c as the update of a map from sources to routes.
use bird.Common.{
  ℕ, ◌≤◌, ◌≡◌, ◌==◌, refl, sym, ◌∙◌, true, false, Bool-cases, inl, inr, arith, List, [], ◌∷◌, ◌++◌,
  length, Option, none, some, take-length, drop-length,
}
use mathlib.Core.Path.{subst}
use bird.Rt.{Rte, RteSrc}
use bird.Rt.Better.{BetterHook, rte_better}
use bird.Rt.Cases.{From}
use bird.Rt.Splits.{listed}
use bird.Rt.Sources.{
  routes_of, routes_of-append, routes_of-other, routes_of-own, routes_of-match, insert_sorted_other,
  insert_sorted_own, elect_routes,
}
use bird.Rt.Recalculate.Place.{
  scans_from, before_old, link_at, old_is_best, Split, Recalculated, split_old, insert_sorted,
  elect, arrange, place_sorted, old_best,
}

-- Every source has at most one route.
abbrev pub OnePerSource : List Rte → Type 0
OnePerSource rs = (id : ℕ) → length (routes_of id rs) ≤ 1

nil_none : (id : ℕ) → routes_of id [] ≡ []
unfolding routes_of
nil_none id = refl

short_nil : (r : Rte) (rs : List Rte) → length (r ∷ rs) ≤ 1 → rs ≡ []
short_nil r [] h = refl
short_nil r (q ∷ rs) h = absurd (omega arith)

nil_left : (xs ys : List Rte) → xs ++ ys ≡ [] → xs ≡ []
nil_left [] ys e = refl
nil_left (x ∷ xs) ys e = ground arith

nil_right : (xs ys : List Rte) → xs ++ ys ≡ [] → ys ≡ []
nil_right [] ys e = e
nil_right (x ∷ xs) ys e = ground arith

nil_around : (n : Rte) (xs ys : List Rte) → xs ++ ys ≡ [] → xs ++ n ∷ ys ≡ n ∷ []
nil_around n [] ys e = rw e refl
nil_around n (x ∷ xs) ys e = ground arith

pub split_old_found :
    (src : ℕ) (rs : List Rte) (o : Rte)
    → (split_old src rs).old ≡ some o
    → (o.src.global_id == src) ≡ true
unfolding split_old
split_old_found src [] o h = ground arith
split_old_found src (r ∷ rs) o h = ground (arith, split_old_found src rs o)

-- Without the old route the list has no route of its source, and the others as before.
pub rest_own :
    (src : ℕ) (rs : List Rte)
    → length (routes_of src rs) ≤ 1
    → let s = split_old src rs in routes_of src (s.before ++ s.after) ≡ []
unfolding split_old
rest_own src [] h = nil_none src
rest_own src (r ∷ rs) h = elim (Bool-cases (r.src.global_id == src)) [
  | inl e ↦
      rw e
        (short_nil r (routes_of src rs) (subst (λ t. length t ≤ 1) (routes_of-match src r rs e) h))
  | inr e ↦ rw e (
      routes_of-other src r _ e
      ∙ rest_own src rs (subst (λ t. length t ≤ 1) (routes_of-other src r rs e) h))
]

pub rest_other :
    (src : ℕ) (rs : List Rte) (id : ℕ)
    → (src == id) ≡ false
    → let s = split_old src rs in routes_of id (s.before ++ s.after) ≡ routes_of id rs
unfolding split_old
rest_other src [] id ne = refl
rest_other src (r ∷ rs) id ne = elim (Bool-cases (r.src.global_id == src)) [
  | inl e ↦ rw e (sym (routes_of-other id r rs (ground arith)))
  | inr e ↦
      let s = split_old src rs in
      rw
        (
          e,
          routes_of-append id (r ∷ []) (s.before ++ s.after),
          routes_of-append id (r ∷ []) rs,
          rest_other src rs id ne,
        )
        refl
]

-- The list `qs` holds the routes of `rs` of the other sources, and of the source the one given.
abbrev pub Extends : ℕ → List Rte → Option Rte → List Rte → Type 0
Extends src rs n qs =
    ((id : ℕ) → (src == id) ≡ false → routes_of id qs ≡ routes_of id rs)
    × (routes_of src qs ≡ listed n)

pub Extends-linked :
    (n : Rte) (xs ys : List Rte)
    → routes_of n.src.global_id (xs ++ ys) ≡ []
    → Extends n.src.global_id (xs ++ ys) (some n) (xs ++ n ∷ ys)
Extends-linked n xs ys e =
    let src = n.src.global_id in
    let q : routes_of src xs ++ routes_of src ys ≡ [] = sym (routes_of-append src xs ys) ∙ e in
    (
      λ id ne.
          rw
            (routes_of-append id xs (n ∷ ys), routes_of-append id xs ys, routes_of-other id n ys ne)
            refl,
      rw (routes_of-append src xs (n ∷ ys), routes_of-own n ys)
          (nil_around n (routes_of src xs) (routes_of src ys) q),
    )

Extends-inserted :
    (hook : BetterHook) (n : Rte) (xs ys : List Rte)
    → routes_of n.src.global_id (xs ++ ys) ≡ []
    → Extends n.src.global_id (xs ++ ys) (some n) (xs ++ insert_sorted hook n ys)
Extends-inserted hook n xs ys e =
    let src = n.src.global_id in
    let q : routes_of src xs ++ routes_of src ys ≡ [] = sym (routes_of-append src xs ys) ∙ e in
    let l : routes_of src xs ≡ [] = nil_left (routes_of src xs) (routes_of src ys) q in
    let r : routes_of src ys ≡ [] = nil_right (routes_of src xs) (routes_of src ys) q in
    (
      λ id ne.
          rw
            (
              routes_of-append id xs (insert_sorted hook n ys),
              routes_of-append id xs ys,
              insert_sorted_other hook id n ys ne,
            )
            refl,
      rw (routes_of-append src xs (insert_sorted hook n ys), l) (insert_sorted_own hook n ys r),
    )

Extends-elect :
    (hook : BetterHook) (src : ℕ) (rs : List Rte) (n : Option Rte) (qs : List Rte)
    → OnePerSource qs
    → Extends src rs n qs
    → Extends src rs n (elect hook qs)
Extends-elect hook src rs n qs one x = (
  λ id ne. elect_routes hook id qs (one id) ∙ x.0 id ne,
  elect_routes hook src qs (one src) ∙ x.1,
)

pub listed_one : (n : Option Rte) → length (listed n) ≤ 1
listed_one none = omega arith
listed_one (some n) = omega arith

pub Extends-one :
    (src : ℕ) (rs : List Rte) (n : Option Rte) (qs : List Rte)
    → OnePerSource rs
    → Extends src rs n qs
    → OnePerSource qs
Extends-one src rs n qs one x id = elim (Bool-cases (src == id)) [
  | inl e ↦
      let d : src ≡ id = ground arith in
      subst (λ t. length (routes_of t qs) ≤ 1) d (rw (x.1) (listed_one n))
  | inr e ↦ rw (x.0 id e) (one id)
]

module _ (hook : BetterHook) (before after : List Rte) (old : Option Rte)
    (one : OnePerSource (before ++ after)) where
  pub Extends-sorted :
      (src : RteSrc) (n : Option Rte)
      → From src n
      → routes_of src.global_id (before ++ after) ≡ []
      → Extends src.global_id
          (before ++ after)
          n
          (place_sorted hook (record { before = before; old = old; after = after }) n)
  unfolding place_sorted
  Extends-sorted src none f e = (λ id ne. refl, e)
  Extends-sorted src (some n) f e =
      let s : Split = record { before = before; old = old; after = after } in
      let q = subst (λ t. routes_of t.global_id (before ++ after) ≡ []) (sym f) e in
      subst
        (λ (t : RteSrc).
          Extends t.global_id (before ++ after) (some n) (place_sorted hook s (some n)))
        f
        (elim (Bool-cases (scans_from hook n (before_old s))) [
          | inl c ↦ rw (place_sorted, c) (Extends-inserted hook n before after q)
          | inr c ↦ rw (place_sorted, c) (Extends-inserted hook n [] (before ++ after) q)
        ])

  Extends-at :
      (src : RteSrc) (n : Option Rte)
      → From src n
      → routes_of src.global_id (before ++ after) ≡ []
      → Extends src.global_id (before ++ after) n (link_at (length before) n (before ++ after))
  Extends-at src none f e = (λ id ne. refl, e)
  Extends-at src (some n) f e =
      let q = subst (λ t. routes_of t.global_id (before ++ after) ≡ []) (sym f) e in
      rw (take-length before after, drop-length before after)
        (subst
          (λ (t : RteSrc). Extends t.global_id (before ++ after) (some n) (before ++ n ∷ after)) f
          (Extends-linked n before after q))

  Extends-elected :
      (src : RteSrc) (n : Option Rte)
      → From src n
      → routes_of src.global_id (before ++ after) ≡ []
      → Extends src.global_id
          (before ++ after)
          n
          (elect hook (link_at (length before) n (before ++ after)))
  Extends-elected src n f e =
      let x = Extends-at src n f e in
      Extends-elect hook src.global_id (before ++ after) n
        (link_at (length before) n (before ++ after))
        (Extends-one src.global_id (before ++ after) n (link_at (length before) n (before ++ after))
          one x)
        x

  pub Extends-arranged :
      (src : RteSrc) (n : Option Rte)
      → From src n
      → routes_of src.global_id (before ++ after) ≡ []
      → let s : Split = record { before = before; old = old; after = after } in
        let h : Recalculated = record {
          forced = false;
          routes = before ++ after;
          new = n;
          old = old;
        } in
        Extends src.global_id (before ++ after) n (arrange hook s h (old_best s))
  unfolding arrange
  Extends-arranged src none f e =
      let s : Split = record { before = before; old = old; after = after } in
      elim (Bool-cases (old_is_best s)) [
        | inl c ↦ rw (arrange, c) (Extends-elected src none f e)
        | inr c ↦ rw (arrange, c) (λ id ne. refl, e)
      ]
  Extends-arranged src (some n) f e =
      let s : Split = record { before = before; old = old; after = after } in
      let q = subst (λ t. routes_of t.global_id (before ++ after) ≡ []) (sym f) e in
      elim (Bool-cases (rte_better hook n (old_best s))) [
        | inl b ↦
            rw (arrange, b)
              (subst
                (λ (t : RteSrc).
                  Extends t.global_id (before ++ after) (some n) (n ∷ before ++ after))
                f (Extends-linked n [] (before ++ after) q))
        | inr b ↦ elim (Bool-cases (old_is_best s)) [
          | inl c ↦ rw (arrange, b, c) (Extends-elected src (some n) f e)
          | inr c ↦ rw (arrange, b, c) (Extends-at src (some n) f e)
        ]
      ]
