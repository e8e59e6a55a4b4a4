-- ===== src/Rt/Sorted.antt =====
-- Tables whose lists of routes are sorted, in rte_recalculate of nest/rt-table.c: the order is
-- kept, and the scan that starts behind the old route finds the place that a full one finds.
use bird.Common.{
  ℕ, ◌≡◌, refl, ap, sym, ◌∙◌, Bool, true, false, Bool-cases, Option-cases, inl, inr, arith, List,
  [], ◌∷◌, ◌++◌, Option, none, some, All, if◌then◌else◌, All-around, All-map, All-right, All-append,
  All-left,
}
use mathlib.Core.Path.{subst}
use mathlib.Core.Option.{some-injective}
use bird.Rt.{Rte, RteSrc}
use bird.Rt.Better.{BetterHook, rte_better}
use bird.Rt.Order.{IsOrder, NotBetter, IsBest, beaten, IsBest-replace, valid_better-negtrans}
use bird.Rt.Best.{
  IgnoresRefresh, NotBetter-refreshed_left, NotBetter-refreshed_right, place_in_sorted,
}
use bird.Rt.Cases.{From, rte_recalculate-cases}
use bird.Rt.Splits.{listed, joined, split_old-joined}
use bird.Rt.Recalculate.{IdMaps, World, refreshed, rte_recalculate}
use bird.Rt.Recalculate.Place.{
  RecalculateHook, Split, split_old, insert_sorted, place_sorted, before_old, scans_from, last,
}

-- No valid route is better than one that stands before it.
abbrev pub IsSorted : BetterHook → List Rte → Type 0
IsSorted hook [] = Unit
IsSorted hook (r ∷ rs) = IsBest hook r rs × IsSorted hook rs

All-last :
    (P : Rte → Type 0) (xs ys : List Rte) (b : Rte) → All P (xs ++ ys) → last xs ≡ some b → P b
All-last P [] ys b a l = ground arith
All-last P (x ∷ []) ys b a l = subst P (some-injective x b l) a.0
All-last P (x ∷ y ∷ xs) ys b a l = All-last P (y ∷ xs) ys b a.1 l

if_false : (b : Bool) (x y : List Rte) → b ≡ false → (if b then x else y) ≡ y
if_false true x y e = ground arith
if_false false x y e = refl

-- Where the scan starts behind a route, that is the last one before the old one.
scans_behind :
    (hook : BetterHook) (n : Rte) (before : List Rte) (old : Option Rte)
    → scans_from hook n (elim old [ none ↦ none | some o ↦ last before ]) ≡ true
    → (b : Rte) × (last before ≡ some b) × (rte_better hook n (some b) ≡ false)
scans_behind hook n before none e = ground arith
scans_behind hook n before (some o) e = elim (Option-cases (last before)) [
  | inl d ↦
      let q : scans_from hook n none ≡ true = subst (λ t. scans_from hook n t ≡ true) d e in
      absurd (ground arith)
  | inr (b, d) ↦
      let q : scans_from hook n (some b) ≡ true = subst (λ t. scans_from hook n t ≡ true) d e in
      (b, d, ground arith)
]

module _ (hook : BetterHook) (laws : IsOrder hook) where
  -- A route that does not beat a later one does not beat an earlier one either.
  NotBetter-before :
      (n b x : Rte)
      → rte_better hook n (some b) ≡ false
      → NotBetter hook x b
      → rte_better hook n (some x) ≡ false
  unfolding rte_better
  NotBetter-before n b x e k = ground (arith, k, valid_better-negtrans hook laws n b x)

  IsBest-insert :
      (r n : Rte) (rs : List Rte)
      → NotBetter hook r n
      → IsBest hook r rs
      → IsBest hook r (insert_sorted hook n rs)
  unfolding insert_sorted
  IsBest-insert r n [] k b = (k, tt)
  IsBest-insert r n (q ∷ rs) k b = elim (Bool-cases (rte_better hook n (some q))) [
    | inl e ↦ rw (insert_sorted, e) (k, b)
    | inr e ↦ rw (insert_sorted, e) (b.0, IsBest-insert r n rs k b.1)
  ]

  insert_sorted-IsSorted :
      (n : Rte) (rs : List Rte) → IsSorted hook rs → IsSorted hook (insert_sorted hook n rs)
  unfolding insert_sorted
  insert_sorted-IsSorted n [] s = (tt, tt)
  insert_sorted-IsSorted n (r ∷ rs) s = elim (Bool-cases (rte_better hook n (some r))) [
    | inl e ↦
        rw (insert_sorted, e) ((beaten hook laws n r e, IsBest-replace hook laws n r rs e s.0), s)
    | inr e ↦
        rw (insert_sorted, e) (IsBest-insert r n rs (λ v. e) s.0, insert_sorted-IsSorted n rs s.1)
  ]

  -- A full scan passes what stands before a route that the new one does not beat.
  insert-passes :
      (n b : Rte) (xs ys : List Rte)
      → IsSorted hook (xs ++ ys)
      → last xs ≡ some b
      → rte_better hook n (some b) ≡ false
      → insert_sorted hook n (xs ++ ys) ≡ xs ++ insert_sorted hook n ys
  unfolding insert_sorted
  insert-passes n b [] ys s l e = ground arith
  insert-passes n b (x ∷ []) ys s l e =
      let step = subst (λ t. rte_better hook n t ≡ false) (sym l) e in rw (insert_sorted, step) refl
  insert-passes n b (x ∷ y ∷ xs) ys s l e =
      let last_best = All-last (NotBetter hook x) (y ∷ xs) ys b s.0 l in
      let step = NotBetter-before n b x e last_best in
      let rest : insert_sorted hook n (y ∷ xs ++ ys) ≡ y ∷ xs ++ insert_sorted hook n ys =
        insert-passes n b (y ∷ xs) ys s.1 l e in
      if_false (rte_better hook n (some x)) _ _ step ∙ ap (λ t. x ∷ t) rest

  IsSorted-around :
      (xs ys zs : List Rte) → IsSorted hook (xs ++ (ys ++ zs)) → IsSorted hook (xs ++ zs)
  IsSorted-around [] [] zs s = s
  IsSorted-around [] (y ∷ ys) zs s = IsSorted-around [] ys zs s.1
  IsSorted-around (x ∷ xs) ys zs s =
      (All-around (NotBetter hook x) xs ys zs s.0, IsSorted-around xs ys zs s.1)

  -- In a sorted list the scan from the old route on puts the new route where a scan of the whole
  -- list would.
  pub place_sorted-full_scan :
      (src : ℕ) (rs : List Rte) (n : Rte)
      → IsSorted hook rs
      → let s = split_old src rs in
        place_sorted hook s (some n) ≡ insert_sorted hook n (s.before ++ s.after)
  unfolding place_sorted
  place_sorted-full_scan src rs n s =
      let p = split_old src rs in
      let j : IsSorted hook (p.before ++ (listed p.old ++ p.after)) =
        rw (split_old-joined src rs) s in
      let q = IsSorted-around p.before (listed p.old) p.after j in
      elim (Bool-cases (scans_from hook n (before_old p))) [
        | inr e ↦ rw (place_sorted, e) refl
        | inl e ↦
            let k = scans_behind hook n p.before p.old e in
            rw (place_sorted, e) (sym (insert-passes n k.0 p.before p.after q k.1 k.2))
      ]

  place_sorted-none : (s : Split) → place_sorted hook s none ≡ s.before ++ s.after
  unfolding place_sorted
  place_sorted-none s = refl

  insert-place :
      (src : ℕ) (rs : List Rte) (n : Option Rte)
      → IsSorted hook rs
      → IsSorted hook (place_sorted hook (split_old src rs) n)
  insert-place src rs none s =
      let p = split_old src rs in
      let j : IsSorted hook (p.before ++ (listed p.old ++ p.after)) =
        rw (split_old-joined src rs) s in
      rw (place_sorted-none p) (IsSorted-around p.before (listed p.old) p.after j)
  insert-place src rs (some n) s =
      let p = split_old src rs in
      let j : IsSorted hook (p.before ++ (listed p.old ++ p.after)) =
        rw (split_old-joined src rs) s in
      rw (place_sorted-full_scan src rs n s) (
        insert_sorted-IsSorted n (p.before ++ p.after)
          (IsSorted-around p.before (listed p.old) p.after j))

IsSorted-refreshed :
    (hook : BetterHook)
    → IgnoresRefresh hook
    → (before after : List Rte) (o : Rte) → IsSorted hook (before ++ o ∷ after)
    → IsSorted hook (before ++ refreshed o ∷ after)
IsSorted-refreshed hook ig [] after o s = (
  All-map (NotBetter hook o) (NotBetter hook (refreshed o)) after
      (NotBetter-refreshed_left hook ig o) s.0,
  s.1,
)
IsSorted-refreshed hook ig (b ∷ bs) after o s =
    let Q = NotBetter hook b in
    let q = All-right Q bs (o ∷ after) s.0 in
    (
      All-append Q bs (refreshed o ∷ after) (All-left Q bs (o ∷ after) s.0)
          (NotBetter-refreshed_right hook ig b o q.0, q.1),
      IsSorted-refreshed hook ig bs after o s.1,
    )

-- In a sorted table a network's routes stay sorted through every call of rte_recalculate, of
-- whatever outcome: no valid route is better than one that stands before it. The protocols'
-- comparisons are strict weak orders that ignore the marks of a refresh, and the new route comes
-- from the source.
pub rte_recalculate-IsSorted :
    (M : IdMaps) (now : ℕ) (hook : BetterHook) (recalc : RecalculateHook) (src : RteSrc)
    (w : World M) (new : Option Rte)
    → IsOrder hook
    → IgnoresRefresh hook
    → w.table.sorted ≡ true
    → From src new
    → IsSorted hook w.routes
    → IsSorted hook (rte_recalculate M now hook recalc w new src).routes
rte_recalculate-IsSorted M now hook recalc src w new laws ig u f p =
    let s = split_old src.global_id w.routes in
    let q : IsSorted hook (joined s) = rw (split_old-joined src.global_id w.routes) p in
    rte_recalculate-cases M now hook recalc src (IsSorted hook) w new f
      (λ n g.
        rw (u, place_in_sorted hook recalc src s n)
          (insert-place hook laws src.global_id w.routes n p))
      p
      (λ o e.
        IsSorted-refreshed hook ig s.before s.after o
          (subst (λ x. IsSorted hook (s.before ++ (listed x ++ s.after))) e q))
