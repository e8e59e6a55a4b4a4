-- ===== src/Rt/Best.antt =====
-- The head of an unsorted list of routes is the best one, before and after rte_recalculate of
-- nest/rt-table.c.
use bird.Common.{
  ◌≡◌, true, false, inl, inr, Bool-cases, arith, refl, List, [], ◌∷◌, ◌++◌, All-append, All-map,
  All-left, All-right, Option, none, some, All-around, take-length, drop-length, ℕ,
}
use bird.Rt.{Rte, RteSrc}
use bird.Rt.Better.{BetterHook, rte_better, tie_break, valid_better}
use mathlib.Core.Path.{subst}
use bird.Rt.Splits.{listed, joined, split_old-joined, split_old-after}
use bird.Rt.Order.{better_null, IsOrder, NotBetter, IsBest, HasBestFirst, beaten, IsBest-replace}
use bird.Rt.Recalculate.Place.{
  Split, Recalculated, old_best, elect_from, elect, arrange, RecalculateHook, place,
  recalculate_hook, split_old, place_sorted,
}
use bird.Rt.Recalculate.{IdMaps, World, refreshed, rte_recalculate}
use bird.Rt.Cases.{From, rte_recalculate-cases}

module _ (hook : BetterHook) (laws : IsOrder hook) where
  elect_from-HasBestFirst :
      (passed : List Rte) (best : Rte) (since rest : List Rte)
      → IsBest hook best passed
      → IsBest hook best since
      → HasBestFirst hook (elect_from hook passed best since rest)
  unfolding elect_from
  elect_from-HasBestFirst passed best since [] p s =
      All-append (NotBetter hook best) passed since p s
  elect_from-HasBestFirst passed best since (r ∷ rs) p s =
      let moves = λ (e : rte_better hook r (some best) ≡ true).
        elect_from-HasBestFirst (passed ++ best ∷ since) r [] rs
          (All-append (NotBetter hook r) passed (best ∷ since)
            (IsBest-replace hook laws r best passed e p)
            (beaten hook laws r best e, IsBest-replace hook laws r best since e s))
          tt in
      let stays = λ (e : rte_better hook r (some best) ≡ false).
        elect_from-HasBestFirst passed best (since ++ r ∷ []) rs p
          (All-append (NotBetter hook best) since (r ∷ []) s ((λ v. e), tt)) in
      elim (Bool-cases (rte_better hook r (some best))) [
        | inl e ↦ rw e (moves e)
        | inr e ↦ rw e (stays e)
      ]

  pub elect-HasBestFirst : (rs : List Rte) → HasBestFirst hook (elect hook rs)
  unfolding elect
  elect-HasBestFirst [] = tt
  elect-HasBestFirst (r ∷ rs) = elect_from-HasBestFirst [] r [] rs tt tt

  -- A route is not better than itself.
  pub NotBetter-self : (r : Rte) → NotBetter hook r r
  NotBetter-self r v = elim (Bool-cases (rte_better hook r (some r))) [
    | inl e ↦ beaten hook laws r r e v
    | inr e ↦ e
  ]

  -- An unsorted list keeps its best route first, whatever the place of the old route.
  arrange-HasBestFirst :
      (before after : List Rte) (old new : Option Rte)
      → HasBestFirst hook (before ++ (listed old ++ after))
      → (old ≡ none → after ≡ [])
      → let s : Split = record { before = before; old = old; after = after } in
        let h : Recalculated = record {
          forced = false;
          routes = before ++ after;
          new = new;
          old = old;
        } in
        HasBestFirst hook (arrange hook s h (old_best s))
  unfolding arrange
  arrange-HasBestFirst [] after old none p e = elect-HasBestFirst after
  arrange-HasBestFirst (b ∷ bs) after old none p e =
      All-around (NotBetter hook b) bs (listed old) after p
  arrange-HasBestFirst [] after none (some n) p e = rw (better_null hook n, e refl) tt
  arrange-HasBestFirst [] after (some o) (some n) p e =
      elim (Bool-cases (rte_better hook n (some o))) [
        | inl c ↦ rw c (IsBest-replace hook laws n o after c p)
        | inr c ↦ rw c (elect-HasBestFirst (n ∷ after))
      ]
  arrange-HasBestFirst (b ∷ bs) after old (some n) p e =
      let q : IsBest hook b (bs ++ after) = All-around (NotBetter hook b) bs (listed old) after p in
      elim (Bool-cases (rte_better hook n (some b))) [
        | inl c ↦ rw c (IsBest-replace hook laws n b (b ∷ bs ++ after) c (NotBetter-self b, q))
        | inr c ↦
            rw (c, take-length bs after, drop-length bs after)
              (All-append (NotBetter hook b) bs (n ∷ after) (All-left (NotBetter hook b) bs after q)
                ((λ v. c), All-right (NotBetter hook b) bs after q))
      ]

-- The protocols' comparisons do not read the marks that a refresh clears.
pub record IgnoresRefresh (hook : BetterHook) : Type 0 where
  pub left : (a b : Rte) → tie_break hook (refreshed a) b ≡ tie_break hook a b
  pub right : (a b : Rte) → tie_break hook a (refreshed b) ≡ tie_break hook a b

module _ (hook : BetterHook) (ig : IgnoresRefresh hook) where
  pub NotBetter-refreshed_left : (h r : Rte) → NotBetter hook h r → NotBetter hook (refreshed h) r
  unfolding rte_better valid_better
  NotBetter-refreshed_left h r k v = ground (arith, k v, ig.right r h)

  pub NotBetter-refreshed_right : (h r : Rte) → NotBetter hook h r → NotBetter hook h (refreshed r)
  unfolding rte_better valid_better
  NotBetter-refreshed_right h r k v = ground (arith, k v, ig.left r h)

  HasBestFirst-refreshed :
      (before after : List Rte) (o : Rte)
      → HasBestFirst hook (before ++ o ∷ after)
      → HasBestFirst hook (before ++ refreshed o ∷ after)
  HasBestFirst-refreshed [] after o p =
      All-map (NotBetter hook o) (NotBetter hook (refreshed o)) after (NotBetter-refreshed_left o) p
  HasBestFirst-refreshed (b ∷ bs) after o p =
      let Q = NotBetter hook b in
      let q = All-right Q bs (o ∷ after) p in
      All-append Q bs (refreshed o ∷ after) (All-left Q bs (o ∷ after) p)
        (NotBetter-refreshed_right b o q.0, q.1)

-- In a sorted table no hook is asked.
pub place_in_sorted :
    (hook : BetterHook) (recalc : RecalculateHook) (src : RteSrc) (s : Split) (new : Option Rte)
    → (place hook recalc true src s new).routes ≡ place_sorted hook s new
unfolding place
place_in_sorted hook recalc src s new = refl

module _ (hook : BetterHook) (recalc : RecalculateHook) (src : RteSrc)
    (none_set : recalc src.proto ≡ none) where
  no_hook :
      (s : Split) (new : Option Rte)
      → recalculate_hook recalc src s new
        ≡ record { forced = false; routes = s.before ++ s.after; new = new; old = s.old }
  unfolding recalculate_hook
  no_hook s new = rw (recalculate_hook, none_set) refl

  -- With no hook that interferes, an unsorted list is arranged around its best route.
  pub place_unsorted :
      (before after : List Rte) (old new : Option Rte)
      → let s : Split = record { before = before; old = old; after = after } in
        (place hook recalc false src s new).routes
        ≡ arrange hook s
            (record { forced = false; routes = before ++ after; new = new; old = old })
            (old_best s)
  unfolding place
  place_unsorted [] after old new =
      rw (no_hook (record { before = []; old = old; after = after }) new) refl
  place_unsorted (b ∷ bs) after old new =
      rw (no_hook (record { before = b ∷ bs; old = old; after = after }) new) refl

  -- In a table that is not sorted the head of a network's routes stays the best of them through
  -- every call of rte_recalculate, of whatever outcome: no valid route of the list is better. The
  -- protocols' comparisons are strict weak orders that ignore the marks of a refresh, and the
  -- source's protocol has no rte_recalculate hook.
  pub rte_recalculate-HasBestFirst :
      (M : IdMaps) (now : ℕ) (w : World M) (new : Option Rte)
      → IsOrder hook
      → IgnoresRefresh hook
      → w.table.sorted ≡ false
      → From src new
      → HasBestFirst hook w.routes
      → HasBestFirst hook (rte_recalculate M now hook recalc w new src).routes
  rte_recalculate-HasBestFirst M now w new laws ig u f p =
      let s = split_old src.global_id w.routes in
      let q : HasBestFirst hook (joined s) = rw (split_old-joined src.global_id w.routes) p in
      rte_recalculate-cases M now hook recalc src (HasBestFirst hook) w new f
        (λ n g.
          rw (u, place_unsorted s.before s.after s.old n)
            (arrange-HasBestFirst hook laws s.before s.after s.old n q
              (split_old-after src.global_id w.routes)))
        p
        (λ o e.
          HasBestFirst-refreshed hook ig s.before s.after o
            (subst (λ x. HasBestFirst hook (s.before ++ (listed x ++ s.after))) e q))
