-- ===== src/Rt/Recalculate/Place.antt =====
-- Where rte_recalculate of nest/rt-table.c puts a route in the list of a network: the search for
-- the old route, and the insertion into a sorted and into an unsorted list.
use bird.Common.{
  ℕ, ◌==◌, not, Bool, true, false, Option, none, some, List, [], ◌∷◌, ◌++◌, length, take, drop,
  if◌then◌else◌,
}
use bird.Rt.{Proto, RteSrc, Rte}
use bird.Rt.Better.{BetterHook, rte_better}

-- The list around the first route of a source: what stands before it, itself, what follows. With
-- no such route all stands before.
pub record Split : Type 0 where
  pub before : List Rte
  pub old : Option Rte
  pub after : List Rte

unfoldable pub split_old : ℕ → List Rte → Split
split_old src [] = record { before = []; old = none; after = [] }
split_old src (r ∷ rs) =
    let s = split_old src rs in
    if r.src.global_id == src
    then record { before = []; old = some r; after = rs }
    else record s { before = r ∷ s.before }

abbrev pub head : List Rte → Option Rte
head [] = none
head (r ∷ rs) = some r

abbrev pub last : List Rte → Option Rte
last [] = none
last (r ∷ []) = some r
last (r ∷ q ∷ rs) = last (q ∷ rs)

-- The best route before the change: the head, be it the old route or not.
abbrev pub old_best : Split → Option Rte
old_best s = elim s.before [ [] ↦ s.old | r ∷ rs ↦ some r ]

-- `old == old_best`; both are null in an empty list only.
abbrev pub old_is_best : Split → Bool
old_is_best s = elim s.before [ [] ↦ true | r ∷ rs ↦ false ]

-- The insertion into a sorted list, before the first route that is not better.
unfoldable pub insert_sorted : BetterHook → Rte → List Rte → List Rte
insert_sorted hook new [] = new ∷ []
insert_sorted hook new (r ∷ rs) =
    let rest = insert_sorted hook new rs in
    if rte_better hook new (some r) then new ∷ r ∷ rs else r ∷ rest

-- The route before the old one, null if there is no old one.
abbrev pub before_old : Split → Option Rte
before_old s = elim s.old [ none ↦ none | some o ↦ last s.before ]

-- The scan starts behind `before_old` if the new route is not better than that.
abbrev pub scans_from : BetterHook → Rte → Option Rte → Bool
scans_from hook new none = false
scans_from hook new (some b) = not (rte_better hook new (some b))

unfoldable pub place_sorted : BetterHook → Split → Option Rte → List Rte
place_sorted hook s none = s.before ++ s.after
place_sorted hook s (some new) =
    if scans_from hook new (before_old s)
    then s.before ++ insert_sorted hook new s.after
    else insert_sorted hook new (s.before ++ s.after)

-- Linking at the last accessed position.
abbrev pub link_at : ℕ → Option Rte → List Rte → List Rte
link_at pos none routes = routes
link_at pos (some new) routes = take pos routes ++ new ∷ drop pos routes

-- The election of the best route, which goes to the front. The list is `passed`, the best route
-- so far, those `since` it, and those still to be compared.
unfoldable pub elect_from : BetterHook → List Rte → Rte → List Rte → List Rte → List Rte
elect_from hook passed best since [] = best ∷ passed ++ since
elect_from hook passed best since (r ∷ rs) =
    let moves = elect_from hook (passed ++ best ∷ since) r [] rs in
    let stays = elect_from hook passed best (since ++ r ∷ []) rs in
    if rte_better hook r (some best) then moves else stays

unfoldable pub elect : BetterHook → List Rte → List Rte
elect hook [] = []
elect hook (r ∷ rs) = elect_from hook [] r [] rs

-- What an rte_recalculate hook leaves: whether an election is due, and the routes with the flags
-- that it set on them.
pub record Recalculated : Type 0 where
  pub forced : Bool
  pub routes : List Rte
  pub new : Option Rte
  pub old : Option Rte

abbrev pub RecalculateHook : Type 0
RecalculateHook = Proto → Option (List Rte → Option Rte → Option Rte → Option Rte → Recalculated)

-- The list after the change, the routes that took part, and the best one before.
pub record Placed : Type 0 where
  pub routes : List Rte
  pub new : Option Rte
  pub old : Option Rte
  pub old_best : Option Rte

unfoldable pub recalculate_hook : RecalculateHook → RteSrc → Split → Option Rte → Recalculated
recalculate_hook recalc src s new = elim (recalc src.proto) [
  | none ↦ record { forced = false; routes = s.before ++ s.after; new = new; old = s.old }
  | some f ↦ f (s.before ++ s.after) new s.old (old_best s)
]

-- The cases of an unsorted list: the new route is the best, the best one left, or neither.
unfoldable pub arrange : BetterHook → Split → Recalculated → Option Rte → List Rte
arrange hook s h best =
    let pos = length s.before in
    let elected = elect hook (link_at pos h.new h.routes) in
    if h.forced then elected else elim h.new [
      | none ↦ if old_is_best s then elected else h.routes
      | some new ↦
          if rte_better hook new best
          then new ∷ h.routes
          else if old_is_best s
          then elected
          else link_at pos (some new) h.routes
    ]

unfoldable pub place : BetterHook → RecalculateHook → Bool → RteSrc → Split → Option Rte → Placed
place hook recalc sorted src s new =
    let h = recalculate_hook recalc src s new in
    let best = if old_is_best s then h.old else head h.routes in
    if sorted
    then record { routes = place_sorted hook s new; new = new; old = s.old; old_best = old_best s }
    else record { routes = arrange hook s h best; new = h.new; old = h.old; old_best = best }
