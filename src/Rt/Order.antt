-- ===== src/Rt/Order.antt =====
-- The order of routes that rte_better of nest/rt-table.c decides, from the laws of the protocols'
-- own comparisons.
use bird.Common.{refl, ◌≡◌, true, false, arith, List, [], ◌∷◌, All, All-map, none, some}
use bird.Rt.{Rte, rte_is_filtered}
use bird.Rt.Better.{BetterHook, tie_break, valid_better, rte_better}

-- The comparison is a strict weak order of the routes that one kind of protocol made.
pub record IsOrder (hook : BetterHook) : Type 0 where
  pub asym :
      (a b : Rte)
      → a.src.proto.proto ≡ b.src.proto.proto
      → tie_break hook a b ≡ true
      → tie_break hook b a ≡ false
  pub negtrans :
      (a b c : Rte)
      → a.src.proto.proto ≡ b.src.proto.proto
      → b.src.proto.proto ≡ c.src.proto.proto
      → tie_break hook a b ≡ false
      → tie_break hook b c ≡ false
      → tie_break hook a c ≡ false

module _ (hook : BetterHook) (laws : IsOrder hook) where
  pub valid_better-asym : (a b : Rte) → valid_better hook a b ≡ true → valid_better hook b a ≡ false
  unfolding valid_better
  valid_better-asym a b h = ground (arith, laws.asym a b)

  pub valid_better-negtrans :
      (a b c : Rte)
      → valid_better hook a b ≡ false
      → valid_better hook b c ≡ false
      → valid_better hook a c ≡ false
  unfolding valid_better
  valid_better-negtrans a b c h k = ground (arith, laws.negtrans a b c)

-- No valid route of those is better than the first one.
abbrev pub NotBetter : BetterHook → Rte → Rte → Type 0
NotBetter hook h r = rte_is_filtered r ≡ false → rte_better hook r (some h) ≡ false

abbrev pub IsBest : BetterHook → Rte → List Rte → Type 0
IsBest hook h = All (NotBetter hook h)

-- The head of the list is the best route.
abbrev pub HasBestFirst : BetterHook → List Rte → Type 0
HasBestFirst hook [] = Unit
HasBestFirst hook (r ∷ rs) = IsBest hook r rs

module _ (hook : BetterHook) (laws : IsOrder hook) where
  -- A route that is better than another is no worse than those that are not better than that.
  pub better_through :
      (n h r : Rte) → rte_better hook n (some h) ≡ true → NotBetter hook h r → NotBetter hook n r
  unfolding rte_better
  better_through n h r b k v =
      ground (arith, k v, valid_better-asym hook laws n h, valid_better-negtrans hook laws r h n)

  pub beaten : (n h : Rte) → rte_better hook n (some h) ≡ true → NotBetter hook n h
  unfolding rte_better
  beaten n h b v = ground (arith, valid_better-asym hook laws n h)

  pub IsBest-replace :
      (n h : Rte) (rs : List Rte)
      → rte_better hook n (some h) ≡ true
      → IsBest hook h rs
      → IsBest hook n rs
  IsBest-replace n h rs b k =
      All-map (NotBetter hook h) (NotBetter hook n) rs (λ r. better_through n h r b) k

pub better_null : (hook : BetterHook) (n : Rte) → rte_better hook n none ≡ true
unfolding rte_better
better_null hook n = refl
