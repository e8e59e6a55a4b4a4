-- ===== src/Rt/Splits.antt =====
-- What the search for the old route in rte_recalculate of nest/rt-table.c finds.
use bird.Common.{
  ℕ, ◌≡◌, inl, inr, Bool-cases, refl, ap, List, [], ◌∷◌, ◌++◌, Option, none, some, ◌==◌, arith,
}
use bird.Rt.{Rte}
use bird.Rt.Recalculate.Place.{Split, split_old}

abbrev pub listed : Option Rte → List Rte
listed none = []
listed (some r) = r ∷ []

-- The parts of the list put together again.
abbrev pub joined : Split → List Rte
joined s = s.before ++ (listed s.old ++ s.after)

pub split_old-joined : (src : ℕ) (rs : List Rte) → joined (split_old src rs) ≡ rs
unfolding split_old
split_old-joined src [] = refl
split_old-joined src (r ∷ rs) = elim (Bool-cases (r.src.global_id == src)) [
  | inl e ↦ rw e refl
  | inr e ↦ rw e (ap (λ t. r ∷ t) (split_old-joined src rs))
]

pub split_old-after :
    (src : ℕ) (rs : List Rte) → (split_old src rs).old ≡ none → (split_old src rs).after ≡ []
unfolding split_old
split_old-after src [] h = refl
split_old-after src (r ∷ rs) h = ground (arith, split_old-after src rs)
