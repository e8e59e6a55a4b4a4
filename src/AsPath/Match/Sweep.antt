-- ===== src/AsPath/Match/Sweep.antt =====
-- The loop of as_path_match of nest/a-path.c over the marked positions marks exactly what the item
-- leads to.
use bird.Common.{
  ℕ, zero, suc, ◌+◌, ◌≤◌, ◌<◌, ◌≡◌, sym, ◌∙◌, Bool, true, ltb, ◌==◌, List, length, arith,
  Bool-cases, inl, inr, ◌⊎◌,
}
use mathlib.Core.Path.{subst}
use bird.AsPath.Match.{Position, MaskItem, set_at, Marks, next_index, pm_mark, match_label}
use bird.AsPath.Match.Runs.{set_at-lt, match_at-lt, stop, stop-inside, stop-same, pm_mark_lem}
use bird.AsPath.Match.Chains.{
  next_index-gt, index-set, index-number, Chain, Chain-match, split-Chain, label-keeps,
}

-- A set that is marked within a run of sets has the end of the run marked as well.
unfoldable pub IsClosed : List Position → (ℕ → Bool) → Type 0
IsClosed ps mark =
    (p : ℕ)
    → mark (suc p) ≡ true
    → set_at ps p ≡ true
    → set_at ps (suc p) ≡ true
    → (mark (stop ps (suc p)) ≡ true) ⊎ (stop ps (suc p) ≡ length ps)

module _ (ps : List Position) (item : MaskItem) (loop : Bool) (start : ℕ → Bool)
    (closed : IsClosed ps start) where
  -- A jump over the position handled last ends at one handled before, or behind all.
  past :
      (j last : ℕ)
      → (start last ≡ true) ⊎ (last ≡ length ps)
      → j < last
      → last ≤ next_index ps j
      → (start (next_index ps j) ≡ true) ⊎ (next_index ps j ≡ length ps)
  unfolding IsClosed
  past j zero was lt le = absurd (omega arith)
  past j (suc p) was lt le = elim (Bool-cases (suc p == next_index ps j)) [
    | inl e ↦
        let same : suc p ≡ next_index ps j = ground arith in
        subst (λ x. (start x ≡ true) ⊎ (x ≡ length ps)) same was
    | inr e ↦ elim (Bool-cases (set_at ps j)) [
      | inr f ↦ absurd (ground (arith, index-number ps j f))
      | inl f ↦
          let at = index-set ps j f in
          let below : set_at ps p ≡ true = stop-inside ps j p (omega arith) (ground (arith, at)) in
          let here : set_at ps (suc p) ≡ true =
            stop-inside ps j (suc p) (omega arith) (ground (arith, at)) in
          let ends : stop ps (suc p) ≡ next_index ps j =
            stop-same ps j (suc p) (omega arith) (ground (arith, at)) ∙ sym at in
          let marked : start (suc p) ≡ true = ground (arith, was, set_at-lt ps (suc p) here) in
          subst (λ x. (start x ≡ true) ⊎ (x ≡ length ps)) ends (closed p marked below here)
    ]
  ]

  -- From a position below the one handled last all chains are marked, if those from the positions
  -- handled before are.
  pub label_complete :
      (last fuel : ℕ) (m : Marks) (j : ℕ)
      → (start last ≡ true) ⊎ (last ≡ length ps)
      → ((p k : ℕ) → start p ≡ true → last ≤ p → Chain ps item loop p k → m.mark k ≡ true)
      → j < last
      → last ≤ length ps
      → length ps ≤ j + fuel
      → (k : ℕ) → Chain ps item loop j k
      → (match_label ps item loop last fuel m j).mark k ≡ true
  unfolding match_label
  label_complete last zero m j was before lt inside enough k c = absurd (omega arith)
  label_complete last (suc fuel) m j was before lt inside enough k c =
      let m' = pm_mark ps m j in
      let j' = next_index ps j in
      let e = Chain-match ps item loop c in
      let keep : (x : ℕ) → m.mark x ≡ true → m'.mark x ≡ true =
        λ x h. ground (arith, pm_mark_lem ps m j x) in
      elim (split-Chain ps item loop c) [
        | inl n ↦
            let marked : m'.mark k ≡ true = ground (arith, pm_mark_lem ps m j k) in
            ground (arith, e, marked, label-keeps ps item loop last fuel m' j' k marked)
        | inr (l, rest) ↦ elim (Bool-cases (ltb j' last)) [
          | inl g ↦
              let found =
                label_complete last fuel m' j' was (λ p x s le d. keep x (before p x s le d))
                  (ground arith) inside (omega (arith, next_index-gt ps j)) k rest in
              ground (arith, e, l, found)
          | inr g ↦ elim (past j last was lt (ground arith)) [
            | inl s ↦ ground (arith, e, keep k (before j' k s (ground arith) rest))
            | inr f ↦
                absurd (omega (arith, f, match_at-lt ps item j' (Chain-match ps item loop rest)))
          ]
        ]
      ]
