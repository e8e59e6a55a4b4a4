-- ===== src/AsPath/Match/Rounds.antt =====
-- One item of a mask in as_path_match of nest/a-path.c: the marks afterwards are the positions that
-- it leads to, and l and h their bounds.
use bird.Common.{
  ℕ, zero, suc, ◌≤◌, ◌<◌, ◌≡◌, refl, ap, ◌∙◌, Bool, true, false, ltb, leb, min, max, ◌&&◌, List,
  length, if◌then◌else◌, arith, Bool-cases, inl, inr, ◌⊎◌, some, none,
}
use bird.AsPath.Match.{
  Position, MaskItem, set_at, match_at, Marks, next_index, lower, upper, pm_mark, match_label,
}
use bird.AsPath.Match.Runs.{match_at-lt, stop-ge, next, pm_mark_lem}
use bird.AsPath.Match.Chains.{next_index-gt, next_index-le}

-- nl and nh bound the marks from `lo` on, and nl is marked; without marks they are -1.
unfoldable pub IsBounded : List Position → ℕ → Marks → Type 0
IsBounded ps lo m =
    ((m.nl ≡ none) × (m.nh ≡ none) × ((k : ℕ) → lo ≤ k → m.mark k ≡ false))
    ⊎ ((a : ℕ) × (b : ℕ) × (m.nl ≡ some a)
        × (m.nh ≡ some b)
        × (m.mark a ≡ true)
        × (lo ≤ a)
        × (b ≤ length ps)
        × ((k : ℕ) → lo ≤ k → m.mark k ≡ true → (a ≤ k) × (k ≤ b)))

module _ (ps : List Position) where
  abbrev first_index : ℕ → ℕ
  first_index j = if set_at ps j then j else next_index ps j

  next-bounds : (j k : ℕ) → next ps j k ≡ true → (first_index j ≤ k) × (k ≤ next_index ps j)
  unfolding next next_index
  next-bounds j k n = elim (Bool-cases (set_at ps j)) [
    | inl e ↦ rw e (ground arith)
    | inr e ↦ rw e (ground arith)
  ]

  next-first : (j : ℕ) → (next ps j (first_index j) ≡ true) × (j ≤ first_index j)
  unfolding next next_index
  next-first j = elim (Bool-cases (set_at ps j)) [
    | inl e ↦ rw e (ground (arith, stop-ge ps j))
    | inr e ↦ rw e (ground arith)
  ]

  pm_mark-nl : (m : Marks) (j : ℕ) → (pm_mark ps m j).nl ≡ some (lower m.nl (first_index j))
  unfolding pm_mark
  pm_mark-nl m j = refl

  pm_mark-nh : (m : Marks) (j : ℕ) → (pm_mark ps m j).nh ≡ some (upper m.nh (next_index ps j))
  unfolding pm_mark
  pm_mark-nh m j = refl

  least_marked :
      (m : Marks) (a j : ℕ) → m.mark a ≡ true → (pm_mark ps m j).mark (min a (first_index j)) ≡ true
  least_marked m a j at =
      let l = first_index j in
      let marked = pm_mark_lem ps m j in
      elim (Bool-cases (leb a l)) [
        | inl e ↦
            let same : min a l ≡ a = ground arith in
            ap (pm_mark ps m j).mark same ∙ ground (arith, marked a, at)
        | inr e ↦
            let same : min a l ≡ l = ground arith in
            ap (pm_mark ps m j).mark same ∙ ground (arith, marked l, next-first j)
      ]

  pm_mark-IsBounded :
      (lo j : ℕ) (m : Marks)
      → lo ≤ j
      → j < length ps
      → IsBounded ps lo m
      → IsBounded ps lo (pm_mark ps m j)
  unfolding IsBounded lower upper
  pm_mark-IsBounded lo j m le lt (inl (e, f, clear)) =
      let marked = pm_mark_lem ps m j in
      inr (
        first_index j,
        next_index ps j,
        pm_mark-nl m j ∙ ap (λ o. some (lower o (first_index j))) e,
        pm_mark-nh m j ∙ ap (λ o. some (upper o (next_index ps j))) f,
        ground (arith, marked (first_index j), next-first j),
        omega (arith, (next-first j).1),
        next_index-le ps j lt,
        λ k h t. ground (arith, marked k, clear k h, next-bounds j k),
      )
  pm_mark-IsBounded lo j m le lt (inr (a, b, e, f, at, low, high, all)) =
      let marked = pm_mark_lem ps m j in
      inr (
        min a (first_index j),
        max b (next_index ps j),
        pm_mark-nl m j ∙ ap (λ o. some (lower o (first_index j))) e,
        pm_mark-nh m j ∙ ap (λ o. some (upper o (next_index ps j))) f,
        least_marked m a j at,
        omega (arith, (next-first j).1),
        omega (arith, next_index-le ps j lt),
        λ k h t. ground (arith, marked k, all k h, next-bounds j k),
      )

  pub label-IsBounded :
      (item : MaskItem) (loop : Bool) (last fuel lo : ℕ) (m : Marks) (j : ℕ)
      → lo ≤ j
      → IsBounded ps lo m
      → IsBounded ps lo (match_label ps item loop last fuel m j)
  unfolding match_label
  label-IsBounded item loop last zero lo m j le b = b
  label-IsBounded item loop last (suc fuel) lo m j le b = elim (Bool-cases (match_at ps item j)) [
    | inr e ↦ rw e b
    | inl e ↦
        let b' = pm_mark-IsBounded lo j m le (match_at-lt ps item j e) b in
        elim (Bool-cases (loop && ltb (next_index ps j) last)) [
          | inr f ↦ rw (e, f) b'
          | inl f ↦
              rw (e, f)
                (label-IsBounded item loop last fuel lo (pm_mark ps m j) (next_index ps j)
                  (omega (arith, next_index-gt ps j)) b')
        ]
  ]
