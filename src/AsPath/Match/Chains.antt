-- ===== src/AsPath/Match/Chains.antt =====
-- The positions that one item of a mask leads to in as_path_match of nest/a-path.c, repeated where
-- a loop stands before it; and what the label `match` adds to the marks.
use bird.Common.{
  ℕ, zero, suc, ◌+◌, ◌≤◌, ◌<◌, ◌≡◌, refl, sym, ap, Bool, true, false, ltb, leb, ◌==◌, ◌&&◌, List,
  length, arith, Bool-cases, inl, inr, ◌⊎◌,
}
use mathlib.Core.Path.{subst}
use bird.AsPath.Match.{
  Position, MaskItem, set_at, match_at, Marks, next_index, pm_mark, match_label,
}
use bird.AsPath.Match.Runs.{
  stop, stop-ge, stop-clear, stop-inside, stop-same, stop-le, next, pm_mark_lem,
}

module _ (ps : List Position) where
  pub next-next_index : (j : ℕ) → next ps j (next_index ps j) ≡ true
  unfolding next next_index
  next-next_index j = elim (Bool-cases (set_at ps j)) [
    | inl e ↦ rw e (ground (arith, stop-ge ps j))
    | inr e ↦ rw e (ground arith)
  ]

  pub next_index-gt : (j : ℕ) → j < next_index ps j
  unfolding next_index
  next_index-gt j = elim (Bool-cases (set_at ps j)) [
    | inl e ↦ elim (Bool-cases (stop ps j == j)) [
      | inl f ↦
          let same : stop ps j ≡ j = ground arith in
          absurd (ground (arith, ap (set_at ps) same, stop-clear ps j))
      | inr f ↦ rw e (ground (arith, stop-ge ps j))
    ]
    | inr e ↦ rw e (ground arith)
  ]

  pub next-ge : (j k : ℕ) → next ps j k ≡ true → j ≤ k
  unfolding next
  next-ge j k h = ground arith

  pub next_index-le : (j : ℕ) → j < length ps → next_index ps j ≤ length ps
  unfolding next_index
  next_index-le j lt = ground (arith, stop-le ps j)

  next-set : (j k : ℕ) → set_at ps j ≡ true → next ps j k ≡ (leb j k && leb k (stop ps j))
  unfolding next
  next-set j k e = rw e refl

  next-number : (j k : ℕ) → set_at ps j ≡ false → next ps j k ≡ (k == j + 1)
  unfolding next
  next-number j k e = rw e refl

  pub index-set : (j : ℕ) → set_at ps j ≡ true → next_index ps j ≡ stop ps j
  unfolding next_index
  index-set j e = rw e refl

  pub index-number : (j : ℕ) → set_at ps j ≡ false → next_index ps j ≡ j + 1
  unfolding next_index
  index-number j e = rw e refl

module _ (ps : List Position) (item : MaskItem) (loop : Bool) where
  -- The item matches at the first position and leads to the second, by repetitions under a loop.
  pub data Chain : ℕ → ℕ → Type 0 where
    once : {i k : ℕ} → match_at ps item i ≡ true → next ps i k ≡ true → Chain i k
    more :
        {i j k : ℕ}
        → loop ≡ true
        → match_at ps item i ≡ true
        → next ps i j ≡ true
        → Chain j k
        → Chain i k

  pub Chain-match : {i k : ℕ} → Chain i k → match_at ps item i ≡ true
  Chain-match (once m n) = m
  Chain-match (more l m n c) = m

  pub Chain-ge : {i k : ℕ} → Chain i k → i ≤ k
  Chain-ge {i} {k} (once m n) = next-ge ps i k n
  Chain-ge {i} {k} (more {j = j} l m n c) = omega (arith, next-ge ps i j n, Chain-ge c)

  run-Chain :
      {m k : ℕ} (j : ℕ)
      → set_at ps j ≡ true
      → j ≤ m
      → m ≤ stop ps j
      → Chain m k
      → (next ps j k ≡ true) ⊎ Chain (stop ps j) k
  run-Chain {m} {k} j set le end (once mt n) = elim (Bool-cases (m == stop ps j)) [
    | inl e ↦
        let same : m ≡ stop ps j = ground arith in inr (subst (λ x. Chain x k) same (once mt n))
    | inr e ↦
        let also = stop-inside ps j m le (ground arith) in
        inl (ground (arith, next-set ps j k set, next-set ps m k also, stop-same ps j m le end))
  ]
  run-Chain {m} {k} j set le end (more {j = m2} l mt n rest) = elim (Bool-cases (m == stop ps j)) [
    | inl e ↦
        let same : m ≡ stop ps j = ground arith in
        inr (subst (λ x. Chain x k) same (more l mt n rest))
    | inr e ↦
        let also = stop-inside ps j m le (ground arith) in
        let at = next-set ps m m2 also in
        run-Chain j set (ground (arith, at)) (ground (arith, at, stop-same ps j m le end)) rest
  ]

  -- A chain ends among the positions that the first step marks, or goes on where pm_mark leaves off.
  pub split-Chain :
      {j k : ℕ} → Chain j k → (next ps j k ≡ true) ⊎ ((loop ≡ true) × Chain (next_index ps j) k)
  split-Chain (once mt n) = inl n
  split-Chain {j} {k} (more {j = m} l mt n rest) = elim (Bool-cases (set_at ps j)) [
    | inl e ↦
        let at = next-set ps j m e in
        elim (run-Chain j e (ground (arith, at)) (ground (arith, at)) rest) [
          | inl found ↦ inl found
          | inr c ↦ inr (l, subst (λ x. Chain x k) (sym (index-set ps j e)) c)
        ]
    | inr e ↦
        let here : m ≡ next_index ps j =
          ground (arith, next-number ps j m e, index-number ps j e) in
        inr (l, subst (λ x. Chain x k) here rest)
  ]

  -- What match_label marks is reached from its position, and no mark is removed.
  pub label_sound :
      (last fuel : ℕ) (m : Marks) (j k : ℕ)
      → (match_label ps item loop last fuel m j).mark k ≡ true
      → (m.mark k ≡ true) ⊎ Chain j k
  unfolding match_label
  label_sound last zero m j k h = inl h
  label_sound last (suc fuel) m j k h = elim (Bool-cases (match_at ps item j)) [
    | inr e ↦ inl (ground arith)
    | inl e ↦
        let m' = pm_mark ps m j in
        let j' = next_index ps j in
        let marked : (m'.mark k ≡ true) → (m.mark k ≡ true) ⊎ Chain j k = λ f.
          elim (Bool-cases (next ps j k)) [
            | inl n ↦ inr (once e n)
            | inr n ↦ inl (ground (arith, pm_mark_lem ps m j k))
          ] in
        elim (Bool-cases loop) [
          | inr f ↦ marked (ground arith)
          | inl f ↦ elim (Bool-cases (ltb j' last)) [
            | inr g ↦ marked (ground arith)
            | inl g ↦ elim (label_sound last fuel m' j' k (ground arith)) [
              | inl old ↦ marked old
              | inr c ↦ inr (more f e (next-next_index ps j) c)
            ]
          ]
        ]
  ]

  pub label-keeps :
      (last fuel : ℕ) (m : Marks) (j k : ℕ)
      → m.mark k ≡ true
      → (match_label ps item loop last fuel m j).mark k ≡ true
  unfolding match_label
  label-keeps last zero m j k h = h
  label-keeps last (suc fuel) m j k h =
      let kept : (pm_mark ps m j).mark k ≡ true = ground (arith, pm_mark_lem ps m j k) in
      ground (arith, kept, label-keeps last fuel (pm_mark ps m j) (next_index ps j) k kept)
