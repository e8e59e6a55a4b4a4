-- ===== src/AsPath/Match/Steps.antt =====
-- The step of as_path_match of nest/a-path.c over all marked positions: it marks exactly what the
-- item leads to from them.
use bird.Common.{
  ℕ, zero, suc, ◌+◌, ◌≤◌, ◌<◌, ◌≡◌, ◌≢◌, refl, sym, ap, ◌∙◌, Bool, true, false, ◌==◌, List, length,
  arith, Bool-cases, inl, inr, ◌⊎◌,
}
use mathlib.Core.Path.{subst}
use bird.AsPath.Match.{Position, MaskItem, Marks, write, match_label, sweep}
use bird.AsPath.Match.Chains.{Chain, Chain-ge, label_sound, label-keeps}
use bird.AsPath.Match.Sweep.{IsClosed, label_complete}
use bird.AsPath.Match.Rounds.{IsBounded, label-IsBounded}

module _ (ps : List Position) (item : MaskItem) (loop : Bool) (start : ℕ → Bool) where
  -- The marks when the positions from `b` on have been handled, `last` the last one.
  pub record Swept (b last : ℕ) (m : Marks) : Type 0 where
    pub unhandled : (k : ℕ) → k < b → m.mark k ≡ start k
    pub sound :
        (k : ℕ) → b ≤ k → m.mark k ≡ true → (p : ℕ) × (start p ≡ true) × Chain ps item loop p k
    pub complete : (p k : ℕ) → start p ≡ true → b ≤ p → Chain ps item loop p k → m.mark k ≡ true
    pub handled : (start last ≡ true) ⊎ (last ≡ length ps)
    pub above : (p : ℕ) → start p ≡ true → b ≤ p → last ≤ p
    pub reached : b ≤ last
    pub inside : last ≤ length ps
    pub bounded : IsBounded ps b m

  cleared : Marks → ℕ → Marks
  cleared m i = record m { mark = write m.mark i false }

  skip-IsBounded :
      (i : ℕ) (m : Marks) → m.mark i ≡ false → IsBounded ps (suc i) m → IsBounded ps i m
  unfolding IsBounded
  skip-IsBounded i m none_here (inl (e, f, all)) = inl (
    e,
    f,
    λ k le. elim (Bool-cases (k == i)) [
      | inl g ↦ ap m.mark (ground arith) ∙ none_here
      | inr g ↦ all k (ground arith)
    ],
  )
  skip-IsBounded i m none_here (inr (a, b, e, f, at, low, high, all)) = inr (
    a,
    b,
    e,
    f,
    at,
    omega arith,
    high,
    λ k le h. elim (Bool-cases (k == i)) [
      | inl g ↦ let same : k ≡ i = ground arith in absurd (ground (arith, ap m.mark same))
      | inr g ↦ all k (ground arith) h
    ],
  )

  -- The position is not marked.
  skip-Swept : (i last : ℕ) (m : Marks) → m.mark i ≡ false → Swept (suc i) last m → Swept i last m
  skip-Swept i last m e s =
      let none_here : start i ≡ false = ground (arith, s.unhandled i) in
      let up : (k : ℕ) → i ≤ k → k ≢ i → suc i ≤ k = λ k le ne. ground arith in
      record {
        unhandled = λ k lt. s.unhandled k (omega arith);
        sound = λ k le h. s.sound k (up k le (λ f. absurd (ground (arith, ap m.mark f)))) h;
        complete =
            λ p k h le c. s.complete p k h (up p le (λ f. absurd (ground (arith, ap start f)))) c;
        handled = s.handled;
        above = λ p h le. s.above p h (up p le (λ f. absurd (ground (arith, ap start f))));
        reached = omega (arith, s.reached);
        inside = s.inside;
        bounded = skip-IsBounded i m e s.bounded;
      }

  clear-IsBounded : (i : ℕ) (m : Marks) → IsBounded ps (suc i) m → IsBounded ps i (cleared m i)
  unfolding IsBounded cleared
  clear-IsBounded i m (inl (e, f, all)) = inl (
    e,
    f,
    λ k le. elim (Bool-cases (k == i)) [ inl g ↦ rw g refl | inr g ↦ rw g (all k (ground arith)) ],
  )
  clear-IsBounded i m (inr (a, b, e, f, at, low, high, all)) = inr (
    a,
    b,
    e,
    f,
    ground (arith, at),
    omega arith,
    high,
    λ k le h. elim (Bool-cases (k == i)) [
      | inl g ↦ absurd (ground arith)
      | inr g ↦ all k (ground arith) (ground arith)
    ],
  )

  -- The position is marked: the mark is taken off, and what its chains lead to is marked.
  label_below :
      (i last k : ℕ) (m : Marks)
      → k < i
      → (match_label ps item loop last (length ps) (cleared m i) i).mark k ≡ m.mark k
  unfolding cleared
  label_below i last k m lt =
      let m0 = cleared m i in
      let m1 = match_label ps item loop last (length ps) m0 i in
      let same : m0.mark k ≡ m.mark k = ground arith in
      elim (Bool-cases (m.mark k)) [
        | inl e ↦ label-keeps ps item loop last (length ps) m0 i k (same ∙ e) ∙ sym e
        | inr e ↦ elim (Bool-cases (m1.mark k)) [
          | inr f ↦ f ∙ sym e
          | inl f ↦ elim (label_sound ps item loop last (length ps) m0 i k f) [
            | inl old ↦ absurd (ground (arith, same))
            | inr c ↦ absurd (omega (arith, Chain-ge ps item loop c))
          ]
        ]
      ]

  label_origin :
      (i last k : ℕ) (m : Marks)
      → Swept (suc i) last m
      → start i ≡ true
      → i ≤ k
      → (match_label ps item loop last (length ps) (cleared m i) i).mark k ≡ true
      → (p : ℕ) × (start p ≡ true) × Chain ps item loop p k
  unfolding cleared
  label_origin i last k m s origin le h =
      elim (label_sound ps item loop last (length ps) (cleared m i) i k h) [
        | inr c ↦ (i, origin, c)
        | inl old ↦ s.sound k (ground arith) (ground arith)
      ]

  mark-Swept :
      (i last : ℕ) (m : Marks)
      → IsClosed ps start
      → m.mark i ≡ true
      → i < length ps
      → Swept (suc i) last m
      → Swept i i (match_label ps item loop last (length ps) (cleared m i) i)
  unfolding cleared
  mark-Swept i last m closed e lt s =
      let m0 = cleared m i in
      let origin : start i ≡ true = ground (arith, s.unhandled i) in
      let kept : (p k : ℕ)
          → start p ≡ true
          → suc i ≤ p
          → Chain ps item loop p k
          → m0.mark k ≡ true =
        λ p k h le c. ground (arith, s.complete p k h le c, Chain-ge ps item loop c) in
      let from_here =
        label_complete ps item loop start closed last (length ps) m0 i s.handled
          (λ p k h le c. kept p k h (omega (arith, s.reached)) c) (omega (arith, s.reached))
          s.inside (omega arith) in
      record {
        unhandled = λ k below. label_below i last k m below ∙ s.unhandled k (omega arith);
        sound = λ k le h. label_origin i last k m s origin le h;
        complete = λ p k h le c. elim (Bool-cases (p == i)) [
          | inl same ↦ from_here k (subst (λ x. Chain ps item loop x k) (ground arith) c)
          | inr other ↦
              label-keeps ps item loop last (length ps) m0 i k (kept p k h (ground arith) c)
        ];
        handled = inl origin;
        above = λ p h le. le;
        reached = omega arith;
        inside = omega arith;
        bounded =
            label-IsBounded ps item loop last (length ps) i m0 i (omega arith)
              (clear-IsBounded i m s.bounded);
      }

  pub sweep-Swept :
      (l count last : ℕ) (m : Marks)
      → IsClosed ps start
      → ((p : ℕ) → start p ≡ true → p < length ps)
      → Swept (l + count) last m
      → (last' : ℕ) × Swept l last' (sweep ps item loop l count last m)
  unfolding sweep cleared
  sweep-Swept l zero last m closed real s =
      let same : l + 0 ≡ l = omega arith in (last, subst (λ b. Swept b last m) same s)
  sweep-Swept l (suc count) last m closed real s =
      let i = l + count in
      let next : l + suc count ≡ suc i = omega arith in
      let s' : Swept (suc i) last m = subst (λ b. Swept b last m) next s in
      elim (Bool-cases (m.mark i)) [
        | inl e ↦
            let lt = real i (ground (arith, s'.unhandled i)) in
            rw e (sweep-Swept l count i _ closed real (mark-Swept i last m closed e lt s'))
        | inr e ↦ rw e (sweep-Swept l count last m closed real (skip-Swept i last m e s'))
      ]
