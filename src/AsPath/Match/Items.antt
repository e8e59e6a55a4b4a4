-- ===== src/AsPath/Match/Items.antt =====
-- One item of a mask in as_path_match of nest/a-path.c that the label `step` handles.
use bird.Common.{
  ℕ, suc, ◌+◌, ◌-◌, ◌≤◌, ◌<◌, ◌≡◌, refl, sym, ap, ◌∙◌, Bool, true, false, ltb, ◌==◌, List, length,
  arith, Bool-cases, inl, inr, ◌⊎◌, some, none,
}
use bird.AsPath.Match.{Position, MaskItem, set_at, Marks, sweep, take_step}
use bird.AsPath.Match.Runs.{stop, stop-ge, stop-same, next}
use bird.AsPath.Match.Chains.{Chain, once, more, Chain-ge}
use bird.AsPath.Match.Sweep.{IsClosed}
use bird.AsPath.Match.Rounds.{IsBounded}
use bird.AsPath.Match.Steps.{Swept, sweep-Swept}

module _ (ps : List Position) (item : MaskItem) (loop : Bool) where
  -- A chain into a run of sets leads to the end of the run as well.
  next_closed :
      (i p : ℕ) → next ps i (suc p) ≡ true → set_at ps p ≡ true → next ps i (stop ps (suc p)) ≡ true
  unfolding next
  next_closed i p n s = elim (Bool-cases (set_at ps i)) [
    | inl e ↦ rw e (ground (arith, stop-same ps i (suc p), stop-ge ps i))
    | inr e ↦ let same : p ≡ i = ground arith in absurd (ground (arith, ap (set_at ps) same))
  ]

  Chain-closed :
      {i : ℕ} (p : ℕ)
      → Chain ps item loop i (suc p)
      → set_at ps p ≡ true
      → Chain ps item loop i (stop ps (suc p))
  Chain-closed {i} p (once m n) s = once m (next_closed i p n s)
  Chain-closed p (more l m n c) s = more l m n (Chain-closed p c s)

  -- The marks after one step are what its chains lead to from the marks before, with their bounds.
  pub record IsStepped (start mark : ℕ → Bool) (l h : ℕ) : Type 0 where
    pub sound : (k : ℕ) → mark k ≡ true → (p : ℕ) × (start p ≡ true) × Chain ps item loop p k
    pub complete : (p k : ℕ) → start p ≡ true → Chain ps item loop p k → mark k ≡ true
    pub lowest : mark l ≡ true
    pub window : (k : ℕ) → mark k ≡ true → (l ≤ k) × (k ≤ h)
    pub inside : h ≤ length ps

  pub stepped-IsClosed :
      (start mark : ℕ → Bool) (l h : ℕ) → IsStepped start mark l h → IsClosed ps mark
  unfolding IsClosed
  stepped-IsClosed start mark l h st p m s s' =
      let (o, from, c) = st.sound (suc p) m in
      inl (st.complete o (stop ps (suc p)) from (Chain-closed p c s))

  module _ (start : ℕ → Bool) (l h : ℕ) (closed : IsClosed ps start)
      (real : (p : ℕ) → start p ≡ true → p < length ps)
      (window : (p : ℕ) → start p ≡ true → (l ≤ p) × (p ≤ h)) (le : l ≤ h)
      (inside : h ≤ length ps) where
    begin : Marks
    begin = record { mark = start; nl = none; nh = none }

    begin-Swept :
        (b : ℕ)
        → h ≤ b
        → b ≤ length ps
        → start b ≡ false
        → Swept ps item loop start b (length ps) begin
    unfolding begin IsBounded
    begin-Swept b above limit none_here =
        let below : (p : ℕ) → start p ≡ true → p < b = λ p f. elim (Bool-cases (p == b)) [
          | inl e ↦ let same : p ≡ b = ground arith in absurd (ground (arith, ap start same))
          | inr e ↦ ground (arith, window p f)
        ] in
        let clear : (k : ℕ) → b ≤ k → start k ≡ false = λ k g. elim (Bool-cases (start k)) [
          | inl f ↦ absurd (omega (arith, below k f))
          | inr f ↦ f
        ] in
        record {
          unhandled = λ k lt. refl;
          sound = λ k g f. absurd (omega (arith, below k f));
          complete = λ p k f g c. absurd (omega (arith, below p f));
          handled = inr refl;
          above = λ p f g. absurd (omega (arith, below p f));
          reached = limit;
          inside = omega arith;
          bounded = inl (refl, refl, clear);
        }

    outside : (b : ℕ) → (length ps ≤ b) ⊎ (h < b) → start b ≡ false
    outside b far = elim (Bool-cases (start b)) [
      | inl f ↦ absurd (ground (arith, far, real b f, window b f))
      | inr f ↦ f
    ]

    -- The loop over i begins at h or, where that is the last position, below it.
    swept :
        (last : ℕ) × Swept ps item loop start l last
          (sweep ps item loop l (suc h - l) (length ps) begin)
    unfolding begin sweep
    swept = elim (Bool-cases (h == length ps)) [
      | inl e ↦
          let c = length ps - l in
          let rounds : suc h - l ≡ suc c = ground arith in
          let top : l + c ≡ length ps = ground arith in
          let unmarked : start (l + c) ≡ false = outside (l + c) (inl (ground arith)) in
          rw rounds (
            rw unmarked (
              sweep-Swept ps item loop start l c (length ps) begin closed real
                (begin-Swept (l + c) (ground arith) (ground arith) unmarked)))
      | inr e ↦
          let b = l + (suc h - l) in
          let unmarked : start b ≡ false = outside b (inr (ground arith)) in
          sweep-Swept ps item loop start l (suc h - l) (length ps) begin closed real
            (begin-Swept b (ground arith) (ground arith) unmarked)
    ]

    -- The two results of a step: there is no chain, or the marks are those of all chains.
    pub take_step_lem :
        ((take_step ps item start l h loop ≡ none)
          × ((p k : ℕ) → Chain ps item loop p k → start p ≡ false))
        ⊎ ((mark : ℕ → Bool) × (l' : ℕ) × (h' : ℕ) × (take_step ps item start l h loop
              ≡ some (mark, l', h'))
            × IsStepped start mark l' h')
    unfolding take_step IsBounded begin
    take_step_lem =
        let (last, s) = swept in
        let m = sweep ps item loop l (suc h - l) (length ps) begin in
        elim s.bounded [
          | inl (e, f, none_marked) ↦ inl (
            rw (f, take_step) refl,
            λ p k c. elim (Bool-cases (start p)) [
              | inr g ↦ g
              | inl g ↦
                  let le' = (window p g).0 in
                  let clear = none_marked k (omega (arith, le', Chain-ge ps item loop c)) in
                  absurd (ground (arith, s.complete p k g le' c, clear))
            ],
          )
          | inr (a, b, e, f, at, low, high, all) ↦
              let above : (k : ℕ) → m.mark k ≡ true → l ≤ k = λ k g. elim (Bool-cases (ltb k l)) [
                | inl f2 ↦
                    let from : start k ≡ true = sym (s.unhandled k (ground arith)) ∙ g in
                    (window k from).0
                | inr f2 ↦ ground arith
              ] in
              inr (
                m.mark,
                a,
                b,
                rw (f, e, take_step) refl,
                record {
                  sound = λ k g. s.sound k (above k g) g;
                  complete = λ p k g c. s.complete p k g (window p g).0 c;
                  lowest = at;
                  window = λ k g. all k (above k g) g;
                  inside = high;
                },
              )
        ]
