-- ===== src/AsPath/Match/Decides.antt =====
-- as_path_match of nest/a-path.c against its state machine, item by item of the mask.
use bird.Common.{
  ℕ, ◌≤◌, ◌<◌, ◌≡◌, refl, sym, ap, ◌∙◌, Bool, true, false, ◌==◌, List, [], ◌∷◌, length, arith, inl,
  inr, some, none, ◌↔◌,
}
use mathlib.Core.Path.{subst}
use bird.AsPath.Match.{
  Position, MaskItem, pm_asn, pm_question, pm_asterisk, pm_loop, pm_asn_range, pm_asn_set, write,
  take_step, match_from,
}
use bird.AsPath.Match.Runs.{match_at-lt}
use bird.AsPath.Match.Chains.{Chain, Chain-match}
use bird.AsPath.Match.Items.{take_step_lem}
use bird.AsPath.Match.Masks.{
  is_step, Accepts, done, star, flag, step, flag_accepts, step_accepts, no_flag_accepts,
}
use bird.AsPath.Match.States.{
  Agree, IsState, IsStepped-IsState, any_later, later-IsState, later-Agree, inner-IsClosed,
  same-Agree, first-IsState,
}

module _ (ps : List Position) where
  from_step :
      (item : MaskItem) (mask : List MaskItem) (marks : ℕ → Bool) (l h : ℕ) (loop : Bool)
      → is_step item ≡ true
      → match_from ps (item ∷ mask) marks l h loop
        ≡ elim (take_step ps item (write marks (length ps) false) l h loop) [
          | none ↦ false
          | some (mark', l', h') ↦ match_from ps mask mark' l' h' false
        ]
  unfolding match_from is_step
  from_step (pm_asn a) mask marks l h loop e = refl
  from_step pm_question mask marks l h loop e = refl
  from_step pm_asterisk mask marks l h loop e = absurd (ground arith)
  from_step pm_loop mask marks l h loop e = absurd (ground arith)
  from_step (pm_asn_range a b) mask marks l h loop e = refl
  from_step (pm_asn_set t) mask marks l h loop e = refl

  -- The code on a mask decides whether it accepts from some state that is marked.
  Decides : List MaskItem → Bool → Type 0
  Decides mask loop =
      (marks states : ℕ → Bool) (l h : ℕ)
      → Agree ps mask marks states
      → IsState ps states l h
      → (match_from ps mask marks l h loop ≡ true)
        ↔ ((i : ℕ) × (states i ≡ true) × Accepts ps loop mask i)

  end-Decides : (loop : Bool) → Decides [] loop
  unfolding Decides Agree match_from
  end-Decides loop marks states l h ag st =
      (λ e. (length ps, sym ag ∙ e, done refl), λ (i, s, a). end_states i s a)
    where
      end_states : (i : ℕ) → states i ≡ true → Accepts ps loop [] i → marks (length ps) ≡ true
      end_states i s (done e) = ag ∙ ap states (sym e) ∙ s

  star_states :
      (loop : Bool) (mask : List MaskItem) (states : ℕ → Bool) (l h i : ℕ)
      → IsState ps states l h
      → states i ≡ true
      → Accepts ps loop (pm_asterisk ∷ mask) i
      → (k : ℕ) × (any_later ps l k ≡ true) × Accepts ps loop mask k
  unfolding any_later is_step
  star_states loop mask states l h i st s (star {k = k} le le' a) =
      (k, ground (arith, st.window i s), a)
  star_states loop mask states l h i st s (step e c a) = absurd (ground arith)

  star-Decides :
      (mask : List MaskItem) (loop : Bool) → Decides mask loop → Decides (pm_asterisk ∷ mask) loop
  unfolding Decides Agree match_from any_later
  star-Decides mask loop rest marks states l h ag st =
      let le : l ≤ length ps = omega (arith, (st.window l st.lowest).1, st.inside) in
      let now =
        rest _ (any_later ps l) l (length ps) (later-Agree ps mask marks states l h ag st)
          (later-IsState ps l le) in
      (
        λ e. let (k, later, a) = now.0 e in (l, st.lowest, star (ground arith) (ground arith) a),
        λ (i, s, a). now.1 (star_states loop mask states l h i st s a),
      )

  flag-Decides :
      (item : MaskItem) (mask : List MaskItem) (loop : Bool)
      → Decides (item ∷ mask) true
      → Decides (pm_loop ∷ item ∷ mask) loop
  unfolding Decides Agree match_from
  flag-Decides item mask loop rest marks states l h ag st =
      let now =
        rest (write marks (length ps) false) states l h (λ k ne. ground (arith, ag k ne)) st in
      (
        λ e. let (i, s, a) = now.0 e in (i, s, flag a),
        λ (i, s, a). now.1 (i, s, flag_accepts ps loop item mask i a),
      )

  last_flag-Decides : (loop : Bool) → Decides (pm_loop ∷ []) loop
  unfolding Decides match_from
  last_flag-Decides loop marks states l h ag st = (
    λ e. absurd (ground arith),
    λ (i, s, a). absurd (ground (arith, no_flag_accepts ps loop i a)),
  )

  step-Decides :
      (item : MaskItem) (mask : List MaskItem) (loop : Bool)
      → is_step item ≡ true
      → Decides mask false
      → Decides (item ∷ mask) loop
  unfolding Decides Agree
  step-Decides item mask loop e rest marks states l h ag st =
      let start = write marks (length ps) false in
      let inner : (p : ℕ) → start p ≡ true → (states p ≡ true) × (p < length ps) =
        λ p s. ground (arith, ag p, st.window p, st.inside) in
      let outer : (p k : ℕ) → states p ≡ true → Chain ps item loop p k → start p ≡ true =
        λ p k s c. ground (arith, ag p, match_at-lt ps item p (Chain-match ps item loop c)) in
      let taken =
        take_step_lem ps item loop start l h (inner-IsClosed ps states marks l h ag st)
          (λ p s. (inner p s).1) (λ p s. st.window p (inner p s).0)
          (omega (arith, (st.window l st.lowest).1)) st.inside in
      let opened = from_step item mask marks l h loop e in
      elim taken [
        | inl (none_left, unreached) ↦
            let run : match_from ps (item ∷ mask) marks l h loop ≡ false =
              opened ∙ rw none_left refl in
            (
              λ x. absurd (ground (arith, run)),
              λ (i, s, a).
                  let (k, c, b) = step_accepts ps loop item mask i e a in
                  absurd (ground (arith, outer i k s c, unreached i k c)),
            )
        | inr (mark, l', h', found, stepped) ↦
            let run : match_from ps (item ∷ mask) marks l h loop
                ≡ match_from ps mask mark l' h' false =
              opened ∙ rw found refl in
            let now =
              rest mark mark l' h' (same-Agree ps mask mark)
                (IsStepped-IsState ps item loop start mark l' h' stepped) in
            (
              λ x.
                  let (k, m, a) = now.0 (sym run ∙ x) in
                  let (p, from, c) = stepped.sound k m in (p, (inner p from).0, step e c a),
              λ (i, s, a).
                  let (k, c, b) = step_accepts ps loop item mask i e a in
                  run ∙ now.1 (k, stepped.complete i k (outer i k s c) c, b),
            )
      ]

  all-Decides : (mask : List MaskItem) (loop : Bool) → Decides mask loop
  unfolding is_step
  all-Decides [] loop = end-Decides loop
  all-Decides (pm_asterisk ∷ mask) loop = star-Decides mask loop (all-Decides mask loop)
  all-Decides (pm_loop ∷ []) loop = last_flag-Decides loop
  all-Decides (pm_loop ∷ item ∷ mask) loop =
      flag-Decides item mask loop (all-Decides (item ∷ mask) true)
  all-Decides (pm_question ∷ mask) loop =
      step-Decides pm_question mask loop refl (all-Decides mask false)
  all-Decides (pm_asn a ∷ mask) loop =
      step-Decides (pm_asn a) mask loop refl (all-Decides mask false)
  all-Decides (pm_asn_range a b ∷ mask) loop =
      step-Decides (pm_asn_range a b) mask loop refl (all-Decides mask false)
  all-Decides (pm_asn_set t ∷ mask) loop =
      step-Decides (pm_asn_set t) mask loop refl (all-Decides mask false)

  -- For the positions of every path and every mask, the marking of as_path_match accepts exactly if
  -- the state machine of Accepts leads from the first position to the one behind the last.
  pub match_from_iff :
      (mask : List MaskItem)
      → (match_from ps mask (λ k. k == 0) 0 0 false ≡ true) ↔ Accepts ps false mask 0
  unfolding Decides
  match_from_iff mask =
      let first : ℕ → Bool = λ k. k == 0 in
      let (to, back) =
        all-Decides mask false first first 0 0 (same-Agree ps mask first) (first-IsState ps) in
      (
        λ e. let (i, s, a) = to e in subst (λ x. Accepts ps false mask x) (ground arith) a,
        λ a. back (0, refl, a),
      )
