-- ===== src/AsPath/Match/States.antt =====
-- The states that the marks of as_path_match of nest/a-path.c stand for.
use bird.Common.{
  ℕ, suc, ◌≤◌, ◌≡◌, ◌≢◌, refl, Bool, true, false, leb, ◌==◌, ◌||◌, ◌&&◌, List, [], ◌∷◌, length,
  arith, Bool-cases, inl, inr,
}
use bird.AsPath.Match.{Position, MaskItem, write}
use bird.AsPath.Match.Runs.{set_at-lt, stop, stop-ge, stop-le}
use bird.AsPath.Match.Sweep.{IsClosed}
use bird.AsPath.Match.Items.{IsStepped, stepped-IsClosed}

-- The marks of the code against the states they stand for: the mark of the last position may have
-- been removed by a loop, unless the mask is at its end.
unfoldable pub Agree : List Position → List MaskItem → (ℕ → Bool) → (ℕ → Bool) → Type 0
Agree ps [] mark states = mark (length ps) ≡ states (length ps)
Agree ps (item ∷ mask) mark states = (k : ℕ) → k ≢ length ps → mark k ≡ states k

pub record IsState (ps : List Position) (states : ℕ → Bool) (l h : ℕ) : Type 0 where
  pub lowest : states l ≡ true
  pub window : (k : ℕ) → states k ≡ true → (l ≤ k) × (k ≤ h)
  pub inside : h ≤ length ps
  pub closed : IsClosed ps states

module _ (ps : List Position) where
  pub IsStepped-IsState :
      (item : MaskItem) (loop : Bool) (start mark : ℕ → Bool) (l h : ℕ)
      → IsStepped ps item loop start mark l h
      → IsState ps mark l h
  IsStepped-IsState item loop start mark l h st = record {
    lowest = st.lowest;
    window = st.window;
    inside = st.inside;
    closed = stepped-IsClosed ps item loop start mark l h st;
  }

  unfoldable pub any_later : ℕ → ℕ → Bool
  any_later l k = leb l k && leb k (length ps)

  pub later-IsState : (l : ℕ) → l ≤ length ps → IsState ps (any_later l) l (length ps)
  unfolding any_later IsClosed
  later-IsState l le = record {
    lowest = ground arith;
    window = λ k e. ground arith;
    inside = omega arith;
    closed = λ p m s s'.
        inl (ground (arith, stop-ge ps (suc p), stop-le ps (suc p), set_at-lt ps (suc p)));
  }

  pub later-Agree :
      (mask : List MaskItem) (marks states : ℕ → Bool) (l h : ℕ)
      → ((k : ℕ) → k ≢ length ps → marks k ≡ states k)
      → IsState ps states l h
      → Agree ps mask
          (λ k. leb l k && leb k (length ps) || write marks (length ps) false k)
          (any_later l)
  unfolding Agree any_later
  later-Agree [] marks states l h ag st = ground arith
  later-Agree (x ∷ mask) marks states l h ag st =
      λ k ne. ground (arith, ag k ne, st.window k, st.inside)

  -- The states that are left when the mark of the last position is removed.
  pub inner-IsClosed :
      (states marks : ℕ → Bool) (l h : ℕ)
      → ((k : ℕ) → k ≢ length ps → marks k ≡ states k)
      → IsState ps states l h
      → IsClosed ps (write marks (length ps) false)
  unfolding IsClosed
  inner-IsClosed states marks l h ag st p m s s' =
      let from : states (suc p) ≡ true = ground (arith, ag (suc p)) in
      elim (Bool-cases (stop ps (suc p) == length ps)) [
        | inl e ↦ inr (ground arith)
        | inr e ↦ inl (ground (arith, st.closed p from s s', ag (stop ps (suc p))))
      ]

  pub same-Agree : (mask : List MaskItem) (mark : ℕ → Bool) → Agree ps mask mark mark
  unfolding Agree
  same-Agree [] mark = refl
  same-Agree (x ∷ mask) mark = λ k ne. refl

  pub first-IsState : IsState ps (λ k. k == 0) 0 0
  unfolding IsClosed
  first-IsState = record {
    lowest = refl;
    window = λ k e. ground arith;
    inside = omega arith;
    closed = λ p m s s'. absurd (ground arith);
  }
