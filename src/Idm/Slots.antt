-- ===== src/Idm/Slots.antt =====
-- The array of words of lib/idm.c: reads after a write, the number of bits set in it, and the search
-- for a word that is not full.
use bird.Common.{
  ℕ, zero, suc, ◌+◌, ◌-◌, ◌*◌, ◌≤◌, ◌<◌, ◌≡◌, ◌≢◌, refl, sym, ap, ◌∙◌, min, ◌==◌, some, none, List,
  [], ◌∷◌, ◌++◌, arith, Bool-cases, inl, inr, length, get_elem?, get_or, set, take, drop, replicate,
  take-append-drop, length-drop, length-take,
}
use bird.Idm.{find_from}
use bird.Idm.Bits.{popcount, popcount-zero, popcount-le}

abbrev pub full : ℕ
full = 0xffffffff

module _ {ℓ} {A : Type ℓ} where
  pub get_or-set_self :
      (xs : List A) (i : ℕ) (v d : A) → i < length xs → get_or (set xs i v) i d ≡ v
  get_or-set_self [] i v d h = absurd (omega arith)
  get_or-set_self (x ∷ xs) zero v d h = refl
  get_or-set_self (x ∷ xs) (suc i) v d h = get_or-set_self xs i v d (omega arith)

  pub get_or-set_ne :
      (xs : List A) (i j : ℕ) (v d : A) → i ≢ j → get_or (set xs i v) j d ≡ get_or xs j d
  get_or-set_ne [] i j v d h = refl
  get_or-set_ne (x ∷ xs) zero zero v d h = absurd (h refl)
  get_or-set_ne (x ∷ xs) zero (suc j) v d h = refl
  get_or-set_ne (x ∷ xs) (suc i) zero v d h = refl
  get_or-set_ne (x ∷ xs) (suc i) (suc j) v d h = get_or-set_ne xs i j v d (λ e. h (ap suc e))

  pub get_elem?-get_or :
      (xs : List A) (i : ℕ) (d : A) → i < length xs → get_elem? xs i ≡ some (get_or xs i d)
  get_elem?-get_or [] i d h = absurd (omega arith)
  get_elem?-get_or (x ∷ xs) zero d h = refl
  get_elem?-get_or (x ∷ xs) (suc i) d h = get_elem?-get_or xs i d (omega arith)

  pub get_or-beyond : (xs : List A) (i : ℕ) (d : A) → length xs ≤ i → get_or xs i d ≡ d
  get_or-beyond [] i d h = refl
  get_or-beyond (x ∷ xs) zero d h = absurd (omega arith)
  get_or-beyond (x ∷ xs) (suc i) d h = get_or-beyond xs i d (omega arith)

  pub get_or-replicate : (n i : ℕ) (d : A) → get_or (replicate n d) i d ≡ d
  get_or-replicate zero i d = refl
  get_or-replicate (suc n) zero d = refl
  get_or-replicate (suc n) (suc i) d = get_or-replicate n i d

  pub get_or-grown :
      (xs : List A) (n i : ℕ) (d : A) → get_or (xs ++ replicate n d) i d ≡ get_or xs i d
  get_or-grown [] n i d = get_or-replicate n i d
  get_or-grown (x ∷ xs) n zero d = refl
  get_or-grown (x ∷ xs) n (suc i) d = get_or-grown xs n i d

  pub take-all : (n : ℕ) (xs : List A) → length xs ≤ n → take n xs ≡ xs
  take-all zero [] h = refl
  take-all zero (x ∷ xs) h = absurd (omega arith)
  take-all (suc n) [] h = refl
  take-all (suc n) (x ∷ xs) h = rw (take-all n xs (omega arith)) refl

  get_or-drop : (n i : ℕ) (xs : List A) (d : A) → get_or (drop n xs) i d ≡ get_or xs (n + i) d
  get_or-drop zero i xs d = ap (λ k. get_or xs k d) (omega arith)
  get_or-drop (suc n) i [] d = refl
  get_or-drop (suc n) i (x ∷ xs) d =
      let e : suc n + i ≡ suc (n + i) = omega arith in rw (e, get_or-drop n i xs d) refl

  get_or-take :
      (n i : ℕ) (xs : List A) (d : A)
      → i < length (take n xs)
      → get_or (take n xs) i d ≡ get_or xs i d
  get_or-take zero i xs d h = absurd (omega arith)
  get_or-take (suc n) i [] d h = refl
  get_or-take (suc n) zero (x ∷ xs) d h = refl
  get_or-take (suc n) (suc i) (x ∷ xs) d h = get_or-take n i xs d (omega arith)

-- The number of bits set in the array.
unfoldable pub total : List ℕ → ℕ
total [] = 0
total (w ∷ ws) = popcount 32 w + total ws

pub total-set :
    (ws : List ℕ) (i v : ℕ)
    → i < length ws
    → total (set ws i v) + popcount 32 (get_or ws i 0) ≡ total ws + popcount 32 v
unfolding total
total-set [] i v h = absurd (omega arith)
total-set (w ∷ ws) zero v h = omega arith
total-set (w ∷ ws) (suc i) v h = omega (arith, total-set ws i v (omega arith))

total-append : (ws vs : List ℕ) → total (ws ++ vs) ≡ total ws + total vs
unfolding total
total-append [] vs = omega arith
total-append (w ∷ ws) vs = omega (arith, total-append ws vs)

pub total-replicate : (n : ℕ) → total (replicate n 0) ≡ 0
unfolding total
total-replicate zero = refl
total-replicate (suc n) = omega (arith, total-replicate n, popcount-zero 32)

pub total-grown : (ws : List ℕ) (n : ℕ) → total (ws ++ replicate n 0) ≡ total ws
total-grown ws n = omega (arith, total-append ws (replicate n 0), total-replicate n)

pub total-le : (ws : List ℕ) → total ws ≤ 32 * length ws
unfolding total
total-le [] = omega arith
total-le (w ∷ ws) = omega (arith, total-le ws, popcount-le 32 w)

popcount-full : popcount 32 full ≡ 32
unfolding popcount
popcount-full = refl

-- The search ends with the index of a word that is not full, or all words are full.
find_from-some :
    (ws : List ℕ) (i k : ℕ)
    → find_from ws i ≡ some k
    → (i ≤ k) × (k < i + length ws) × (get_or ws (k - i) 0 ≢ full)
unfolding find_from
find_from-some [] i k h = absurd (ground arith)
find_from-some (w ∷ ws) i k h = elim (Bool-cases (w == full)) [
  | inl e ↦
      let next : find_from ws (suc i) ≡ some k = ground arith in
      let (le, lt, ne) = find_from-some ws (suc i) k next in
      let step : k - i ≡ suc (k - suc i) = omega arith in (omega arith, omega arith, rw step ne)
  | inr e ↦
      let here : i ≡ k = ground arith in
      let start : k - i ≡ 0 = omega arith in
      (omega arith, omega arith, rw start (λ f. absurd (ground arith)))
]

find_from-none : (ws : List ℕ) (i : ℕ) → find_from ws i ≡ none → total ws ≡ 32 * length ws
unfolding find_from total
find_from-none [] i h = refl
find_from-none (w ∷ ws) i h = elim (Bool-cases (w == full)) [
  | inl e ↦
      let next : find_from ws (suc i) ≡ none = ground arith in
      let whole : w ≡ full = ground arith in
      ground (arith, find_from-none ws (suc i) next, popcount-full, ap (popcount 32) whole)
  | inr e ↦ absurd (ground arith)
]

-- The same for a part of the array, from `lo` to before `hi`.
pub find_part_some :
    (ws : List ℕ) (lo hi k : ℕ)
    → find_from (take (hi - lo) (drop lo ws)) lo ≡ some k
    → (lo ≤ k) × (k < hi) × (k < length ws) × (get_or ws k 0 ≢ full)
find_part_some ws lo hi k h =
    let part = take (hi - lo) (drop lo ws) in
    let (le, lt, ne) = find_from-some part lo k h in
    let size : length part ≡ min (hi - lo) (length ws - lo) =
      ground (arith, length-take (hi - lo) (drop lo ws), length-drop lo ws) in
    let inside : k - lo < length part = omega arith in
    let same : get_or part (k - lo) 0 ≡ get_or ws (lo + (k - lo)) 0 =
      get_or-take (hi - lo) (k - lo) (drop lo ws) 0 inside ∙ get_or-drop lo (k - lo) ws 0 in
    let back : lo + (k - lo) ≡ k = omega arith in
    (le, omega arith, omega arith, λ f. ne (same ∙ ap (λ j. get_or ws j 0) back ∙ f))

pub find_parts_none :
    (ws : List ℕ) (pos : ℕ)
    → pos ≤ length ws
    → find_from (take (length ws - pos) (drop pos ws)) pos ≡ none
    → find_from (take pos ws) 0 ≡ none
    → total ws ≡ 32 * length ws
find_parts_none ws pos le upper lower =
    let whole : take (length ws - pos) (drop pos ws) ≡ drop pos ws =
      take-all (length ws - pos) (drop pos ws) (omega (arith, length-drop pos ws)) in
    let high : total (drop pos ws) ≡ 32 * length (drop pos ws) =
      find_from-none (drop pos ws) pos (rw (sym whole) upper) in
    let low = find_from-none (take pos ws) 0 lower in
    let split =
      ap total (sym (take-append-drop pos ws)) ∙ total-append (take pos ws) (drop pos ws) in
    omega (arith, high, low, split, length-take pos ws, length-drop pos ws)
