-- ===== src/AsPath/Accepts.antt =====
-- Which byte strings as_path_valid of nest/a-path.c accepts, for numbers of four bytes.
use bird.Common.{
  ℕ, zero, suc, ◌+◌, ◌*◌, ◌^◌, ◌≤◌, ◌<◌, ◌≡◌, ◌↔◌, refl, Bool, true, false, ◌==◌, none, List, [],
  ◌∷◌, ◌++◌, length, drop, arith, sym, ap, ap₂, ◌∙◌, ltb,
}
use bird.AsPath.{Segment, asn_bytes, encode, IsPath, AllAsns, put_as, get_as}
use bird.AsPath.Valid.{valid, type_problem, valid_from, as_path_valid}
use bird.AsPath.Segments.{drop-asns, four_suc}
use bird.AsPath.Lengths.{length-encode_cons}

abbrev pub AllBytes : List ℕ → Type 0
AllBytes [] = Unit
AllBytes (x ∷ xs) = (x < 256) × AllBytes xs

-- A type that may stand in a path: sets and confederations only where the caller admits them.
pub record IsAllowed (sets confed : Bool) (t : ℕ) : Type 0 where
  pub known : (1 ≤ t) × (t ≤ 4)
  pub set : (t ≡ 1) → sets ≡ true
  pub both : (t ≡ 4) → (sets ≡ true) × (confed ≡ true)
  pub sequence : (t ≡ 3) → confed ≡ true

abbrev pub AllAllowed : Bool → Bool → List Segment → Type 0
AllAllowed sets confed [] = Unit
AllAllowed sets confed (s ∷ segs) = IsAllowed sets confed s.type × AllAllowed sets confed segs

allowed→no_problem :
    (sets confed : Bool) (t : ℕ) → IsAllowed sets confed t → type_problem 4 sets confed t ≡ none
unfolding type_problem
allowed→no_problem sets confed t a = ground (arith, a.set, a.both, a.sequence, a.known)

no_problem→allowed :
    (sets confed : Bool) (t : ℕ) → type_problem 4 sets confed t ≡ none → IsAllowed sets confed t
unfolding type_problem
no_problem→allowed sets confed t h = ground arith

valid_from-encode :
    (sets confed : Bool) (segs : List Segment) (fuel at : ℕ)
    → IsPath segs
    → AllAllowed sets confed segs
    → length (encode segs) < fuel
    → valid_from 4 sets confed fuel (encode segs) at ≡ valid
unfolding valid_from
valid_from-encode sets confed segs zero at p a h = absurd (omega arith)
valid_from-encode sets confed [] (suc fuel) at p a h = refl
valid_from-encode sets confed (s ∷ segs) (suc fuel) at p a h =
    let slen = 2 + 4 * length s.asns in
    let ih =
      valid_from-encode sets confed segs fuel (at + slen) p.1 a.1
        (omega (arith, length-encode_cons s segs)) in
    let fits : ltb (length (encode (s ∷ segs))) slen ≡ false =
      ground (arith, length-encode_cons s segs) in
    let some' : (length s.asns == 0) ≡ false = ground (arith, p.0.filled) in
    rw (fits, valid_from)
      (rw (allowed→no_problem sets confed s.type a.0, valid_from)
        (rw some' (rw (drop-asns s.asns (encode segs)) ih)))

put-get :
    (a b c d : ℕ)
    → a < 256
    → b < 256
    → c < 256
    → d < 256
    → (put_as (get_as a b c d) ≡ a ∷ b ∷ c ∷ d ∷ []) × (get_as a b c d < 2 ^ 32)
put-get a b c d h i j k = (ground arith, omega arith)

-- The numbers in the first bytes of a string.
numbers_of :
    (n : ℕ) (p : List ℕ)
    → AllBytes p
    → 4 * n ≤ length p
    → (asns : List ℕ) × (length asns ≡ n) × AllAsns asns × (p ≡ asn_bytes asns ++ drop (4 * n) p)
numbers_of zero p w h = ([], refl, tt, refl)
numbers_of (suc n) [] w h = absurd (omega arith)
numbers_of (suc n) (a ∷ []) w h = absurd (omega arith)
numbers_of (suc n) (a ∷ b ∷ []) w h = absurd (omega arith)
numbers_of (suc n) (a ∷ b ∷ c ∷ []) w h = absurd (omega arith)
numbers_of (suc n) (a ∷ b ∷ c ∷ d ∷ p) w h =
    let (asns, e, f, g) = numbers_of n p w.1.1.1.1 (omega arith) in
    let (same, fits) = put-get a b c d w.0 w.1.0 w.1.1.0 w.1.1.1.0 in
    (
      get_as a b c d ∷ asns,
      ap suc e,
      (fits, f),
      rw (four_suc n) (ap₂ (λ (hd tl : List ℕ). hd ++ tl) (sym same) g),
    )

AllBytes-drop : (n : ℕ) (p : List ℕ) → AllBytes p → AllBytes (drop n p)
AllBytes-drop zero p w = w
AllBytes-drop (suc n) [] w = tt
AllBytes-drop (suc n) (x ∷ p) w = AllBytes-drop n p w.1

-- What the loop has checked when it accepts, for the segment at hand.
valid_step :
    (sets confed : Bool) (fuel t n : ℕ) (p : List ℕ) (at : ℕ)
    → valid_from 4 sets confed (suc fuel) (t ∷ n ∷ p) at ≡ valid
    → (4 * n ≤ length p)
      × (type_problem 4 sets confed t ≡ none)
      × (0 < n)
      × (valid_from 4 sets confed fuel (drop (4 * n) p) (at + (2 + 4 * n)) ≡ valid)
unfolding valid_from
valid_step sets confed fuel t n p at h = ground arith

valid_from-decode :
    (sets confed : Bool) (fuel : ℕ) (p : List ℕ) (at : ℕ)
    → AllBytes p
    → valid_from 4 sets confed fuel p at ≡ valid
    → (segs : List Segment) × IsPath segs × AllAllowed sets confed segs × (p ≡ encode segs)
unfolding valid_from
valid_from-decode sets confed zero p at w h = absurd (cc)
valid_from-decode sets confed (suc fuel) [] at w h = ([], tt, tt, refl)
valid_from-decode sets confed (suc fuel) (t ∷ []) at w h = absurd (cc)
valid_from-decode sets confed (suc fuel) (t ∷ n ∷ p) at w h =
    let (long, fine, filled, rest) = valid_step sets confed fuel t n p at h in
    let (asns, e, f, g) = numbers_of n p w.1.1 long in
    let a = no_problem→allowed sets confed t fine in
    let (segs, q, r, k) =
      valid_from-decode sets confed fuel (drop (4 * n) p) (at + (2 + 4 * n))
        (AllBytes-drop (4 * n) p w.1.1) rest in
    (
      record { type = t; asns = asns } ∷ segs,
      (
        record {
          known = a.known;
          filled = omega (arith, e, filled);
          counted = omega (arith, e, w.1.0);
          numbers = f;
        },
        q,
      ),
      (a, r),
      ap₂ (λ (m : ℕ) (l : List ℕ). t ∷ m ∷ l) (sym e)
          (g ∙ ap (λ (l : List ℕ). asn_bytes asns ++ l) k),
    )

-- as_path_valid accepts a string of bytes exactly if it is the encoding of segments that each have
-- a known type, allowed by the two arguments, and 1 to 255 numbers of 32 bits.
pub as_path_valid_iff :
    (path : List ℕ) (sets confed : Bool)
    → AllBytes path
    → (as_path_valid path 4 sets confed ≡ valid)
      ↔ ((segs : List Segment) × IsPath segs × AllAllowed sets confed segs × (path ≡ encode segs))
unfolding as_path_valid
as_path_valid_iff path sets confed w = (
  (λ h. valid_from-decode sets confed (suc (length path)) path 0 w h),
  (λ d.
      rw d.3
        (valid_from-encode sets confed d.0 (suc (length (encode d.0))) 0 d.1 d.2 (omega arith))),
)
