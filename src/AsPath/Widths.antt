-- ===== src/AsPath/Widths.antt =====
-- The conversions of nest/a-path.c between paths with numbers of two and of four bytes.
use bird.Common.{
  ℕ, zero, suc, ◌+◌, ◌*◌, ◌/◌, ◌%◌, ◌^◌, ◌<◌, ◌≡◌, refl, some, List, [], ◌∷◌, ◌++◌, length, arith,
  length-append,
}
use bird.AsPath.{Segment, asn_bytes, encode}
use bird.AsPath.Edit.{
  put_u16, widen_numbers, widen_from, as_path_16to32, narrow_numbers, narrow_from, as_path_32to16,
}
use bird.AsPath.Segments.{get-put}
use bird.AsPath.Lengths.{length-encode_cons}

-- A path whose numbers take two bytes each.
abbrev pub asn16_bytes : List ℕ → List ℕ
asn16_bytes [] = []
asn16_bytes (a ∷ asns) = put_u16 a ++ asn16_bytes asns

abbrev pub encode16 : List Segment → List ℕ
encode16 [] = []
encode16 (s ∷ segs) = s.type ∷ length s.asns ∷ asn16_bytes s.asns ++ encode16 segs

abbrev pub AllNarrow : List ℕ → Type 0
AllNarrow [] = Unit
AllNarrow (a ∷ asns) = (a < 2 ^ 16) × AllNarrow asns

abbrev pub IsNarrow : List Segment → Type 0
IsNarrow [] = Unit
IsNarrow (s ∷ segs) = AllNarrow s.asns × IsNarrow segs

get-put16 : (a : ℕ) → a < 2 ^ 16 → (a / 2 ^ 8 % 2 ^ 8) * 2 ^ 8 + a % 2 ^ 8 ≡ a
get-put16 a h = omega arith

narrow_numbers-asns :
    (asns rest : List ℕ)
    → AllNarrow asns
    → narrow_numbers (length asns) (asn_bytes asns ++ rest) ≡ some (asn16_bytes asns, rest)
unfolding narrow_numbers
narrow_numbers-asns [] rest w = refl
narrow_numbers-asns (a ∷ asns) rest w =
    rw (get-put a (omega (arith, w.0)), narrow_numbers-asns asns rest w.1) refl

widen_numbers-asns :
    (asns rest : List ℕ)
    → AllNarrow asns
    → widen_numbers (length asns) (asn16_bytes asns ++ rest) ≡ some (asn_bytes asns, rest)
unfolding widen_numbers
widen_numbers-asns [] rest w = refl
widen_numbers-asns (a ∷ asns) rest w = rw (get-put16 a w.0, widen_numbers-asns asns rest w.1) refl

length-asns16 : (asns : List ℕ) → length (asn16_bytes asns) ≡ 2 * length asns
length-asns16 [] = refl
length-asns16 (a ∷ asns) = omega (arith, length-asns16 asns)

length-encode16 :
    (s : Segment) (segs : List Segment)
    → length (encode16 (s ∷ segs)) ≡ 2 + 2 * length s.asns + length (encode16 segs)
length-encode16 s segs =
    omega (arith, length-append (asn16_bytes s.asns) (encode16 segs), length-asns16 s.asns)

narrow_from-encode :
    (segs : List Segment) (fuel : ℕ)
    → IsNarrow segs
    → length (encode segs) < fuel
    → narrow_from fuel (encode segs) ≡ some (encode16 segs)
unfolding narrow_from
narrow_from-encode segs zero w h = absurd (omega arith)
narrow_from-encode [] (suc fuel) w h = refl
narrow_from-encode (s ∷ segs) (suc fuel) w h =
    let ih = narrow_from-encode segs fuel w.1 (omega (arith, length-encode_cons s segs)) in
    rw (narrow_numbers-asns s.asns (encode segs) w.0, narrow_from) (rw ih refl)

widen_from-encode :
    (segs : List Segment) (fuel : ℕ)
    → IsNarrow segs
    → length (encode16 segs) < fuel
    → widen_from fuel (encode16 segs) ≡ some (encode segs)
unfolding widen_from
widen_from-encode segs zero w h = absurd (omega arith)
widen_from-encode [] (suc fuel) w h = refl
widen_from-encode (s ∷ segs) (suc fuel) w h =
    let ih = widen_from-encode segs fuel w.1 (omega (arith, length-encode16 s segs)) in
    rw (widen_numbers-asns s.asns (encode16 segs) w.0, widen_from) (rw ih refl)

-- On segments whose numbers fit 16 bits the two conversions are inverse to one another: the path
-- with four bytes for a number becomes that with two, and back.
pub width_roundtrip :
    (segs : List Segment)
    → IsNarrow segs
    → (as_path_32to16 (encode segs) ≡ some (encode16 segs))
      × (as_path_16to32 (encode16 segs) ≡ some (encode segs))
unfolding as_path_32to16 as_path_16to32
width_roundtrip segs w = (
  narrow_from-encode segs (suc (length (encode segs))) w (omega arith),
  widen_from-encode segs (suc (length (encode16 segs))) w (omega arith),
)
