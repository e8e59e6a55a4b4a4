-- ===== src/AsPath/Segments.antt =====
-- Bytes of encoded segments, for the proofs about nest/a-path.c.
use bird.Common.{
  ℕ, suc, ◌*◌, ◌/◌, ◌%◌, ◌^◌, ◌<◌, ◌≡◌, refl, some, List, [], ◌∷◌, ◌++◌, length, drop, arith,
}
use mathlib.Core.List.{append_assoc}
use bird.AsPath.{Segment, asn_bytes, encode, get_as}
use bird.AsPath.Edit.{copy}

pub four_suc : (n : ℕ) → 4 * suc n ≡ suc (suc (suc (suc (4 * n))))
four_suc n = omega arith

-- Skipping as many numbers as a segment has leads to what follows it.
pub drop-asns : (asns rest : List ℕ) → drop (4 * length asns) (asn_bytes asns ++ rest) ≡ rest
drop-asns [] rest = refl
drop-asns (a ∷ asns) rest = rw (four_suc (length asns)) (drop-asns asns rest)

pub copy-asns :
    (asns rest : List ℕ) → copy (4 * length asns) (asn_bytes asns ++ rest) ≡ some (asn_bytes asns)
unfolding copy
copy-asns [] rest = refl
copy-asns (a ∷ asns) rest = rw (four_suc (length asns)) (rw (copy-asns asns rest) refl)

pub get-put :
    (a : ℕ)
    → a < 2 ^ 32
    → get_as (a / 2 ^ 24 % 2 ^ 8) (a / 2 ^ 16 % 2 ^ 8) (a / 2 ^ 8 % 2 ^ 8) (a % 2 ^ 8) ≡ a
get-put a h = omega arith

pub length-asns : (asns : List ℕ) → length (asn_bytes asns) ≡ 4 * length asns
length-asns [] = refl
length-asns (a ∷ asns) = omega (arith, length-asns asns)

-- The bytes of a path from its first segment on.
pub encode-cons :
    (s : Segment) (segs : List Segment)
    → encode (s ∷ segs) ≡ s.type ∷ length s.asns ∷ (asn_bytes s.asns ++ encode segs)
encode-cons s segs = refl

pub encode-append : (xs ys : List Segment) → encode (xs ++ ys) ≡ encode xs ++ encode ys
encode-append [] ys = refl
encode-append (s ∷ xs) ys =
    rw (encode-append xs ys) (rw (append_assoc (asn_bytes s.asns) (encode xs) (encode ys)) refl)
