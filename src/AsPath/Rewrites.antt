-- ===== src/AsPath/Rewrites.antt =====
-- What prepending, cutting, merging and stripping in nest/a-path.c make of the segments of a path.
use bird.Common.{
  ℕ, zero, suc, ◌-◌, ◌*◌, ◌≤◌, ◌<◌, ◌≡◌, refl, ◌==◌, ◌||◌, ◌&&◌, some, List, [], ◌∷◌, ◌++◌, length,
  take, arith, if◌then◌else◌, ltb, Bool-cases, inl, inr, length-take,
}
use native.Mathlib.Numerals.{add-one}
use mathlib.Core.List.{append-nil}
use bird.AsPath.{Segment, asn_bytes, encode, IsSegment, IsPath}
use bird.AsPath.Edit.{copy, as_path_prepend2, strip_from, cut_from}
use bird.AsPath.Segments.{drop-asns, copy-asns, four_suc}
use bird.AsPath.Lengths.{segment_length, length-encode_cons, metric_known}

-- The segments after a number is prepended in a segment of type `seq`.
unfoldable pub prepend_segments : List Segment → ℕ → ℕ → List Segment
prepend_segments [] seq asn = record { type = seq; asns = asn ∷ [] } ∷ []
prepend_segments (s ∷ segs) seq asn =
    if s.type == seq && ltb (length s.asns) 255
    then record { type = seq; asns = asn ∷ s.asns } ∷ segs
    else record { type = seq; asns = asn ∷ [] } ∷ s ∷ segs

pub prepend-encode :
    (segs : List Segment) (seq asn : ℕ)
    → as_path_prepend2 (encode segs) seq asn ≡ some (encode (prepend_segments segs seq asn))
unfolding as_path_prepend2 prepend_segments
prepend-encode [] seq asn = refl
prepend-encode (s ∷ segs) seq asn = elim (Bool-cases (s.type == seq && ltb (length s.asns) 255)) [
  | inl joins ↦
      rw joins (rw (copy-asns s.asns (encode segs), drop-asns s.asns (encode segs), add-one) refl)
  | inr new ↦ rw new refl
]

-- The segments that as_path_strip_confed keeps.
unfoldable pub regular_segments : List Segment → List Segment
regular_segments [] = []
regular_segments (s ∷ segs) =
    let rest = regular_segments segs in if s.type == 1 || s.type == 2 then s ∷ rest else rest

pub strip_from-encode :
    (segs : List Segment) (fuel : ℕ)
    → length (encode segs) < fuel
    → strip_from fuel (encode segs) ≡ some (encode (regular_segments segs))
unfolding strip_from regular_segments
strip_from-encode segs zero h = absurd (omega arith)
strip_from-encode [] (suc fuel) h = refl
strip_from-encode (s ∷ segs) (suc fuel) h =
    let ih = strip_from-encode segs fuel (omega (arith, length-encode_cons s segs)) in
    elim (Bool-cases (s.type == 1 || s.type == 2)) [
      | inl kept ↦
          rw (kept, strip_from)
            (rw (copy-asns s.asns (encode segs), drop-asns s.asns (encode segs), ih) refl)
      | inr left ↦ rw (left, strip_from) (rw (drop-asns s.asns (encode segs), ih) refl)
    ]

-- The segments that as_path_cut keeps for the length `num`.
unfoldable pub cut_segments : List Segment → ℕ → List Segment
cut_segments [] num = []
cut_segments (s ∷ segs) num =
    let rest = cut_segments segs (num - segment_length s) in
    if ltb num (segment_length s)
    then (if num == 0 then [] else record { type = s.type; asns = take num s.asns } ∷ [])
    else s ∷ rest

copy-take :
    (num : ℕ) (asns rest : List ℕ)
    → num ≤ length asns
    → copy (4 * num) (asn_bytes asns ++ rest) ≡ some (asn_bytes (take num asns))
unfolding copy
copy-take zero asns rest h = refl
copy-take (suc num) [] rest h = absurd (omega arith)
copy-take (suc num) (a ∷ asns) rest h =
    rw (four_suc num) (rw (copy-take num asns rest (omega arith)) refl)

pub length-take_le : (num : ℕ) (asns : List ℕ) → num ≤ length asns → length (take num asns) ≡ num
length-take_le num asns h = omega (arith, length-take num asns)

pub segment_length_le : (s : Segment) → IsSegment s → segment_length s ≤ length s.asns
segment_length_le s h = ground (arith, h.filled)

pub cut_from-encode :
    (segs : List Segment) (fuel num : ℕ)
    → IsPath segs
    → length (encode segs) < fuel
    → cut_from fuel (encode segs) num ≡ some (encode (cut_segments segs num))
unfolding cut_from cut_segments
cut_from-encode segs zero num p h = absurd (omega arith)
cut_from-encode [] (suc fuel) num p h = refl
cut_from-encode (s ∷ segs) (suc fuel) num p h =
    let ih =
      cut_from-encode segs fuel (num - segment_length s) p.1
        (omega (arith, length-encode_cons s segs)) in
    rw (metric_known s p.0, cut_from)
      (elim (Bool-cases (ltb num (segment_length s))) [
        | inl cut ↦
            let fits : num ≤ length s.asns = ground (arith, cut, segment_length_le s p.0) in
            rw cut (
              rw (copy-take num s.asns (encode segs) fits) (elim (Bool-cases (num == 0)) [
                | inl none' ↦ rw none' refl
                | inr some' ↦ rw (some', length-take_le num s.asns fits, append-nil) refl
              ]))
        | inr whole ↦
            rw whole (rw (copy-asns s.asns (encode segs), drop-asns s.asns (encode segs), ih) refl)
      ])
