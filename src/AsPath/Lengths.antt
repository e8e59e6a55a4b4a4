-- ===== src/AsPath/Lengths.antt =====
-- The length of a path, the metric of as_path_getlen in nest/a-path.c, and how prepending, cutting,
-- merging and stripping change it.
use bird.Common.{
  ℕ, zero, suc, ◌+◌, ◌*◌, ◌<◌, ◌≡◌, ◌==◌, some, List, [], ◌∷◌, length, arith, if◌then◌else◌, ap,
  ◌∙◌, length-append,
}
use native.Mathlib.Nat.{zero-add}
use bird.AsPath.{Segment, asn_bytes, encode, IsSegment, IsPath}
use bird.AsPath.Queries.{metric, getlen_from, as_path_getlen}
use bird.AsPath.Segments.{drop-asns, length-asns}

abbrev pub segment_length : Segment → ℕ
segment_length s = if s.type == 1 then 1 else if s.type == 2 then length s.asns else 0

-- The length by the segments: a set counts as one, a confederation not at all.
abbrev pub path_length : List Segment → ℕ
path_length [] = 0
path_length (s ∷ segs) = segment_length s + path_length segs

pub metric_known :
    (s : Segment) → IsSegment s → metric s.type (length s.asns) ≡ some (segment_length s)
metric_known s h = ground (arith, h.known)

pub length-encode_cons :
    (s : Segment) (segs : List Segment)
    → length (encode (s ∷ segs)) ≡ 2 + 4 * length s.asns + length (encode segs)
length-encode_cons s segs =
    omega (arith, length-append (asn_bytes s.asns) (encode segs), length-asns s.asns)

getlen_from-encode :
    (segs : List Segment) (fuel res : ℕ)
    → IsPath segs
    → length (encode segs) < fuel
    → getlen_from fuel res (encode segs) ≡ some (res + path_length segs)
unfolding getlen_from
getlen_from-encode segs zero res p h = absurd (omega arith)
getlen_from-encode [] (suc fuel) res p h = ground arith
getlen_from-encode (s ∷ segs) (suc fuel) res p h =
    let ih =
      getlen_from-encode segs fuel (res + segment_length s) p.1
        (omega (arith, length-encode_cons s segs)) in
    rw (metric_known s p.0, getlen_from) (rw (drop-asns s.asns (encode segs)) (ground (arith, ih)))

-- On every valid path as_path_getlen returns the length by the segments.
pub getlen-encode :
    (segs : List Segment) → IsPath segs → as_path_getlen (encode segs) ≡ some (path_length segs)
unfolding as_path_getlen
getlen-encode segs p =
    getlen_from-encode segs (suc (length (encode segs))) 0 p (omega arith) ∙ ap some (zero-add _)
