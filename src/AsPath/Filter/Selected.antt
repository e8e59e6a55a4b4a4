-- ===== src/AsPath/Filter/Selected.antt =====
-- The segments that as_path_filter of nest/a-path.c leaves of a valid path, with their bytes.
use bird.Common.{
  ℕ, zero, suc, ◌<◌, ◌≤◌, ◌≡◌, refl, Bool, ◌==◌, some, List, [], ◌∷◌, ◌++◌, length, arith,
  if◌then◌else◌, Bool-cases, inl, inr,
}
use bird.AsPath.{Segment, asn_bytes, encode, AllAsns, IsPath}
use bird.AsPath.Segments.{get-put}
use bird.AsPath.Lengths.{length-encode_cons}
use bird.AsPath.Filter.{filter_numbers, filter_from}

abbrev pub select : (ℕ → Bool) → List ℕ → List ℕ
select keep [] = []
select keep (a ∷ asns) = if keep a then a ∷ select keep asns else select keep asns

-- The segments with the numbers that are kept, those without any left out.
unfoldable pub kept_segments : (ℕ → Bool) → List Segment → List Segment
kept_segments keep [] = []
kept_segments keep (s ∷ segs) =
    let rest = kept_segments keep segs in
    let asns = select keep s.asns in
    if length asns == 0 then rest else record { type = s.type; asns = asns } ∷ rest

filter_numbers-asns :
    (keep : ℕ → Bool) (asns rest : List ℕ)
    → AllAsns asns
    → filter_numbers keep (length asns) (asn_bytes asns ++ rest)
      ≡ some (asn_bytes (select keep asns), length (select keep asns), rest)
unfolding filter_numbers
filter_numbers-asns keep [] rest all = refl
filter_numbers-asns keep (a ∷ asns) rest (fits, all) = elim (Bool-cases (keep a)) [
  | inl e ↦ rw (filter_numbers-asns keep asns rest all, get-put a fits, e) refl
  | inr e ↦ rw (filter_numbers-asns keep asns rest all, get-put a fits, e) refl
]

pub filter_from-encode :
    (keep : ℕ → Bool) (segs : List Segment) (fuel : ℕ)
    → IsPath segs
    → length (encode segs) < fuel
    → filter_from keep fuel (encode segs) ≡ some (encode (kept_segments keep segs))
unfolding filter_from kept_segments
filter_from-encode keep segs zero p h = absurd (omega arith)
filter_from-encode keep [] (suc fuel) p h = refl
filter_from-encode keep (s ∷ segs) (suc fuel) (v, p) h =
    let ih = filter_from-encode keep segs fuel p (omega (arith, length-encode_cons s segs)) in
    let numbers = filter_numbers-asns keep s.asns (encode segs) v.numbers in
    elim (Bool-cases (length (select keep s.asns) == 0)) [
      | inl e ↦ rw (numbers, filter_from) (rw (ih, e) refl)
      | inr e ↦ rw (numbers, filter_from) (rw (ih, e) refl)
    ]

select-le : (keep : ℕ → Bool) (asns : List ℕ) → length (select keep asns) ≤ length asns
select-le keep [] = omega arith
select-le keep (a ∷ asns) = ground (arith, select-le keep asns)

select-AllAsns : (keep : ℕ → Bool) (asns : List ℕ) → AllAsns asns → AllAsns (select keep asns)
select-AllAsns keep [] all = tt
select-AllAsns keep (a ∷ asns) (fits, all) = elim (Bool-cases (keep a)) [
  | inl e ↦ rw e ((fits, select-AllAsns keep asns all))
  | inr e ↦ rw e (select-AllAsns keep asns all)
]

pub kept-IsPath :
    (keep : ℕ → Bool) (segs : List Segment) → IsPath segs → IsPath (kept_segments keep segs)
unfolding kept_segments
kept-IsPath keep [] p = tt
kept-IsPath keep (s ∷ segs) (v, p) = elim (Bool-cases (length (select keep s.asns) == 0)) [
  | inl e ↦ rw e (kept-IsPath keep segs p)
  | inr e ↦ rw e (
      (
        record {
          known = v.known;
          filled = ground arith;
          counted = omega (arith, select-le keep s.asns, v.counted);
          numbers = select-AllAsns keep s.asns v.numbers;
        },
        kept-IsPath keep segs p,
      ))
]
