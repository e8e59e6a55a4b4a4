-- ===== src/AsPath/Effects.antt =====
-- Prepending, cutting, merging and stripping of nest/a-path.c, by what the readers of the same file
-- then find: validity, length, first number, confederations.
use bird.Common.{
  ℕ, zero, suc, ◌+◌, ◌-◌, ◌^◌, ◌≤◌, ◌<◌, ◌≡◌, refl, min, Bool, false, ◌==◌, ◌||◌, ◌&&◌, some, List,
  [], ◌∷◌, length, take, arith, sym, ap, ◌∙◌, ltb, Bool-cases, inl, inr,
}
use bird.AsPath.{Segment, encode, IsSegment, IsPath, AllAsns, path_sequence}
use bird.AsPath.Queries.{
  as_path_getlen, as_path_get_first, as_path_contains_confed, find_type, is_confed, found,
}
use bird.AsPath.Edit.{as_path_prepend2, as_path_strip_confed, as_path_cut}
use bird.AsPath.Segments.{get-put, drop-asns}
use bird.AsPath.Lengths.{segment_length, path_length, length-encode_cons, getlen-encode}
use bird.AsPath.Rewrites.{
  prepend_segments, prepend-encode, regular_segments, strip_from-encode, cut_segments,
  cut_from-encode, length-take_le, segment_length_le,
}

prepend_segments-IsPath :
    (segs : List Segment) (seq asn : ℕ)
    → IsPath segs
    → (1 ≤ seq) × (seq ≤ 4)
    → asn < 2 ^ 32
    → IsPath (prepend_segments segs seq asn)
unfolding prepend_segments
prepend_segments-IsPath [] seq asn p k b =
    (record { known = k; filled = omega arith; counted = omega arith; numbers = (b, tt) }, tt)
prepend_segments-IsPath (s ∷ segs) seq asn p k b =
    elim (Bool-cases (s.type == seq && ltb (length s.asns) 255)) [
      | inl joins ↦ rw joins (
          (
            record {
              known = k;
              filled = omega arith;
              counted = ground (arith, joins);
              numbers = (b, p.0.numbers);
            },
            p.1,
          ))
      | inr new ↦ rw new (
          (record { known = k; filled = omega arith; counted = omega arith; numbers = (b, tt) }, p))
    ]

prepend_segments-length :
    (segs : List Segment) (asn : ℕ)
    → path_length (prepend_segments segs 2 asn) ≡ path_length segs + 1
unfolding prepend_segments
prepend_segments-length [] asn = omega arith
prepend_segments-length (s ∷ segs) asn = ground arith

first-prepended :
    (segs : List Segment) (asn : ℕ)
    → asn < 2 ^ 32
    → as_path_get_first (encode (prepend_segments segs 2 asn)) ≡ found asn
unfolding prepend_segments as_path_get_first
first-prepended [] asn b = rw (get-put asn b) refl
first-prepended (s ∷ segs) asn b = elim (Bool-cases (s.type == 2 && ltb (length s.asns) 255)) [
  | inl joins ↦ rw joins (ground (arith, get-put asn b))
  | inr new ↦ rw new (ap found (get-put asn b))
]

-- as_path_prepend on a valid path: the result is a valid path, one longer, and begins with the
-- number prepended.
pub prepend_lem :
    (segs : List Segment) (asn : ℕ)
    → IsPath segs
    → asn < 2 ^ 32
    → (segs' : List Segment) × (as_path_prepend2 (encode segs) path_sequence asn
        ≡ some (encode segs'))
      × IsPath segs'
      × (as_path_getlen (encode segs') ≡ some (path_length segs + 1))
      × (as_path_get_first (encode segs') ≡ found asn)
prepend_lem segs asn p b =
    let segs' = prepend_segments segs 2 asn in
    let q = prepend_segments-IsPath segs 2 asn p (omega arith) b in
    (
      segs',
      prepend-encode segs 2 asn,
      q,
      getlen-encode segs' q ∙ ap some (prepend_segments-length segs asn),
      first-prepended segs asn b,
    )

AllAsns-take : (n : ℕ) (asns : List ℕ) → AllAsns asns → AllAsns (take n asns)
AllAsns-take zero asns h = tt
AllAsns-take (suc n) [] h = tt
AllAsns-take (suc n) (a ∷ asns) h = (h.0, AllAsns-take n asns h.1)

cut_segment :
    (s : Segment) (num : ℕ)
    → IsSegment s
    → 0 < num
    → num < segment_length s
    → IsSegment (record { type = s.type; asns = take num s.asns })
cut_segment s num h k m =
    let e = length-take_le num s.asns (omega (arith, segment_length_le s h)) in
    record {
      known = h.known;
      filled = omega (arith, e);
      counted = omega (arith, e, segment_length_le s h, h.counted);
      numbers = AllAsns-take num s.asns h.numbers;
    }

cut_segments-IsPath : (segs : List Segment) (num : ℕ) → IsPath segs → IsPath (cut_segments segs num)
unfolding cut_segments
cut_segments-IsPath [] num p = tt
cut_segments-IsPath (s ∷ segs) num p =
    let ih = cut_segments-IsPath segs (num - segment_length s) p.1 in
    elim (Bool-cases (ltb num (segment_length s))) [
      | inl cut ↦ elim (Bool-cases (num == 0)) [
        | inl none' ↦ rw (cut, none') tt
        | inr some' ↦
            rw (cut, some')
              ((cut_segment s num p.0 (ground (arith, some')) (ground (arith, cut)), tt))
      ]
      | inr whole ↦ rw whole ((p.0, ih))
    ]

cut_length :
    (s : Segment) (num : ℕ)
    → IsSegment s
    → 0 < num
    → num < segment_length s
    → segment_length (record { type = s.type; asns = take num s.asns }) ≡ num
cut_length s num h k m =
    ground (arith, length-take_le num s.asns (omega (arith, segment_length_le s h)))

cut_segments-length :
    (segs : List Segment) (num : ℕ)
    → IsPath segs
    → path_length (cut_segments segs num) ≡ min num (path_length segs)
unfolding cut_segments
cut_segments-length [] num p = omega arith
cut_segments-length (s ∷ segs) num p =
    let ih = cut_segments-length segs (num - segment_length s) p.1 in
    elim (Bool-cases (ltb num (segment_length s))) [
      | inl cut ↦ elim (Bool-cases (num == 0)) [
        | inl none' ↦ rw (cut, none') (ground (arith, none'))
        | inr some' ↦
            let e = cut_length s num p.0 (ground (arith, some')) (ground (arith, cut)) in
            rw (cut, some') (ground (arith, e, cut))
      ]
      | inr whole ↦ rw whole (ground (arith, whole, ih))
    ]

-- as_path_cut on a valid path: the result is a valid path, as long as asked for or as the whole
-- path if that is shorter.
pub cut_lem :
    (segs : List Segment) (num : ℕ)
    → IsPath segs
    → (segs' : List Segment) × (as_path_cut (encode segs) num ≡ some (encode segs'))
      × IsPath segs'
      × (as_path_getlen (encode segs') ≡ some (min num (path_length segs)))
unfolding as_path_cut
cut_lem segs num p =
    let segs' = cut_segments segs num in
    let q = cut_segments-IsPath segs num p in
    (
      segs',
      cut_from-encode segs (suc (length (encode segs))) num p (omega arith),
      q,
      getlen-encode segs' q ∙ ap some (cut_segments-length segs num p),
    )

regular_segments-IsPath : (segs : List Segment) → IsPath segs → IsPath (regular_segments segs)
unfolding regular_segments
regular_segments-IsPath [] p = tt
regular_segments-IsPath (s ∷ segs) p =
    let ih = regular_segments-IsPath segs p.1 in
    elim (Bool-cases (s.type == 1 || s.type == 2)) [
      | inl kept ↦ rw kept ((p.0, ih))
      | inr left ↦ rw left ih
    ]

regular_segments-length :
    (segs : List Segment) → path_length (regular_segments segs) ≡ path_length segs
unfolding regular_segments
regular_segments-length [] = refl
regular_segments-length (s ∷ segs) = ground (arith, regular_segments-length segs)

-- Whether some segment has a wanted type.
abbrev pub has_type : (ℕ → Bool) → List Segment → Bool
has_type wanted [] = false
has_type wanted (s ∷ segs) = wanted s.type || has_type wanted segs

find_type-encode :
    (wanted : ℕ → Bool) (segs : List Segment) (fuel : ℕ)
    → length (encode segs) < fuel
    → find_type wanted fuel (encode segs) ≡ some (has_type wanted segs)
unfolding find_type
find_type-encode wanted segs zero h = absurd (omega arith)
find_type-encode wanted [] (suc fuel) h = refl
find_type-encode wanted (s ∷ segs) (suc fuel) h =
    let ih = find_type-encode wanted segs fuel (omega (arith, length-encode_cons s segs)) in
    elim (Bool-cases (wanted s.type)) [
      | inl hit ↦ rw (hit, find_type) refl
      | inr miss ↦ rw (miss, find_type) (rw (drop-asns s.asns (encode segs), ih) refl)
    ]

regular-confed : (segs : List Segment) → has_type is_confed (regular_segments segs) ≡ false
unfolding regular_segments
regular-confed [] = refl
regular-confed (s ∷ segs) = ground (arith, regular-confed segs)

-- as_path_strip_confed on a valid path: the result is a valid path of the same length in which
-- as_path_contains_confed finds no confederation.
pub strip_confed_lem :
    (segs : List Segment)
    → IsPath segs
    → (segs' : List Segment) × (as_path_strip_confed (encode segs) ≡ some (encode segs'))
      × IsPath segs'
      × (as_path_getlen (encode segs') ≡ as_path_getlen (encode segs))
      × (as_path_contains_confed (encode segs') ≡ some false)
unfolding as_path_strip_confed as_path_contains_confed
strip_confed_lem segs p =
    let segs' = regular_segments segs in
    let q = regular_segments-IsPath segs p in
    (
      segs',
      strip_from-encode segs (suc (length (encode segs))) (omega arith),
      q,
      getlen-encode segs' q ∙ ap some (regular_segments-length segs) ∙ sym (getlen-encode segs p),
      find_type-encode is_confed segs' (suc (length (encode segs'))) (omega arith)
          ∙ ap some (regular-confed segs),
    )
