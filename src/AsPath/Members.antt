-- ===== src/AsPath/Members.antt =====
-- The numbers in a path: as_path_contains, as_path_contains_as4 and as_path_to_old of nest/a-path.c.
use bird.Common.{
  ℕ, zero, suc, ◌+◌, ◌<◌, ◌≡◌, refl, Bool, false, ◌==◌, ◌||◌, some, List, [], ◌∷◌, ◌++◌, length,
  arith, if◌then◌else◌, sym, ap, ◌∙◌, ltb, leb, Bool-cases, inl, inr,
}
use native.Mathlib.Nat.{zero-add, add_assoc}
use bird.AsPath.{Segment, asn_bytes, encode, IsPath, AllAsns, as_trans}
use bird.AsPath.Queries.{
  hit, miss, scan_numbers, contains_from, as_path_contains, scan_as4, contains_as4_from,
  as_path_contains_as4, as_path_getlen,
}
use bird.AsPath.Edit.{old_numbers, to_old_from, as_path_to_old}
use bird.AsPath.Segments.{get-put}
use bird.AsPath.Lengths.{length-encode_cons, path_length, getlen-encode}

-- How often a number stands in a list, and in a path.
abbrev pub count_in : ℕ → List ℕ → ℕ
count_in asn [] = 0
count_in asn (a ∷ asns) = (if a == asn then 1 else 0) + count_in asn asns

abbrev pub occurrences : ℕ → List Segment → ℕ
occurrences asn [] = 0
occurrences asn (s ∷ segs) = count_in asn s.asns + occurrences asn segs

scan-asns :
    (asn least num : ℕ) (asns rest : List ℕ)
    → AllAsns asns
    → num < least
    → scan_numbers asn least (length asns) num (asn_bytes asns ++ rest)
      ≡ (if ltb (num + count_in asn asns) least then miss (num + count_in asn asns) rest else hit)
unfolding scan_numbers
scan-asns asn least num [] rest w h = ground arith
scan-asns asn least num (a ∷ asns) rest w h = rw (get-put a w.0) (elim (Bool-cases (a == asn)) [
  | inl same ↦ rw same (elim (Bool-cases (num + 1 == least)) [
    | inl last ↦ rw last (ground (arith, last))
    | inr more ↦ rw more (
        rw (scan-asns asn least (num + 1) asns rest w.1 (ground (arith, more)))
          (rw (add_assoc num 1 (count_in asn asns)) refl))
  ])
  | inr other ↦
      rw other
        (rw (scan-asns asn least num asns rest w.1 h) (rw (zero-add (count_in asn asns)) refl))
])

contains_from-encode :
    (segs : List Segment) (asn least fuel num : ℕ)
    → IsPath segs
    → num < least
    → length (encode segs) < fuel
    → contains_from asn least fuel num (encode segs) ≡ some (leb least (num + occurrences asn segs))
unfolding contains_from
contains_from-encode segs asn least zero num p h k = absurd (omega arith)
contains_from-encode [] asn least (suc fuel) num p h k = ground arith
contains_from-encode (s ∷ segs) asn least (suc fuel) num p h k =
    let num' = num + count_in asn s.asns in
    rw (scan-asns asn least num s.asns (encode segs) p.0.numbers h, contains_from)
      (elim (Bool-cases (ltb num' least)) [
        | inl below ↦ rw below (
            ground (
              arith,
              contains_from-encode segs asn least fuel num' p.1 (ground (arith, below))
                  (omega (arith, length-encode_cons s segs)),
            ))
        | inr reached ↦ rw reached (ground (arith, reached))
      ])

-- On every valid path as_path_contains tells whether a number stands there at least as often as
-- asked, which is at least once.
pub contains-occurrences :
    (segs : List Segment) (asn least : ℕ)
    → IsPath segs
    → 0 < least
    → as_path_contains (encode segs) asn least ≡ some (leb least (occurrences asn segs))
unfolding as_path_contains
contains-occurrences segs asn least p h =
    contains_from-encode segs asn least (suc (length (encode segs))) 0 p h (omega arith)
    ∙ ap (λ n. some (leb least n)) (zero-add _)

-- Whether a list, or a path, has a number beyond 16 bits.
abbrev pub any_as4 : List ℕ → Bool
any_as4 [] = false
any_as4 (a ∷ asns) = ltb 0xffff a || any_as4 asns

abbrev pub has_as4 : List Segment → Bool
has_as4 [] = false
has_as4 (s ∷ segs) = any_as4 s.asns || has_as4 segs

scan_as4-asns :
    (asns rest : List ℕ)
    → AllAsns asns
    → scan_as4 (length asns) (asn_bytes asns ++ rest) ≡ (if any_as4 asns then hit else miss 0 rest)
unfolding scan_as4
scan_as4-asns [] rest w = refl
scan_as4-asns (a ∷ asns) rest w = rw (get-put a w.0) (ground (arith, scan_as4-asns asns rest w.1))

contains_as4_from-encode :
    (segs : List Segment) (fuel : ℕ)
    → IsPath segs
    → length (encode segs) < fuel
    → contains_as4_from fuel (encode segs) ≡ some (has_as4 segs)
unfolding contains_as4_from
contains_as4_from-encode segs zero p k = absurd (omega arith)
contains_as4_from-encode [] (suc fuel) p k = refl
contains_as4_from-encode (s ∷ segs) (suc fuel) p k =
    let ih = contains_as4_from-encode segs fuel p.1 (omega (arith, length-encode_cons s segs)) in
    rw (scan_as4-asns s.asns (encode segs) p.0.numbers, contains_as4_from)
      (elim (Bool-cases (any_as4 s.asns)) [ inl yes' ↦ rw yes' refl | inr no' ↦ rw no' ih ])

-- The numbers of as_path_to_old.
abbrev old_asns : List ℕ → List ℕ
old_asns [] = []
old_asns (a ∷ asns) = (if ltb 0xffff a then as_trans else a) ∷ old_asns asns

abbrev old_segments : List Segment → List Segment
old_segments [] = []
old_segments (s ∷ segs) = record { type = s.type; asns = old_asns s.asns } ∷ old_segments segs

length-old_asns : (asns : List ℕ) → length (old_asns asns) ≡ length asns
length-old_asns [] = refl
length-old_asns (a ∷ asns) = ap suc (length-old_asns asns)

old_numbers-asns :
    (asns rest : List ℕ)
    → AllAsns asns
    → old_numbers (length asns) (asn_bytes asns ++ rest) ≡ some (asn_bytes (old_asns asns), rest)
unfolding old_numbers
old_numbers-asns [] rest w = refl
old_numbers-asns (a ∷ asns) rest w =
    rw (get-put a w.0, old_numbers-asns asns rest w.1)
      (elim (Bool-cases (ltb 0xffff a)) [ inl wide ↦ rw wide refl | inr narrow ↦ rw narrow refl ])

to_old_from-encode :
    (segs : List Segment) (fuel : ℕ)
    → IsPath segs
    → length (encode segs) < fuel
    → to_old_from fuel (encode segs) ≡ some (encode (old_segments segs))
unfolding to_old_from
to_old_from-encode segs zero p k = absurd (omega arith)
to_old_from-encode [] (suc fuel) p k = refl
to_old_from-encode (s ∷ segs) (suc fuel) p k =
    let ih = to_old_from-encode segs fuel p.1 (omega (arith, length-encode_cons s segs)) in
    rw (old_numbers-asns s.asns (encode segs) p.0.numbers, to_old_from)
      (rw (ih, length-old_asns s.asns) refl)

AllAsns-old : (asns : List ℕ) → AllAsns asns → AllAsns (old_asns asns)
AllAsns-old [] w = tt
AllAsns-old (a ∷ asns) w = (ground (arith, w.0), AllAsns-old asns w.1)

old_segments-IsPath : (segs : List Segment) → IsPath segs → IsPath (old_segments segs)
old_segments-IsPath [] p = tt
old_segments-IsPath (s ∷ segs) p = (
  record {
    known = p.0.known;
    filled = omega (arith, p.0.filled, length-old_asns s.asns);
    counted = omega (arith, p.0.counted, length-old_asns s.asns);
    numbers = AllAsns-old s.asns p.0.numbers;
  },
  old_segments-IsPath segs p.1,
)

old_segments-length : (segs : List Segment) → path_length (old_segments segs) ≡ path_length segs
old_segments-length [] = refl
old_segments-length (s ∷ segs) = ground (arith, length-old_asns s.asns, old_segments-length segs)

any_as4-old : (asns : List ℕ) → any_as4 (old_asns asns) ≡ false
any_as4-old [] = refl
any_as4-old (a ∷ asns) = ground (arith, any_as4-old asns)

has_as4-old : (segs : List Segment) → has_as4 (old_segments segs) ≡ false
has_as4-old [] = refl
has_as4-old (s ∷ segs) = ground (arith, any_as4-old s.asns, has_as4-old segs)

-- as_path_to_old on a valid path: the result is a valid path of the same length in which
-- as_path_contains_as4 finds no number beyond 16 bits.
pub to_old_lem :
    (segs : List Segment)
    → IsPath segs
    → (segs' : List Segment) × (as_path_to_old (encode segs) ≡ some (encode segs'))
      × IsPath segs'
      × (as_path_getlen (encode segs') ≡ as_path_getlen (encode segs))
      × (as_path_contains_as4 (encode segs') ≡ some false)
unfolding as_path_to_old as_path_contains_as4
to_old_lem segs p =
    let segs' = old_segments segs in
    let q = old_segments-IsPath segs p in
    (
      segs',
      to_old_from-encode segs (suc (length (encode segs))) p (omega arith),
      q,
      getlen-encode segs' q ∙ ap some (old_segments-length segs) ∙ sym (getlen-encode segs p),
      contains_as4_from-encode segs' (suc (length (encode segs'))) q (omega arith)
          ∙ ap some (has_as4-old segs),
    )
