-- ===== src/AsPath/Match/Paths.antt =====
-- Matching of valid paths in nest/a-path.c: their positions, what a set matches, and the result.
use bird.Common.{
  ℕ, zero, suc, ◌<◌, ◌≤◌, ltb, ◌≡◌, ◌↔◌, refl, ap, Bool, true, false, ◌==◌, ◌||◌, some, List, [],
  ◌∷◌, ◌++◌, map, length, arith, if◌then◌else◌, Bool-cases, inl, inr,
}
use bird.AsPath.{Segment, asn_bytes, encode, AllAsns, IsPath, path_set, confed_set}
use bird.AsPath.Segments.{drop-asns, get-put}
use bird.AsPath.Lengths.{length-encode_cons}
use bird.AsPath.Match.{
  Position, sp, asn, MaskItem, sequence_from, parse_from, parse_path, any_number, match_position,
  as_path_match,
}
use bird.AsPath.Match.Masks.{Accepts}
use bird.AsPath.Match.Decides.{match_from_iff}

abbrev pub some_number : (ℕ → Bool) → List ℕ → Bool
some_number test [] = false
some_number test (a ∷ asns) = test a || some_number test asns

-- A set whose bytes are those of 32-bit numbers passes a test of pm_match exactly if one of the
-- numbers passes it, whatever bytes follow.
pub match_set :
    (test : ℕ → Bool) (asns rest : List ℕ)
    → AllAsns asns
    → match_position test (sp (length asns ∷ asn_bytes asns ++ rest)) ≡ some_number test asns
unfolding match_position any_number
match_set test [] rest all = refl
match_set test (a ∷ asns) rest (fits, all) =
    rw (get-put a fits) (ap (λ b. test a || b) (match_set test asns rest all))

-- The positions of a path: one for a set, one for each number of a sequence.
unfoldable pub positions : List Segment → List Position
positions [] = []
positions (s ∷ segs) =
    let rest = positions segs in
    if s.type == path_set || s.type == confed_set
    then sp (length s.asns ∷ asn_bytes s.asns ++ encode segs) ∷ rest
    else map asn s.asns ++ rest

sequence_from-asns :
    (asns rest : List ℕ)
    → AllAsns asns
    → sequence_from (length asns) (asn_bytes asns ++ rest) ≡ some (map asn asns, rest)
unfolding sequence_from
sequence_from-asns [] rest all = refl
sequence_from-asns (a ∷ asns) rest (fits, all) =
    rw (sequence_from-asns asns rest all, get-put a fits) refl

parse_from-encode :
    (segs : List Segment) (fuel : ℕ)
    → IsPath segs
    → length (encode segs) < fuel
    → parse_from fuel (encode segs) ≡ some (positions segs)
unfolding parse_from positions
parse_from-encode segs zero p h = absurd (omega arith)
parse_from-encode [] (suc fuel) p h = refl
parse_from-encode (s ∷ segs) (suc fuel) (v, p) h =
    let ih = parse_from-encode segs fuel p (omega (arith, length-encode_cons s segs)) in
    elim (Bool-cases (s.type == 1 || s.type == 4)) [
      | inl set ↦ rw (set, parse_from) (rw (drop-asns s.asns (encode segs), ih) refl)
      | inr other ↦
          let sequence : (s.type == 2 || s.type == 3) ≡ true = ground (arith, v.known) in
          rw (other, sequence, parse_from)
            (rw (sequence_from-asns s.asns (encode segs) v.numbers, ih) refl)
    ]

-- On every valid path of at most 2048 positions, the room of its array, as_path_match comes to a
-- result: it accepts exactly if the items of the mask lead from the first position to the one behind
-- the last, where a set may stand for any of its numbers, repeated and followed by those of the sets
-- next to it, an asterisk skips any positions, and an item under a loop repeats. A loop with no item
-- after it accepts nothing.
pub as_path_match_iff :
    (segs : List Segment) (mask : List MaskItem)
    → IsPath segs
    → length (positions segs) ≤ 2048
    → (b : Bool) × (as_path_match (encode segs) mask ≡ some b)
      × ((b ≡ true) ↔ Accepts (positions segs) false mask 0)
unfolding as_path_match parse_path
as_path_match_iff segs mask p room =
    let parsed = parse_from-encode segs (suc (length (encode segs))) p (omega arith) in
    let fits : ltb 2048 (length (positions segs)) ≡ false = ground arith in
    (_, rw (parsed, as_path_match) (rw fits refl), match_from_iff (positions segs) mask)
