-- ===== src/AsPath/Compare.antt =====
-- What as_path_compare of nest/a-path.c compares: the numbers of both paths, where a path that has
-- come to its end goes on with its last number.
use bird.Common.{
  ℕ, zero, suc, ◌+◌, ◌-◌, ◌*◌, ◌≤◌, ◌<◌, ◌≡◌, refl, ltb, ◌==◌, Option, none, some, List, [], ◌∷◌,
  ◌++◌, length, length-append, drop, get_elem?, replicate, Ordering, if◌then◌else◌, arith, ap, ◌∙◌,
  Bool-cases, inl, inr, ==_self,
}
use native.Mathlib.Numerals.{add-one}
use bird.AsPath.{Segment, asn_bytes, encode, IsPath, AllAsns}
use bird.AsPath.Queries.{read_as}
use bird.AsPath.Walk.{
  Walk, walked, ended, walk_from, as_path_walk, order, compare_from, as_path_compare,
}
use bird.AsPath.Segments.{drop-asns, four_suc, get-put}
use bird.AsPath.Lengths.{length-encode_cons}

-- All numbers of a path in their order.
abbrev pub numbers : List Segment → List ℕ
numbers [] = []
numbers (s ∷ segs) = s.asns ++ numbers segs

abbrev pub shown : Option ℕ → Walk
shown none = ended
shown (some a) = walked a

read-asns :
    (asns rest : List ℕ) (x : ℕ)
    → AllAsns asns
    → x < length asns
    → read_as (drop (4 * x) (asn_bytes asns ++ rest)) ≡ get_elem? asns x
unfolding read_as
read-asns [] rest x w h = absurd (omega arith)
read-asns (a ∷ asns) rest zero w h = rw (get-put a w.0) refl
read-asns (a ∷ asns) rest (suc x) w h = rw (four_suc x) (read-asns asns rest x w.1 (omega arith))

get_elem?-append :
    (xs ys : List ℕ) (x : ℕ)
    → get_elem? (xs ++ ys) x
      ≡ (if ltb x (length xs) then get_elem? xs x else get_elem? ys (x - length xs))
get_elem?-append [] ys x = ground arith
get_elem?-append (a ∷ xs) ys zero = ground arith
get_elem?-append (a ∷ xs) ys (suc x) = ground (arith, get_elem?-append xs ys x)

get_elem?-some : (xs : List ℕ) (x : ℕ) → x < length xs → (a : ℕ) × (get_elem? xs x ≡ some a)
get_elem?-some [] x h = absurd (omega arith)
get_elem?-some (a ∷ xs) zero h = (a, refl)
get_elem?-some (a ∷ xs) (suc x) h = get_elem?-some xs x (omega arith)

walk_from-encode :
    (segs : List Segment) (fuel x : ℕ)
    → IsPath segs
    → length (encode segs) < fuel
    → walk_from fuel x (encode segs) ≡ shown (get_elem? (numbers segs) x)
unfolding walk_from
walk_from-encode segs zero x p h = absurd (omega arith)
walk_from-encode [] (suc fuel) x p h = refl
walk_from-encode (s ∷ segs) (suc fuel) x p h =
    let ih =
      walk_from-encode segs fuel (x - length s.asns) p.1
        (omega (arith, length-encode_cons s segs)) in
    rw (get_elem?-append s.asns (numbers segs) x) (elim (Bool-cases (ltb x (length s.asns))) [
      | inl here ↦
          let lt : x < length s.asns = ground (arith, here) in
          let (a, e) = get_elem?-some s.asns x lt in
          rw here (rw (read-asns s.asns (encode segs) x p.0.numbers lt, e) refl)
      | inr later ↦ rw later (rw (drop-asns s.asns (encode segs)) ih)
    ])

-- On every valid path as_path_walk shows the number at the position, and ends behind the last.
pub walk-numbers :
    (segs : List Segment) (pos : ℕ)
    → IsPath segs
    → as_path_walk (some (encode segs)) pos ≡ shown (get_elem? (numbers segs) pos)
unfolding as_path_walk
walk-numbers segs pos p = walk_from-encode segs (suc (length (encode segs))) pos p (omega arith)

-- The comparison by the numbers left in each path and the last value seen in it.
pub compare_numbers : ℕ → ℕ → List ℕ → List ℕ → Ordering
compare_numbers v w [] [] = Ordering.eq
compare_numbers v w [] (y ∷ ys) =
    let rest = compare_numbers v y [] ys in if v == y then rest else order v y
compare_numbers v w (x ∷ xs) [] =
    let rest = compare_numbers x w xs [] in if x == w then rest else order x w
compare_numbers v w (x ∷ xs) (y ∷ ys) =
    let rest = compare_numbers x y xs ys in if x == y then rest else order x y

at_drop :
    (l : List ℕ) (pos : ℕ) (x : ℕ) (r : List ℕ)
    → drop pos l ≡ x ∷ r
    → (get_elem? l pos ≡ some x) × (drop (pos + 1) l ≡ r)
at_drop [] zero x r h = absurd (cc)
at_drop [] (suc pos) x r h = absurd (cc)
at_drop (y ∷ l) zero x r h = (ground arith, ground arith)
at_drop (y ∷ l) (suc pos) x r h =
    let ih = at_drop l pos x r h in (ih.0, rw add-one (rw add-one at ih.1))

at_end : (l : List ℕ) (pos : ℕ) → drop pos l ≡ [] → get_elem? l pos ≡ none
at_end [] pos h = refl
at_end (y ∷ l) zero h = absurd (cc)
at_end (y ∷ l) (suc pos) h = at_end l pos h

module _ (segs1 segs2 : List Segment) (p1 : IsPath segs1) (p2 : IsPath segs2) where
  walked_at :
      (segs : List Segment) (pos x : ℕ) (r : List ℕ)
      → IsPath segs
      → drop pos (numbers segs) ≡ x ∷ r
      → as_path_walk (some (encode segs)) pos ≡ walked x
  walked_at segs pos x r p h =
      walk-numbers segs pos p ∙ ap shown (at_drop (numbers segs) pos x r h).0

  ended_at :
      (segs : List Segment) (pos : ℕ)
      → IsPath segs
      → drop pos (numbers segs) ≡ []
      → as_path_walk (some (encode segs)) pos ≡ ended
  ended_at segs pos p h = walk-numbers segs pos p ∙ ap shown (at_end (numbers segs) pos h)

  compare_from-numbers :
      (fuel : ℕ) (xs ys : List ℕ) (pos1 v pos2 w : ℕ)
      → drop pos1 (numbers segs1) ≡ xs
      → drop pos2 (numbers segs2) ≡ ys
      → length xs + length ys < fuel
      → compare_from fuel (encode segs1) (encode segs2) pos1 v pos2 w
        ≡ some (compare_numbers v w xs ys)
  unfolding compare_from compare_numbers
  compare_from-numbers zero xs ys pos1 v pos2 w e f h = absurd (omega arith)
  compare_from-numbers (suc fuel) [] [] pos1 v pos2 w e f h =
      rw (ended_at segs1 pos1 p1 e, compare_from) (rw (ended_at segs2 pos2 p2 f, compare_from) refl)
  compare_from-numbers (suc fuel) [] (y ∷ ys) pos1 v pos2 w e f h =
      let ih =
        compare_from-numbers fuel [] ys pos1 v (pos2 + 1) y e
          (at_drop (numbers segs2) pos2 y ys f).1 (omega arith) in
      rw (ended_at segs1 pos1 p1 e, compare_from)
        (rw (walked_at segs2 pos2 y ys p2 f, compare_from) (ground (arith, ih)))
  compare_from-numbers (suc fuel) (x ∷ xs) [] pos1 v pos2 w e f h =
      let ih =
        compare_from-numbers fuel xs [] (pos1 + 1) x pos2 w (at_drop (numbers segs1) pos1 x xs e).1
          f (omega arith) in
      rw (walked_at segs1 pos1 x xs p1 e, compare_from)
        (rw (ended_at segs2 pos2 p2 f, compare_from) (ground (arith, ih)))
  compare_from-numbers (suc fuel) (x ∷ xs) (y ∷ ys) pos1 v pos2 w e f h =
      let ih =
        compare_from-numbers fuel xs ys (pos1 + 1) x (pos2 + 1) y
          (at_drop (numbers segs1) pos1 x xs e).1 (at_drop (numbers segs2) pos2 y ys f).1
          (omega arith) in
      rw (walked_at segs1 pos1 x xs p1 e, compare_from)
        (rw (walked_at segs2 pos2 y ys p2 f, compare_from) (ground (arith, ih)))

numbers_fit : (segs : List Segment) → length (numbers segs) ≤ length (encode segs)
numbers_fit [] = omega arith
numbers_fit (s ∷ segs) =
    omega (arith, numbers_fit segs, length-encode_cons s segs, length-append s.asns (numbers segs))

-- as_path_compare always comes to a result on valid paths: it compares the numbers of both one by
-- one from 0 on, and a path that has come to its end goes on with its last number.
pub compare-numbers :
    (segs1 segs2 : List Segment)
    → IsPath segs1
    → IsPath segs2
    → as_path_compare (encode segs1) (encode segs2)
      ≡ some (compare_numbers 0 0 (numbers segs1) (numbers segs2))
unfolding as_path_compare
compare-numbers segs1 segs2 p1 p2 =
    compare_from-numbers segs1 segs2 p1 p2 (suc (length (encode segs1) + length (encode segs2)))
      (numbers segs1) (numbers segs2) 0 0 0 0 refl refl
      (omega (arith, numbers_fit segs1, numbers_fit segs2))

repeats_equal : (a k : ℕ) → compare_numbers a a [] (replicate k a) ≡ Ordering.eq
unfolding compare_numbers
repeats_equal a zero = refl
repeats_equal a (suc k) = rw (==_self a) (repeats_equal a k)

common_then :
    (v w a k : ℕ) (xs : List ℕ)
    → compare_numbers v w (xs ++ a ∷ []) (xs ++ a ∷ replicate k a) ≡ Ordering.eq
unfolding compare_numbers
common_then v w a k [] = rw (==_self a) (repeats_equal a k)
common_then v w a k (x ∷ xs) = rw (==_self x) (common_then x x a k xs)

-- Two valid paths compare as equal though one is longer, wherever the longer one goes on with
-- repetitions of the last number of the shorter.
pub compare_repeats :
    (segs1 segs2 : List Segment) (xs : List ℕ) (a k : ℕ)
    → IsPath segs1
    → IsPath segs2
    → numbers segs1 ≡ xs ++ a ∷ []
    → numbers segs2 ≡ xs ++ a ∷ replicate k a
    → as_path_compare (encode segs1) (encode segs2) ≡ some Ordering.eq
compare_repeats segs1 segs2 xs a k p1 p2 e f =
    rw (compare-numbers segs1 segs2 p1 p2, e, f) (ap some (common_then 0 0 a k xs))
