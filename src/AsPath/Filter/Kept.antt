-- ===== src/AsPath/Filter/Kept.antt =====
-- What as_path_filter of nest/a-path.c keeps of a valid path, and what as_path_match_set finds in it.
use bird.Common.{
  ℕ, zero, suc, ◌<◌, ◌≡◌, refl, ap, ◌∙◌, Bool, true, false, not, ◌==◌, ◌||◌, some, List, [], ◌∷◌,
  ◌++◌, length, arith, if◌then◌else◌, Bool-cases, inl, inr, sym,
}
use bird.AsPath.{Segment, asn_bytes, encode, AllAsns, IsPath}
use bird.AsPath.Compare.{numbers}
use bird.AsPath.Queries.{hit, miss}
use bird.AsPath.Segments.{get-put}
use bird.AsPath.Lengths.{length-encode_cons}
use bird.AsPath.Match.{Tree, find_tree}
use bird.AsPath.Filter.{
  scan_set, match_set_from, as_path_match_set, t_set, in_set, is_kept, as_path_filter,
}
use bird.AsPath.Filter.Selected.{select, kept_segments, filter_from-encode, kept-IsPath}

-- A number of the list passes, and a number of a segment does.
abbrev pub any_of : (ℕ → Bool) → List ℕ → Bool
any_of test [] = false
any_of test (a ∷ asns) = test a || any_of test asns

abbrev pub any_in : (ℕ → Bool) → List Segment → Bool
any_in test [] = false
any_in test (s ∷ segs) = any_of test s.asns || any_in test segs

scan_set-asns :
    (set : Tree) (asns rest : List ℕ)
    → AllAsns asns
    → scan_set set (length asns) (asn_bytes asns ++ rest)
      ≡ (if any_of (find_tree set) asns then hit else miss 0 rest)
unfolding scan_set
scan_set-asns set [] rest all = refl
scan_set-asns set (a ∷ asns) rest (fits, all) = elim (Bool-cases (find_tree set a)) [
  | inl e ↦ rw (get-put a fits, e) refl
  | inr e ↦ rw (get-put a fits, e) (scan_set-asns set asns rest all)
]

match_set_from-encode :
    (set : Tree) (segs : List Segment) (fuel : ℕ)
    → IsPath segs
    → length (encode segs) < fuel
    → match_set_from set fuel (encode segs) ≡ some (any_in (find_tree set) segs)
unfolding match_set_from
match_set_from-encode set segs zero p h = absurd (omega arith)
match_set_from-encode set [] (suc fuel) p h = refl
match_set_from-encode set (s ∷ segs) (suc fuel) (v, p) h =
    let ih = match_set_from-encode set segs fuel p (omega (arith, length-encode_cons s segs)) in
    let scan = scan_set-asns set s.asns (encode segs) v.numbers in
    elim (Bool-cases (any_of (find_tree set) s.asns)) [
      | inl e ↦ rw (scan, match_set_from) (rw (e) refl)
      | inr e ↦ rw (scan, match_set_from) (rw (e) ih)
    ]

empty_selects :
    (test : ℕ → Bool) (asns : List ℕ) → (length asns == 0) ≡ true → any_of test asns ≡ false
empty_selects test [] e = refl
empty_selects test (a ∷ asns) e = absurd (ground arith)

choose : (pos b : Bool) → some (if pos then b else false) ≡ (if pos then some b else some false)
choose true b = refl
choose false b = refl

any_of-select :
    (set : Tree) (pos : Bool) (asns : List ℕ)
    → any_of (find_tree set) (select (is_kept (t_set set) pos) asns)
      ≡ (if pos then any_of (find_tree set) asns else false)
unfolding is_kept in_set
any_of-select set pos [] = ground arith
any_of-select set pos (a ∷ asns) = ground (arith, any_of-select set pos asns)

any_in-kept :
    (set : Tree) (pos : Bool) (segs : List Segment)
    → any_in (find_tree set) (kept_segments (is_kept (t_set set) pos) segs)
      ≡ (if pos then any_in (find_tree set) segs else false)
unfolding kept_segments
any_in-kept set pos [] = ground arith
any_in-kept set pos (s ∷ segs) =
    let ih = any_in-kept set pos segs in
    let here = any_of-select set pos s.asns in
    elim (Bool-cases (length (select (is_kept (t_set set) pos) s.asns) == 0)) [
      | inl e ↦ rw e (ground (arith, ih, here, empty_selects (find_tree set) _ e))
      | inr e ↦ rw e (ground (arith, ih, here))
    ]

select-append :
    (keep : ℕ → Bool) (xs ys : List ℕ) → select keep (xs ++ ys) ≡ select keep xs ++ select keep ys
select-append keep [] ys = refl
select-append keep (x ∷ xs) ys = elim (Bool-cases (keep x)) [
  | inl e ↦ rw (e, select-append keep xs ys) refl
  | inr e ↦ rw (e, select-append keep xs ys) refl
]

no_length : (asns : List ℕ) → (length asns == 0) ≡ true → asns ≡ []
no_length [] e = refl
no_length (a ∷ asns) e = absurd (ground arith)

numbers-kept :
    (keep : ℕ → Bool) (segs : List Segment)
    → numbers (kept_segments keep segs) ≡ select keep (numbers segs)
unfolding kept_segments
numbers-kept keep [] = refl
numbers-kept keep (s ∷ segs) =
    let ih = numbers-kept keep segs in
    elim (Bool-cases (length (select keep s.asns) == 0)) [
      | inl e ↦ rw (e, select-append keep s.asns (numbers segs), no_length _ e) ih
      | inr e ↦ rw (e, select-append keep s.asns (numbers segs), ih) refl
    ]

select_same : (f g : ℕ → Bool) (xs : List ℕ) → ((a : ℕ) → f a ≡ g a) → select f xs ≡ select g xs
select_same f g [] h = refl
select_same f g (x ∷ xs) h = rw (h x, select_same f g xs h) refl

-- The numbers that are to stay: those of the set with `pos` 1, the others with 0.
abbrev pub stays : Tree → Bool → ℕ → Bool
stays set true a = find_tree set a
stays set false a = not (find_tree set a)

kept_stays : (set : Tree) (pos : Bool) (a : ℕ) → is_kept (t_set set) pos a ≡ stays set pos a
unfolding is_kept in_set
kept_stays set true a = refl
kept_stays set false a = refl

kept_same :
    (f g : ℕ → Bool) (segs : List Segment)
    → ((a : ℕ) → f a ≡ g a)
    → kept_segments f segs ≡ kept_segments g segs
unfolding kept_segments
kept_same f g [] h = refl
kept_same f g (s ∷ segs) h = rw (select_same f g s.asns h, kept_same f g segs h) refl

-- as_path_filter with a set of numbers on a valid path comes to a valid path again: that of the
-- segments with their types, each with the numbers that stay, in their order, and those without
-- any left out. With `pos` 1 the path has exactly the numbers of the set and with 0 exactly the
-- others, as often as before; and as_path_match_set finds no number of the set in it with 0, and
-- with 1 one exactly if there was one before.
pub filter_lem :
    (set : Tree) (pos : Bool) (segs : List Segment)
    → IsPath segs
    → let segs' = kept_segments (stays set pos) segs in
      (as_path_filter (some (encode segs)) (t_set set) pos ≡ some (some (encode segs')))
      × IsPath segs'
      × (numbers segs' ≡ select (stays set pos) (numbers segs))
      × (as_path_match_set (encode segs') set
          ≡ (if pos then as_path_match_set (encode segs) set else some false))
unfolding as_path_filter as_path_match_set
filter_lem set pos segs p =
    let keep = is_kept (t_set set) pos in
    let segs' = kept_segments (stays set pos) segs in
    let same : kept_segments keep segs ≡ segs' =
      kept_same keep (stays set pos) segs (kept_stays set pos) in
    let q = kept-IsPath (stays set pos) segs p in
    let run = filter_from-encode keep segs (suc (length (encode segs))) p (omega arith) in
    let found' = match_set_from-encode set segs' (suc (length (encode segs'))) q (omega arith) in
    let found = match_set_from-encode set segs (suc (length (encode segs))) p (omega arith) in
    let any = ap (any_in (find_tree set)) (sym same) ∙ any_in-kept set pos segs in
    (
      rw (run, same) refl,
      q,
      numbers-kept (stays set pos) segs,
      found' ∙ rw found (ap some any ∙ choose pos (any_in (find_tree set) segs)),
    )
