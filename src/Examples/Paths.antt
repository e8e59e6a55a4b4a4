-- ===== src/Examples/Paths.antt =====
-- AS paths of nest/a-path.c at small inputs.
use bird.Common.{◌+◌, ◌≡◌, ◌↔◌, refl, Bool, true, false, some, List, [], ◌∷◌, arith, Ordering}
use bird.AsPath.{Segment, encode, IsPath, path_sequence}
use bird.AsPath.Queries.{
  as_path_getlen, as_path_get_first, as_path_contains, as_path_contains_confed, found, read_as,
  as_path_get_first_regular, first_regular_from, as_path_get_last_nonaggregated,
  last_nonaggregated_from,
}
use bird.AsPath.Edit.{
  as_path_prepend2, as_path_cut, as_path_strip_confed, as_path_32to16, as_path_16to32,
}
use bird.AsPath.Valid.{as_path_valid, valid}
use bird.AsPath.Walk.{as_path_compare}
use bird.AsPath.Lengths.{path_length}
use bird.AsPath.Effects.{prepend_lem, cut_lem, strip_confed_lem}
use bird.AsPath.Members.{contains-occurrences}
use bird.AsPath.Widths.{encode16, width_roundtrip}
use bird.AsPath.Accepts.{AllAllowed, as_path_valid_iff}
use bird.AsPath.Match.{
  null, node, MaskItem, pm_asn, pm_question, pm_asterisk, pm_loop, pm_asn_range, find_tree,
  sequence_from, parse_from, parse_path, any_number, match_position, pm_match, set_at, match_at,
  run_end, mark_run, next_index, lower, upper, pm_mark, match_label, sweep, take_step, match_from,
  as_path_match,
}
use bird.AsPath.Filter.{t_set, as_path_filter, as_path_match_set}
use bird.AsPath.Filter.Selected.{select, kept_segments}
use bird.AsPath.Filter.Kept.{stays, filter_lem}
use bird.AsPath.Match.Masks.{Accepts}
use bird.AsPath.Match.Paths.{positions, as_path_match_iff}
use bird.AsPath.Compare.{numbers, compare_numbers, compare-numbers, compare_repeats}

-- A confederation, a sequence with a number of 32 bits, and a set.
abbrev mixed : List Segment
mixed =
    record { type = 3; asns = 64512 ∷ [] }
    ∷ record { type = 2; asns = 7 ∷ 100000 ∷ 7 ∷ [] }
    ∷ record { type = 1; asns = 8 ∷ 9 ∷ [] }
    ∷ []

mixed-IsPath : IsPath mixed
mixed-IsPath = omega arith

-- The last number before the set, the first after the confederation, and none at the end.
mixed_ends :
    (as_path_get_last_nonaggregated (encode mixed) ≡ some 7)
    × (as_path_get_first_regular (encode mixed) ≡ found 7)
unfolding as_path_get_last_nonaggregated last_nonaggregated_from as_path_get_first_regular
    first_regular_from read_as
mixed_ends = (refl, refl)

abbrev short : List Segment
short = record { type = 2; asns = 1 ∷ 5 ∷ [] } ∷ []

abbrev long : List Segment
long = record { type = 2; asns = 1 ∷ 5 ∷ 5 ∷ 5 ∷ [] } ∷ []

as_path_valid_iff_example : (as_path_valid (encode mixed) 4 true true ≡ valid) ↔ (
    (segs : List Segment) × IsPath segs × AllAllowed true true segs × (encode mixed ≡ encode segs))
as_path_valid_iff_example = as_path_valid_iff (encode mixed) true true (omega arith)

prepend_lem_example :
    (segs' : List Segment) × (as_path_prepend2 (encode mixed) path_sequence 42
      ≡ some (encode segs'))
    × IsPath segs'
    × (as_path_getlen (encode segs') ≡ some (path_length mixed + 1))
    × (as_path_get_first (encode segs') ≡ found 42)
prepend_lem_example = prepend_lem mixed 42 mixed-IsPath (omega arith)

cut_lem_example :
    (segs' : List Segment) × (as_path_cut (encode mixed) 2 ≡ some (encode segs'))
    × IsPath segs'
    × (as_path_getlen (encode segs') ≡ some 2)
cut_lem_example = cut_lem mixed 2 mixed-IsPath

strip_confed_lem_example :
    (segs' : List Segment) × (as_path_strip_confed (encode mixed) ≡ some (encode segs'))
    × IsPath segs'
    × (as_path_getlen (encode segs') ≡ as_path_getlen (encode mixed))
    × (as_path_contains_confed (encode segs') ≡ some false)
strip_confed_lem_example = strip_confed_lem mixed mixed-IsPath

contains-occurrences_example : as_path_contains (encode mixed) 7 2 ≡ some true
contains-occurrences_example = contains-occurrences mixed 7 2 mixed-IsPath (omega arith)

width_roundtrip_example :
    (as_path_32to16 (encode short) ≡ some (encode16 short))
    × (as_path_16to32 (encode16 short) ≡ some (encode short))
width_roundtrip_example = width_roundtrip short (omega arith)

compare-numbers_example :
    as_path_compare (encode short) (encode mixed)
    ≡ some (compare_numbers 0 0 (numbers short) (numbers mixed))
compare-numbers_example = compare-numbers short mixed (omega arith) mixed-IsPath

-- 1 5 and 1 5 5 5 compare as equal.
compare_repeats_example : as_path_compare (encode short) (encode long) ≡ some Ordering.eq
compare_repeats_example =
    compare_repeats short long (1 ∷ []) 5 2 (omega arith) (omega arith) refl refl

-- A mask that skips to 100000, takes any number, and then numbers from 8 to 9, at least one.
abbrev to_the_set : List MaskItem
to_the_set = pm_asterisk ∷ pm_asn 100000 ∷ pm_question ∷ pm_loop ∷ pm_asn_range 8 9 ∷ []

mixed_matches : as_path_match (encode mixed) to_the_set ≡ some true
unfolding as_path_match match_from take_step sweep match_label pm_mark lower upper next_index
    mark_run run_end set_at match_at pm_match match_position any_number parse_path parse_from
    sequence_from
mixed_matches = refl

mixed_fails : as_path_match (encode mixed) (pm_asterisk ∷ pm_asn 10 ∷ []) ≡ some false
unfolding as_path_match match_from take_step sweep match_label pm_mark lower upper next_index
    mark_run run_end set_at match_at pm_match match_position any_number parse_path parse_from
    sequence_from
mixed_fails = refl

tree_finds : find_tree (node 5 6 (node 1 2 null null) null) 2 ≡ true
unfolding find_tree
tree_finds = refl

as_path_match_iff_example :
    (b : Bool) × (as_path_match (encode mixed) to_the_set ≡ some b)
    × ((b ≡ true) ↔ Accepts (positions mixed) false to_the_set 0)
unfolding positions
as_path_match_iff_example = as_path_match_iff mixed to_the_set mixed-IsPath (omega arith)

filter_lem_example :
    let segs' = kept_segments (stays (node 7 8 null null) false) mixed in
    (as_path_filter (some (encode mixed)) (t_set (node 7 8 null null)) false
      ≡ some (some (encode segs')))
    × IsPath segs'
    × (numbers segs' ≡ select (stays (node 7 8 null null) false) (numbers mixed))
    × (as_path_match_set (encode segs') (node 7 8 null null) ≡ some false)
filter_lem_example = filter_lem (node 7 8 null null) false mixed mixed-IsPath
