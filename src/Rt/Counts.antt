-- ===== src/Rt/Counts.antt =====
-- How many routes of a kind nest/rt-table.c puts into a list, and how many stay.
use bird.Common.{
  ℕ, ◌+◌, ◌≡◌, refl, ap, Bool, true, false, Bool-cases, inl, inr, arith, List, [], ◌∷◌, ◌++◌,
  length, Option, none, some, take-length, drop-length,
}
use bird.Rt.{Rte, RteSrc}
use bird.Rt.Better.{BetterHook, rte_better}
use bird.Rt.Best.{place_unsorted, place_in_sorted}
use bird.Rt.Splits.{listed, joined, split_old-joined}
use bird.Rt.Recalculate.Place.{
  RecalculateHook, Split, Recalculated, split_old, insert_sorted, elect_from, elect, link_at, place,
  arrange, place_sorted, old_best, old_is_best, scans_from, before_old,
}

abbrev pub one_if : Bool → ℕ
one_if true = 1
one_if false = 0

abbrev pub count : (Rte → Bool) → List Rte → ℕ
count p [] = 0
count p (r ∷ rs) = one_if (p r) + count p rs

module _ (p : Rte → Bool) where
  pub count-append : (rs qs : List Rte) → count p (rs ++ qs) ≡ count p rs + count p qs
  count-append [] qs = omega arith
  count-append (r ∷ rs) qs = omega (arith, count-append rs qs)

  count-insert :
      (hook : BetterHook) (n : Rte) (rs : List Rte)
      → count p (insert_sorted hook n rs) ≡ one_if (p n) + count p rs
  unfolding insert_sorted
  count-insert hook n [] = omega arith
  count-insert hook n (r ∷ rs) = elim (Bool-cases (rte_better hook n (some r))) [
    | inl e ↦ rw (insert_sorted, e) refl
    | inr e ↦ rw (insert_sorted, e) (omega (arith, count-insert hook n rs))
  ]

  count-elect_from :
      (hook : BetterHook) (passed : List Rte) (best : Rte) (since rest : List Rte)
      → count p (elect_from hook passed best since rest)
        ≡ count p passed + (one_if (p best) + (count p since + count p rest))
  unfolding elect_from
  count-elect_from hook passed best since [] = omega (arith, count-append passed since)
  count-elect_from hook passed best since (r ∷ rs) =
      elim (Bool-cases (rte_better hook r (some best))) [
        | inl e ↦
            rw (elect_from, e)
              (omega (
                arith,
                count-elect_from hook (passed ++ best ∷ since) r [] rs,
                count-append passed (best ∷ since),
              ))
        | inr e ↦
            rw (elect_from, e)
              (omega (
                arith,
                count-elect_from hook passed best (since ++ r ∷ []) rs,
                count-append since (r ∷ []),
              ))
      ]

  count-elect : (hook : BetterHook) (rs : List Rte) → count p (elect hook rs) ≡ count p rs
  unfolding elect
  count-elect hook [] = refl
  count-elect hook (r ∷ rs) = omega (arith, count-elect_from hook [] r [] rs)

  count-link :
      (before after : List Rte) (n : Option Rte)
      → count p (link_at (length before) n (before ++ after))
        ≡ count p (listed n) + count p (before ++ after)
  count-link before after none = omega arith
  count-link before after (some n) =
      rw (take-length before after, drop-length before after)
        (omega (arith, count-append before (n ∷ after), count-append before after))

  count-sorted :
      (hook : BetterHook) (s : Split) (n : Option Rte)
      → count p (place_sorted hook s n) ≡ count p (listed n) + count p (s.before ++ s.after)
  unfolding place_sorted
  count-sorted hook s none = omega arith
  count-sorted hook s (some n) = elim (Bool-cases (scans_from hook n (before_old s))) [
    | inl e ↦
        rw (place_sorted, e)
          (omega (
            arith,
            count-append s.before (insert_sorted hook n s.after),
            count-append s.before s.after,
            count-insert hook n s.after,
          ))
    | inr e ↦ rw (place_sorted, e) (omega (arith, count-insert hook n (s.before ++ s.after)))
  ]

  count-arrange :
      (hook : BetterHook) (before after : List Rte) (old n best : Option Rte)
      → let s : Split = record { before = before; old = old; after = after } in
        let h : Recalculated = record {
          forced = false;
          routes = before ++ after;
          new = n;
          old = old;
        } in
        count p (arrange hook s h best) ≡ count p (listed n) + count p (before ++ after)
  unfolding arrange
  count-arrange hook before after old none best =
      let s : Split = record { before = before; old = old; after = after } in
      elim (Bool-cases (old_is_best s)) [
        | inl e ↦ rw (arrange, e) (omega (arith, count-elect hook (before ++ after)))
        | inr e ↦ rw (arrange, e) (omega arith)
      ]
  count-arrange hook before after old (some n) best =
      let s : Split = record { before = before; old = old; after = after } in
      let l = count-link before after (some n) in
      elim (Bool-cases (rte_better hook n best)) [
        | inl b ↦ rw (arrange, b) (omega arith)
        | inr b ↦ elim (Bool-cases (old_is_best s)) [
          | inl c ↦
              rw (arrange, b, c)
                (omega
                  (arith, l, count-elect hook (link_at (length before) (some n) (before ++ after))))
          | inr c ↦ rw (arrange, b, c) (omega (arith, l))
        ]
      ]

  -- A placed list has the new route for the old one.
  pub count-place :
      (hook : BetterHook) (recalc : RecalculateHook) (src : RteSrc) (sorted : Bool) (rs : List Rte)
      (n : Option Rte)
      → recalc src.proto ≡ none
      → let s = split_old src.global_id rs in
        count p (place hook recalc sorted src s n).routes + count p (listed s.old)
        ≡ count p rs + count p (listed n)
  count-place hook recalc src sorted rs n none_set =
      let s = split_old src.global_id rs in
      let j : count p (joined s) ≡ count p rs = ap (count p) (split_old-joined src.global_id rs) in
      let k : count p (place hook recalc sorted src s n).routes
          ≡ count p (listed n) + count p (s.before ++ s.after) =
        elim (Bool-cases sorted) [
          | inl e ↦ rw (e, place_in_sorted hook recalc src s n) (count-sorted hook s n)
          | inr e ↦
              rw (e, place_unsorted hook recalc src none_set s.before s.after s.old n)
                (count-arrange hook s.before s.after s.old n (old_best s))
        ] in
      omega (
        arith,
        j,
        k,
        count-append s.before (listed s.old ++ s.after),
        count-append (listed s.old) s.after,
        count-append s.before s.after,
      )
