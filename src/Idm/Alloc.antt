-- ===== src/Idm/Alloc.antt =====
-- What idm_alloc and idm_free of lib/idm.c do to the set of IDs in use.
use bird.Common.{
  ℕ, ◌+◌, ◌-◌, ◌*◌, ◌/◌, ◌^◌, ◌≤◌, ◌<◌, ◌≡◌, ◌≢◌, refl, sym, ap, ◌∙◌, max, true, false, ◌==◌, ltb,
  ◌||◌, some, none, List, arith, Bool-cases, Option-cases, inl, inr, if◌then◌else◌, length, get_or,
  set, take, drop, replicate, length-append, length-replicate, length-set,
}
use bird.Common.Word.{u32}
use bird.Idm.{Idm, bit, set_bit, find_from, find_between, expand, found, idm_alloc, in_use}
use bird.Idm.Bits.{bit-set_self, bit-set_ne, set_bit-lt, popcount-set, cto_lem}
use bird.Idm.Slots.{
  full, get_elem?-get_or, get_or-beyond, get_or-grown, take-all, total, total-set, total-grown,
  total-le, find_part_some, find_parts_none,
}
use bird.Idm.Invariant.{IsValid, id_word, id_bit, written, written_fit}

-- The map `m'` is `m` with the ID, which was free, in use.
pub record IsAllocated (m m' : Idm) (id : ℕ) : Type 0 where
  pub fresh : in_use m id ≡ false
  pub marked : (k : ℕ) → in_use m' k ≡ (k == id || in_use m k)
  pub valid : IsValid m'

-- The map with the bit `j` of the word `i` set, as it stands behind the label `found`.
abbrev taken : Idm → ℕ → ℕ → Idm
taken m i j = record m {
  pos = i;
  words = set m.words i (set_bit (get_or m.words i 0) j);
  used = u32 (m.used + 1);
}

taken_marked :
    (m : Idm) (i j k : ℕ)
    → i < length m.words
    → j < 32
    → in_use (taken m i j) k ≡ (k == 32 * i + j || in_use m k)
unfolding in_use
taken_marked m i j k h lt =
    let w = get_or m.words i 0 in
    let e = written m.words i j k (set_bit w j) h lt (bit-set_ne w j) in
    elim (Bool-cases (k == 32 * i + j)) [
      | inl f ↦ e ∙ rw f (bit-set_self w j)
      | inr f ↦ e ∙ rw f refl
    ]

taken_lem :
    (m : Idm) (i j : ℕ)
    → IsValid m
    → m.used < 2 ^ 32 - 1
    → i < m.size
    → j < 32
    → bit (get_or m.words i 0) j ≡ false
    → IsAllocated m (taken m i j) (32 * i + j)
unfolding in_use
taken_lem m i j v few inside lt clear =
    let w = get_or m.words i 0 in
    let there : i < length m.words = omega (arith, v.sized) in
    let marked = λ (k : ℕ). taken_marked m i j k there lt in
    let counted : u32 (m.used + 1) ≡ total (set m.words i (set_bit w j)) =
      omega
        (arith, v.counted, total-set m.words i (set_bit w j) there, popcount-set 32 w j lt clear) in
    let fits =
      written_fit m.words i (set_bit w j) there (set_bit-lt 32 w j (v.words_fit i) lt)
        v.words_fit in
    record {
      fresh = rw (id_word i j lt, id_bit i j lt) clear;
      marked = marked;
      valid = record {
        sized = length-set m.words i (set_bit w j) ∙ v.sized;
        counted = counted;
        words_fit = fits;
        start = inside;
        small = v.small;
        reserved = ground (arith, marked 0, v.reserved);
      };
    }

found_lem :
    (m : Idm) (i : ℕ)
    → IsValid m
    → m.used < 2 ^ 32 - 1
    → i < m.size
    → get_or m.words i 0 ≢ full
    → (m' : Idm) × (id : ℕ) × (found m i ≡ some (m', id)) × IsAllocated m m' id
unfolding found
found_lem m i v few inside free =
    let w = get_or m.words i 0 in
    let there : i < length m.words = omega (arith, v.sized) in
    let (j, lowest, lt, clear) = cto_lem 32 w (v.words_fit i) (λ e. free (omega arith)) in
    let m' : Idm = record m {
      pos = i;
      words = set m.words i (set_bit w j);
      used = u32 (m.used + 1);
    } in
    let small : ltb i 0x8000000 ≡ true = ground (arith, v.small) in
    let run : found m i ≡ some (m', 32 * i + j) =
      rw (small, get_elem?-get_or m.words i 0 there, lowest) refl in
    (m', 32 * i + j, run, taken_lem m i j v few inside lt clear)

expand_word :
    (m : Idm) (k : ℕ) → IsValid m → get_or (expand m m.size).words k 0 ≡ get_or m.words k 0
unfolding expand
expand_word m k v =
    rw (take-all m.size m.words (omega (arith, v.sized)))
      (get_or-grown m.words (u32 (m.size * 2) - m.size) k 0)

expand_same : (m : Idm) (k : ℕ) → IsValid m → in_use (expand m m.size) k ≡ in_use m k
unfolding in_use
expand_same m k v = rw (expand_word m (k / 32) v) refl

expand-IsValid : (m : Idm) → IsValid m → m.size ≤ 2 ^ 26 → IsValid (expand m m.size)
unfolding expand
expand-IsValid m v small =
    let n = u32 (m.size * 2) - m.size in
    let whole = take-all m.size m.words (omega (arith, v.sized)) in
    let added : List ℕ = replicate n 0 in
    let longer : length added ≡ n = length-replicate n 0 in
    record {
      sized = rw whole (omega (arith, length-append m.words added, longer, v.sized));
      counted = rw whole (v.counted ∙ sym (total-grown m.words n));
      words_fit = λ i. omega (arith, expand_word m i v, v.words_fit i);
      start = omega (arith, v.start);
      small = omega arith;
      reserved = expand_same m 0 v ∙ v.reserved;
    }

-- The first word of the new half is free.
expanded_found :
    (m : Idm)
    → IsValid m
    → m.size ≤ 2 ^ 26
    → (m' : Idm) × (id : ℕ) × (found (expand m m.size) m.size ≡ some (m', id)) × IsAllocated m m' id
unfolding expand
expanded_found m v small =
    let empty : get_or (expand m m.size).words m.size 0 ≡ 0 =
      expand_word m m.size v ∙ get_or-beyond m.words m.size 0 (omega (arith, v.sized)) in
    let few : m.used ≤ 32 * m.size = omega (arith, total-le m.words, v.counted, v.sized) in
    let inside : m.size < u32 (m.size * 2) = omega (arith, v.start) in
    let (m', id, run, al) =
      found_lem (expand m m.size) m.size (expand-IsValid m v small) (omega arith) inside
        (λ f. absurd (omega (arith, empty, f))) in
    (
      m',
      id,
      run,
      record {
        fresh = sym (expand_same m id v) ∙ al.fresh;
        marked = λ k. al.marked k ∙ ap (λ b. k == id || b) (expand_same m k v);
        valid = al.valid;
      },
    )

-- The three ways through idm_alloc: a word behind the position, the array doubled, or a word before.
lower_word :
    (m : Idm)
    → IsValid m
    → m.size ≤ 2 ^ 26
    → find_from (take (m.size - m.pos) (drop m.pos m.words)) m.pos ≡ none
    → ltb (u32 (m.size * 28)) m.used ≡ false
    → (i : ℕ) × (find_from (take (m.pos - 0) m.words) 0 ≡ some i)
lower_word m v small upper sparse = elim (Option-cases (find_from (take (m.pos - 0) m.words) 0)) [
  | inr found ↦ found
  | inl lower ↦
      let start : m.pos - 0 ≡ m.pos = omega arith in
      let all =
        find_parts_none m.words m.pos (omega (arith, v.sized, v.start)) (rw (v.sized) upper)
          (rw (sym start) lower) in
      absurd (ground (arith, all, v.counted, v.sized, v.start))
]

upper_full :
    (m : Idm)
    → find_from (take (m.size - m.pos) (drop m.pos m.words)) m.pos ≡ none
    → idm_alloc m ≡ (
        if ltb (u32 (m.size * 28)) m.used
        then found (expand m (max m.pos m.size)) (max m.pos m.size)
        else elim (find_between m 0 m.pos) [ none ↦ none | some i ↦ found m i ])
unfolding idm_alloc
upper_full m e = rw (e, idm_alloc) refl

-- Every map that is valid, and below its largest size of 2 ^ 26 words, gives an ID: no assertion
-- fails. The ID was not in use, it is in use afterwards, no other ID changes, and the map stays
-- valid, if it has doubled as well.
pub idm_alloc_lem :
    (m : Idm)
    → IsValid m
    → m.size ≤ 2 ^ 26
    → (m' : Idm) × (id : ℕ) × (idm_alloc m ≡ some (m', id)) × IsAllocated m m' id
unfolding idm_alloc
idm_alloc_lem m v small =
    let few : m.used ≤ 32 * m.size = omega (arith, total-le m.words, v.counted, v.sized) in
    elim (Option-cases (find_from (take (m.size - m.pos) (drop m.pos m.words)) m.pos)) [
      | inr (i, e) ↦
          let (lo, hi, there, free) = find_part_some m.words m.pos m.size i e in
          let (m', id, run, al) = found_lem m i v (omega arith) hi free in
          (m', id, rw (e, idm_alloc) run, al)
      | inl e ↦ elim (Bool-cases (ltb (u32 (m.size * 28)) m.used)) [
        | inl f ↦
            let (m', id, run, al) = expanded_found m v small in
            let end : max m.pos m.size ≡ m.size = omega (arith, v.start) in
            (m', id, upper_full m e ∙ rw (f, end) run, al)
        | inr f ↦
            let (i, g) = lower_word m v small e f in
            let (lo, hi, there, free) = find_part_some m.words 0 m.pos i g in
            let (m', id, run, al) = found_lem m i v (omega arith) (omega (arith, v.start)) free in
            (m', id, upper_full m e ∙ rw (f, g) run, al)
      ]
    ]
