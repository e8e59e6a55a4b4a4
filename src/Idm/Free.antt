-- ===== src/Idm/Free.antt =====
-- What idm_free of lib/idm.c does to the set of IDs in use.
use bird.Common.{
  ℕ, ◌+◌, ◌-◌, ◌*◌, ◌/◌, ◌%◌, ◌^◌, ◌≤◌, ◌<◌, ◌≡◌, ◌≢◌, refl, sym, ap, ◌∙◌, true, false, not, ◌==◌,
  ltb, ◌&&◌, some, arith, Bool-cases, inl, inr, if◌then◌else◌, length, get_or, set, length-set,
}
use bird.Common.Word.{u32}
use bird.Idm.{Idm, bit, clear_bit, idm_free, in_use}
use bird.Idm.Bits.{bit-clear_self, bit-clear_ne, clear_bit-le, bit-zero, popcount-clear}
use bird.Idm.Slots.{get_or-beyond, total, total-set, total-le}
use bird.Idm.Invariant.{IsValid, written, written_fit}

-- An ID in use lies inside of the array.
in_use-lt : (m : Idm) (id : ℕ) → in_use m id ≡ true → id / 32 < length m.words
unfolding in_use
in_use-lt m id used = elim (Bool-cases (ltb (id / 32) (length m.words))) [
  | inl e ↦ ground arith
  | inr e ↦
      let out : get_or m.words (id / 32) 0 ≡ 0 = get_or-beyond m.words (id / 32) 0 (ground arith) in
      let unused = ap (λ w. bit w (id % 32)) out ∙ bit-zero (id % 32) in
      absurd (ground (arith, sym unused ∙ used))
]

-- The map with the bit of the ID cleared.
abbrev freed : Idm → ℕ → Idm
freed m id = record m {
  words = set m.words (id / 32) (clear_bit (get_or m.words (id / 32) 0) (id % 32));
  used = u32 (m.used + 2 ^ 32 - 1);
}

freed_marked :
    (m : Idm) (id k : ℕ)
    → id / 32 < length m.words
    → in_use (freed m id) k ≡ (not (k == id) && in_use m k)
unfolding in_use
freed_marked m id k h =
    let i = id / 32 in
    let j = id % 32 in
    let w = get_or m.words i 0 in
    let whole : 32 * i + j ≡ id = omega arith in
    let e = written m.words i j k (clear_bit w j) h (omega arith) (bit-clear_ne w j) in
    let e' = e ∙ ap (λ x. if k == x then bit (clear_bit w j) j else in_use m k) whole in
    elim (Bool-cases (k == id)) [ inl f ↦ e' ∙ rw f (bit-clear_self w j) | inr f ↦ e' ∙ rw f refl ]

freed-IsValid : (m : Idm) (id : ℕ) → IsValid m → in_use m id ≡ true → id ≢ 0 → IsValid (freed m id)
unfolding in_use
freed-IsValid m id v used ne =
    let i = id / 32 in
    let j = id % 32 in
    let w = get_or m.words i 0 in
    let there = in_use-lt m id used in
    let size : m.used ≤ 32 * m.size = omega (arith, total-le m.words, v.counted, v.sized) in
    let other : (0 == id) ≡ false = ground arith in
    let counted : u32 (m.used + 2 ^ 32 - 1) ≡ total (set m.words i (clear_bit w j)) = omega (
      arith,
      v.counted,
      v.small,
      size,
      total-set m.words i (clear_bit w j) there,
      popcount-clear 32 w j (omega arith) used,
    ) in
    let fits : clear_bit w j < 2 ^ 32 = omega (arith, clear_bit-le w j, v.words_fit i) in
    record {
      sized = length-set m.words i (clear_bit w j) ∙ v.sized;
      counted = counted;
      words_fit = written_fit m.words i (clear_bit w j) there fits v.words_fit;
      start = v.start;
      small = v.small;
      reserved = freed_marked m id 0 there ∙ rw (other) v.reserved;
    }

-- An ID in use, other than the reserved 0, is given back: the assertion holds, the ID is not in use
-- afterwards, no other ID changes, and the map stays valid.
pub idm_free_lem :
    (m : Idm) (id : ℕ)
    → IsValid m
    → in_use m id ≡ true
    → id ≢ 0
    → (m' : Idm) × (idm_free m id ≡ some m')
      × ((k : ℕ) → in_use m' k ≡ (not (k == id) && in_use m k))
      × IsValid m'
unfolding idm_free in_use
idm_free_lem m id v used ne =
    let there = in_use-lt m id used in
    let inside : ltb (id / 32) m.size ≡ true = ground (arith, v.sized) in
    (
      freed m id,
      rw (inside, used) refl,
      λ k. freed_marked m id k there,
      freed-IsValid m id v used ne,
    )
