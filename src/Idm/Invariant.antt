-- ===== src/Idm/Invariant.antt =====
-- The invariant of the map of IDs of lib/idm.c, and what a write of one bit does to the IDs.
use bird.Common.{
  ℕ, zero, ◌+◌, ◌*◌, ◌/◌, ◌%◌, ◌^◌, ◌≤◌, ◌<◌, ◌≡◌, ◌≢◌, refl, sym, ap, ◌∙◌, true, false, ◌==◌, List,
  arith, Bool-cases, inl, inr, if◌then◌else◌, length, get_or, set, replicate, length-replicate,
  length-set,
}
use bird.Idm.{Idm, idm_init, bit, set_bit, in_use}
use bird.Idm.Bits.{bit-set_ne, popcount, popcount-zero, bit-zero}
use bird.Idm.Slots.{
  get_or-set_self, get_or-set_ne, total, get_or-replicate, total-replicate, total-set,
}

-- A map between two operations: the array has its size, the counter is the number of bits set, the
-- search starts inside, the ID 0 is reserved, and the map has at most 2 ^ 31 IDs.
pub record IsValid (m : Idm) : Type 0 where
  pub sized : length m.words ≡ m.size
  pub counted : m.used ≡ total m.words
  pub words_fit : (i : ℕ) → get_or m.words i 0 < 2 ^ 32
  pub start : m.pos < m.size
  pub small : m.size ≤ 2 ^ 27
  pub reserved : in_use m 0 ≡ true

-- The ID of the bit `j` of the word `i`, and that of another bit.
pub id_word : (i j : ℕ) → j < 32 → (32 * i + j) / 32 ≡ i
id_word i j h = omega arith

pub id_bit : (i j : ℕ) → j < 32 → (32 * i + j) % 32 ≡ j
id_bit i j h = omega arith

-- A write of the word `i` that changes only the bit `j`.
pub written :
    (ws : List ℕ) (i j k v : ℕ)
    → i < length ws
    → j < 32
    → ((l : ℕ) → j ≢ l → bit v l ≡ bit (get_or ws i 0) l)
    → bit (get_or (set ws i v) (k / 32) 0) (k % 32)
      ≡ (if k == 32 * i + j then bit v j else bit (get_or ws (k / 32) 0) (k % 32))
written ws i j k v h lt same = elim (Bool-cases (i == k / 32)) [
  | inl e ↦
      let here : i ≡ k / 32 = ground arith in
      let word : get_or (set ws i v) (k / 32) 0 ≡ v =
        ap (λ x. get_or (set ws i v) x 0) (sym here) ∙ get_or-set_self ws i v 0 h in
      elim (Bool-cases (j == k % 32)) [
        | inl f ↦
            let this : (k == 32 * i + j) ≡ true = ground arith in
            let low : k % 32 ≡ j = ground arith in rw (word, this) (ap (bit v) low)
        | inr f ↦
            let other : (k == 32 * i + j) ≡ false = ground arith in
            let apart : j ≢ k % 32 = ground arith in
            rw (word, other) (same (k % 32) apart ∙ ap (λ x. bit (get_or ws x 0) (k % 32)) here)
      ]
  | inr e ↦
      let other : (k == 32 * i + j) ≡ false = ground arith in
      let apart : i ≢ k / 32 = ground arith in
      rw (get_or-set_ne ws i (k / 32) v 0 apart, other) refl
]

-- The bound on every word after one that fits is written.
pub written_fit :
    (ws : List ℕ) (i v : ℕ)
    → i < length ws
    → v < 2 ^ 32
    → ((l : ℕ) → get_or ws l 0 < 2 ^ 32)
    → (l : ℕ) → get_or (set ws i v) l 0 < 2 ^ 32
written_fit ws i v h fits old l = elim (Bool-cases (i == l)) [
  | inl e ↦
      let here : i ≡ l = ground arith in
      let word = ap (λ x. get_or (set ws i v) x 0) (sym here) ∙ get_or-set_self ws i v 0 h in
      omega (arith, word, fits)
  | inr e ↦ let apart : i ≢ l = ground arith in omega (arith, get_or-set_ne ws i l v 0 apart, old l)
]

-- The map that idm_init makes: only the ID 0 is in use.
pub init_in_use : (size k : ℕ) → 0 < size → in_use (idm_init size) k ≡ (k == 0)
unfolding idm_init in_use bit set_bit
init_in_use size k pos =
    let zeros : List ℕ = replicate size 0 in
    let there : 0 < length zeros = omega (arith, length-replicate size zero) in
    let clear : (i : ℕ) → get_or zeros i 0 ≡ 0 = λ i. get_or-replicate size i 0 in
    let e =
      written zeros 0 0 k 1 there (omega arith)
        (λ l apart. bit-set_ne 0 0 l apart ∙ ap (λ w. bit w l) (sym (clear 0))) in
    elim (Bool-cases (k == 0)) [
      | inl f ↦ rw f (e ∙ rw f refl)
      | inr f ↦ rw f (e ∙ rw (f, clear (k / 32)) (bit-zero (k % 32)))
    ]

pub init-IsValid : (size : ℕ) → 0 < size → size ≤ 2 ^ 26 → IsValid (idm_init size)
unfolding idm_init popcount
init-IsValid size pos small =
    let zeros : List ℕ = replicate size 0 in
    let there : 0 < length zeros = omega (arith, length-replicate size zero) in
    let clear : (i : ℕ) → get_or zeros i 0 ≡ 0 = λ i. get_or-replicate size i 0 in
    let one : popcount 32 1 ≡ 1 = refl in
    let none_set = ap (popcount 32) (clear 0) ∙ popcount-zero 32 in
    record {
      sized = length-set zeros 0 1 ∙ length-replicate size 0;
      counted = omega (arith, total-set zeros 0 1 there, total-replicate size, one, none_set);
      words_fit = written_fit zeros 0 1 there (omega arith) (λ i. omega (arith, clear i));
      start = pos;
      small = omega arith;
      reserved = init_in_use size 0 pos;
    }
