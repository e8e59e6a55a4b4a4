-- ===== src/Idm.antt =====
-- The map of IDs in use, lib/idm.c: struct idm of lib/idm.h and its three operations. The bitwise
-- operators of C on one bit of a word are written out on numbers.
mod Bits
mod Slots
pub mod Invariant
pub mod Free
pub mod Alloc
pub mod Reach
use bird.Common.{
  ℕ, zero, suc, ◌+◌, ◌-◌, ◌*◌, ◌/◌, ◌%◌, ◌^◌, max, Bool, not, ltb, ◌==◌, ◌||◌, if◌then◌else◌,
  Option, none, some, List, [], ◌∷◌, ◌++◌, get_elem?, get_or, set, take, drop, replicate,
}
use bird.Common.Word.{u32}
use mathlib.Core.Option

-- w & (1 << j), w | (1 << j) and w & ~(1 << j).
unfoldable pub bit : ℕ → ℕ → Bool
bit w zero = w % 2 == 1
bit w (suc j) = bit (w / 2) j

unfoldable pub set_bit : ℕ → ℕ → ℕ
set_bit w zero = if w % 2 == 1 then w else w + 1
set_bit w (suc j) = w % 2 + 2 * set_bit (w / 2) j

unfoldable pub clear_bit : ℕ → ℕ → ℕ
clear_bit w zero = if w % 2 == 1 then w - 1 else w
clear_bit w (suc j) = w % 2 + 2 * clear_bit (w / 2) j

-- ffs(~x) - 1 on a word of `n` bits: the lowest bit that is clear. Where there is none ffs is 0, and
-- the shift by -1 that follows is undefined: `none`.
unfoldable pub u32_cto : ℕ → ℕ → Option ℕ
u32_cto zero x = none
u32_cto (suc n) x = if x % 2 == 0 then some 0 else Option.map suc (u32_cto n (x / 2))

-- `words` is the array `data`.
pub record Idm : Type 0 where
  pub words : List ℕ
  pub pos : ℕ
  pub used : ℕ
  pub size : ℕ

-- idm_init; an array without words has no place for the reserved ID 0.
unfoldable pub idm_init : ℕ → Idm
idm_init size = record { words = set (replicate size 0) 0 1; pos = 0; used = 1; size = size }

-- The search for a word that is not 0xffffffff; `i` is the index of the first.
unfoldable pub find_from : List ℕ → ℕ → Option ℕ
find_from [] i = none
find_from (w ∷ ws) i = if w == 0xffffffff then find_from ws (suc i) else some i

abbrev pub find_between : Idm → ℕ → ℕ → Option ℕ
find_between m lo hi = find_from (take (hi - lo) (drop lo m.words)) lo

-- The array doubled; `i` is where the search has ended.
unfoldable pub expand : Idm → ℕ → Idm
expand m i =
    let size = u32 (m.size * 2) in
    record m { size = size; words = take i m.words ++ replicate (size - i) 0 }

-- What follows the label `found`. `none` is an assertion that fails.
unfoldable pub found : Idm → ℕ → Option (Idm × ℕ)
found m i = if not (ltb i 0x8000000) then none else elim (get_elem? m.words i) [
  | none ↦ none
  | some w ↦ elim (u32_cto 32 w) [
    | none ↦ none
    | some j ↦ some (
      record m { pos = i; words = set m.words i (set_bit w j); used = u32 (m.used + 1) },
      32 * i + j,
    )
  ]
]

unfoldable pub idm_alloc : Idm → Option (Idm × ℕ)
idm_alloc m = elim (find_between m m.pos m.size) [
  | some i ↦ found m i
  | none ↦
      if ltb (u32 (m.size * 28)) m.used
      then found (expand m (max m.pos m.size)) (max m.pos m.size)
      else elim (find_between m 0 m.pos) [ none ↦ none | some i ↦ found m i ]
]

unfoldable pub idm_free : Idm → ℕ → Option Idm
idm_free m id =
    let i = id / 32 in
    let j = id % 32 in
    let w = get_or m.words i 0 in
    if not (ltb i m.size) || not (bit w j)
    then none
    else some (record m { words = set m.words i (clear_bit w j); used = u32 (m.used + 2 ^ 32 - 1) })

-- The abstract view: the ID is one of those in use.
unfoldable pub in_use : Idm → ℕ → Bool
in_use m id = bit (get_or m.words (id / 32) 0) (id % 32)
