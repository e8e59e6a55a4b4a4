-- ===== src/ASet.antt =====
-- Community sets of nest/a-set.c and nest/attrs.h. A struct adata that holds a set is its array of
-- u32 words, and a null pointer is `none`; `length` in bytes is four times the number of words.
pub mod Ec
pub mod Lc
pub mod Int
use bird.Common.{ℕ, ◌+◌, ◌*◌, ◌%◌, ◌^◌, Option, none, some, List, []}
use bird.Common.Word.{u32, u64, ◌<<◌, ◌>>◌}

abbrev pub Adata : Type 0
Adata = List ℕ

-- `list ? list->data : nothing`, as the memcpy under `if (list)` reads it.
abbrev pub words_of : Option Adata → Adata
words_of none = []
words_of (some l) = l

-- The halves of an extended community, a u64.
abbrev pub ec_hi : ℕ → ℕ
ec_hi ec = u32 (ec >> 32)

abbrev pub ec_lo : ℕ → ℕ
ec_lo ec = u32 ec

-- (key << 32) | val of values below 2 ^ 32: the fields do not overlap, so the or is a sum.
abbrev pub ec_generic : ℕ → ℕ → ℕ
ec_generic key val = u64 (key << 32) + val

-- A large community.
pub record Lcomm : Type 0 where
  pub asn : ℕ
  pub ldp1 : ℕ
  pub ldp2 : ℕ
