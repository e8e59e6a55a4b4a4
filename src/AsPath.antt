-- ===== src/AsPath.antt =====
-- AS paths of nest/a-path.c and nest/attrs.h. A struct adata that holds a path is its bytes: for
-- each segment its type, the number of its AS numbers, and these, four bytes each in network order.
pub mod Queries
pub mod Edit
pub mod Valid
pub mod Segments
pub mod Lengths
pub mod Members
pub mod Rewrites
pub mod Effects
pub mod Widths
pub mod Accepts
pub mod Walk
pub mod Compare
pub mod Match
pub mod Filter
use bird.Common.{
  ℕ, zero, suc, ◌+◌, ◌*◌, ◌/◌, ◌%◌, ◌^◌, ◌≤◌, ◌<◌, Bool, true, false, ◌==◌, ◌||◌, Option, none,
  some, List, [], ◌∷◌, ◌++◌, length, if◌then◌else◌, ◌≡◌,
}

-- AS_PATH_SET, AS_PATH_SEQUENCE, AS_PATH_CONFED_SEQUENCE and AS_PATH_CONFED_SET.
abbrev pub path_set : ℕ
path_set = 1

abbrev pub path_sequence : ℕ
path_sequence = 2

abbrev pub confed_sequence : ℕ
confed_sequence = 3

abbrev pub confed_set : ℕ
confed_set = 4

-- A number sent where 16 bits are too few for the true one.
abbrev pub as_trans : ℕ
as_trans = 23456

-- put_u32, and get_u32 of four bytes.
abbrev pub put_as : ℕ → List ℕ
put_as a = a / 2 ^ 24 % 2 ^ 8 ∷ a / 2 ^ 16 % 2 ^ 8 ∷ a / 2 ^ 8 % 2 ^ 8 ∷ a % 2 ^ 8 ∷ []

abbrev pub get_as : ℕ → ℕ → ℕ → ℕ → ℕ
get_as a b c d = a * 2 ^ 24 + b * 2 ^ 16 + c * 2 ^ 8 + d

-- The abstract view: the segments of a path.
pub record Segment : Type 0 where
  pub type : ℕ
  pub asns : List ℕ

abbrev pub asn_bytes : List ℕ → List ℕ
asn_bytes [] = []
asn_bytes (a ∷ asns) = put_as a ++ asn_bytes asns

abbrev pub segment_bytes : Segment → List ℕ
segment_bytes s = s.type ∷ length s.asns ∷ asn_bytes s.asns

abbrev pub encode : List Segment → List ℕ
encode [] = []
encode (s ∷ segs) = segment_bytes s ++ encode segs

abbrev pub AllAsns : List ℕ → Type 0
AllAsns [] = Unit
AllAsns (a ∷ asns) = (a < 2 ^ 32) × AllAsns asns

-- What one segment of a valid path is: a known type, 1 to 255 numbers of 32 bits.
pub record IsSegment (s : Segment) : Type 0 where
  pub known : (1 ≤ s.type) × (s.type ≤ 4)
  pub filled : 0 < length s.asns
  pub counted : length s.asns < 256
  pub numbers : AllAsns s.asns

abbrev pub IsPath : List Segment → Type 0
IsPath [] = Unit
IsPath (s ∷ segs) = IsSegment s × IsPath segs
