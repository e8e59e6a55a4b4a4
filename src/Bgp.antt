-- ===== src/Bgp.antt =====
-- The choice of the best BGP route in proto/bgp/attrs.c: struct bgp_proto and struct bgp_config of
-- proto/bgp/bgp.h as far as it reads them, and the attributes of a route.
pub mod Decision
pub mod Merge
pub mod Best
pub mod Order
use bird.Common.{
  ℕ, zero, suc, ◌+◌, ◌-◌, ◌*◌, ◌≤◌, ◌<◌, ◌≡◌, ◌≢◌, ◌==◌, refl, ap, sym, ◌∙◌, Bool, true, false,
  ◌&&◌, ◌||◌, not, Bool-cases, Option-cases, inl, inr, ◌⊎◌, ==_self, arith, List, [], ◌∷◌, ◌++◌,
  length, length-append, Option, none, some, All, if◌then◌else◌, ◌/◌, ◌%◌,
}
use bird.Rt.{Proto, Value, data_of, ptr, Eattr, Rte}

pub record BgpConfig : Type 0 where
  pub default_local_pref : ℕ
  pub default_med : ℕ
  pub compare_path_lengths : Bool
  pub med_metric : Bool
  pub igp_metric : Bool
  pub prefer_older : Bool
  pub deterministic_med : Bool
  pub confederation : ℕ

-- `remote_ip` is the address as a number of 128 bits, whose words ip6_compare compares in turn;
-- the flags are 0 or 1.
pub record BgpProto : Type 0 where
  pub cf : BgpConfig
  pub local_as : ℕ
  pub is_internal : Bool
  pub is_interior : ℕ
  pub remote_id : ℕ
  pub remote_ip : ℕ

-- The struct bgp_proto that a struct proto is part of.
abbrev pub BgpOf : Type 0
BgpOf = Proto → BgpProto

-- EA_CODE(PROTOCOL_BGP, id).
abbrev pub bgp_code : ℕ → ℕ
bgp_code id = 4 * 256 + id

abbrev pub ba_origin : ℕ
ba_origin = 1

abbrev pub ba_as_path : ℕ
ba_as_path = 2

abbrev pub ba_multi_exit_disc : ℕ
ba_multi_exit_disc = 4

abbrev pub ba_local_pref : ℕ
ba_local_pref = 5

abbrev pub ba_community : ℕ
ba_community = 8

abbrev pub ba_originator_id : ℕ
ba_originator_id = 9

abbrev pub ba_cluster_list : ℕ
ba_cluster_list = 10

abbrev pub ba_aigp : ℕ
ba_aigp = 26

-- BGP_REF_SUPPRESSED, BGP_REF_STALE and BGP_REF_NOT_STALE in rte.pflags.
abbrev pub ref_suppressed : ℕ
ref_suppressed = 1

abbrev pub ref_stale : ℕ
ref_stale = 2

abbrev pub ref_not_stale : ℕ
ref_not_stale = 4

-- A test, a set and a clear of one bit.
abbrev pub has_flag : ℕ → ℕ → Bool
has_flag flags bit = flags / bit % 2 == 1

abbrev pub set_flag : ℕ → ℕ → ℕ
set_flag flags bit = if has_flag flags bit then flags else flags + bit

abbrev pub clear_flag : ℕ → ℕ → ℕ
clear_flag flags bit = if has_flag flags bit then flags - bit else flags

-- The lists of attributes of a route as one, the earlier first; ea_find gives the first one.
unfoldable pub ea__find : List Eattr → ℕ → Option Eattr
ea__find [] id = none
ea__find (a ∷ rest) id = if a.id == id then some a else ea__find rest id

unfoldable pub ea_find : List Eattr → ℕ → Option Eattr
ea_find e id = elim (ea__find e id) [ none ↦ none | some a ↦ if a.undef then none else some a ]

-- u.data and u.ptr; an attribute has the one that its type says.
abbrev pub u_data : Eattr → ℕ
u_data a = elim a.value [ data_of n ↦ n | ptr l ↦ 0 ]

abbrev pub u_ptr : Eattr → List ℕ
u_ptr a = elim a.value [ data_of n ↦ [] | ptr l ↦ l ]

abbrev pub bgp_attr : Rte → ℕ → Option Eattr
bgp_attr r id = ea_find r.attrs.eattrs (bgp_code id)

-- `x ? x->u.data : default`.
abbrev pub data_or : Option Eattr → ℕ → ℕ
data_or none d = d
data_or (some a) d = u_data a
