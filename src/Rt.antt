-- ===== src/Rt.antt =====
-- The data of routing tables: struct rte, struct rta and their sources from nest/route.h, and the
-- counters and limits of a channel from nest/protocol.h, as far as nest/rt-table.c uses them.
pub mod Better
pub mod Recalculate
pub mod Order
pub mod Sorted
pub mod Blocking
pub mod Balance
pub mod Stats
pub mod Counts
pub mod Updates
pub mod Refine
pub mod Sources
pub mod Cases
pub mod Splits
pub mod Best
use bird.Common.{ℕ, Bool, false, not, Option, none, some, List}

-- struct proto: its address, and that of its struct protocol, the kind of protocol it runs.
pub record Proto : Type 0 where
  pub address : ℕ
  pub proto : ℕ

-- struct rte_src; no two share a global number.
pub record RteSrc : Type 0 where
  pub proto : Proto
  pub global_id : ℕ

-- The value of a struct eattr: u.data, or what u.ptr points at, in bytes or in words as the
-- attribute's type has it.
pub data Value : Type 0 where
  data_of : ℕ → Value
  ptr : List ℕ → Value

pub record Eattr : Type 0 where
  pub id : ℕ
  pub undef : Bool
  pub value : Value

-- struct rta: `address` is its place in the cache of attributes, where equal ones share one.
pub record Rta : Type 0 where
  pub address : ℕ
  pub pref : ℕ
  pub dest : ℕ
  pub igp_metric : ℕ
  pub eattrs : List Eattr

-- The REF_* bits of rte.flags, each by itself.
pub record RefFlags : Type 0 where
  pub cow : Bool
  pub filtered : Bool
  pub stale : Bool
  pub discard : Bool
  pub modify : Bool

-- struct rte without its link: a network's routes are a list. The sender is the address of the
-- protocol whose channel it came through.
pub record Rte : Type 0 where
  pub src : RteSrc
  pub sender : ℕ
  pub attrs : Rta
  pub id : ℕ
  pub flags : RefFlags
  pub pflags : ℕ
  pub lastmod : ℕ

abbrev pub rte_is_filtered : Rte → Bool
rte_is_filtered r = r.flags.filtered

abbrev pub rte_is_valid : Option Rte → Bool
rte_is_valid none = false
rte_is_valid (some r) = not (rte_is_filtered r)

abbrev pub rte_is_ok : Option Rte → Bool
rte_is_ok none = false
rte_is_ok (some r) = not (rte_is_filtered r)

-- The PLA_* actions of a limit.
pub data Action : Type 0 where
  pla_none pla_warn pla_block pla_restart pla_disable : Action

-- The PLS_* states of a limit.
pub data LimitState : Type 0 where
  pls_initial pls_active pls_blocked : LimitState

-- struct channel_limit.
pub record ChannelLimit : Type 0 where
  pub limit : ℕ
  pub action : Action
  pub state : LimitState

-- The import counters of struct proto_stats, each a u32.
pub record ProtoStats : Type 0 where
  pub imp_routes : ℕ
  pub filt_routes : ℕ
  pub imp_updates_ignored : ℕ
  pub imp_updates_accepted : ℕ
  pub imp_withdraws_ignored : ℕ
  pub imp_withdraws_accepted : ℕ

-- struct channel, with what its protocol asks for when a limit takes it down.
pub record Channel : Type 0 where
  pub proto : ℕ
  pub stats : ProtoStats
  pub rx_limit : ChannelLimit
  pub in_limit : ChannelLimit
  pub has_in_table : Bool
  pub in_keep_filtered : Bool
  pub is_up : Bool
  pub down : Option Bool
