-- ===== src/Bfd.antt =====
-- The data of the BFD protocol: struct bfd_session and its configuration in proto/bfd/bfd.h, the
-- control packet of proto/bfd/packets.c, and the timers of lib/timer.h that a session owns.
pub mod Password
pub mod Ops
pub mod Transmit
pub mod Receive
pub mod Intervals
pub mod States
pub mod Timing
pub mod Exchange
pub mod Window
pub mod Replay
pub mod Advanced
pub mod Reach
use bird.Common.{ℕ, ◌+◌, ◌*◌, ◌/◌, ◌%◌, ◌^◌, Bool, true, false, not, ◌==◌, ◌!=◌, ◌||◌, Option, List}

-- BFD_STATE_*; a packet carries the two bits of the number.
pub data State : Type 0 where
  admin_down down init up : State

abbrev pub code : State → ℕ
code admin_down = 0
code down = 1
code init = 2
code up = 3

-- The state of two bits, as bfd_pkt_get_state reads it.
abbrev pub state_of : ℕ → State
state_of n = elim (n == 0) [
  | true ↦ admin_down
  | false ↦ elim (n == 1) [ true ↦ down | false ↦ elim (n == 2) [ true ↦ init | false ↦ up ] ]
]

-- The bits BFD_POLL_TX and BFD_POLL_RX of a poll set, a u8 that holds no other.
pub record Poll : Type 0 where
  pub tx : Bool
  pub rx : Bool

abbrev pub no_poll : Poll
no_poll = record { tx = false; rx = false }

-- The set is not 0.
abbrev pub any_poll : Poll → Bool
any_poll p = p.tx || p.rx

-- A timer: 0 in `expires` stands for one that does not run.
pub record Timer : Type 0 where
  pub expires : ℕ
  pub recurrent : ℕ
  pub randomize : ℕ

abbrev pub tm_active : Timer → Bool
tm_active t = t.expires != 0

-- BFD_DIAG_*, those that the program sets.
abbrev pub diag_nothing : ℕ
diag_nothing = 0

abbrev pub diag_timeout : ℕ
diag_timeout = 1

abbrev pub diag_neighbor_down : ℕ
diag_neighbor_down = 3

-- struct password_item of nest/password.h, what the lookups read of it.
pub record PasswordItem : Type 0 where
  pub password : List ℕ
  pub id : ℕ
  pub alg : ℕ
  pub accfrom : ℕ
  pub accto : ℕ
  pub genfrom : ℕ
  pub gento : ℕ

pub record SessionConfig : Type 0 where
  pub min_rx_int : ℕ
  pub min_tx_int : ℕ
  pub idle_tx_int : ℕ
  pub multiplier : ℕ
  pub passive : Bool
  pub auth_type : ℕ
  pub passwords : Option (List PasswordItem)

-- The authentication section behind a control packet.
pub record AuthSection : Type 0 where
  pub type : ℕ
  pub length : ℕ
  pub key_id : ℕ
  pub csn : ℕ
  pub bytes : List ℕ

-- struct bfd_ctl_packet in host byte order, with the section that may follow it.
pub record CtlPacket : Type 0 where
  pub vdiag : ℕ
  pub flags : ℕ
  pub detect_mult : ℕ
  pub length : ℕ
  pub snd_id : ℕ
  pub rcv_id : ℕ
  pub des_min_tx_int : ℕ
  pub req_min_rx_int : ℕ
  pub req_min_echo_rx_int : ℕ
  pub auth : AuthSection

-- struct bfd_session. `notify` says that its node is in the protocol's notify list; `sent` holds
-- the control packets handed to the socket, the latest first; `has_socket` is ifa->sk.
pub record Session : Type 0 where
  pub passive : Bool
  pub poll_active : Poll
  pub poll_scheduled : Poll
  pub loc_state : State
  pub rem_state : State
  pub loc_diag : ℕ
  pub rem_diag : ℕ
  pub loc_id : ℕ
  pub rem_id : ℕ
  pub cf : SessionConfig
  pub des_min_tx_int : ℕ
  pub des_min_tx_new : ℕ
  pub req_min_rx_int : ℕ
  pub req_min_rx_new : ℕ
  pub rem_min_tx_int : ℕ
  pub rem_min_rx_int : ℕ
  pub rem_demand_mode : Bool
  pub detect_mult : ℕ
  pub rem_detect_mult : ℕ
  pub last_tx : ℕ
  pub last_rx : ℕ
  pub tx_timer : Timer
  pub hold_timer : Timer
  pub last_state_change : ℕ
  pub notify : Bool
  pub rx_csn_known : Bool
  pub rx_csn : ℕ
  pub tx_csn : ℕ
  pub tx_csn_time : ℕ
  pub has_socket : Bool
  pub sent : List CtlPacket
