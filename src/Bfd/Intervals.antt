-- ===== src/Bfd/Intervals.antt =====
-- The announced and the used intervals of a session of proto/bfd/bfd.c: what the notes in
-- bfd_session_set_min_tx and bfd_session_set_min_rx say of them, as an invariant of all operations.
use bird.Common.{ℕ, ◌≤◌, ◌≡◌, Bool, true, false, Option, none, some, arith, List}
use bird.Bfd.{State, CtlPacket, Session, SessionConfig, PasswordItem, Poll}
use bird.Bfd.Password.{password_find}
use bird.Bfd.Ops.{
  bfd_session_update_tx_interval, bfd_session_update_detection_time, bfd_session_control_tx_timer,
  bfd_session_request_poll, bfd_session_terminate_poll, bfd_session_set_min_tx,
  bfd_session_set_min_rx, bfd_session_update_state, bfd_session_timeout, bfd_reconfigure_session,
  bfd_add_session, next_state,
}
use bird.Bfd.Transmit.{fill_with, bfd_fill_authentication, bfd_send_ctl, bfd_tx_timer_hook}
use bird.Bfd.Receive.{before_switch, after_switch, enter, bfd_session_process_ctl}

-- The interval in use is never longer than the one announced for sending, and never shorter than
-- the one announced for receiving.
pub record IsPaced (s : Session) : Type 0 where
  pub tx_paced : s.des_min_tx_int ≤ s.des_min_tx_new
  pub rx_paced : s.req_min_rx_new ≤ s.req_min_rx_int

-- The four intervals are the same in both sessions.
pub record SamePace (s t : Session) : Type 0 where
  pub tx_int : t.des_min_tx_int ≡ s.des_min_tx_int
  pub tx_new : t.des_min_tx_new ≡ s.des_min_tx_new
  pub rx_int : t.req_min_rx_int ≡ s.req_min_rx_int
  pub rx_new : t.req_min_rx_new ≡ s.req_min_rx_new

pub IsPaced-same : {s t : Session} → SamePace s t → IsPaced s → IsPaced t
IsPaced-same e p = ground arith

update_tx_interval_same : (s : Session) → SamePace s (bfd_session_update_tx_interval s)
unfolding bfd_session_update_tx_interval
update_tx_interval_same s = ground arith

update_detection_time_same :
    (now : ℕ) (s : Session) (kick : Bool)
    → SamePace s (bfd_session_update_detection_time now s kick)
unfolding bfd_session_update_detection_time
update_detection_time_same now s kick = ground arith

control_tx_timer_same :
    (now : ℕ) (s : Session) (reset : Bool) → SamePace s (bfd_session_control_tx_timer now s reset)
unfolding bfd_session_control_tx_timer
control_tx_timer_same now s reset = ground arith

request_poll_same :
    (now : ℕ) (s : Session) (p : Poll) → SamePace s (bfd_session_request_poll now s p)
unfolding bfd_session_request_poll bfd_session_control_tx_timer
request_poll_same now s p = ground arith

terminate_poll-IsPaced : (s : Session) → IsPaced s → IsPaced (bfd_session_terminate_poll s)
unfolding bfd_session_terminate_poll
terminate_poll-IsPaced s p = ground arith

set_min_tx-IsPaced :
    (now : ℕ) (s : Session) (val : ℕ) → IsPaced s → IsPaced (bfd_session_set_min_tx now s val)
unfolding bfd_session_set_min_tx
set_min_tx-IsPaced now s val p = grind (arith, request_poll_same, update_tx_interval_same)

set_min_rx-IsPaced :
    (now : ℕ) (s : Session) (val : ℕ) → IsPaced s → IsPaced (bfd_session_set_min_rx now s val)
unfolding bfd_session_set_min_rx
set_min_rx-IsPaced now s val p = grind (arith, request_poll_same, update_detection_time_same)

update_state-IsPaced :
    (now : ℕ) (s : Session) (state : State) (diag : ℕ)
    → IsPaced s
    → IsPaced (bfd_session_update_state now s state diag)
unfolding bfd_session_update_state
update_state-IsPaced now s state diag p = grind (arith, set_min_tx-IsPaced)

pub timeout-IsPaced : (now : ℕ) (s : Session) → IsPaced s → IsPaced (bfd_session_timeout now s)
unfolding bfd_session_timeout
timeout-IsPaced now s p =
    IsPaced-same (control_tx_timer_same now _ true) (update_state-IsPaced now _ _ _ (ground arith))

pub reconfigure-IsPaced :
    (now : ℕ) (s : Session) (cf : SessionConfig)
    → IsPaced s
    → IsPaced (bfd_reconfigure_session now s cf)
unfolding bfd_reconfigure_session
reconfigure-IsPaced now s cf p =
    grind (arith, control_tx_timer_same, set_min_rx-IsPaced, set_min_tx-IsPaced)

pub add-IsPaced :
    (now : ℕ) (cf : SessionConfig) (id csn : ℕ) (socket : Bool)
    → IsPaced (bfd_add_session now cf id csn socket)
unfolding bfd_add_session
add-IsPaced now cf id csn socket = grind (arith, control_tx_timer_same, update_tx_interval_same)

module _ (mac_fill : ℕ → CtlPacket → List ℕ) (now real_now : ℕ) where
  fill_with_same :
      (s : Session) (pkt : CtlPacket) (pass : PasswordItem)
      → SamePace s (fill_with mac_fill now real_now s pkt pass).0
  unfolding fill_with
  fill_with_same s pkt pass = ground arith

  fill_same :
      (s : Session) (pkt : CtlPacket)
      → SamePace s (bfd_fill_authentication mac_fill now real_now s pkt).0
  unfolding bfd_fill_authentication
  fill_same s pkt =
      elim (password_find real_now s.cf.passwords false)
        as (λ o.
          SamePace s
            (elim o as (λ _. Session × CtlPacket) [
              | none ↦ (s, pkt)
              | some pass ↦ fill_with mac_fill now real_now s pkt pass
            ]).0) [ none ↦ ground arith | some pass ↦ fill_with_same s pkt pass ]

  send_same : (s : Session) (final : Bool) → SamePace s (bfd_send_ctl mac_fill now real_now s final)
  unfolding bfd_send_ctl
  send_same s final = grind (arith, fill_same)

  pub tx_hook_same : (s : Session) → SamePace s (bfd_tx_timer_hook mac_fill now real_now s)
  unfolding bfd_tx_timer_hook
  tx_hook_same s = ground (arith, send_same (record s { last_tx = now }) false)

  before-IsPaced :
      (s : Session) (flags old_tx old_rx : ℕ)
      → IsPaced s
      → IsPaced (before_switch mac_fill now real_now s flags old_tx old_rx)
  unfolding before_switch
  before-IsPaced s flags old_tx old_rx p =
      grind (arith, terminate_poll-IsPaced, update_tx_interval_same, update_detection_time_same)

  enter-IsPaced : (s : Session) (next : Option (State × ℕ)) → IsPaced s → IsPaced (enter now s next)
  unfolding enter
  enter-IsPaced s none p = p
  enter-IsPaced s (some (state, diag)) p = update_state-IsPaced now s state diag p

  after-IsPaced :
      (s : Session) (flags : ℕ) → IsPaced s → IsPaced (after_switch mac_fill now real_now s flags)
  unfolding after_switch
  after-IsPaced s flags p = grind (arith, send_same, control_tx_timer_same)

  pub process_ctl-IsPaced :
      (s : Session) (flags old_tx old_rx : ℕ)
      → IsPaced s
      → IsPaced (bfd_session_process_ctl mac_fill now real_now s flags old_tx old_rx)
  unfolding bfd_session_process_ctl
  process_ctl-IsPaced s flags old_tx old_rx p =
      let s1 = before_switch mac_fill now real_now s flags old_tx old_rx in
      let q : IsPaced s1 = before-IsPaced s flags old_tx old_rx p in
      let next = next_state s1.loc_state s1.rem_state in
      ground (arith, q, after-IsPaced (enter now s1 next) flags (enter-IsPaced s1 next q))
