-- ===== src/Bfd/Window.antt =====
-- The window of sequence numbers in proto/bfd/packets.c: what the operations of a session leave of
-- it, and packets that are played back.
use bird.Common.{ℕ, ◌≡◌, ◌∙◌, Bool, false, Option, none, some, arith, List, Option-cases, inl, inr}
use bird.Bfd.{State, CtlPacket, Session, PasswordItem, Poll}
use bird.Bfd.Password.{password_find}
use bird.Bfd.Ops.{
  bfd_session_update_tx_interval, bfd_session_update_detection_time, bfd_session_control_tx_timer,
  bfd_session_request_poll, bfd_session_terminate_poll, bfd_session_set_min_tx,
  bfd_session_update_state, next_state,
}
use bird.Bfd.Transmit.{fill_with, bfd_fill_authentication, bfd_send_ctl, bfd_tx_timer_hook}
use bird.Bfd.Receive.{before_switch, after_switch, enter, bfd_session_process_ctl}

-- The two sessions refuse the same sequence numbers.
pub record SameWindow (s t : Session) : Type 0 where
  pub conf : t.cf ≡ s.cf
  pub mult : t.detect_mult ≡ s.detect_mult
  pub known : t.rx_csn_known ≡ s.rx_csn_known
  pub last : t.rx_csn ≡ s.rx_csn

pub SameWindow-trans : {s t u : Session} → SameWindow s t → SameWindow t u → SameWindow s u
SameWindow-trans a b = record {
  conf = b.conf ∙ a.conf;
  mult = b.mult ∙ a.mult;
  known = b.known ∙ a.known;
  last = b.last ∙ a.last;
}

update_tx_interval-window : (s : Session) → SameWindow s (bfd_session_update_tx_interval s)
unfolding bfd_session_update_tx_interval
update_tx_interval-window s = ground arith

update_detection_time-window :
    (now : ℕ) (s : Session) (kick : Bool)
    → SameWindow s (bfd_session_update_detection_time now s kick)
unfolding bfd_session_update_detection_time
update_detection_time-window now s kick = ground arith

control_tx_timer-window :
    (now : ℕ) (s : Session) (reset : Bool) → SameWindow s (bfd_session_control_tx_timer now s reset)
unfolding bfd_session_control_tx_timer
control_tx_timer-window now s reset = ground arith

request_poll-window :
    (now : ℕ) (s : Session) (p : Poll) → SameWindow s (bfd_session_request_poll now s p)
unfolding bfd_session_request_poll bfd_session_control_tx_timer
request_poll-window now s p = ground arith

terminate_poll-window : (s : Session) → SameWindow s (bfd_session_terminate_poll s)
unfolding bfd_session_terminate_poll
terminate_poll-window s = ground arith

set_min_tx-window :
    (now : ℕ) (s : Session) (val : ℕ) → SameWindow s (bfd_session_set_min_tx now s val)
unfolding bfd_session_set_min_tx
set_min_tx-window now s val = grind (arith, request_poll-window, update_tx_interval-window)

update_state-window :
    (now : ℕ) (s : Session) (state : State) (diag : ℕ)
    → SameWindow s (bfd_session_update_state now s state diag)
unfolding bfd_session_update_state
update_state-window now s state diag = grind (arith, set_min_tx-window)

module _ (mac_fill : ℕ → CtlPacket → List ℕ) (now real_now : ℕ) where
  fill_with-window :
      (s : Session) (pkt : CtlPacket) (pass : PasswordItem)
      → SameWindow s (fill_with mac_fill now real_now s pkt pass).0
  unfolding fill_with
  fill_with-window s pkt pass = ground arith

  fill-window :
      (s : Session) (pkt : CtlPacket)
      → SameWindow s (bfd_fill_authentication mac_fill now real_now s pkt).0
  unfolding bfd_fill_authentication
  fill-window s pkt = elim (Option-cases (password_find real_now s.cf.passwords false)) [
    | inl e ↦ rw (bfd_fill_authentication, e) (ground arith)
    | inr (pass, e) ↦ rw (bfd_fill_authentication, e) (fill_with-window s pkt pass)
  ]

  send-window :
      (s : Session) (final : Bool) → SameWindow s (bfd_send_ctl mac_fill now real_now s final)
  unfolding bfd_send_ctl
  send-window s final = grind (arith, fill-window)

  pub tx_hook-window : (s : Session) → SameWindow s (bfd_tx_timer_hook mac_fill now real_now s)
  unfolding bfd_tx_timer_hook
  tx_hook-window s = ground (arith, send-window (record s { last_tx = now }) false)

  before-window :
      (s : Session) (flags old_tx old_rx : ℕ)
      → SameWindow s (before_switch mac_fill now real_now s flags old_tx old_rx)
  unfolding before_switch
  before-window s flags old_tx old_rx =
      grind (arith, terminate_poll-window, update_tx_interval-window, update_detection_time-window)

  enter-window : (s : Session) (next : Option (State × ℕ)) → SameWindow s (enter now s next)
  unfolding enter
  enter-window s none = ground arith
  enter-window s (some (state, diag)) = update_state-window now s state diag

  after-window :
      (s : Session) (flags : ℕ) → SameWindow s (after_switch mac_fill now real_now s flags)
  unfolding after_switch
  after-window s flags = grind (arith, send-window, control_tx_timer-window)

  pub process_ctl-window :
      (s : Session) (flags old_tx old_rx : ℕ)
      → SameWindow s (bfd_session_process_ctl mac_fill now real_now s flags old_tx old_rx)
  unfolding bfd_session_process_ctl
  process_ctl-window s flags old_tx old_rx =
      let s1 = before_switch mac_fill now real_now s flags old_tx old_rx in
      let q : SameWindow s s1 = before-window s flags old_tx old_rx in
      let next = next_state s1.loc_state s1.rem_state in
      let r : SameWindow s1 (after_switch mac_fill now real_now (enter now s1 next) flags) =
        SameWindow-trans (enter-window s1 next) (after-window (enter now s1 next) flags) in
      ground (arith, q, SameWindow-trans q r)
