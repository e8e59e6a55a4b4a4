-- ===== src/Bfd/States.antt =====
-- The state machine of a BFD session: what bfd_session_process_ctl, bfd_session_timeout and the
-- other operations of proto/bfd/bfd.c do to its state, against the table of RFC 5880, 6.8.6.
use bird.Common.{
  ℕ, ◌≡◌, refl, Bool, true, false, none, some, arith, ◌==◌, Bool-cases, inl, inr, List,
  if◌then◌else◌, sym, ◌∙◌,
}
use bird.Bfd.{State, admin_down, down, init, up, code, Poll, CtlPacket, Session, PasswordItem}
use bird.Bfd.Password.{password_find}
use bird.Bfd.Ops.{
  bfd_session_update_tx_interval, bfd_session_update_detection_time, bfd_session_control_tx_timer,
  bfd_session_request_poll, bfd_session_terminate_poll, bfd_session_set_min_tx,
  bfd_session_set_min_rx, bfd_session_update_state, next_state,
}
use bird.Bfd.Transmit.{fill_with, bfd_fill_authentication, bfd_send_ctl}
use bird.Bfd.Receive.{before_switch, after_switch, enter, bfd_session_process_ctl}

-- The states of both sides, the diagnostic and the time of the last change are the same.
pub record SameState (s t : Session) : Type 0 where
  pub loc : t.loc_state ≡ s.loc_state
  pub rem : t.rem_state ≡ s.rem_state
  pub diag : t.loc_diag ≡ s.loc_diag
  pub changed : t.last_state_change ≡ s.last_state_change

pub update_tx_interval_state : (s : Session) → SameState s (bfd_session_update_tx_interval s)
unfolding bfd_session_update_tx_interval
update_tx_interval_state s = ground arith

update_detection_time_state :
    (now : ℕ) (s : Session) (kick : Bool)
    → SameState s (bfd_session_update_detection_time now s kick)
unfolding bfd_session_update_detection_time
update_detection_time_state now s kick = ground arith

pub control_tx_timer_state :
    (now : ℕ) (s : Session) (reset : Bool) → SameState s (bfd_session_control_tx_timer now s reset)
unfolding bfd_session_control_tx_timer
control_tx_timer_state now s reset = ground arith

request_poll_state :
    (now : ℕ) (s : Session) (p : Poll) → SameState s (bfd_session_request_poll now s p)
unfolding bfd_session_request_poll
request_poll_state now s p = grind (arith, control_tx_timer_state)

terminate_poll_state : (s : Session) → SameState s (bfd_session_terminate_poll s)
unfolding bfd_session_terminate_poll
terminate_poll_state s = ground arith

pub set_min_tx_state :
    (now : ℕ) (s : Session) (val : ℕ) → SameState s (bfd_session_set_min_tx now s val)
unfolding bfd_session_set_min_tx
set_min_tx_state now s val = grind (arith, request_poll_state, update_tx_interval_state)

set_min_rx_state :
    (now : ℕ) (s : Session) (val : ℕ) → SameState s (bfd_session_set_min_rx now s val)
unfolding bfd_session_set_min_rx
set_min_rx_state now s val = grind (arith, request_poll_state, update_detection_time_state)

-- A change of state sets the state, the diagnostic and the time, and a change to the same state
-- sets none of them.
pub update_state_lem :
    (now : ℕ) (s : Session) (state : State) (diag : ℕ)
    → let t = bfd_session_update_state now s state diag in
      (t.loc_state ≡ state)
      × (t.rem_state ≡ s.rem_state)
      × (t.loc_diag ≡ (if code state == code s.loc_state then s.loc_diag else diag))
unfolding bfd_session_update_state
update_state_lem now s state diag = grind (arith, set_min_tx_state)

module _ (mac_fill : ℕ → CtlPacket → List ℕ) (now real_now : ℕ) where
  fill_with_state :
      (s : Session) (pkt : CtlPacket) (pass : PasswordItem)
      → SameState s (fill_with mac_fill now real_now s pkt pass).0
  unfolding fill_with
  fill_with_state s pkt pass = ground arith

  fill_state :
      (s : Session) (pkt : CtlPacket)
      → SameState s (bfd_fill_authentication mac_fill now real_now s pkt).0
  unfolding bfd_fill_authentication
  fill_state s pkt =
      elim (password_find real_now s.cf.passwords false)
        as (λ o.
          SameState s
            (elim o as (λ _. Session × CtlPacket) [
              | none ↦ (s, pkt)
              | some pass ↦ fill_with mac_fill now real_now s pkt pass
            ]).0) [ none ↦ ground arith | some pass ↦ fill_with_state s pkt pass ]

  send_state :
      (s : Session) (final : Bool) → SameState s (bfd_send_ctl mac_fill now real_now s final)
  unfolding bfd_send_ctl
  send_state s final = grind (arith, fill_state)

  before_state :
      (s : Session) (flags old_tx old_rx : ℕ)
      → SameState s (before_switch mac_fill now real_now s flags old_tx old_rx)
  unfolding before_switch
  before_state s flags old_tx old_rx =
      grind (arith, terminate_poll_state, update_tx_interval_state, update_detection_time_state)

  after_state : (s : Session) (flags : ℕ) → SameState s (after_switch mac_fill now real_now s flags)
  unfolding after_switch
  after_state s flags = grind (arith, send_state, control_tx_timer_state)

-- The next state by RFC 5880, 6.8.6: of the local state and the state received.
unfoldable pub rfc_state : State → State → State
rfc_state admin_down rem = admin_down
rfc_state down admin_down = down
rfc_state down down = init
rfc_state down init = up
rfc_state down up = down
rfc_state init admin_down = down
rfc_state init down = init
rfc_state init init = up
rfc_state init up = up
rfc_state up admin_down = down
rfc_state up down = down
rfc_state up init = up
rfc_state up up = up

-- The diagnostic that goes with it: neighbor signalled session down on the way down, none on the
-- way up, and the old one where the state stays.
unfoldable pub rfc_diag : State → State → ℕ → ℕ
unfolding rfc_state
rfc_diag loc rem old =
    if code (rfc_state loc rem) == code loc
    then old
    else if code (rfc_state loc rem) == code down
    then 3
    else 0

-- The table for given states; `next` is what the switch has chosen.
enter-rfc :
    (loc rem : State) (now : ℕ) (s : Session)
    → s.loc_state ≡ loc
    → s.rem_state ≡ rem
    → let t = enter now s (next_state loc rem) in
      (t.loc_state ≡ rfc_state loc rem)
      × (t.rem_state ≡ rem)
      × (t.loc_diag ≡ rfc_diag loc rem s.loc_diag)
unfolding enter next_state rfc_diag
enter-rfc admin_down rem now s h k = ground arith
enter-rfc down admin_down now s h k = ground arith
enter-rfc down down now s h k = ground (arith, update_state_lem now s init 0)
enter-rfc down init now s h k = ground (arith, update_state_lem now s up 0)
enter-rfc down up now s h k = ground arith
enter-rfc init admin_down now s h k = ground (arith, update_state_lem now s down 3)
enter-rfc init down now s h k = ground arith
enter-rfc init init now s h k = ground (arith, update_state_lem now s up 0)
enter-rfc init up now s h k = ground (arith, update_state_lem now s up 0)
enter-rfc up admin_down now s h k = ground (arith, update_state_lem now s down 3)
enter-rfc up down now s h k = ground (arith, update_state_lem now s down 3)
enter-rfc up init now s h k = ground arith
enter-rfc up up now s h k = ground arith

rfc_stays :
    (loc rem : State) (old : ℕ)
    → loc ≡ admin_down
    → (rfc_state loc rem ≡ loc) × (rfc_diag loc rem old ≡ old)
unfolding rfc_diag
rfc_stays loc rem old h = ground arith

code_admin : (st : State) → (code st == code admin_down) ≡ true → st ≡ admin_down
code_admin st h = ground arith

-- Processing a control packet moves the session as the table of RFC 5880 says, from every state
-- and for every state received, and sets the diagnostic with it.
pub process_ctl-rfc :
    (mac_fill : ℕ → CtlPacket → List ℕ) (now real_now : ℕ) (s : Session) (flags old_tx old_rx : ℕ)
    → let t = bfd_session_process_ctl mac_fill now real_now s flags old_tx old_rx in
      (t.loc_state ≡ rfc_state s.loc_state s.rem_state)
      × (t.rem_state ≡ s.rem_state)
      × (t.loc_diag ≡ rfc_diag s.loc_state s.rem_state s.loc_diag)
unfolding bfd_session_process_ctl
process_ctl-rfc mac_fill now real_now s flags old_tx old_rx =
    let s1 = before_switch mac_fill now real_now s flags old_tx old_rx in
    let b = before_state mac_fill now real_now s flags old_tx old_rx in
    elim (Bool-cases (code s1.loc_state == code admin_down)) [
      | inl stays ↦
          let e = code_admin s1.loc_state stays in
          let r = rfc_stays s.loc_state s.rem_state s.loc_diag (sym b.loc ∙ e) in
          rw stays (ground (arith, b, r))
      | inr moves ↦
          let next = enter now s1 (next_state s1.loc_state s1.rem_state) in
          let r = enter-rfc s1.loc_state s1.rem_state now s1 refl refl in
          rw moves (ground (arith, b, r, after_state mac_fill now real_now next flags))
    ]
