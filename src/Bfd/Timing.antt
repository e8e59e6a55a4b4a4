-- ===== src/Bfd/Timing.antt =====
-- Timers and timeouts of a session of proto/bfd/bfd.c: the transmission interval and its jitter,
-- the detection time, when the transmission timer runs, and what a timeout leaves.
use bird.Common.{
  ℕ, ◌+◌, ◌*◌, ◌≤◌, ◌<◌, ◌≡◌, ◌≢◌, max, Bool, true, false, arith, ◌==◌, if◌then◌else◌, not, ◌⊎◌,
}
use bird.Bfd.{State, down, up, code, Poll, no_poll, any_poll, Session, tm_active}
use bird.Bfd.Ops.{
  tx_must_stop, bfd_session_update_tx_interval, bfd_session_control_tx_timer,
  bfd_session_request_poll, bfd_session_set_min_tx, bfd_session_update_state, bfd_session_timeout,
  bfd_session_terminate_poll,
}
use bird.Bfd.States.{update_state_lem, control_tx_timer_state}

-- A session that has forgotten its remote side: no number, no sequence number, no poll.
pub record IsDetached (s : Session) : Type 0 where
  pub no_id : s.rem_id ≡ 0
  pub no_csn : s.rx_csn_known ≡ false
  pub idle : s.poll_active ≡ no_poll
  pub unscheduled : s.poll_scheduled ≡ no_poll

update_tx_interval-IsDetached :
    (s : Session) → IsDetached s → IsDetached (bfd_session_update_tx_interval s)
unfolding bfd_session_update_tx_interval
update_tx_interval-IsDetached s d = ground arith

control-IsDetached :
    (now : ℕ) (s : Session) (reset : Bool)
    → IsDetached s
    → IsDetached (bfd_session_control_tx_timer now s reset)
unfolding bfd_session_control_tx_timer
control-IsDetached now s reset d = ground arith

request_detached :
    (now : ℕ) (s : Session) (p : Poll) → IsDetached s → bfd_session_request_poll now s p ≡ s
unfolding bfd_session_request_poll
request_detached now s p d = ground arith

set_min_tx-IsDetached :
    (now : ℕ) (s : Session) (val : ℕ) → IsDetached s → IsDetached (bfd_session_set_min_tx now s val)
unfolding bfd_session_set_min_tx
set_min_tx-IsDetached now s val d = grind (arith, request_detached, update_tx_interval-IsDetached)

update_state-IsDetached :
    (now : ℕ) (s : Session) (state : State) (diag : ℕ)
    → IsDetached s
    → IsDetached (bfd_session_update_state now s state diag)
unfolding bfd_session_update_state
update_state-IsDetached now s state diag d = grind (arith, set_min_tx-IsDetached)

-- A timeout takes a session to the state down, with the diagnostic 1 unless it was down already,
-- and forgets the remote side: its state, its number, its sequence number and every poll.
pub timeout_lem :
    (now : ℕ) (s : Session)
    → let t = bfd_session_timeout now s in
      (t.loc_state ≡ down)
      × (t.rem_state ≡ down)
      × (t.loc_diag ≡ (if code s.loc_state == code down then s.loc_diag else 1))
      × IsDetached t
unfolding bfd_session_timeout
timeout_lem now s =
    let s1 : Session = record s {
      rem_state = down;
      rem_id = 0;
      rem_min_tx_int = 0;
      rem_min_rx_int = 1;
      rem_demand_mode = false;
      rem_detect_mult = 0;
      rx_csn_known = false;
      poll_active = no_poll;
      poll_scheduled = no_poll;
    } in
    let s2 = bfd_session_update_state now s1 down 1 in
    let d : IsDetached s2 = update_state-IsDetached now s1 down 1 (ground arith) in
    ground (
      arith,
      update_state_lem now s1 down 1,
      control_tx_timer_state now s2 true,
      control-IsDetached now s2 true d,
    )

-- The period of the transmission timer lies between 75 and 90 percent of the interval in force,
-- the larger of the local minimum and the remote one, with the random part included; and a
-- running cycle is timed from the last transmission, while without one the timer stays as it was.
pub update_tx_interval-jitter :
    (s : Session)
    → let t = (bfd_session_update_tx_interval s).tx_timer in
      let tx_int = max s.des_min_tx_int s.rem_min_rx_int in
      (3 * tx_int ≤ 4 * t.recurrent)
      × (10 * (t.recurrent + t.randomize) ≤ 9 * tx_int + 9)
      × (t.recurrent + t.randomize ≤ tx_int)
      × (t.expires ≡ (if s.last_tx == 0 then s.tx_timer.expires else s.last_tx + t.recurrent))
unfolding bfd_session_update_tx_interval
update_tx_interval-jitter s = ground arith

-- After bfd_session_control_tx_timer the timer runs exactly if nothing forbids it: the session is
-- not passive without a remote number, the remote side does not ask for silence in a session that
-- is up on both ends with no poll, and the remote side wants packets at all. A reset, or a start
-- of a stopped timer, makes it expire at once. The clock is past 0.
pub control_tx_timer-active :
    (now : ℕ) (s : Session) (reset : Bool)
    → 0 < now
    → let t = bfd_session_control_tx_timer now s reset in
      (tm_active t.tx_timer ≡ not (tx_must_stop s))
      × (tx_must_stop s ≡ false → reset ≡ true → t.tx_timer.expires ≡ now)
      × (tx_must_stop s ≡ false → s.tx_timer.expires ≡ 0 → t.tx_timer.expires ≡ now)
unfolding bfd_session_control_tx_timer
control_tx_timer-active now s reset h = ground arith

-- A poll ends with the announced intervals in use, unless a new one of the same kind waits, and
-- the waiting one then begins.
pub terminate_poll_lem :
    (s : Session)
    → let t = bfd_session_terminate_poll s in
      (s.poll_active.tx ≡ true → s.poll_scheduled.tx ≡ false → t.des_min_tx_int ≡ s.des_min_tx_new)
      × (s.poll_active.rx ≡ true
          → s.poll_scheduled.rx ≡ false
          → t.req_min_rx_int ≡ s.req_min_rx_new)
      × (t.poll_active ≡ s.poll_scheduled)
      × (any_poll t.poll_scheduled ≡ false)
unfolding bfd_session_terminate_poll
terminate_poll_lem s = ground arith

-- While a session is up, bfd_session_set_min_tx never slows the transmission down at once: a
-- longer interval is announced, the old one stays in use, and a poll is on its way.
pub set_min_tx-postponed :
    (now : ℕ) (s : Session) (val : ℕ)
    → s.loc_state ≡ up
    → s.rem_id ≢ 0
    → s.des_min_tx_new ≢ val
    → s.des_min_tx_int ≤ val
    → let t = bfd_session_set_min_tx now s val in
      (t.des_min_tx_new ≡ val)
      × (t.des_min_tx_int ≡ s.des_min_tx_int)
      × ((t.poll_active.tx ≡ true) ⊎ (t.poll_scheduled.tx ≡ true))
unfolding bfd_session_set_min_tx bfd_session_request_poll bfd_session_control_tx_timer
set_min_tx-postponed now s val h k m n = ground arith

-- A session that times out while a longer interval was announced but not yet in use, the announced
-- one being the idle interval, goes down with its old, shorter interval in use and no poll left
-- that would end it: the early return of bfd_session_set_min_tx leaves it.
pub timeout_keeps_fast_tx :
    (now : ℕ) (s : Session)
    → s.loc_state ≡ up
    → s.des_min_tx_new ≡ s.cf.idle_tx_int
    → s.des_min_tx_int < s.des_min_tx_new
    → let t = bfd_session_timeout now s in
      (t.loc_state ≡ down)
      × (t.poll_active ≡ no_poll)
      × (t.des_min_tx_int ≡ s.des_min_tx_int)
      × (t.des_min_tx_int < t.des_min_tx_new)
unfolding bfd_session_timeout bfd_session_update_state bfd_session_set_min_tx
    bfd_session_control_tx_timer
timeout_keeps_fast_tx now s h k m = ground arith
