-- ===== src/Bfd/Ops.antt =====
-- The session operations of proto/bfd/bfd.c. `now` is current_time().
use bird.Common.{
  ℕ, ◌+◌, ◌-◌, ◌*◌, ◌/◌, max, Bool, true, false, not, ltb, leb, ◌==◌, ◌&&◌, ◌||◌, if◌then◌else◌,
  Option, none, some, [],
}
use bird.Bfd.{
  State, admin_down, down, init, up, code, Poll, no_poll, any_poll, Timer, tm_active, diag_nothing,
  diag_timeout, diag_neighbor_down, SessionConfig, Session,
}

-- tm_set, tm_start and tm_stop of lib/timer.c, as far as one timer is concerned.
abbrev pub tm_set : Timer → ℕ → Timer
tm_set t when = record t { expires = when }

abbrev pub tm_start : ℕ → Timer → ℕ → Timer
tm_start now t after = tm_set t (now + after)

abbrev pub tm_stop : Timer → Timer
tm_stop t = record t { expires = 0 }

unfoldable pub bfd_session_update_tx_interval : Session → Session
bfd_session_update_tx_interval s =
    let tx_int = max s.des_min_tx_int s.rem_min_rx_int in
    let tx_int_l = tx_int - tx_int / 4 in
    let tx_int_h = tx_int - tx_int / 10 in
    let t = record s.tx_timer { recurrent = tx_int_l; randomize = tx_int_h - tx_int_l } in
    if s.last_tx == 0
    then record s { tx_timer = t }
    else record s { tx_timer = tm_set t (s.last_tx + tx_int_l) }

unfoldable pub bfd_session_update_detection_time : ℕ → Session → Bool → Session
bfd_session_update_detection_time now s kick =
    let timeout = max s.req_min_rx_int s.rem_min_tx_int * s.rem_detect_mult in
    let last_rx = if kick then now else s.last_rx in
    if last_rx == 0
    then record s { last_rx = last_rx }
    else record s { last_rx = last_rx; hold_timer = tm_set s.hold_timer (last_rx + timeout) }

-- The conditions under which bfd_session_control_tx_timer goes to `stop`.
unfoldable pub tx_must_stop : Session → Bool
tx_must_stop s =
    (s.passive && s.rem_id == 0)
    || ((s.rem_demand_mode
          && not (any_poll s.poll_active)
          && (code s.loc_state == code up)
          && (code s.rem_state == code up))
        || s.rem_min_rx_int == 0)

unfoldable pub bfd_session_control_tx_timer : ℕ → Session → Bool → Session
bfd_session_control_tx_timer now s reset =
    if tx_must_stop s
    then record s { tx_timer = tm_stop s.tx_timer; last_tx = 0 }
    else if reset || not (tm_active s.tx_timer)
    then record s { last_tx = 0; tx_timer = tm_start now s.tx_timer 0 }
    else s

abbrev join : Poll → Poll → Poll
join a b = record { tx = a.tx || b.tx; rx = a.rx || b.rx }

unfoldable pub bfd_session_request_poll : ℕ → Session → Poll → Session
bfd_session_request_poll now s request =
    if s.rem_id == 0
    then s
    else let scheduled = join s.poll_scheduled request in
      if any_poll s.poll_active
      then record s { poll_scheduled = scheduled }
      else bfd_session_control_tx_timer now
          (record s { poll_active = scheduled; poll_scheduled = no_poll }) true

unfoldable pub bfd_session_terminate_poll : Session → Session
bfd_session_terminate_poll s =
    let tx_done = s.poll_active.tx && not s.poll_scheduled.tx in
    let rx_done = s.poll_active.rx && not s.poll_scheduled.rx in
    record s {
      des_min_tx_int = if tx_done then s.des_min_tx_new else s.des_min_tx_int;
      req_min_rx_int = if rx_done then s.req_min_rx_new else s.req_min_rx_int;
      poll_active = s.poll_scheduled;
      poll_scheduled = no_poll;
    }

abbrev pub is_up : State → Bool
is_up st = code st == code up

unfoldable pub bfd_session_set_min_tx : ℕ → Session → ℕ → Session
bfd_session_set_min_tx now s val =
    if val == s.des_min_tx_new
    then s
    else let s1 = record s { des_min_tx_new = val } in
      let s2 =
        if not (is_up s1.loc_state) || ltb val s1.des_min_tx_int
        then bfd_session_update_tx_interval (record s1 { des_min_tx_int = val })
        else s1 in
      bfd_session_request_poll now s2 (record { tx = true; rx = false })

unfoldable pub bfd_session_set_min_rx : ℕ → Session → ℕ → Session
bfd_session_set_min_rx now s val =
    if val == s.req_min_rx_new
    then s
    else let s1 = record s { req_min_rx_new = val } in
      let s2 =
        if not (is_up s1.loc_state) || ltb s1.req_min_rx_int val
        then bfd_session_update_detection_time now (record s1 { req_min_rx_int = val }) false
        else s1 in
      bfd_session_request_poll now s2 (record { tx = false; rx = true })

-- The node is put in the notify list unless it is there; the kick of the main loop is left out.
unfoldable pub bfd_session_update_state : ℕ → Session → State → ℕ → Session
bfd_session_update_state now s state diag =
    let old_state = s.loc_state in
    if code state == code old_state
    then s
    else let s1 = record s {
      loc_state = state;
      loc_diag = diag;
      last_state_change = now;
      notify = true;
    } in
      let s2 = if is_up state then bfd_session_set_min_tx now s1 s1.cf.min_tx_int else s1 in
      if is_up old_state then bfd_session_set_min_tx now s2 s2.cf.idle_tx_int else s2

-- The switch of bfd_session_process_ctl: the next state and diagnostic, and none for next_state 0.
unfoldable pub next_state : State → State → Option (State × ℕ)
next_state admin_down rem = none
next_state down rem =
    if code rem == code down
    then some (init, diag_nothing)
    else if code rem == code init
    then some (up, diag_nothing)
    else none
next_state init rem =
    if code rem == code admin_down
    then some (down, diag_neighbor_down)
    else if leb (code init) (code rem)
    then some (up, diag_nothing)
    else none
next_state up rem = if leb (code rem) (code down) then some (down, diag_neighbor_down) else none

unfoldable pub bfd_session_timeout : ℕ → Session → Session
bfd_session_timeout now s =
    let s1 = record s {
      rem_state = down;
      rem_id = 0;
      rem_min_tx_int = 0;
      rem_min_rx_int = 1;
      rem_demand_mode = false;
      rem_detect_mult = 0;
      rx_csn_known = false;
      poll_active = no_poll;
      poll_scheduled = no_poll;
    } in
    bfd_session_control_tx_timer now (bfd_session_update_state now s1 down diag_timeout) true

unfoldable pub bfd_hold_timer_hook : ℕ → Session → Session
bfd_hold_timer_hook now s = bfd_session_timeout now s

-- bfd_reconfigure_session with the configuration that bfd_merge_options has made.
unfoldable pub bfd_reconfigure_session : ℕ → Session → SessionConfig → Session
bfd_reconfigure_session now s cf =
    let s1 = record s { cf = cf } in
    let tx = if is_up s1.loc_state then cf.min_tx_int else cf.idle_tx_int in
    let s2 = bfd_session_set_min_tx now s1 tx in
    let s3 = bfd_session_set_min_rx now s2 cf.min_rx_int in
    let s4 = record s3 { detect_mult = cf.multiplier; passive = cf.passive } in
    bfd_session_control_tx_timer now s4 false

-- The session that bfd_add_session makes: `id` from bfd_get_free_id and `csn` from random_u32.
unfoldable pub bfd_add_session : ℕ → SessionConfig → ℕ → ℕ → Bool → Session
bfd_add_session now cf id csn socket =
    let idle : Timer = record { expires = 0; recurrent = 0; randomize = 0 } in
    let s : Session = record {
      passive = cf.passive;
      poll_active = no_poll;
      poll_scheduled = no_poll;
      loc_state = down;
      rem_state = down;
      loc_diag = 0;
      rem_diag = 0;
      loc_id = id;
      rem_id = 0;
      cf = cf;
      des_min_tx_int = cf.idle_tx_int;
      des_min_tx_new = cf.idle_tx_int;
      req_min_rx_int = cf.min_rx_int;
      req_min_rx_new = cf.min_rx_int;
      rem_min_tx_int = 0;
      rem_min_rx_int = 1;
      rem_demand_mode = false;
      detect_mult = cf.multiplier;
      rem_detect_mult = 0;
      last_tx = 0;
      last_rx = 0;
      tx_timer = idle;
      hold_timer = idle;
      last_state_change = 0;
      notify = false;
      rx_csn_known = false;
      rx_csn = 0;
      tx_csn = csn;
      tx_csn_time = 0;
      has_socket = socket;
      sent = [];
    } in
    let s1 = bfd_session_control_tx_timer now (bfd_session_update_tx_interval s) true in
    record s1 { last_state_change = now }
