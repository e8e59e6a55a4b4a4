-- ===== src/Examples/Bfd.antt =====
-- BFD sessions of proto/bfd at concrete packets, with a toy digest: the key itself.
use bird.Common.{
  ℕ, ◌+◌, ◌*◌, ◌≤◌, ◌<◌, ◌≡◌, ◌⊎◌, refl, Bool, true, false, some, List, [], ◌∷◌, arith, ◌≢◌, ap,
}
use bird.Bfd.{down, up, no_poll, Timer, PasswordItem, SessionConfig, CtlPacket, Session}
use bird.Bfd.Password.{password_find_by_id}
use bird.Bfd.Ops.{
  bfd_add_session, bfd_session_update_tx_interval, bfd_session_timeout, bfd_hold_timer_hook,
  next_state, bfd_session_update_state, bfd_session_set_min_tx, bfd_session_request_poll,
  bfd_session_control_tx_timer, bfd_session_update_detection_time, bfd_session_terminate_poll,
  tx_must_stop,
}
use bird.Bfd.Transmit.{bfd_tx_timer_hook}
use bird.Bfd.Receive.{
  same_bytes, bfd_check_authentication, csn_refused, bfd_session_process_ctl, bfd_rx_hook,
  take_fields, Arrival, is_bad_packet, is_mismatched, before_switch, after_switch, enter,
}
use bird.Bfd.States.{rfc_diag, process_ctl-rfc}
use bird.Bfd.Exchange.{
  IsAuthentic, check_authentication-IsAuthentic, IsAcceptable, rx_hook-IsAcceptable,
}
use bird.Bfd.Window.{process_ctl-window}
use bird.Bfd.Replay.{rx_hook-replay, sends, receives, start}
use bird.Bfd.Timing.{IsDetached, timeout_lem, update_tx_interval-jitter, timeout_keeps_fast_tx}
use bird.Bfd.Intervals.{IsPaced}
use bird.Bfd.Reach.{IsReachable-IsPaced, added, next, hold_timer}

abbrev verify_key : ℕ → CtlPacket → List ℕ → Bool
verify_key alg pkt digest = same_bytes digest pkt.auth.bytes

abbrev fill_key : ℕ → CtlPacket → List ℕ
fill_key alg pkt = pkt.auth.bytes

abbrev secret : PasswordItem
secret = record {
  password = 1 ∷ 2 ∷ 3 ∷ [];
  id = 9;
  alg = 1;
  accfrom = 0;
  accto = 1000;
  genfrom = 0;
  gento = 1000;
}

-- Meticulous keyed MD5.
abbrev keyed : SessionConfig
keyed = record {
  min_rx_int = 10000;
  min_tx_int = 100000;
  idle_tx_int = 1000000;
  multiplier = 5;
  passive = false;
  auth_type = 3;
  passwords = some (secret ∷ []);
}

abbrev digest : List ℕ
digest = 1 ∷ 2 ∷ 3 ∷ 0 ∷ 0 ∷ 0 ∷ 0 ∷ 0 ∷ 0 ∷ 0 ∷ 0 ∷ 0 ∷ 0 ∷ 0 ∷ 0 ∷ 0 ∷ []

-- A packet in state down with the flag for authentication.
abbrev hello : CtlPacket
hello = record {
  vdiag = 32;
  flags = 68;
  detect_mult = 5;
  length = 48;
  snd_id = 77;
  rcv_id = 0;
  des_min_tx_int = 1000000;
  req_min_rx_int = 10000;
  req_min_echo_rx_int = 0;
  auth = record { type = 3; length = 24; key_id = 9; csn = 4; bytes = digest };
}

abbrev quiet : Timer
quiet = record { expires = 0; recurrent = 0; randomize = 0 }

abbrev session : Session
session = record {
  passive = false;
  poll_active = no_poll;
  poll_scheduled = no_poll;
  loc_state = up;
  rem_state = up;
  loc_diag = 0;
  rem_diag = 0;
  loc_id = 5;
  rem_id = 77;
  cf = keyed;
  des_min_tx_int = 100000;
  des_min_tx_new = 1000000;
  req_min_rx_int = 10000;
  req_min_rx_new = 10000;
  rem_min_tx_int = 100000;
  rem_min_rx_int = 10000;
  rem_demand_mode = false;
  detect_mult = 5;
  rem_detect_mult = 5;
  last_tx = 40;
  last_rx = 50;
  tx_timer = quiet;
  hold_timer = quiet;
  last_state_change = 0;
  notify = false;
  rx_csn_known = true;
  rx_csn = 3;
  tx_csn = 0;
  tx_csn_time = 0;
  has_socket = true;
  sent = [];
}

abbrev heard : Session
heard = record session { rx_csn = 4; rx_csn_known = true }

accepted : bfd_check_authentication verify_key 10 session hello ≡ some heard
unfolding bfd_check_authentication csn_refused same_bytes password_find_by_id
accepted = refl

process_ctl-rfc_example :
    let t = bfd_session_process_ctl fill_key 60 10 session 0 0 0 in
    (t.loc_state ≡ up) × (t.rem_state ≡ up) × (t.loc_diag ≡ 0)
unfolding rfc_diag
process_ctl-rfc_example = process_ctl-rfc fill_key 60 10 session 0 0 0

check_authentication-IsAuthentic_example :
    (pass : PasswordItem) × IsAuthentic verify_key 10 session heard hello pass
check_authentication-IsAuthentic_example =
    check_authentication-IsAuthentic verify_key 10 session heard hello refl accepted

abbrev single : Arrival
single = record { single_hop = true; ttl = 255; len = 48 }

-- A packet with the number of the session, which brings it down.
abbrev goodbye : CtlPacket
goodbye = record hello { rcv_id = 5 }

after_goodbye : Session
after_goodbye = bfd_session_process_ctl fill_key 60 10 (take_fields heard goodbye) 68 100000 10000

goodbye_accepted :
    bfd_rx_hook verify_key fill_key 60 10 (some session) single goodbye ≡ some after_goodbye
unfolding bfd_rx_hook is_bad_packet is_mismatched bfd_check_authentication csn_refused same_bytes
    password_find_by_id after_goodbye
goodbye_accepted = refl

rx_hook-IsAcceptable_example :
    (after_goodbye ≡ session)
    ⊎ (IsAcceptable single goodbye
        × (is_mismatched session goodbye ≡ false)
        × ((u : Session) × (bfd_check_authentication verify_key 10 session goodbye ≡ some u)
            × (after_goodbye
                ≡ bfd_session_process_ctl fill_key 60 10 (take_fields u goodbye) 68 100000 10000)))
rx_hook-IsAcceptable_example =
    rx_hook-IsAcceptable verify_key fill_key 60 10 session after_goodbye single goodbye
      goodbye_accepted

-- A later packet, with the sequence number 6.
abbrev renewal : CtlPacket
renewal = record goodbye { auth = record goodbye.auth { csn = 6 } }

after_renewal : Session
after_renewal =
    bfd_session_process_ctl fill_key 61 11
      (take_fields (record after_goodbye { rx_csn = 6; rx_csn_known = true }) renewal) 68
      after_goodbye.des_min_tx_int after_goodbye.rem_min_rx_int

renewal_accepted :
    bfd_rx_hook verify_key fill_key 61 11 (some after_goodbye) single renewal ≡ some after_renewal
unfolding bfd_rx_hook is_bad_packet is_mismatched bfd_check_authentication csn_refused same_bytes
    password_find_by_id after_goodbye after_renewal bfd_session_process_ctl before_switch
    after_switch enter next_state bfd_session_update_state bfd_session_set_min_tx
    bfd_session_request_poll bfd_session_control_tx_timer bfd_session_update_tx_interval
    bfd_session_update_detection_time bfd_session_terminate_poll take_fields tx_must_stop
renewal_accepted = refl

goodbye_changes : after_goodbye ≢ session
unfolding after_goodbye take_fields
goodbye_changes e =
    let last =
      (process_ctl-window fill_key 60 10 (take_fields heard goodbye) 68 100000 10000).last in
    absurd (ground (arith, last, ap (λ (x : Session). x.rx_csn) e))

-- The first packet again, after the second one and a packet sent.
rx_hook-replay_example :
    let u = bfd_tx_timer_hook fill_key 70 20 after_renewal in
    bfd_rx_hook verify_key fill_key 80 30 (some u) single goodbye ≡ some u
rx_hook-replay_example =
    rx_hook-replay verify_key fill_key session after_goodbye
      (bfd_tx_timer_hook fill_key 70 20 after_renewal) goodbye goodbye single single 60 10 80 30 1
      refl (omega arith) goodbye_accepted goodbye_changes
      (sends 70 20 (receives 61 11 single renewal start (omega arith) renewal_accepted))
      (omega arith) refl

timeout_lem_example :
    let t = bfd_session_timeout 60 session in
    (t.loc_state ≡ down) × (t.rem_state ≡ down) × (t.loc_diag ≡ 1) × IsDetached t
timeout_lem_example = timeout_lem 60 session

update_tx_interval-jitter_example :
    let t = (bfd_session_update_tx_interval session).tx_timer in
    (300000 ≤ 4 * t.recurrent)
    × (10 * (t.recurrent + t.randomize) ≤ 900009)
    × (t.recurrent + t.randomize ≤ 100000)
    × (t.expires ≡ 40 + t.recurrent)
update_tx_interval-jitter_example = update_tx_interval-jitter session

timeout_keeps_fast_tx_example :
    let t = bfd_session_timeout 60 session in
    (t.loc_state ≡ down)
    × (t.poll_active ≡ no_poll)
    × (t.des_min_tx_int ≡ 100000)
    × (t.des_min_tx_int < t.des_min_tx_new)
timeout_keeps_fast_tx_example = timeout_keeps_fast_tx 60 session refl refl (omega arith)

IsReachable-IsPaced_example : IsPaced (bfd_hold_timer_hook 70 (bfd_add_session 60 keyed 5 0 true))
IsReachable-IsPaced_example =
    IsReachable-IsPaced verify_key fill_key (next (added 60 keyed 5 0 true) (hold_timer 70))
