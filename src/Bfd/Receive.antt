-- ===== src/Bfd/Receive.antt =====
-- Receiving control packets: bfd_rx_hook and bfd_check_authentication of proto/bfd/packets.c and
-- bfd_session_process_ctl of proto/bfd/bfd.c.
use bird.Common.{
  ℕ, ◌+◌, ◌-◌, ◌*◌, ◌/◌, ◌%◌, ◌^◌, min, Bool, true, false, not, ltb, ◌==◌, ◌!=◌, ◌&&◌, ◌||◌,
  if◌then◌else◌, Option, none, some, List, [], ◌∷◌, length, take,
}
use bird.Common.Word.{u32}
use bird.Bfd.{State, admin_down, down, code, state_of, any_poll, CtlPacket, Session}
use bird.Bfd.Password.{password_find_by_id}
use bird.Bfd.Ops.{
  is_up, bfd_session_terminate_poll, bfd_session_update_tx_interval,
  bfd_session_update_detection_time, bfd_session_update_state, bfd_session_control_tx_timer,
  next_state,
}
use bird.Bfd.Transmit.{
  base_len, simple_auth_len, crypto_auth_len, max_password_length, is_simple, is_meticulous,
  is_crypto, hash_alg, mac_type_length, flag, flag_poll, flag_final, flag_ap, flag_demand,
  flag_multipoint, padded, bfd_send_ctl,
}

-- The bytes of two fields agree, as memcmp finds.
unfoldable pub same_bytes : List ℕ → List ℕ → Bool
same_bytes [] [] = true
same_bytes (x ∷ xs) (y ∷ ys) = x == y && same_bytes xs ys
same_bytes _ _ = false

-- The sequence number of a packet is refused: outside of the window behind the last one, or, with
-- a meticulous type, the same.
unfoldable pub csn_refused : Session → ℕ → ℕ → Bool
csn_refused s auth_type csn =
    s.rx_csn_known
    && (ltb (3 * s.detect_mult) (u32 (csn + 2 ^ 32 - s.rx_csn))
        || (is_meticulous auth_type && csn == s.rx_csn))

-- The packet with the password in place of the digest, which is what mac_verify is given.
abbrev pub with_key : CtlPacket → List ℕ → ℕ → CtlPacket
with_key pkt password n = record pkt { auth = record pkt.auth { bytes = padded n password } }

-- `mac_verify` stands for that of lib/mac.c, given the type, the packet and the digest received.
module _ (mac_verify : ℕ → CtlPacket → List ℕ → Bool) (real_now : ℕ) where
  -- The switch over the type, which is the configured one: `none` is the result 0, `some s` the
  -- result 1 with the session as it is left.
  unfoldable pub check_section : Session → CtlPacket → ℕ → Option Session
  check_section s pkt t =
      let a = pkt.auth in
      elim (t == 0) [
        | true ↦ some s
        | false ↦ elim (is_simple t) [
          | true ↦
              if ltb a.length simple_auth_len
              then none
              else elim (password_find_by_id real_now s.cf.passwords a.key_id) [
                | none ↦ none
                | some pass ↦
                    let pass_len = min (length pass.password) max_password_length in
                    if a.length != simple_auth_len + pass_len
                      || not (same_bytes (take pass_len a.bytes) (take pass_len pass.password))
                    then none
                    else some s
              ]
          | false ↦
              let hash_len = mac_type_length (hash_alg t) in
              if not (is_crypto t) || a.length != crypto_auth_len + hash_len
              then none
              else elim (password_find_by_id real_now s.cf.passwords a.key_id) [
                | none ↦ none
                | some pass ↦
                    if csn_refused s t a.csn
                    then none
                    else if not (
                        mac_verify (hash_alg t) (with_key pkt pass.password hash_len)
                          (take hash_len a.bytes))
                    then none
                    else some (record s { rx_csn = a.csn; rx_csn_known = true })
              ]
        ]
      ]

  unfoldable pub bfd_check_authentication : Session → CtlPacket → Option Session
  unfolding check_section
  bfd_check_authentication s pkt =
      let has_auth = flag pkt.flags flag_ap in
      let short = ltb pkt.length (base_len + 2) || ltb pkt.length (base_len + pkt.auth.length) in
      if has_auth && (short || pkt.auth.type == 0)
      then none
      else let auth_type = if has_auth then pkt.auth.type else 0 in
        if auth_type != s.cf.auth_type then none else check_section s pkt auth_type

-- `if (next_state)`: the change of state that the switch has chosen.
unfoldable pub enter : ℕ → Session → Option (State × ℕ) → Session
enter now s none = s
enter now s (some (state, diag)) = bfd_session_update_state now s state diag

module _ (mac_fill : ℕ → CtlPacket → List ℕ) (now real_now : ℕ) where
  -- The part of bfd_session_process_ctl before the switch: polls, intervals and detection time.
  unfoldable pub before_switch : Session → ℕ → ℕ → ℕ → Session
  before_switch s flags old_tx_int old_rx_int =
      let s1 =
        if any_poll s.poll_active && flag flags flag_final
        then bfd_session_terminate_poll s
        else s in
      let s2 =
        if s1.des_min_tx_int != old_tx_int || s1.rem_min_rx_int != old_rx_int
        then bfd_session_update_tx_interval s1
        else s1 in
      bfd_session_update_detection_time now s2 true

  -- What follows the switch.
  unfoldable pub after_switch : Session → ℕ → Session
  after_switch s flags =
      let s1 = bfd_session_control_tx_timer now s false in
      if flag flags flag_poll then bfd_send_ctl mac_fill now real_now s1 true else s1

  unfoldable pub bfd_session_process_ctl : Session → ℕ → ℕ → ℕ → Session
  bfd_session_process_ctl s flags old_tx_int old_rx_int =
      let s1 = before_switch s flags old_tx_int old_rx_int in
      if code s1.loc_state == code admin_down
      then s1
      else after_switch (enter now s1 (next_state s1.loc_state s1.rem_state)) flags

-- What bfd_rx_hook knows of the socket: `single_hop` is the test of sk->sport for the control port,
-- `ttl` is sk->rcv_ttl, and `len` the bytes received.
pub record Arrival : Type 0 where
  pub single_hop : Bool
  pub ttl : ℕ
  pub len : ℕ

-- The checks of bfd_rx_hook up to the lookup of the session.
unfoldable pub is_bad_packet : Arrival → CtlPacket → Bool
is_bad_packet a pkt =
    (a.single_hop && ltb a.ttl 255)
    || (ltb a.len base_len
        || (pkt.vdiag / 2 ^ 5 != 1
            || ((ltb pkt.length base_len || ltb a.len pkt.length)
                || (pkt.detect_mult == 0
                    || ((flag pkt.flags flag_multipoint
                          || (flag pkt.flags flag_poll && flag pkt.flags flag_final))
                        || pkt.snd_id == 0)))))

-- The packet does not fit the session that the lookup found: by its number where it carries one,
-- by the address otherwise.
unfoldable pub is_mismatched : Session → CtlPacket → Bool
is_mismatched s pkt =
    if pkt.rcv_id == 0
    then ltb (code down) (pkt.flags / 2 ^ 6) || (is_up s.loc_state && pkt.snd_id != s.rem_id)
    else false

-- The fields that an accepted packet sets.
unfoldable pub take_fields : Session → CtlPacket → Session
take_fields s pkt = record s {
  rem_id = pkt.snd_id;
  rem_state = state_of (pkt.flags / 2 ^ 6);
  rem_diag = pkt.vdiag % 2 ^ 5;
  rem_demand_mode = flag pkt.flags flag_demand;
  rem_min_tx_int = pkt.des_min_tx_int;
  rem_min_rx_int = pkt.req_min_rx_int;
  rem_detect_mult = pkt.detect_mult;
}

-- bfd_rx_hook on the session that the packet is for: by bfd_find_session_by_id if it has a
-- number, and by bfd_find_session_by_addr if not. Where there is none the packet is dropped.
unfoldable pub bfd_rx_hook :
    (ℕ → CtlPacket → List ℕ → Bool)
    → (ℕ → CtlPacket → List ℕ)
    → ℕ
    → ℕ
    → Option Session
    → Arrival
    → CtlPacket
    → Option Session
bfd_rx_hook mac_verify mac_fill now real_now none a pkt = none
bfd_rx_hook mac_verify mac_fill now real_now (some s) a pkt =
    if is_bad_packet a pkt || is_mismatched s pkt
    then some s
    else elim (bfd_check_authentication mac_verify real_now s pkt) [
      | none ↦ some s
      | some s1 ↦ some (
          bfd_session_process_ctl mac_fill now real_now (take_fields s1 pkt) pkt.flags
            s1.des_min_tx_int s1.rem_min_rx_int)
    ]
