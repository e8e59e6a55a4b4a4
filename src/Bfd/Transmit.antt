-- ===== src/Bfd/Transmit.antt =====
-- Sending control packets: bfd_send_ctl and bfd_fill_authentication of proto/bfd/packets.c. The
-- first argument stands for mac_fill of lib/mac.c. `now` is current_time() and `real_now` is
-- current_real_time().
use bird.Common.{
  ℕ, ◌+◌, ◌-◌, ◌*◌, ◌/◌, ◌%◌, ◌^◌, min, Bool, false, not, ◌==◌, ◌!=◌, ◌||◌, if◌then◌else◌, none,
  some, List, [], ◌∷◌, ◌++◌, length, take, replicate, get_or, ltb,
}
use bird.Common.Word.{u8, u32}
use bird.Bfd.{code, any_poll, PasswordItem, AuthSection, CtlPacket, Session}
use bird.Bfd.Password.{password_find}

-- sizeof(struct bfd_ctl_packet)
abbrev pub base_len : ℕ
base_len = 24

abbrev pub simple_auth_len : ℕ
simple_auth_len = 3

abbrev pub crypto_auth_len : ℕ
crypto_auth_len = 8

abbrev pub max_password_length : ℕ
max_password_length = 16

-- BFD_AUTH_* 1 to 5.
abbrev pub is_simple : ℕ → Bool
is_simple t = t == 1

abbrev pub is_meticulous : ℕ → Bool
is_meticulous t = t == 3 || t == 5

abbrev pub is_crypto : ℕ → Bool
is_crypto t = t == 2 || (t == 3 || (t == 4 || t == 5))

-- bfd_auth_type_to_hash_alg: ALG_MD5, ALG_SHA1, or ALG_UNDEFINED.
abbrev pub hash_alg : ℕ → ℕ
hash_alg t = if t == 2 || t == 3 then 1 else if t == 4 || t == 5 then 2 else 0

-- The lengths in mac_table, from ALG_MD5 to ALG_BLAKE2B_512.
abbrev digest_lengths : List ℕ
digest_lengths = 0 ∷ 16 ∷ 20 ∷ 28 ∷ 32 ∷ 48 ∷ 64 ∷ 16 ∷ 32 ∷ 32 ∷ 64 ∷ []

-- mac_table[id].mac_length: that of the hash, and for the HMAC of a hash the same.
abbrev pub mac_type_length : ℕ → ℕ
mac_type_length id =
    if ltb id 0x11
    then get_or digest_lengths id 0
    else if ltb id 0x17
    then get_or digest_lengths (id - 0x10) 0
    else 0

-- The bit of number `k` of a byte of flags.
abbrev pub flag : ℕ → ℕ → Bool
flag flags k = (flags / 2 ^ k) % 2 == 1

-- BFD_FLAG_*, as the number of the bit.
abbrev pub flag_poll : ℕ
flag_poll = 5

abbrev pub flag_final : ℕ
flag_final = 4

abbrev pub flag_ap : ℕ
flag_ap = 2

abbrev pub flag_demand : ℕ
flag_demand = 1

abbrev pub flag_multipoint : ℕ
flag_multipoint = 0

-- flags |= 1 << k
abbrev pub with_flag : ℕ → ℕ → ℕ
with_flag flags k = if flag flags k then flags else flags + 2 ^ k

-- (version << 5) | diag and (state << 6) | flags, of values that do not overlap.
abbrev pub bfd_pack_vdiag : ℕ → ℕ → ℕ
bfd_pack_vdiag version diag = u8 (version * 2 ^ 5 + diag)

abbrev pub bfd_pack_flags : ℕ → ℕ → ℕ
bfd_pack_flags state flags = u8 (state * 2 ^ 6 + flags)

-- strncpy of a password into a field: cut or padded with zeros to the length.
abbrev pub padded : ℕ → List ℕ → List ℕ
padded n password = take n (password ++ replicate n 0)

module _ (mac_fill : ℕ → CtlPacket → List ℕ) (now real_now : ℕ) where
  -- The switch of bfd_fill_authentication over the type, with the password found. The type is one of
  -- BFD_AUTH_*; another falls out of the switch.
  unfoldable pub fill_with : Session → CtlPacket → PasswordItem → Session × CtlPacket
  fill_with s pkt pass =
      let t = s.cf.auth_type in
      let pass_len = min (length pass.password) max_password_length in
      let simple : AuthSection = record {
        type = 1;
        length = u8 (simple_auth_len + pass_len);
        key_id = pass.id;
        csn = 0;
        bytes = take pass_len pass.password;
      } in
      let hash_len = mac_type_length pass.alg in
      let new_time = u32 (now / 2 ^ 20) in
      let step = new_time != s.tx_csn_time || is_meticulous t in
      let s' = record s {
        tx_csn = if step then u32 (s.tx_csn + 1) else s.tx_csn;
        tx_csn_time = if step then new_time else s.tx_csn_time;
      } in
      let crypto : AuthSection = record {
        type = t;
        length = u8 (crypto_auth_len + hash_len);
        key_id = pass.id;
        csn = s'.tx_csn;
        bytes = padded hash_len pass.password;
      } in
      let keyed = record pkt {
        flags = with_flag pkt.flags flag_ap;
        length = u8 (pkt.length + crypto.length);
        auth = crypto;
      } in
      if is_simple t
      then (
        s,
        record pkt {
          flags = with_flag pkt.flags flag_ap;
          length = u8 (pkt.length + simple.length);
          auth = simple;
        },
      )
      else if is_crypto t
      then (s', record keyed { auth = record crypto { bytes = mac_fill (hash_alg t) keyed } })
      else (s, pkt)

  -- The packet with its authentication section, and the session with its sequence number.
  unfoldable pub bfd_fill_authentication : Session → CtlPacket → Session × CtlPacket
  bfd_fill_authentication s pkt = elim (password_find real_now s.cf.passwords false) [
    | none ↦ (s, pkt)
    | some pass ↦ fill_with s pkt pass
  ]

  -- The packet before authentication. Nothing is behind it, which the empty section says.
  unfoldable pub plain_packet : Session → Bool → CtlPacket
  plain_packet s final =
      let flags = bfd_pack_flags (code s.loc_state) 0 in
      record {
        vdiag = bfd_pack_vdiag 1 s.loc_diag;
        flags =
            if final
            then with_flag flags flag_final
            else if any_poll s.poll_active
            then with_flag flags flag_poll
            else flags;
        detect_mult = s.detect_mult;
        length = base_len;
        snd_id = s.loc_id;
        rcv_id = s.rem_id;
        des_min_tx_int = s.des_min_tx_new;
        req_min_rx_int = s.req_min_rx_new;
        req_min_echo_rx_int = 0;
        auth = record { type = 0; length = 0; key_id = 0; csn = 0; bytes = [] };
      }

  unfoldable pub bfd_send_ctl : Session → Bool → Session
  bfd_send_ctl s final =
      if not s.has_socket
      then s
      else let pkt = plain_packet s final in
        let (s', out) = if s.cf.auth_type != 0 then bfd_fill_authentication s pkt else (s, pkt) in
        record s' { sent = out ∷ s'.sent }

  -- The hook of the TX timer, in proto/bfd/bfd.c.
  unfoldable pub bfd_tx_timer_hook : Session → Session
  bfd_tx_timer_hook s = bfd_send_ctl (record s { last_tx = now }) false
