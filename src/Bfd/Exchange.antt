-- ===== src/Bfd/Exchange.antt =====
-- What bfd_rx_hook of proto/bfd/packets.c does to a session, packet by packet: refused packets,
-- authentication and the window of sequence numbers.
use bird.Common.{
  ℕ, ◌/◌, ◌^◌, ◌≤◌, ◌<◌, ◌≡◌, Bool, true, false, none, some, arith, ◌||◌, Bool-cases, inl, inr,
  Option-cases, List, ◌⊎◌, if◌then◌else◌, take,
}
use bird.Bfd.{CtlPacket, Session, PasswordItem}
use bird.Bfd.Password.{IsConfigured, password_find_by_id, find_by_id-accepted, is_accepting}
use bird.Bfd.Transmit.{flag, flag_ap, is_crypto, mac_type_length, hash_alg}
use bird.Bfd.Receive.{
  csn_refused, check_section, bfd_check_authentication, bfd_session_process_ctl, is_bad_packet,
  is_mismatched, take_fields, bfd_rx_hook, Arrival, with_key,
}

module _ (mac_verify : ℕ → CtlPacket → List ℕ → Bool) (real_now : ℕ) where
  section_changes :
      (s t : Session) (pkt : CtlPacket) (n : ℕ)
      → check_section mac_verify real_now s pkt n ≡ some t
      → (t ≡ s) ⊎ (t ≡ record s { rx_csn = pkt.auth.csn; rx_csn_known = true })
  unfolding check_section
  section_changes s t pkt n h = ground arith

  -- What a packet that was accepted with a keyed digest shows.
  pub record IsAuthentic (s t : Session) (pkt : CtlPacket) (pass : PasswordItem) : Type 0 where
    pub same_type : pkt.auth.type ≡ s.cf.auth_type
    pub configured : IsConfigured s.cf.passwords pass
    pub by_id : pass.id ≡ pkt.auth.key_id
    pub in_time : is_accepting real_now pass ≡ true
    pub verified :
        let n = mac_type_length (hash_alg s.cf.auth_type) in
        mac_verify (hash_alg s.cf.auth_type) (with_key pkt pass.password n) (take n pkt.auth.bytes)
        ≡ true
    pub fresh : csn_refused s s.cf.auth_type pkt.auth.csn ≡ false
    pub recorded : t ≡ record s { rx_csn = pkt.auth.csn; rx_csn_known = true }

  section_found :
      (s t : Session) (pkt : CtlPacket) (n : ℕ)
      → is_crypto n ≡ true
      → check_section mac_verify real_now s pkt n ≡ some t
      → (pass : PasswordItem) × (password_find_by_id real_now s.cf.passwords pkt.auth.key_id
          ≡ some pass)
        × (mac_verify
              (hash_alg n)
              (with_key pkt pass.password (mac_type_length (hash_alg n)))
              (take (mac_type_length (hash_alg n)) pkt.auth.bytes)
            ≡ true)
        × (csn_refused s n pkt.auth.csn ≡ false)
        × (t ≡ record s { rx_csn = pkt.auth.csn; rx_csn_known = true })
  unfolding check_section
  section_found s t pkt n crypto h = ground arith

  section_refused :
      (s : Session) (pkt : CtlPacket) (n : ℕ)
      → is_crypto n ≡ true
      → csn_refused s n pkt.auth.csn ≡ true
      → check_section mac_verify real_now s pkt n ≡ none
  unfolding check_section
  section_refused s pkt n crypto h = ground arith

  section_of_type :
      (s t : Session) (pkt : CtlPacket)
      → is_crypto s.cf.auth_type ≡ true
      → bfd_check_authentication mac_verify real_now s pkt ≡ some t
      → (pkt.auth.type ≡ s.cf.auth_type)
        × (check_section mac_verify real_now s pkt s.cf.auth_type ≡ some t)
  unfolding bfd_check_authentication
  section_of_type s t pkt crypto h = ground arith

  -- A session that is configured for a keyed digest accepts a packet only with a section of that
  -- type, under one of the passwords of its configuration that is valid now and has the identifier
  -- in the packet, with the digest verified and a sequence number in the window; and then records
  -- the number.
  pub check_authentication-IsAuthentic :
      (s t : Session) (pkt : CtlPacket)
      → is_crypto s.cf.auth_type ≡ true
      → bfd_check_authentication mac_verify real_now s pkt ≡ some t
      → (pass : PasswordItem) × IsAuthentic s t pkt pass
  check_authentication-IsAuthentic s t pkt crypto h =
      let (same, sect) = section_of_type s t pkt crypto h in
      let (pass, found, verified, fresh, recorded) =
        section_found s t pkt s.cf.auth_type crypto sect in
      let (by_id, in_time, configured) =
        find_by_id-accepted real_now s.cf.passwords pkt.auth.key_id pass found in
      (
        pass,
        record {
          same_type = same;
          configured = configured;
          by_id = by_id;
          in_time = in_time;
          verified = verified;
          fresh = fresh;
          recorded = recorded;
        },
      )

  pub check_changes :
      (s t : Session) (pkt : CtlPacket)
      → bfd_check_authentication mac_verify real_now s pkt ≡ some t
      → (t ≡ s) ⊎ (t ≡ record s { rx_csn = pkt.auth.csn; rx_csn_known = true })
  unfolding bfd_check_authentication
  check_changes s t pkt h =
      let n = if flag pkt.flags flag_ap then pkt.auth.type else 0 in
      ground (arith, section_changes s t pkt n)

-- What the checks of bfd_rx_hook ask of a packet.
pub record IsAcceptable (a : Arrival) (pkt : CtlPacket) : Type 0 where
  pub version : pkt.vdiag / 2 ^ 5 ≡ 1
  pub header : 24 ≤ pkt.length
  pub received : pkt.length ≤ a.len
  pub multiplier : 0 < pkt.detect_mult
  pub discriminator : 0 < pkt.snd_id
  pub one_to_one : flag pkt.flags 0 ≡ false
  pub one_way : flag pkt.flags 5 ≡ true → flag pkt.flags 4 ≡ false
  pub direct : a.single_hop ≡ true → 255 ≤ a.ttl

good_packet : (a : Arrival) (pkt : CtlPacket) → is_bad_packet a pkt ≡ false → IsAcceptable a pkt
unfolding is_bad_packet
good_packet a pkt h = ground arith

-- Only a packet that passes all checks changes the session it is for: version 1, a whole header
-- within the bytes received, a detection multiplier and a discriminator that are not 0, no
-- multipoint flag, not both the poll and the final flag, a TTL of 255 on a single hop, a state
-- and a sender that fit the session, and an authentication that is accepted.
pub rx_hook-IsAcceptable :
    (mac_verify : ℕ → CtlPacket → List ℕ → Bool) (mac_fill : ℕ → CtlPacket → List ℕ)
    (now real_now : ℕ) (s t : Session) (a : Arrival) (pkt : CtlPacket)
    → bfd_rx_hook mac_verify mac_fill now real_now (some s) a pkt ≡ some t
    → (t ≡ s)
      ⊎ (IsAcceptable a pkt
          × (is_mismatched s pkt ≡ false)
          × ((u : Session) × (bfd_check_authentication mac_verify real_now s pkt ≡ some u)
              × (t
                  ≡ bfd_session_process_ctl mac_fill now real_now
                      (take_fields u pkt)
                      pkt.flags
                      s.des_min_tx_int
                      s.rem_min_rx_int)))
unfolding bfd_rx_hook
rx_hook-IsAcceptable mac_verify mac_fill now real_now s t a pkt h =
    elim (Bool-cases (is_bad_packet a pkt || is_mismatched s pkt)) [
      | inl bad ↦ inl (ground (arith, bad, h))
      | inr good ↦ elim (Option-cases (bfd_check_authentication mac_verify real_now s pkt)) [
        | inl none' ↦ inl (ground (arith, good, none', h))
        | inr (u, ok) ↦ inr (
          good_packet a pkt (ground (arith, good)),
          ground (arith, good),
          (u, ok, ground (arith, good, ok, h, check_changes mac_verify real_now s u pkt ok)),
        )
      ]
    ]
