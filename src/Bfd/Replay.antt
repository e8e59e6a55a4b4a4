-- ===== src/Bfd/Replay.antt =====
-- Packets that are played back to a session of proto/bfd/bfd.c long after they were accepted.
use bird.Common.{
  ℕ, suc, ◌+◌, ◌*◌, ◌-◌, ◌^◌, ◌≤◌, ◌<◌, ◌≡◌, ◌≢◌, ◌||◌, refl, sym, ap, ◌∙◌, Bool, true, none, some,
  arith, List, Bool-cases, Option-cases, inl, inr,
}
use mathlib.Core.Path.{subst}
use bird.Common.Word.{u32}
use bird.Bfd.{CtlPacket, Session}
use bird.Bfd.Transmit.{is_crypto, is_meticulous, bfd_tx_timer_hook}
use bird.Bfd.Receive.{
  bfd_session_process_ctl, take_fields, bfd_rx_hook, bfd_check_authentication, is_bad_packet,
  is_mismatched, Arrival,
}
use bird.Bfd.Exchange.{rx_hook-IsAcceptable, check_authentication-IsAuthentic}
use bird.Bfd.Window.{SameWindow, SameWindow-trans, tx_hook-window, process_ctl-window}
use bird.Bfd.Advanced.{
  Advanced, Advanced-same, Advanced-suc, fields-window, within, moved_on, behind_refused,
}

module _ (mac_verify : ℕ → CtlPacket → List ℕ → Bool) (mac_fill : ℕ → CtlPacket → List ℕ) where
  -- What becomes of a session while it does not time out and is not reconfigured: it sends packets
  -- and gets `n` packets, which it accepts or drops. A packet's sequence number has 32 bits.
  pub data Later (s : Session) : ℕ → Session → Type 0 where
    start : Later s 0 s
    sends :
        {n : ℕ} {t : Session} (now real_now : ℕ)
        → Later s n t
        → Later s n (bfd_tx_timer_hook mac_fill now real_now t)
    receives :
        {n : ℕ} {t u : Session} (now real_now : ℕ) (a : Arrival) (pkt : CtlPacket)
        → Later s n t
        → pkt.auth.csn < 2 ^ 32
        → bfd_rx_hook mac_verify mac_fill now real_now (some t) a pkt ≡ some u
        → Later s (suc n) u

  accepted-Advanced :
      (s t u : Session) (csn n real_now : ℕ) (pkt : CtlPacket)
      → is_crypto s.cf.auth_type ≡ true
      → pkt.auth.csn < 2 ^ 32
      → Advanced s csn n t
      → bfd_check_authentication mac_verify real_now t pkt ≡ some u
      → Advanced s csn (suc n) u
  accepted-Advanced s t u csn n real_now pkt crypto h a ok =
      let c : is_crypto t.cf.auth_type ≡ true = ground (arith, a.conf) in
      let auth = (check_authentication-IsAuthentic mac_verify real_now t u pkt c ok).1 in
      let e = u32 (pkt.auth.csn + 2 ^ 32 - t.rx_csn) in
      let le : e ≤ 3 * s.detect_mult =
        subst (λ x. e ≤ 3 * x) a.mult (within t t.cf.auth_type pkt.auth.csn a.known auth.fresh) in
      let r = auth.recorded in
      record {
        conf = ap (λ x. x.cf) r ∙ a.conf;
        mult = ap (λ x. x.detect_mult) r ∙ a.mult;
        known = ap (λ x. x.rx_csn_known) r;
        distance = a.distance + e;
        near = omega (arith, a.near, le);
        last = ap (λ x. x.rx_csn) r ∙ moved_on csn t.rx_csn pkt.auth.csn a.distance h a.last;
      }

  processed-window :
      (now real_now : ℕ) (u : Session) (pkt : CtlPacket) (old_tx old_rx : ℕ)
      → SameWindow u (
          bfd_session_process_ctl mac_fill now real_now (take_fields u pkt) pkt.flags old_tx old_rx)
  processed-window now real_now u pkt old_tx old_rx =
      SameWindow-trans (fields-window u pkt)
        (process_ctl-window mac_fill now real_now (take_fields u pkt) pkt.flags old_tx old_rx)

  received-Advanced :
      (s t u : Session) (csn n now real_now : ℕ) (a : Arrival) (pkt : CtlPacket)
      → is_crypto s.cf.auth_type ≡ true
      → pkt.auth.csn < 2 ^ 32
      → Advanced s csn n t
      → bfd_rx_hook mac_verify mac_fill now real_now (some t) a pkt ≡ some u
      → Advanced s csn (suc n) u
  received-Advanced s t u csn n now real_now a pkt crypto h adv ok =
      elim (rx_hook-IsAcceptable mac_verify mac_fill now real_now t u a pkt ok) [
        | inl same ↦ subst (Advanced s csn (suc n)) (sym same) (Advanced-suc adv)
        | inr (good, fits, (v, checked, e)) ↦ subst (Advanced s csn (suc n)) (sym e) (
            Advanced-same (accepted-Advanced s t v csn n real_now pkt crypto h adv checked)
              (processed-window now real_now v pkt t.des_min_tx_int t.rem_min_rx_int))
      ]

  Later-Advanced :
      (r s : Session) (csn : ℕ)
      → is_crypto r.cf.auth_type ≡ true
      → Advanced r csn 0 s
      → {n : ℕ} {t : Session} → Later s n t
      → Advanced r csn n t
  Later-Advanced r s csn crypto a start = a
  Later-Advanced r s csn crypto a (sends {n} {t} now real_now l) =
      Advanced-same (Later-Advanced r s csn crypto a l) (tx_hook-window mac_fill now real_now t)
  Later-Advanced r s csn crypto a (receives {n} {t} {u} now real_now b pkt l h ok) =
      received-Advanced r t u csn n now real_now b pkt crypto h (Later-Advanced r s csn crypto a l)
        ok

  first-Advanced :
      (s t : Session) (now real_now : ℕ) (a : Arrival) (pkt : CtlPacket)
      → is_crypto s.cf.auth_type ≡ true
      → pkt.auth.csn < 2 ^ 32
      → bfd_rx_hook mac_verify mac_fill now real_now (some s) a pkt ≡ some t
      → t ≢ s
      → Advanced s pkt.auth.csn 0 t
  first-Advanced s t now real_now a pkt crypto h ok changed =
      elim (rx_hook-IsAcceptable mac_verify mac_fill now real_now s t a pkt ok) [
        | inl same ↦ absurd (changed same)
        | inr (good, fits, (v, checked, e)) ↦
            let r =
              (check_authentication-IsAuthentic mac_verify real_now s v pkt crypto
                checked).1.recorded in
            let w = processed-window now real_now v pkt s.des_min_tx_int s.rem_min_rx_int in
            let last : v.rx_csn ≡ u32 (pkt.auth.csn + 0) = omega (arith, ap (λ x. x.rx_csn) r, h) in
            let first : Advanced s pkt.auth.csn 0 v = record {
              conf = ap (λ x. x.cf) r;
              mult = ap (λ x. x.detect_mult) r;
              known = ap (λ x. x.rx_csn_known) r;
              distance = 0;
              near = omega arith;
              last = last;
            } in
            subst (Advanced s pkt.auth.csn 0) (sym e) (Advanced-same first w)
      ]

  refused_hook :
      (s : Session) (now real_now : ℕ) (a : Arrival) (pkt : CtlPacket)
      → bfd_check_authentication mac_verify real_now s pkt ≡ none
      → bfd_rx_hook mac_verify mac_fill now real_now (some s) a pkt ≡ some s
  unfolding bfd_rx_hook
  refused_hook s now real_now a pkt r =
      elim (Bool-cases (is_bad_packet a pkt || is_mismatched s pkt)) [
        | inl x ↦ rw (bfd_rx_hook, x) refl
        | inr x ↦ rw (bfd_rx_hook, x, r) refl
      ]

  -- With a meticulous type, a packet that was accepted, and so changed the session, is dropped
  -- whenever it is played back: neither it nor any packet with its sequence number changes the
  -- session, whatever was sent and received in between, until the session times out or is
  -- reconfigured, or has got so many packets that the numbers may have come round, one window of
  -- three times the detection multiplier for each. Sequence numbers have 32 bits.
  pub rx_hook-replay :
      (s t u : Session) (pkt copy : CtlPacket) (a b : Arrival) (now real_now later real_later n : ℕ)
      → is_meticulous s.cf.auth_type ≡ true
      → pkt.auth.csn < 2 ^ 32
      → bfd_rx_hook mac_verify mac_fill now real_now (some s) a pkt ≡ some t
      → t ≢ s
      → Later t n u
      → suc n * (3 * s.detect_mult) < 2 ^ 32
      → copy.auth.csn ≡ pkt.auth.csn
      → bfd_rx_hook mac_verify mac_fill later real_later (some u) b copy ≡ some u
  rx_hook-replay s t u pkt copy a b now real_now later real_later n met h ok changed l room same =
      elim (Option-cases (bfd_check_authentication mac_verify real_later u copy)) [
        | inl refused ↦ refused_hook u later real_later b copy refused
        | inr (v, again) ↦
            let crypto : is_crypto s.cf.auth_type ≡ true = ground arith in
            let adv =
              Later-Advanced s t pkt.auth.csn crypto
                (first-Advanced s t now real_now a pkt crypto h ok changed) l in
            let crypto' : is_crypto u.cf.auth_type ≡ true = ground (arith, adv.conf) in
            let met' : is_meticulous u.cf.auth_type ≡ true = ground (arith, adv.conf) in
            let fresh =
              (check_authentication-IsAuthentic mac_verify real_later u v copy crypto'
                again).1.fresh in
            let fits : adv.distance + 3 * u.detect_mult < 2 ^ 32 =
              omega (arith, adv.near, adv.mult, room) in
            let refused =
              behind_refused u u.cf.auth_type pkt.auth.csn adv.distance met' adv.known h adv.last
                fits in
            absurd (ground (arith, refused, fresh, same))
      ]
