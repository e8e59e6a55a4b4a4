-- ===== src/Bfd/Advanced.antt =====
-- How far the last sequence number of a session of proto/bfd/packets.c is ahead of an earlier one.
use bird.Common.{
  ℕ, suc, ◌+◌, ◌*◌, ◌-◌, ◌^◌, ◌≤◌, ◌<◌, ◌≡◌, ◌==◌, ◌∙◌, true, false, arith, Bool-cases, inl, inr,
}
use bird.Common.Word.{u32}
use bird.Bfd.{CtlPacket, Session}
use bird.Bfd.Transmit.{is_meticulous}
use bird.Bfd.Receive.{csn_refused, take_fields}
use bird.Bfd.Window.{SameWindow}

-- The last sequence number is known, and behind the first one by a distance that at most `n`
-- packets make up; the configuration is the same.
pub record Advanced (s : Session) (csn n : ℕ) (t : Session) : Type 0 where
  pub conf : t.cf ≡ s.cf
  pub mult : t.detect_mult ≡ s.detect_mult
  pub known : t.rx_csn_known ≡ true
  pub distance : ℕ
  pub near : distance ≤ n * (3 * s.detect_mult)
  pub last : t.rx_csn ≡ u32 (csn + distance)

pub Advanced-same :
    {s t u : Session} {csn n : ℕ} → Advanced s csn n t → SameWindow t u → Advanced s csn n u
Advanced-same a w = record {
  conf = w.conf ∙ a.conf;
  mult = w.mult ∙ a.mult;
  known = w.known ∙ a.known;
  distance = a.distance;
  near = a.near;
  last = w.last ∙ a.last;
}

pub Advanced-suc : {s t : Session} {csn n : ℕ} → Advanced s csn n t → Advanced s csn (suc n) t
Advanced-suc a = record {
  conf = a.conf;
  mult = a.mult;
  known = a.known;
  distance = a.distance;
  near = omega (arith, a.near);
  last = a.last;
}

pub fields-window : (s : Session) (pkt : CtlPacket) → SameWindow s (take_fields s pkt)
unfolding take_fields
fields-window s pkt = ground arith

pub within :
    (s : Session) (t csn : ℕ)
    → s.rx_csn_known ≡ true
    → csn_refused s t csn ≡ false
    → u32 (csn + 2 ^ 32 - s.rx_csn) ≤ 3 * s.detect_mult
unfolding csn_refused
within s t csn k h = ground arith

pub moved_on :
    (first last csn d : ℕ)
    → csn < 2 ^ 32
    → last ≡ u32 (first + d)
    → csn ≡ u32 (first + (d + u32 (csn + 2 ^ 32 - last)))
moved_on first last csn d h e = omega (arith, h, e)

-- A number that is behind the last one by less than the rest of the window.
pub behind_refused :
    (s : Session) (t csn d : ℕ)
    → is_meticulous t ≡ true
    → s.rx_csn_known ≡ true
    → csn < 2 ^ 32
    → s.rx_csn ≡ u32 (csn + d)
    → d + 3 * s.detect_mult < 2 ^ 32
    → csn_refused s t csn ≡ true
unfolding csn_refused
behind_refused s t csn d met k h e w = elim (Bool-cases (csn == s.rx_csn)) [
  | inl x ↦ ground (arith, x, met, k)
  | inr x ↦
      let far : 3 * s.detect_mult < u32 (csn + 2 ^ 32 - s.rx_csn) = ground (arith, x, h, e, w) in
      ground (arith, far, k)
]
