-- ===== src/Bfd/Reach.antt =====
-- The life of a BFD session as a step relation: the events that proto/bfd/bfd.c and
-- proto/bfd/packets.c react to, in any order and at any times.
use bird.Common.{ℕ, ◌≡◌, Bool, some, arith, List, inl, inr}
use bird.Bfd.{CtlPacket, Session, SessionConfig}
use bird.Bfd.Ops.{bfd_add_session, bfd_hold_timer_hook, bfd_reconfigure_session}
use bird.Bfd.Transmit.{bfd_tx_timer_hook}
use bird.Bfd.Receive.{Arrival, bfd_rx_hook, take_fields}
use bird.Bfd.Exchange.{rx_hook-IsAcceptable, check_changes}
use bird.Bfd.Intervals.{
  IsPaced, IsPaced-same, timeout-IsPaced, reconfigure-IsPaced, add-IsPaced, process_ctl-IsPaced,
  tx_hook_same,
}

fields-IsPaced : (s : Session) (pkt : CtlPacket) → IsPaced s → IsPaced (take_fields s pkt)
unfolding take_fields
fields-IsPaced s pkt p = ground arith

hold-IsPaced : (now : ℕ) (s : Session) → IsPaced s → IsPaced (bfd_hold_timer_hook now s)
unfolding bfd_hold_timer_hook
hold-IsPaced now s p = timeout-IsPaced now s p

module _ (mac_verify : ℕ → CtlPacket → List ℕ → Bool) (mac_fill : ℕ → CtlPacket → List ℕ) where
  -- One event: a packet for the session, the two timers, or a new configuration.
  pub data Step (s : Session) : Session → Type 0 where
    receive :
        {t : Session} (now real_now : ℕ) (a : Arrival) (pkt : CtlPacket)
        → bfd_rx_hook mac_verify mac_fill now real_now (some s) a pkt ≡ some t
        → Step s t
    hold_timer : (now : ℕ) → Step s (bfd_hold_timer_hook now s)
    tx_timer : (now real_now : ℕ) → Step s (bfd_tx_timer_hook mac_fill now real_now s)
    reconfigure : (now : ℕ) (cf : SessionConfig) → Step s (bfd_reconfigure_session now s cf)

  -- The sessions that come from a new one by any events.
  pub data IsReachable : Session → Type 0 where
    added :
        (now : ℕ) (cf : SessionConfig) (id csn : ℕ) (socket : Bool)
        → IsReachable (bfd_add_session now cf id csn socket)
    next : {s t : Session} → IsReachable s → Step s t → IsReachable t

  rx_hook-IsPaced :
      (s t : Session) (now real_now : ℕ) (a : Arrival) (pkt : CtlPacket)
      → bfd_rx_hook mac_verify mac_fill now real_now (some s) a pkt ≡ some t
      → IsPaced s
      → IsPaced t
  rx_hook-IsPaced s t now real_now a pkt h p =
      elim (rx_hook-IsAcceptable mac_verify mac_fill now real_now s t a pkt h) [
        | inl same ↦ ground (arith, same)
        | inr (good, fits, (u, ok, e)) ↦
            let q : IsPaced u = ground (arith, check_changes mac_verify real_now s u pkt ok) in
            ground (
              arith,
              e,
              process_ctl-IsPaced mac_fill now real_now (take_fields u pkt) pkt.flags
                  s.des_min_tx_int s.rem_min_rx_int (fields-IsPaced u pkt q),
            )
      ]

  Step-IsPaced : {s t : Session} → Step s t → IsPaced s → IsPaced t
  Step-IsPaced {s} {t} (receive now real_now a pkt h) p = rx_hook-IsPaced s t now real_now a pkt h p
  Step-IsPaced {s} (hold_timer now) p = hold-IsPaced now s p
  Step-IsPaced {s} (tx_timer now real_now) p = IsPaced-same (tx_hook_same mac_fill now real_now s) p
  Step-IsPaced {s} (reconfigure now cf) p = reconfigure-IsPaced now s cf p

  -- In every session that events can bring about, the transmission interval in use is at most the
  -- announced one and the reception interval in use at least the announced one.
  pub IsReachable-IsPaced : {s : Session} → IsReachable s → IsPaced s
  IsReachable-IsPaced (added now cf id csn socket) = add-IsPaced now cf id csn socket
  IsReachable-IsPaced (next r st) = Step-IsPaced st (IsReachable-IsPaced r)
