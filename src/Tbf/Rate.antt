-- ===== src/Tbf/Rate.antt =====
-- What tbf_limit of lib/tbf.c guarantees over any sequence of calls.
use bird.Common.{ℕ, ◌+◌, ◌-◌, ◌*◌, ◌^◌, ◌≤◌, ◌<◌, ◌≡◌, false, List, [], ◌∷◌, arith, if◌then◌else◌}
use bird.Tbf.{TokenBucket, token, refill, charge, tbf_limit, ask_at}

refill-burst : (f : TokenBucket) (now : ℕ) → (refill f now).burst ≡ f.burst
unfolding refill
refill-burst f now = ground arith

refill-rate : (f : TokenBucket) (now : ℕ) → (refill f now).rate ≡ f.rate
unfolding refill
refill-rate f now = ground arith

charge-settings :
    (f : TokenBucket)
    → ((charge f).0.burst ≡ f.burst)
      × ((charge f).0.rate ≡ f.rate)
      × ((charge f).0.timestamp ≡ f.timestamp)
unfolding charge
charge-settings f = ground arith

-- One refill adds at most the rate times the time passed, and moves the clock to the latest time.
refill_gain :
    (f : TokenBucket) (now : ℕ)
    → (f.timestamp ≤ (refill f now).timestamp)
      × (now ≤ (refill f now).timestamp)
      × ((refill f now).count ≤ f.count + ((refill f now).timestamp - f.timestamp) * f.rate)
unfolding refill
refill_gain f now = ground arith

charge_cost : (f : TokenBucket) → (if (charge f).1 then 0 else token) + (charge f).0.count ≡ f.count
unfolding charge
charge_cost f = ground arith

-- What one call takes out of the bucket is covered by what it held and by the time passed.
tbf_limit_cost :
    (f : TokenBucket) (now : ℕ)
    → let (f', over) = tbf_limit f now in
      (f.timestamp ≤ f'.timestamp)
      × (now ≤ f'.timestamp)
      × (f'.rate ≡ f.rate)
      × ((if over then 0 else token) + f'.count ≤ f.count + (f'.timestamp - f.timestamp) * f.rate)
unfolding tbf_limit
tbf_limit_cost f now =
    let g = refill f now in
    ground (arith, refill_gain f now, refill-rate f now, charge_cost g, charge-settings g)

split_time : (a b c r : ℕ) → a ≤ b → b ≤ c → (c - a) * r ≡ (b - a) * r + (c - b) * r
split_time a b c r h k = grind arith

ask_at_order : (f : TokenBucket) (times : List ℕ) → f.timestamp ≤ (ask_at f times).0.timestamp
unfolding ask_at
ask_at_order f [] = omega arith
ask_at_order f (now ∷ times) =
    omega (arith, tbf_limit_cost f now, ask_at_order (tbf_limit f now).0 times)

-- Over any sequence of calls, whatever their times, the tokens handed out and those left in the
-- bucket are at most those held at the start and the rate times the time that has passed.
pub ask_at-le-rate :
    (f : TokenBucket) (times : List ℕ)
    → (ask_at f times).1 * token + (ask_at f times).0.count
      ≤ f.count + ((ask_at f times).0.timestamp - f.timestamp) * f.rate
unfolding ask_at
ask_at-le-rate f [] = omega arith
ask_at-le-rate f (now ∷ times) =
    let g = (tbf_limit f now).0 in
    ground (
      arith,
      tbf_limit_cost f now,
      ask_at_order g times,
      ask_at-le-rate g times,
      split_time f.timestamp g.timestamp (ask_at g times).0.timestamp f.rate,
    )

-- A request passes once the rate has earned a whole token since the last refill, if the burst is
-- not 0 and the 64-bit sum does not wrap.
pub tbf_limit_recovers :
    (f : TokenBucket) (now : ℕ)
    → 1 ≤ f.burst
    → token ≤ (now - f.timestamp) * f.rate
    → f.count + (now - f.timestamp) * f.rate < 2 ^ 64
    → (tbf_limit f now).1 ≡ false
unfolding tbf_limit refill charge
tbf_limit_recovers f now b earned fits = ground arith
