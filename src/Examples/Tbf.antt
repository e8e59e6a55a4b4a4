-- ===== src/Examples/Tbf.antt =====
-- The token bucket filter of lib/tbf.c with the limits TBF_DEFAULT_LOG_LIMITS.
use bird.Common.{◌+◌, ◌-◌, ◌*◌, ◌≤◌, ◌≡◌, refl, false, [], ◌∷◌, arith}
use bird.Tbf.{TokenBucket, token, ask_at, tbf_limit, charge, refill}
use bird.Tbf.Rate.{ask_at-le-rate, tbf_limit_recovers}

abbrev log_limits : TokenBucket
log_limits = record { timestamp = 0; count = 0; burst = 5; rate = 1; drop = 0 }

-- After ten seconds five messages pass, as the burst allows, and the sixth is dropped.
five_pass :
    (ask_at log_limits (10000000 ∷ 10000000 ∷ 10000000 ∷ 10000000 ∷ 10000000 ∷ 10000000 ∷ [])).1 ≡ 5
unfolding ask_at tbf_limit refill charge
five_pass = refl

ask_at-le-rate_example :
    let r = ask_at log_limits (2000000 ∷ 2500000 ∷ []) in
    r.1 * token + r.0.count ≤ 0 + (r.0.timestamp - 0) * 1
ask_at-le-rate_example = ask_at-le-rate log_limits (2000000 ∷ 2500000 ∷ [])

tbf_limit_recovers_example : (tbf_limit log_limits 1000000).1 ≡ false
tbf_limit_recovers_example =
    tbf_limit_recovers log_limits 1000000 (omega arith) (omega arith) (omega arith)
