-- ===== src/Tbf.antt =====
-- The token bucket filter: struct tbf of lib/birdlib.h and tbf_limit of lib/tbf.c.
-- Times are in microseconds and counts in micro-tokens; a time is a number, since the monotonic
-- clock behind current_time() never is negative.
pub mod Rate
use bird.Common.{ℕ, ◌+◌, ◌-◌, ◌*◌, min, Bool, true, false, ltb, if◌then◌else◌, List, [], ◌∷◌}
use bird.Common.Word.{u32, u64, ◌<<◌}

pub record TokenBucket : Type 0 where
  pub timestamp : ℕ
  pub count : ℕ
  pub burst : ℕ
  pub rate : ℕ
  pub drop : ℕ

-- What one permitted request costs.
abbrev pub token : ℕ
token = 1000000

-- The replenishment at the head of tbf_limit. `delta` is current_time() - f->timestamp, which
-- `-` cuts off at 0, where the code does nothing.
unfoldable pub refill : TokenBucket → ℕ → TokenBucket
refill f now =
    let delta = now - f.timestamp in
    if ltb 0 delta
    then record f {
      count = min (u64 (f.count + u64 (delta * f.rate))) (f.burst << 20);
      timestamp = f.timestamp + delta;
    }
    else f

-- The second half: `true` is the result 1, the request is over the limit.
unfoldable pub charge : TokenBucket → TokenBucket × Bool
charge f =
    if ltb f.count token
    then (record f { drop = u32 (f.drop + 1) }, true)
    else (record f { count = f.count - token; drop = 0 }, false)

unfoldable pub tbf_limit : TokenBucket → ℕ → TokenBucket × Bool
tbf_limit f now = charge (refill f now)

-- The filter asked at each of the times given: the filter afterwards and how many calls passed.
unfoldable pub ask_at : TokenBucket → List ℕ → TokenBucket × ℕ
ask_at f [] = (f, 0)
ask_at f (now ∷ times) =
    let (f', over) = tbf_limit f now in
    let (f'', passed) = ask_at f' times in (f'', if over then passed else passed + 1)
