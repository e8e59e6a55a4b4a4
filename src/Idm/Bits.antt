-- ===== src/Idm/Bits.antt =====
-- The operations on one bit of a word of lib/idm.c, and the number of bits set.
use bird.Common.{
  ℕ, zero, suc, ◌+◌, ◌-◌, ◌*◌, ◌/◌, ◌%◌, ◌^◌, ◌≤◌, ◌<◌, ◌≡◌, ◌≢◌, refl, ap, true, false, ◌==◌, some,
  arith, Bool-cases, inl, inr,
}
use bird.Idm.{bit, set_bit, clear_bit, u32_cto}

low_half : (w x : ℕ) → (w % 2 + 2 * x) / 2 ≡ x
low_half w x = omega arith

low_bit : (w x : ℕ) → (w % 2 + 2 * x) % 2 ≡ w % 2
low_bit w x = omega arith

pub bit-set_self : (w j : ℕ) → bit (set_bit w j) j ≡ true
unfolding bit set_bit
bit-set_self w zero = ground arith
bit-set_self w (suc j) = rw (low_half w (set_bit (w / 2) j)) (bit-set_self (w / 2) j)

pub bit-set_ne : (w j k : ℕ) → j ≢ k → bit (set_bit w j) k ≡ bit w k
unfolding bit set_bit
bit-set_ne w zero zero h = absurd (h refl)
bit-set_ne w zero (suc k) h = ap (λ x. bit x k) (ground arith)
bit-set_ne w (suc j) zero h = ground arith
bit-set_ne w (suc j) (suc k) h =
    rw (low_half w (set_bit (w / 2) j)) (bit-set_ne (w / 2) j k (λ e. h (ap suc e)))

pub bit-clear_self : (w j : ℕ) → bit (clear_bit w j) j ≡ false
unfolding bit clear_bit
bit-clear_self w zero = ground arith
bit-clear_self w (suc j) = rw (low_half w (clear_bit (w / 2) j)) (bit-clear_self (w / 2) j)

pub bit-clear_ne : (w j k : ℕ) → j ≢ k → bit (clear_bit w j) k ≡ bit w k
unfolding bit clear_bit
bit-clear_ne w zero zero h = absurd (h refl)
bit-clear_ne w zero (suc k) h = ap (λ x. bit x k) (ground arith)
bit-clear_ne w (suc j) zero h = ground arith
bit-clear_ne w (suc j) (suc k) h =
    rw (low_half w (clear_bit (w / 2) j)) (bit-clear_ne (w / 2) j k (λ e. h (ap suc e)))

pub bit-zero : (j : ℕ) → bit 0 j ≡ false
unfolding bit
bit-zero zero = refl
bit-zero (suc j) = bit-zero j

pub set_bit-lt : (n w j : ℕ) → w < 2 ^ n → j < n → set_bit w j < 2 ^ n
unfolding set_bit
set_bit-lt zero w j h k = absurd (omega arith)
set_bit-lt (suc n) w zero h k = ground arith
set_bit-lt (suc n) w (suc j) h k = omega (arith, set_bit-lt n (w / 2) j (omega arith) (omega arith))

pub clear_bit-le : (w j : ℕ) → clear_bit w j ≤ w
unfolding clear_bit
clear_bit-le w zero = ground arith
clear_bit-le w (suc j) = omega (arith, clear_bit-le (w / 2) j)

-- The number of bits set among the lowest `n`.
unfoldable pub popcount : ℕ → ℕ → ℕ
popcount zero w = 0
popcount (suc n) w = w % 2 + popcount n (w / 2)

pub popcount-zero : (n : ℕ) → popcount n 0 ≡ 0
unfolding popcount
popcount-zero zero = refl
popcount-zero (suc n) = omega (arith, popcount-zero n)

pub popcount-set :
    (n w j : ℕ) → j < n → bit w j ≡ false → popcount n (set_bit w j) ≡ suc (popcount n w)
unfolding popcount set_bit bit
popcount-set zero w j h e = absurd (omega arith)
popcount-set (suc n) w zero h e =
    let even : w % 2 ≡ 0 = ground arith in
    let half : (w + 1) / 2 ≡ w / 2 = omega arith in ground (arith, ap (popcount n) half)
popcount-set (suc n) w (suc j) h e =
    rw (low_half w (set_bit (w / 2) j)) (omega (arith, popcount-set n (w / 2) j (omega arith) e))

pub popcount-clear :
    (n w j : ℕ) → j < n → bit w j ≡ true → suc (popcount n (clear_bit w j)) ≡ popcount n w
unfolding popcount clear_bit bit
popcount-clear zero w j h e = absurd (omega arith)
popcount-clear (suc n) w zero h e =
    let odd : w % 2 ≡ 1 = ground arith in
    let half : (w - 1) / 2 ≡ w / 2 = omega arith in ground (arith, ap (popcount n) half)
popcount-clear (suc n) w (suc j) h e =
    rw (low_half w (clear_bit (w / 2) j))
      (omega (arith, popcount-clear n (w / 2) j (omega arith) e))

-- A word that is not full has a clear bit, and u32_cto finds one.
pub cto_lem :
    (n w : ℕ)
    → w < 2 ^ n
    → w + 1 ≢ 2 ^ n
    → (j : ℕ) × (u32_cto n w ≡ some j) × (j < n) × (bit w j ≡ false)
unfolding u32_cto bit
cto_lem zero w h ne = absurd (ne (omega arith))
cto_lem (suc n) w h ne = elim (Bool-cases (w % 2 == 0)) [
  | inl e ↦ (0, rw e refl, omega arith, ground arith)
  | inr e ↦
      let (j, found, lt, clear) = cto_lem n (w / 2) (omega arith) (λ f. ne (ground arith)) in
      (suc j, rw (e, found) refl, omega arith, clear)
]

pub popcount-le : (n w : ℕ) → popcount n w ≤ n
unfolding popcount
popcount-le zero w = omega arith
popcount-le (suc n) w = omega (arith, popcount-le n (w / 2))
