-- ===== src/Text/Decimal.antt =====
-- How many digits `str` prints.
use overwatch_harness.Prelude.{
  ℕ, zero, suc, ◌+◌, ◌*◌, ◌/◌, ◌%◌, ◌^◌, ◌≤◌, ◌<◌, [], ◌∷◌, arith, length, length-append,
}
use native.Mathlib.Nat.{pow-suc}
use overwatch_harness.Text.{digits, str}

length-digits-le : (k f n : ℕ) → n < 10 ^ suc k → length (digits f n) ≤ suc k
unfolding digits
length-digits-le k zero n h = omega arith
length-digits-le zero (suc f) n h = ground arith
length-digits-le (suc k) (suc f) n h =
    let bound : n < 10 ^ suc k * 10 = rw pow-suc at h in
    ground (
      arith,
      length-digits-le k f (n / 10),
      length-append {0} (digits f (n / 10)) ((b'0' + n % 10) ∷ []),
    )

-- A number below 10 ^ k has at most k digits, for a positive k.
pub length-str-le : (k n : ℕ) → n < 10 ^ suc k → length (str n) ≤ suc k
unfolding str
length-str-le k n h = length-digits-le k (suc n) n h
