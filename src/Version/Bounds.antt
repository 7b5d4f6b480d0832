-- ===== src/Version/Bounds.antt =====
-- The numbers that `wholeNumber` of src/Spock/VersionNumber.C reads, and the range of `int`.
use Prim.Native.Nat.{◌^◌}
use native.Mathlib.Nat.{pow-succ', pow-le-pow_right, mul_assoc}
use rmc_spock.Base.{
  ℕ, ◌+◌, ◌*◌, ◌-◌, ◌≤◌, ◌<◌, ◌≡◌, sym, ap, subst, ◌∙◌, true, some, [], ◌∷◌, Text, all, is_digit,
  strtoul_from, length, arith,
}
use rmc_spock.Version.{whole_number}

-- With the digits read so far below a bound, the number is below the bound times a power of ten.
strtoul_from_bound :
    (s : Text) (n b : ℕ) → n < b → all is_digit s ≡ true → strtoul_from n s < b * 10 ^ length s
unfolding is_digit strtoul_from
strtoul_from_bound [] n b lt d = omega arith
strtoul_from_bound (c ∷ s) n b lt d =
    let digit : (is_digit c ≡ true) × (all is_digit s ≡ true) = ground arith in
    let step =
      strtoul_from_bound s (n * 10 + (c - 48)) (b * 10) (ground (arith, digit.0)) digit.1 in
    subst (λ k. strtoul_from (n * 10 + (c - 48)) s < k)
      (mul_assoc b 10 (10 ^ length s) ∙ ap (λ k. b * k) (sym (pow-succ' 10 (length s)))) step

number_read :
    (s : Text) (n : ℕ)
    → whole_number s ≡ some n
    → (length s ≤ 6) × (all is_digit s ≡ true) × (strtoul_from 0 s ≡ n)
unfolding whole_number
number_read s n h = (ground arith, ground arith, ground arith)

-- A part that is read as a number is below the power of ten of its length, which is at most six, and
-- so it is within the range of a 32-bit `int`.
pub whole_number_bound :
    (s : Text) (n : ℕ)
    → whole_number s ≡ some n
    → (length s ≤ 6) × (n < 10 ^ length s) × (n < 2 ^ 31)
whole_number_bound s n h =
    let (short, digits, value) = number_read s n h in
    let below : n < 1 * 10 ^ length s =
      subst (λ k. k < 1 * 10 ^ length s) value (strtoul_from_bound s 0 1 (omega arith) digits) in
    let largest : 10 ^ length s ≤ 1000000 = pow-le-pow_right (omega arith) short in
    (short, omega arith, omega arith)
