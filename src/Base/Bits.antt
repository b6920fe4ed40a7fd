-- ===== src/Base/Bits.antt =====
-- `^` and `&` at every width: the lowest digit, cutting off high bits, and cancellation.
use Prim.Native.Nat.{
  ℕ, zero, suc, ◌+◌, ◌-◌, ◌*◌, ◌/◌, ◌%◌, ◌^◌, ◌≤◌, ◌<◌, min, digits, bit_and, bit_xor,
  bit_and-bitwise, bit_xor-bitwise, differ,
}
use mathlib.Core.Path.{◌≡◌, refl, ap, sym, ◌∙◌}
use native.Mathlib.Nat.{
  le_refl, pow-suc, one-le-pow, mod-one, mul-add-mod_self_right, mod-eq_of_lt, div-add-mod,
}
use native.Mathlib.Omega.{arith}

-- Fuel beyond the first argument is not used.
spare_fuel :
    (z : ℕ → ℕ) (f : ℕ → ℕ → ℕ) (x y k : ℕ)
    → x ≤ k
    → (spare : ℕ) → k ≤ spare
    → digits z f spare x y ≡ digits z f k x y
spare_fuel z f zero y zero h zero le = refl
spare_fuel z f zero y zero h (suc spare) le = refl
spare_fuel z f zero y (suc k) h zero le = refl
spare_fuel z f zero y (suc k) h (suc spare) le = refl
spare_fuel z f (suc x) y zero h spare le = absurd (omega (arith, h))
spare_fuel z f (suc x) y (suc k) h zero le = absurd (omega (arith, le))
spare_fuel z f (suc x) y (suc k) h (suc spare) le =
    let half : suc x / 2 ≤ k = omega (arith, h) in
    ap (λ (d : ℕ). d * 2 + f (suc x % 2) (y % 2))
      (spare_fuel z f (suc x / 2) (y / 2) k half spare (omega (arith, le)))

bit_and_step : (x y : ℕ) → bit_and x y ≡ bit_and (x / 2) (y / 2) * 2 + min (x % 2) (y % 2)
bit_and_step zero y = simp bit_and-bitwise (omega arith)
bit_and_step (suc x) y =
    let half = spare_fuel (λ _. 0) min (suc x / 2) (y / 2) (suc x / 2) (le_refl _) x in
    simp bit_and-bitwise (omega (arith, half (omega arith)))

differ_digits : (x y : ℕ) → x < 2 → y < 2 → differ x y ≡ (x + y) % 2
differ_digits zero y p q = omega arith
differ_digits (suc zero) zero p q = refl
differ_digits (suc zero) (suc zero) p q = refl
differ_digits (suc zero) (suc (suc y)) p q = absurd (omega arith)
differ_digits (suc (suc x)) y p q = absurd (omega arith)

bit_xor_step : (x y : ℕ) → bit_xor x y ≡ bit_xor (x / 2) (y / 2) * 2 + (x % 2 + y % 2) % 2
bit_xor_step zero y = simp bit_xor-bitwise (omega arith)
bit_xor_step (suc x) y =
    let half = spare_fuel (λ t. t) differ (suc x / 2) (y / 2) (suc x / 2) (le_refl _) x in
    let lowest = differ_digits (suc x % 2) (y % 2) (omega arith) (omega arith) in
    simp bit_xor-bitwise (omega (arith, half (omega arith), lowest))

pub mod_of_fields : (q m r : ℕ) → r < m → (q * m + r) % m ≡ r
mod_of_fields q m r h = mul-add-mod_self_right q m r ∙ mod-eq_of_lt h

-- The remainder by `2 ^ (k + 1)`, from the lowest digit and the rest.
mod_step : (k a : ℕ) → a % 2 ^ suc k ≡ a / 2 % 2 ^ k * 2 + a % 2
mod_step k a = ap (λ (t : ℕ). t % 2 ^ suc k) whole ∙ mod_of_fields q (2 ^ suc k) r fits
  where
    q : ℕ
    q = a / 2 / 2 ^ k

    r : ℕ
    r = a / 2 % 2 ^ k * 2 + a % 2

    whole : a ≡ q * 2 ^ suc k + r
    whole = omega (arith, div-add-mod (a / 2) (2 ^ k), ap (λ (t : ℕ). q * t) (pow-suc 2 k))

    fits : r < 2 ^ suc k
    fits = omega (arith, pow-suc 2 k, one-le-pow k 2)

-- The low `k` bits of `a ^ b` are those of the low `k` bits.
pub xor_mod : (k a b : ℕ) → bit_xor a b % 2 ^ k ≡ bit_xor (a % 2 ^ k) (b % 2 ^ k)
xor_mod zero a b = simp mod-one
xor_mod (suc k) a b = ground (
  arith,
  mod_step k a,
  mod_step k b,
  mod_step k (bit_xor a b),
  bit_xor_step a b,
  bit_xor_step (a % 2 ^ suc k) (b % 2 ^ suc k),
  xor_mod k (a / 2) (b / 2),
)

xor_cancel_fuel : (n a b : ℕ) → a ≤ n → b ≤ n → bit_xor (bit_xor a b) b ≡ a
xor_cancel_fuel zero a b p q =
    let e : a ≡ 0 = omega arith in let f : b ≡ 0 = omega arith in rw (e, f)
xor_cancel_fuel (suc n) a b p q = ground (
  arith,
  bit_xor_step (bit_xor a b) b,
  bit_xor_step a b,
  xor_cancel_fuel n (a / 2) (b / 2) (omega arith) (omega arith),
)

pub xor_cancel : (a b : ℕ) → bit_xor (bit_xor a b) b ≡ a
xor_cancel a b = xor_cancel_fuel (a + b) a b (omega arith) (omega arith)

and_zero : (k x : ℕ) → x ≤ k → bit_and x 0 ≡ 0
and_zero k zero h = refl
and_zero zero (suc x) h = absurd (omega (arith, h))
and_zero (suc k) (suc x) h =
    let rest = and_zero k (suc x / 2) (omega (arith, h)) in
    omega (arith, rest, bit_and_step (suc x) 0)

-- A mask of `k` low bits is the remainder by `2 ^ k`.
pub and_mask : (k a : ℕ) → bit_and a (2 ^ k - 1) ≡ a % 2 ^ k
and_mask zero a = simp mod-one (and_zero a a (omega arith))
and_mask (suc k) a = ground (
  arith,
  bit_and_step a (2 ^ suc k - 1),
  pow-suc 2 k,
  one-le-pow k 2,
  mod_step k a,
  and_mask k (a / 2),
)

xor_cancel_left_fuel : (n a b : ℕ) → a ≤ n → b ≤ n → bit_xor (bit_xor a b) a ≡ b
xor_cancel_left_fuel zero a b p q =
    let e : a ≡ 0 = omega arith in let f : b ≡ 0 = omega arith in rw (e, f)
xor_cancel_left_fuel (suc n) a b p q = ground (
  arith,
  bit_xor_step (bit_xor a b) a,
  bit_xor_step a b,
  xor_cancel_left_fuel n (a / 2) (b / 2) (omega arith) (omega arith),
)

-- A word that changes nothing is zero.
pub xor_fixed : (a b : ℕ) → bit_xor a b ≡ a → b ≡ 0
xor_fixed a b h =
    sym (xor_cancel_left_fuel (a + b) a b (omega arith) (omega arith))
    ∙ ap (λ (t : ℕ). bit_xor t a) h
    ∙ ap (λ (t : ℕ). bit_xor t a) (sym (bit_xor-bitwise 0 a))
    ∙ xor_cancel 0 a

-- Cutting off high bits twice.
pub mod_mod : (i j a : ℕ) → i ≤ j → a % 2 ^ j % 2 ^ i ≡ a % 2 ^ i
mod_mod zero j a h = simp mod-one
mod_mod (suc i) zero a h = absurd (omega arith)
mod_mod (suc i) (suc j) a h =
    ground (arith, mod_step i a, mod_step i (a % 2 ^ suc j), mod_step j a, mod_mod i j (a / 2))
