-- ===== src/Framing/Decimal.antt =====
-- Reading a printed number.
use lsp_client.Base.{
  ℕ, zero, suc, ◌+◌, ◌-◌, ◌*◌, ◌/◌, ◌%◌, ◌≤◌, ◌<◌, ◌≡◌, ap, ◌∙◌, true, some, [], ◌∷◌, ◌++◌, ltb,
  length, length-append, arith, All, Bool-cases, inl, inr,
}
use Prim.Native.Nat.{◌^◌}
use native.Mathlib.Nat.{pow-suc}
use lsp_client.Framing.{Bytes, is_digit, read_digits, read_number, decimal}

abbrev pub Digits : Bytes → Type 0
Digits s = All (λ c. is_digit c ≡ true) s

pub read_digits-append :
    (acc d : ℕ) (s : Bytes)
    → Digits s
    → is_digit d ≡ true
    → read_digits acc (s ++ d ∷ []) ≡ read_digits acc s * 10 + (d - b'0')
unfolding read_digits
read_digits-append acc d [] h k = ground arith
read_digits-append acc d (c ∷ s) h k =
    ground (arith, h.0, read_digits-append (acc * 10 + (c - b'0')) d s h.1 k)

Digits-append : (s : Bytes) (d : ℕ) → Digits s → is_digit d ≡ true → Digits (s ++ d ∷ [])
Digits-append [] d h k = (k, tt)
Digits-append (c ∷ s) d h k = (h.0, Digits-append s d h.1 k)

last_digit : (n : ℕ) → is_digit (b'0' + n % 10) ≡ true
last_digit n = ground arith

pub decimal-Digits : (fuel n : ℕ) → Digits (decimal fuel n)
unfolding decimal
decimal-Digits zero n = tt
decimal-Digits (suc fuel) n = elim (Bool-cases (ltb n 10)) [
  | inl small ↦ rw small (ground arith, tt)
  | inr large ↦
      rw large
        (Digits-append (decimal fuel (n / 10)) _ (decimal-Digits fuel (n / 10)) (last_digit n))
]

-- Enough fuel prints the whole number.
pub read_digits-decimal : (fuel n : ℕ) → n < fuel → read_digits 0 (decimal fuel n) ≡ n
unfolding decimal
read_digits-decimal zero n h = absurd (omega arith)
read_digits-decimal (suc fuel) n h = elim (Bool-cases (ltb n 10)) [
  | inl small ↦ rw small (unfold read_digits in ground arith)
  | inr large ↦ rw large (
      read_digits-append 0 (b'0' + n % 10) (decimal fuel (n / 10)) (decimal-Digits fuel (n / 10))
        (last_digit n)
      ∙ ground (arith, large, read_digits-decimal fuel (n / 10)))
]

read_number_of_Digits :
    (s : Bytes) → Digits s → 0 < length s → read_number s ≡ some (read_digits 0 s)
unfolding read_number
read_number_of_Digits [] d h = absurd (omega arith)
read_number_of_Digits (c ∷ s) d h = ground (arith, d.0)

length-decimal_pos : (fuel n : ℕ) → 0 < length (decimal (suc fuel) n)
unfolding decimal
length-decimal_pos fuel n =
    ground (arith, length-append (decimal fuel (n / 10)) ((b'0' + n % 10) ∷ []))

pub read_number-decimal : (fuel n : ℕ) → n < fuel → read_number (decimal fuel n) ≡ some n
read_number-decimal zero n h = absurd (omega arith)
read_number-decimal (suc fuel) n h =
    read_number_of_Digits (decimal (suc fuel) n) (decimal-Digits (suc fuel) n)
      (length-decimal_pos fuel n)
    ∙ ap some (read_digits-decimal (suc fuel) n h)

-- A number below 10^(k+1) has at most k + 1 digits.
pub length-decimal-le : (k fuel n : ℕ) → n < 10 ^ suc k → length (decimal fuel n) ≤ suc k
unfolding decimal
length-decimal-le k zero n h = omega arith
length-decimal-le zero (suc fuel) n h = let small : n < 10 = h in ground (arith, small)
length-decimal-le (suc k) (suc fuel) n h =
    let power : 10 ^ suc (suc k) ≡ 10 ^ suc k * 10 = pow-suc 10 (suc k) in
    ground (
      arith,
      power,
      length-decimal-le k fuel (n / 10) (omega (arith, power, h)),
      length-append (decimal fuel (n / 10)) ((b'0' + n % 10) ∷ []),
    )
