-- ===== src/Common/Text/Decimal.antt =====
-- Reading the digits of a number back (Go's `%d`).
use Prim.Native.Nat.{ℕ, zero, suc, ◌+◌, ◌*◌, ◌-◌, ◌/◌, ◌%◌, ◌<◌, ◌≤◌}
use Prim.Native.Char.{code}
use Prim.Native.String.{String, ◌++◌}
use mathlib.Core.Path.{◌≡◌, sym, ap, ◌∙◌}
use native.Mathlib.Omega.{arith}
use text.Mathlib.TextLemmas.{cons-append, nil-append}
use crobe.Common.Tests.{ltb, if-elim}
use crobe.Common.Text.{decimal, digit, itoa}

-- The number that a text of digits stands for, after the digits of `n`.
abbrev pub read : ℕ → String → ℕ
read n String.[] = n
read n (String.◌∷◌ c s) = read (n * 10 + (code c - 48)) s

read-append : (n : ℕ) (s t : String) → read n (s ++ t) ≡ read (read n s) t
read-append n String.[] t = ap (read n) (nil-append t)
read-append n (String.◌∷◌ c s) t =
    ap (read n) (cons-append c s t) ∙ read-append (n * 10 + (code c - 48)) s t

read-digit : (n d : ℕ) → d < 10 → read n (digit d) ≡ n * 10 + d
unfolding digit
read-digit n zero h = omega arith
read-digit n (suc zero) h = omega arith
read-digit n (suc (suc zero)) h = omega arith
read-digit n (suc (suc (suc zero))) h = omega arith
read-digit n (suc (suc (suc (suc zero)))) h = omega arith
read-digit n (suc (suc (suc (suc (suc zero))))) h = omega arith
read-digit n (suc (suc (suc (suc (suc (suc zero)))))) h = omega arith
read-digit n (suc (suc (suc (suc (suc (suc (suc zero))))))) h = omega arith
read-digit n (suc (suc (suc (suc (suc (suc (suc (suc zero)))))))) h = omega arith
read-digit n (suc (suc (suc (suc (suc (suc (suc (suc (suc zero))))))))) h = omega arith
read-digit n (suc (suc (suc (suc (suc (suc (suc (suc (suc (suc d)))))))))) h = absurd (omega arith)

-- With enough fuel, the digits of a number are read back as the number.
read-decimal : (fuel n : ℕ) → n < fuel → read 0 (decimal fuel n) ≡ n
unfolding decimal
read-decimal zero n h = absurd (omega arith)
read-decimal (suc fuel) n h =
    if-elim (λ s. read 0 s ≡ n) (ltb n 10) (digit n) (decimal fuel (n / 10) ++ digit (n % 10))
      (λ e. let small : n < 10 = ground arith in omega (arith, read-digit 0 n small))
      (λ e.
        let large : 10 ≤ n = ground arith in
        let front = read-decimal fuel (n / 10) (omega arith) in
        let last = read-digit (n / 10) (n % 10) (omega arith) in
        read-append 0 (decimal fuel (n / 10)) (digit (n % 10))
        ∙ ap (λ k. read k (digit (n % 10))) front
        ∙ omega (arith, last))

pub read-itoa : (n : ℕ) → read 0 (itoa n) ≡ n
unfolding itoa
read-itoa n = read-decimal (suc n) n (omega arith)

-- Two numbers with the same digits are the same.
pub itoa-injective : (m n : ℕ) → itoa m ≡ itoa n → m ≡ n
itoa-injective m n e = sym (read-itoa m) ∙ ap (read 0) e ∙ read-itoa n
