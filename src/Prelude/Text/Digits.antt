-- ===== src/Prelude/Text/Digits.antt =====
-- The decimal digits that %d writes, read one by one.
use Prim.Native.Nat.{ℕ, zero, suc, ◌+◌, ◌*◌, ◌/◌, ◌%◌, ◌<◌, ◌≤◌}
use Prim.Native.Char.{Char, code}
use Prim.Native.String.{String, ◌++◌ as ◌<>◌}
use mathlib.Core.Path.{◌≡◌, refl, ap, ◌∙◌}
use mathlib.Core.Logic.{inl, inr}
use text.Mathlib.TextLemmas.{nil-append, cons-append}
use native.Mathlib.Omega.{arith}
use k8boss_operator.Prelude.Tests.{ltb, Bool-cases}
use k8boss_operator.Prelude.Int.{pos}
use k8boss_operator.Prelude.Text.{digit, show_from, show_ℕ, show_ℤ}

-- A text with a digit in front
abbrev pub IsDigitBefore : ℕ → String → String → Type 0
IsDigitBefore k s t = (c : Char) × (t ≡ String.◌∷◌ c s) × (code c ≡ 48 + k)

one_char : (c : Char) (s : String) → (String.◌∷◌ c String.[]) <> s ≡ String.◌∷◌ c s
one_char c s = cons-append c String.[] s ∙ ap (λ t. String.◌∷◌ c t) (nil-append s)

digit-IsDigitBefore : (k : ℕ) → k < 10 → (s : String) → IsDigitBefore k s (digit k <> s)
unfolding digit
digit-IsDigitBefore zero h s = ("0", one_char "0" s, refl)
digit-IsDigitBefore (suc zero) h s = ("1", one_char "1" s, refl)
digit-IsDigitBefore (suc (suc zero)) h s = ("2", one_char "2" s, refl)
digit-IsDigitBefore (suc (suc (suc zero))) h s = ("3", one_char "3" s, refl)
digit-IsDigitBefore (suc (suc (suc (suc zero)))) h s = ("4", one_char "4" s, refl)
digit-IsDigitBefore (suc (suc (suc (suc (suc zero))))) h s = ("5", one_char "5" s, refl)
digit-IsDigitBefore (suc (suc (suc (suc (suc (suc zero)))))) h s = ("6", one_char "6" s, refl)
digit-IsDigitBefore (suc (suc (suc (suc (suc (suc (suc zero))))))) h s = ("7", one_char "7" s, refl)
digit-IsDigitBefore (suc (suc (suc (suc (suc (suc (suc (suc zero)))))))) h s =
    ("8", one_char "8" s, refl)
digit-IsDigitBefore (suc (suc (suc (suc (suc (suc (suc (suc (suc zero))))))))) h s =
    ("9", one_char "9" s, refl)
digit-IsDigitBefore (suc (suc (suc (suc (suc (suc (suc (suc (suc (suc k)))))))))) h s =
    absurd (omega (arith, h))

module _ {A : Type 0} (read : ℕ → String → A)
    (on_digit : (acc k : ℕ) (c : Char) (s : String)
      → k < 10
      → code c ≡ 48 + k
      → read acc (String.◌∷◌ c s) ≡ read (acc * 10 + k) s) where
  read-digit : (acc k : ℕ) (s : String) → k < 10 → read acc (digit k <> s) ≡ read (acc * 10 + k) s
  read-digit acc k s h =
      let (c, front, is_k) = digit-IsDigitBefore k h s in rw front (on_digit acc k c s h is_k)

  read-show_from : (fuel n : ℕ) (s : String) → n < fuel → read 0 (show_from fuel n s) ≡ read n s
  unfolding show_from
  read-show_from zero n s h = absurd (omega (arith, h))
  read-show_from (suc fuel) n s h = elim (Bool-cases (ltb n 10)) [
    | inl small ↦
        let below : n < 10 = ground (arith, small) in ground (arith, small, read-digit 0 n s below)
    | inr large ↦
        let above : 10 ≤ n = ground (arith, large) in
        let first = read-show_from fuel (n / 10) (digit (n % 10) <> s) (omega (arith, above, h)) in
        let next = read-digit (n / 10) (n % 10) s (omega arith) in
        let whole : n / 10 * 10 + n % 10 ≡ n = omega arith in
        ground (arith, large, first, next, whole)
  ]

  pub read-show_ℤ : (n : ℕ) → read 0 (show_ℤ (pos n)) ≡ read n ""
  unfolding show_ℤ show_ℕ
  read-show_ℤ n = read-show_from (suc n) n "" (omega arith)

show_from-IsDigitBefore :
    (fuel n : ℕ) (s : String)
    → n < fuel
    → (k : ℕ) × (t : String) × (k < 10) × IsDigitBefore k t (show_from fuel n s)
unfolding show_from
show_from-IsDigitBefore zero n s h = absurd (omega (arith, h))
show_from-IsDigitBefore (suc fuel) n s h = elim (Bool-cases (ltb n 10)) [
  | inl small ↦
      let below : n < 10 = ground (arith, small) in
      let (c, front, is_n) = digit-IsDigitBefore n below s in
      (n, s, below, (c, ground (arith, small, front), is_n))
  | inr large ↦
      let above : 10 ≤ n = ground (arith, large) in
      let (k, t, below, (c, front, is_k)) =
        show_from-IsDigitBefore fuel (n / 10) (digit (n % 10) <> s) (omega (arith, above, h)) in
      (k, t, below, (c, ground (arith, large, front), is_k))
]

-- The text begins with a digit.
pub show_ℤ-IsDigitBefore :
    (n : ℕ) → (k : ℕ) × (t : String) × (k < 10) × IsDigitBefore k t (show_ℤ (pos n))
unfolding show_ℤ show_ℕ
show_ℤ-IsDigitBefore n = show_from-IsDigitBefore (suc n) n "" (omega arith)
