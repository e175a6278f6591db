-- ===== src/Prelude/Decimal.antt =====
-- `f"{prefix}{number}"`: the decimal digits of a number.
use Prim.Native.Nat.{ℕ, zero, suc, ◌+◌, ◌-◌, ◌*◌, ◌/◌, ◌%◌, ◌<◌}
use Prim.Native.Char.{Char, code}
use Prim.Native.String.{String, [], ◌∷◌}
use mathlib.Core.Path.{◌≡◌, refl, sym, ap, ◌∙◌}
use mathlib.Core.Logic.{inl, inr}
use native.Mathlib.Omega.{arith}
use writ_ai.Prelude.Tests.{if◌then◌else◌, ltb, Bool-cases}

-- `s + t`
abbrev pub append_text : String → String → String
append_text [] t = t
append_text (c ∷ s) t = c ∷ append_text s t

digit : ℕ → Char
digit zero = "0"
digit (suc zero) = "1"
digit (suc (suc zero)) = "2"
digit (suc (suc (suc zero))) = "3"
digit (suc (suc (suc (suc zero)))) = "4"
digit (suc (suc (suc (suc (suc zero))))) = "5"
digit (suc (suc (suc (suc (suc (suc zero)))))) = "6"
digit (suc (suc (suc (suc (suc (suc (suc zero))))))) = "7"
digit (suc (suc (suc (suc (suc (suc (suc (suc zero)))))))) = "8"
digit _ = "9"

-- Digits in front of what is printed already, one round for each digit.
print_from : ℕ → ℕ → String → String
print_from zero n rest = rest
print_from (suc fuel) n rest =
    let now = digit (n % 10) ∷ rest in
    let more = print_from fuel (n / 10) now in if ltb n 10 then now else more

-- `str(n)`; a number has no more than `n + 1` digits.
unfoldable pub decimal : ℕ → String
unfolding print_from digit
decimal n = print_from (suc n) n []

-- Reads digits back, behind a number that was read already.
read : ℕ → String → ℕ
read acc [] = acc
read acc (c ∷ s) = read (acc * 10 + (code c - 48)) s

code-digit : (n : ℕ) → n < 10 → code (digit n) ≡ 48 + n
unfolding digit
code-digit zero h = refl
code-digit (suc zero) h = refl
code-digit (suc (suc zero)) h = refl
code-digit (suc (suc (suc zero))) h = refl
code-digit (suc (suc (suc (suc zero)))) h = refl
code-digit (suc (suc (suc (suc (suc zero))))) h = refl
code-digit (suc (suc (suc (suc (suc (suc zero)))))) h = refl
code-digit (suc (suc (suc (suc (suc (suc (suc zero))))))) h = refl
code-digit (suc (suc (suc (suc (suc (suc (suc (suc zero)))))))) h = refl
code-digit (suc (suc (suc (suc (suc (suc (suc (suc (suc zero))))))))) h = refl
code-digit (suc (suc (suc (suc (suc (suc (suc (suc (suc (suc n)))))))))) h = absurd (omega arith)

read-digit :
    (acc n : ℕ) (rest : String) → read acc (digit (n % 10) ∷ rest) ≡ read (acc * 10 + n % 10) rest
unfolding read
read-digit acc n rest =
    ap (λ (k : ℕ). read k rest) (omega (arith, code-digit (n % 10) (omega arith)))

read-print_from :
    (fuel n : ℕ) (rest : String) → n < fuel → read 0 (print_from fuel n rest) ≡ read n rest
unfolding print_from
read-print_from zero n rest h = absurd (omega arith)
read-print_from (suc fuel) n rest h = elim (Bool-cases (ltb n 10)) [
  | inl last ↦ rw last (read-digit 0 n rest ∙ ap (λ (k : ℕ). read k rest) (ground arith))
  | inr more ↦ rw more (
      read-print_from fuel (n / 10) (digit (n % 10) ∷ rest) (ground arith)
      ∙ (read-digit (n / 10) n rest ∙ ap (λ (k : ℕ). read k rest) (omega arith)))
]

read-decimal : (n : ℕ) → read 0 (decimal n) ≡ n
unfolding decimal
read-decimal n = read-print_from (suc n) n [] (omega arith) ∙ unfold read in refl

-- Different numbers print differently.
pub decimal-injective : (m n : ℕ) → decimal m ≡ decimal n → m ≡ n
decimal-injective m n h = sym (read-decimal m) ∙ (ap (read 0) h ∙ read-decimal n)

tail : String → String
tail [] = []
tail (c ∷ s) = s

pub append_text-cancel : (p s t : String) → append_text p s ≡ append_text p t → s ≡ t
unfolding tail
append_text-cancel [] s t h = h
append_text-cancel (c ∷ p) s t h = append_text-cancel p s t (ap tail h)
