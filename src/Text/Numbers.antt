-- ===== src/Text/Numbers.antt =====
-- A number that is printed is read back.
use rustorr.Base.{
  ℕ, zero, suc, ◌+◌, ◌-◌, ◌*◌, ◌/◌, ◌%◌, ◌<◌, ◌≡◌, refl, sym, ap, ◌∙◌, subst, true, none, some, [],
  ◌∷◌, ◌++◌, ltb, if◌then◌else◌, arith, u64_mod, All, Bool-cases, inl, inr,
}
use rustorr.Text.{Text, is_digit, parse_digits, parse_u64, decimal, to_string}

-- The value of a text of digits, behind digits of value `v`.
digits_value : ℕ → Text → ℕ
digits_value v [] = v
digits_value v (c ∷ cs) = digits_value (v * 10 + (c - b'0')) cs

abbrev pub AreDigits : Text → Type 0
AreDigits s = All (λ c. is_digit c ≡ true) s

parse_digits-AreDigits :
    (bound v : ℕ) (s : Text)
    → AreDigits s
    → parse_digits bound v s
      ≡ (if ltb (digits_value v s) bound then some (digits_value v s) else none)
unfolding parse_digits digits_value
parse_digits-AreDigits bound v [] d = refl
parse_digits-AreDigits bound v (c ∷ cs) d =
    rw d.0 (parse_digits-AreDigits bound (v * 10 + (c - b'0')) cs d.1)

digits_value-append :
    (v c : ℕ) (s : Text) → digits_value v (s ++ c ∷ []) ≡ digits_value v s * 10 + (c - b'0')
unfolding digits_value
digits_value-append v c [] = refl
digits_value-append v c (d ∷ ds) = digits_value-append (v * 10 + (d - b'0')) c ds

AreDigits-append : (s : Text) (c : ℕ) → AreDigits s → is_digit c ≡ true → AreDigits (s ++ c ∷ [])
AreDigits-append [] c d h = (h, tt)
AreDigits-append (x ∷ xs) c d h = (d.0, AreDigits-append xs c d.1 h)

-- `k` digits hold the number.
abbrev Fits : ℕ → ℕ → Type 0
Fits zero n = n < 1
Fits (suc k) n = Fits k (n / 10)

decimal_digit : (n : ℕ) → is_digit (b'0' + n % 10) ≡ true
unfolding is_digit
decimal_digit n = ground arith

decimal-AreDigits : (k n : ℕ) → AreDigits (decimal k n)
unfolding decimal
decimal-AreDigits zero n = tt
decimal-AreDigits (suc k) n = elim (Bool-cases (ltb n 10)) [
  | inl e ↦ rw e (decimal_digit n, tt)
  | inr e ↦ rw e (
      AreDigits-append (decimal k (n / 10)) (b'0' + n % 10) (decimal-AreDigits k (n / 10))
        (decimal_digit n))
]

value-decimal : (k n : ℕ) → Fits k n → digits_value 0 (decimal k n) ≡ n
unfolding decimal
value-decimal zero n h = unfold digits_value in omega arith
value-decimal (suc k) n h = elim (Bool-cases (ltb n 10)) [
  | inl e ↦ rw e (unfold digits_value in ground (arith, e))
  | inr e ↦ rw e (
      omega (
        arith,
        digits_value-append 0 (b'0' + n % 10) (decimal k (n / 10)),
        value-decimal k (n / 10) h,
      ))
]

pub to_string-AreDigits : (n : ℕ) → AreDigits (to_string n)
unfolding to_string
to_string-AreDigits n = decimal-AreDigits 20 n

append_filled : (s : Text) (d : ℕ) → (c : ℕ) × (cs : Text) × (s ++ d ∷ [] ≡ c ∷ cs)
append_filled [] d = (d, [], refl)
append_filled (c ∷ cs) d = (c, cs ++ d ∷ [], refl)

pub to_string_filled : (n : ℕ) → (c : ℕ) × (cs : Text) × (to_string n ≡ c ∷ cs)
unfolding to_string decimal
to_string_filled n = append_filled _ _

parse_u64-AreDigits :
    (c : ℕ) (cs : Text) → AreDigits (c ∷ cs) → parse_u64 (c ∷ cs) ≡ parse_digits u64_mod 0 (c ∷ cs)
unfolding parse_u64 is_digit
parse_u64-AreDigits c [] d = ground (arith, d.0)
parse_u64-AreDigits c (e ∷ cs) d = ground (arith, d.0)

-- Printing a `u64` and parsing the text gives the number back.
pub parse_u64-to_string : (n : ℕ) → n < u64_mod → parse_u64 (to_string n) ≡ some n
parse_u64-to_string n h =
    let (c, cs, e) = to_string_filled n in
    let digits : AreDigits (c ∷ cs) = subst (λ s. AreDigits s) e (to_string-AreDigits n) in
    let value : digits_value 0 (c ∷ cs) ≡ n =
      ap (digits_value 0) (sym e) ∙ unfold to_string in value-decimal 20 n (omega arith) in
    rw e (
      parse_u64-AreDigits c cs digits
      ∙ parse_digits-AreDigits u64_mod 0 (c ∷ cs) digits
      ∙ ground (arith, value))

pub to_string_injective : (m n : ℕ) → m < u64_mod → n < u64_mod → to_string m ≡ to_string n → m ≡ n
to_string_injective m n h k e = ground (arith, parse_u64-to_string m h, parse_u64-to_string n k, e)
