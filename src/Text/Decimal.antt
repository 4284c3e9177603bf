-- ===== src/Text/Decimal.antt =====
-- Natural numbers in decimal, as `%d` prints them.
use k8s_vectordb_sync.Base.{
  ℕ, zero, suc, ◌+◌, ◌/◌, ◌%◌, ◌≤◌, ◌≡◌, refl, true, false, [], ◌∷◌, arith, ltb, lt→ltb, ◌==◌,
  if◌then◌else◌, Bool-cases, inl, inr,
}
use k8s_vectordb_sync.Text.{Text}

-- The digits of `n` in front of `out`; as fuel, `n` is enough.
unfoldable pub digits : ℕ → ℕ → Text → Text
digits zero n out = out
digits (suc fuel) n out = elim (ltb 0 n) [
  | true ↦ digits fuel (n / 10) ((b'0' + n % 10) ∷ out)
  | false ↦ out
]

unfoldable pub decimal : ℕ → Text
unfolding digits
decimal n = if n == 0 then b'0' ∷ [] else digits n n []

decimal_of_120 : decimal 120 ≡ b'1' ∷ b'2' ∷ b'0' ∷ []
unfolding decimal
decimal_of_120 = refl

-- The text starts with a digit.
abbrev pub StartsWithDigit : Text → Type 0
StartsWithDigit s = (c : ℕ) × (t : Text) × (s ≡ c ∷ t) × (b'0' ≤ c) × (c ≤ b'9')

digits-StartsWithDigit :
    (fuel n : ℕ) (out : Text) → StartsWithDigit out → StartsWithDigit (digits fuel n out)
unfolding digits
digits-StartsWithDigit zero n out h = h
digits-StartsWithDigit (suc fuel) n out h = elim (Bool-cases (ltb 0 n)) [
  | inl e ↦
      rw (e, digits)
        (digits-StartsWithDigit fuel (n / 10) _
          (b'0' + n % 10, out, refl, omega arith, omega arith))
  | inr e ↦ rw (e, digits) h
]

nonzero-StartsWithDigit : (n : ℕ) → 1 ≤ n → StartsWithDigit (digits n n [])
unfolding digits
nonzero-StartsWithDigit zero h = absurd (omega arith)
nonzero-StartsWithDigit (suc n) h =
    rw (lt→ltb 0 (suc n) (omega arith), digits)
      (digits-StartsWithDigit n (suc n / 10) _
        (b'0' + suc n % 10, [], refl, omega arith, omega arith))

pub decimal-StartsWithDigit : (n : ℕ) → StartsWithDigit (decimal n)
unfolding decimal
decimal-StartsWithDigit n = elim (Bool-cases (n == 0)) [
  | inl e ↦ rw (e, decimal) (b'0', [], refl, omega arith, omega arith)
  | inr e ↦ rw (e, decimal) (nonzero-StartsWithDigit n (ground arith))
]
