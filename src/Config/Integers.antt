-- ===== src/Config/Integers.antt =====
-- An integer printed in decimal is read back.
use k8s_vectordb_sync.Base.{
  ℕ, zero, suc, ◌+◌, ◌-◌, ◌*◌, ◌/◌, ◌%◌, ◌^◌, ◌≤◌, ◌<◌, ◌≡◌, refl, sym, ◌∙◌, ap, false, some, [],
  ◌∷◌, arith, ltb, ◌==◌, lt→ltb, le→leb, Bool-cases, inl, inr,
}
use k8s_vectordb_sync.Base.Int.{ℤ, pos}
use k8s_vectordb_sync.Text.{Text}
use k8s_vectordb_sync.Text.Decimal.{digits, decimal, decimal-StartsWithDigit}
use k8s_vectordb_sync.Config.{Env, digits_value, unsigned, atoi, env_int_or_default}

digit_read :
    (acc c : ℕ) (s : Text)
    → b'0' ≤ c
    → c ≤ b'9'
    → digits_value acc (c ∷ s) ≡ digits_value (10 * acc + (c - b'0')) s
unfolding digits_value
digit_read acc c s l h = ground (arith, le→leb b'0' c l, le→leb c b'9' h)

digits_value-digits :
    (fuel n : ℕ) (out : Text) → n ≤ fuel → digits_value 0 (digits fuel n out) ≡ digits_value n out
unfolding digits
digits_value-digits zero n out h = ap (λ k. digits_value k out) (omega arith)
digits_value-digits (suc fuel) n out h = elim (Bool-cases (ltb 0 n)) [
  | inl e ↦
      rw (e, digits)
        (digits_value-digits fuel (n / 10) _ (ground arith)
          ∙ digit_read (n / 10) (b'0' + n % 10) out (omega arith) (omega arith)
          ∙ ap (λ k. digits_value k out) (omega arith))
  | inr e ↦ rw (e, digits) (ap (λ k. digits_value k out) (ground arith))
]

digits_value-decimal : (n : ℕ) → digits_value 0 (decimal n) ≡ some n
unfolding decimal digits_value
digits_value-decimal n = elim (Bool-cases (n == 0)) [
  | inl e ↦ rw (e, decimal) (ground arith)
  | inr e ↦ rw (e, decimal) (digits_value-digits n n [] (omega arith))
]

atoi-digit :
    (c : ℕ) (s : Text) (n : ℕ)
    → b'0' ≤ c
    → c ≤ b'9'
    → digits_value 0 (c ∷ s) ≡ some n
    → n < 2 ^ 63
    → atoi (c ∷ s) ≡ some (pos n)
unfolding atoi unsigned
atoi-digit c s n l h v b =
    let not_minus : (c == b'-') ≡ false = ground arith in
    let not_plus : (c == b'+') ≡ false = ground arith in
    rw (not_minus, not_plus, atoi) (rw v (rw (lt→ltb n (2 ^ 63) b) refl))

-- A variable that holds a number below 2 ^ 63 in decimal is read as that number.
pub env_int-decimal :
    (env : Env) (key : Text) (default_val : ℤ) (n : ℕ)
    → env key ≡ decimal n
    → n < 2 ^ 63
    → env_int_or_default env key default_val ≡ pos n
unfolding env_int_or_default
env_int-decimal env key default_val n e b =
    let (c, s, starts, l, h) = decimal-StartsWithDigit n in
    let held : env key ≡ c ∷ s = e ∙ starts in
    let read = atoi-digit c s n l h (ap (digits_value 0) (sym starts) ∙ digits_value-decimal n) b in
    rw (held, env_int_or_default) (rw read refl)
