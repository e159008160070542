-- ===== src/Table/Numbers.antt =====
-- src/output/table.rs:26-36: the numbers with their commas.
use mathlib.Core.List.{append-nil}
use orbshred.Prelude.{
  ℕ, suc, ◌%◌, ◌<◌, ◌≡◌, refl, ap, sym, subst, ◌∙◌, List, [], ◌∷◌, ◌++◌, length, ◌==◌,
  if◌then◌else◌, arith, All, Bool-cases, inl, inr,
}
use orbshred.Prelude.Decimal.{
  IsDigit, reversed_decimal, last_digits-value, backwards, digits_value, digits_value-backwards,
}
use orbshred.Table.{comma, with_commas, num_fmt}

unfoldable pub without_commas : List ℕ → List ℕ
without_commas [] = []
without_commas (c ∷ cs) = if c == comma then without_commas cs else c ∷ without_commas cs

-- The number that a text with commas stands for.
unfoldable pub read_number : List ℕ → ℕ
unfolding without_commas digits_value
read_number cs = digits_value 0 (without_commas cs)

-- From the last character on: groups of three digits with commas between them.
abbrev pub Grouped : List ℕ → Type 0
Grouped [] = Unit {0}
Grouped (a ∷ []) = IsDigit a
Grouped (a ∷ b ∷ []) = IsDigit a × IsDigit b
Grouped (a ∷ b ∷ c ∷ []) = IsDigit a × IsDigit b × IsDigit c
Grouped (a ∷ b ∷ c ∷ d ∷ cs) =
    IsDigit a × IsDigit b × IsDigit c × (d ≡ comma) × (0 < length cs) × Grouped cs

without_commas-append :
    (xs ys : List ℕ) → without_commas (xs ++ ys) ≡ without_commas xs ++ without_commas ys
unfolding without_commas
without_commas-append [] ys = refl
without_commas-append (x ∷ xs) ys = ground (arith, without_commas-append xs ys)

without_commas-backwards :
    (cs : List ℕ) → without_commas (backwards cs) ≡ backwards (without_commas cs)
unfolding backwards without_commas
without_commas-backwards [] = refl
without_commas-backwards (c ∷ cs) =
    without_commas-append (backwards cs) (c ∷ []) ∙ (elim (Bool-cases (c == comma)) [
      | inl hit ↦ rw hit (append-nil (without_commas (backwards cs)) ∙ without_commas-backwards cs)
      | inr miss ↦ rw miss (ap (λ ds. ds ++ (c ∷ [])) (without_commas-backwards cs))
    ])

without_commas-with_commas :
    (i : ℕ) (cs : List ℕ) → All IsDigit cs → without_commas (with_commas i cs) ≡ cs
unfolding without_commas with_commas
without_commas-with_commas i [] h = refl
without_commas-with_commas i (c ∷ cs) h =
    ground (arith, h.0, without_commas-with_commas (suc i) cs h.1)

-- Past the first digit only the position modulo 3 counts.
with_commas_period :
    (i j : ℕ) (cs : List ℕ) → 0 < i → 0 < j → i % 3 ≡ j % 3 → with_commas i cs ≡ with_commas j cs
unfolding with_commas
with_commas_period i j [] p q e = refl
with_commas_period i j (c ∷ cs) p q e =
    ground (arith, with_commas_period (suc i) (suc j) cs (omega arith) (omega arith) (omega arith))

with_commas_next : (c : ℕ) (cs : List ℕ) → with_commas 3 (c ∷ cs) ≡ comma ∷ with_commas 0 (c ∷ cs)
unfolding with_commas
with_commas_next c cs =
    ap (λ ds. comma ∷ c ∷ ds) (with_commas_period 4 1 cs (omega arith) (omega arith) (omega arith))

with_commas-Grouped : (cs : List ℕ) → All IsDigit cs → Grouped (with_commas 0 cs)
unfolding with_commas
with_commas-Grouped [] h = tt
with_commas-Grouped (a ∷ []) h = h.0
with_commas-Grouped (a ∷ b ∷ []) h = (h.0, h.1.0)
with_commas-Grouped (a ∷ b ∷ c ∷ []) h = (h.0, h.1.0, h.1.1.0)
with_commas-Grouped (a ∷ b ∷ c ∷ d ∷ cs) h =
    let rest = with_commas-Grouped (d ∷ cs) h.1.1.1 in
    subst (λ ds. Grouped (a ∷ b ∷ c ∷ ds)) (sym (with_commas_next d cs))
      (h.0, h.1.0, h.1.1.0, refl, omega arith, rest)

-- A number with its commas reads back as the number, and from the last character on it is groups of
-- three digits with commas between them, with neither a comma at an end nor a missing one.
pub read_number-num_fmt :
    (n : ℕ)
    → (read_number (num_fmt n) ≡ n) × (text : List ℕ) × (num_fmt n ≡ backwards text) × Grouped text
unfolding read_number num_fmt reversed_decimal
read_number-num_fmt n =
    let (value, digits) = last_digits-value (suc n) n (omega arith) in
    let ds = reversed_decimal n in
    (
      ap (digits_value 0) (
            without_commas-backwards (with_commas 0 ds)
            ∙ ap backwards (without_commas-with_commas 0 ds digits))
          ∙ digits_value-backwards ds
          ∙ value,
      with_commas 0 ds,
      refl,
      with_commas-Grouped ds digits,
    )
