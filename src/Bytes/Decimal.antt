-- ===== src/Bytes/Decimal.antt =====
-- `std::to_string`: decimal text, as bytes.
use dag_blockchain.Prelude.{
  All, All-append, Bool-cases, Bytes, [], ap, append-nil, append_assoc, arith, if◌then◌else◌, inl,
  inr, le→not_ltb, ltb, lt→ltb, refl, subst, suc, sym, zero, ℕ, ◌%◌, ◌*◌, ◌++◌, ◌+◌, ◌-◌, ◌/◌, ◌<◌,
  ◌∙◌, ◌∷◌, ◌≡◌, ◌≤◌,
}
use dag_blockchain.Prelude.Int.{negsuc, pos, ℤ}

-- The digits of a number, with one round of fuel for each.
digits : ℕ → ℕ → Bytes
digits zero n = []
digits (suc fuel) n =
    let rest = digits fuel (n / 10) in
    if ltb n 10 then (48 + n) ∷ [] else rest ++ (48 + n % 10) ∷ []

unfoldable pub to_string : ℕ → Bytes
unfolding digits
to_string n = digits (suc n) n

-- `std::to_string(int)`.
unfoldable pub to_string_ℤ : ℤ → Bytes
unfolding to_string
to_string_ℤ (pos n) = to_string n
to_string_ℤ (negsuc n) = b'-' ∷ to_string (suc n)

parse_on : ℕ → Bytes → ℕ
parse_on acc [] = acc
parse_on acc (c ∷ cs) = parse_on (acc * 10 + (c - 48)) cs

parse_on-append :
    (acc : ℕ) (xs ys : Bytes) → parse_on acc (xs ++ ys) ≡ parse_on (parse_on acc xs) ys
unfolding parse_on
parse_on-append acc [] ys = refl
parse_on-append acc (x ∷ xs) ys = parse_on-append (acc * 10 + (x - 48)) xs ys

parse_on-digits : (fuel n : ℕ) → n < fuel → parse_on 0 (digits fuel n) ≡ n
unfolding digits parse_on
parse_on-digits zero n h = absurd (omega arith)
parse_on-digits (suc fuel) n h = elim (Bool-cases (ltb n 10)) [
  | inl small ↦ rw small (omega arith)
  | inr large ↦ rw large (
      rw (parse_on-append 0 (digits fuel (n / 10)) ((48 + n % 10) ∷ []))
        (rw (parse_on-digits fuel (n / 10) (ground arith)) (omega arith)))
]

-- Different numbers have different texts.
pub to_string_injective : (m n : ℕ) → to_string m ≡ to_string n → m ≡ n
unfolding to_string
to_string_injective m n h =
    sym (parse_on-digits (suc m) m (omega arith))
    ∙ ap (parse_on 0) h
    ∙ parse_on-digits (suc n) n (omega arith)

digits_fuel : (f g n : ℕ) → n < f → n < g → digits f n ≡ digits g n
unfolding digits
digits_fuel zero g n h k = absurd (omega arith)
digits_fuel (suc f) zero n h k = absurd (omega arith)
digits_fuel (suc f) (suc g) n h k = elim (Bool-cases (ltb n 10)) [
  | inl small ↦ rw small refl
  | inr large ↦ rw large (rw (digits_fuel f g (n / 10) (ground arith) (ground arith)) refl)
]

-- One more digit behind the text of a number that is not 0.
pub to_string-snoc :
    (m d : ℕ) → 0 < m → d < 10 → to_string (m * 10 + d) ≡ to_string m ++ (48 + d) ∷ []
unfolding to_string digits
to_string-snoc m d hm hd =
    let q : (m * 10 + d) / 10 ≡ m = omega arith in
    let r : (m * 10 + d) % 10 ≡ d = omega arith in
    rw
      (
        le→not_ltb (m * 10 + d) 10 (omega arith),
        q,
        r,
        digits_fuel (m * 10 + d) (suc m) m (omega arith) (omega arith),
      )
      refl

pub to_string_digit : (d : ℕ) → d < 10 → to_string d ≡ (48 + d) ∷ []
unfolding to_string digits
to_string_digit d h = rw (lt→ltb d 10 h) refl

abbrev pub IsDigit : ℕ → Type 0
IsDigit c = (48 ≤ c) × (c < 58)

digits-IsDigit : (fuel n : ℕ) → All IsDigit (digits fuel n)
unfolding digits
digits-IsDigit zero n = tt
digits-IsDigit (suc fuel) n = elim (Bool-cases (ltb n 10)) [
  | inl small ↦ rw small ((omega arith, ground arith), tt)
  | inr large ↦
      rw large
        (All-append IsDigit (digits fuel (n / 10)) _ (digits-IsDigit fuel (n / 10)) (omega arith))
]

pub to_string-IsDigit : (n : ℕ) → All IsDigit (to_string n)
unfolding to_string
to_string-IsDigit n = digits-IsDigit (suc n) n

-- The number whose text is the text of `m` and then the digits.
unfoldable pub extend : ℕ → Bytes → ℕ
unfolding parse_on
extend = parse_on

pub to_string-extend :
    (m : ℕ) (cs : Bytes) → 0 < m → All IsDigit cs → to_string (extend m cs) ≡ to_string m ++ cs
unfolding extend
to_string-extend m [] h all = sym (append-nil (to_string m))
to_string-extend m (c ∷ cs) h all =
    let e : 48 + (c - 48) ≡ c = omega arith in
    to_string-extend (m * 10 + (c - 48)) cs (omega arith) all.1
    ∙ ap (λ t. t ++ cs) (to_string-snoc m (c - 48) h (omega arith))
    ∙ append_assoc (to_string m) ((48 + (c - 48)) ∷ []) cs
    ∙ ap (λ k. to_string m ++ k ∷ cs) e

-- The sign is no digit.
pub to_string_ℤ_injective : (y z : ℤ) → to_string_ℤ y ≡ to_string_ℤ z → y ≡ z
unfolding to_string_ℤ
to_string_ℤ_injective (pos m) (pos n) h = ap pos (to_string_injective m n h)
to_string_ℤ_injective (pos m) (negsuc n) h = absurd (
    let d : All IsDigit (b'-' ∷ to_string (suc n)) = subst (All IsDigit) h (to_string-IsDigit m) in
    omega arith)
to_string_ℤ_injective (negsuc m) (pos n) h = absurd (
    let d : All IsDigit (b'-' ∷ to_string (suc m)) =
      subst (All IsDigit) (sym h) (to_string-IsDigit n) in
    omega arith)
to_string_ℤ_injective (negsuc m) (negsuc n) h =
    ap negsuc (let e : suc m ≡ suc n = to_string_injective (suc m) (suc n) (cc) in omega arith)

to_string_1764 : to_string 1764 ≡ b'1' ∷ b'7' ∷ b'6' ∷ b'4' ∷ []
unfolding to_string
to_string_1764 = refl
