-- ===== src/Prelude/Text.antt =====
-- Template strings: concatenation, and a number in decimal. A name and a number with a colon between
-- them can be read back from their text.
use Prim.Native.Nat.{ℕ, zero, suc, ◌+◌, ◌*◌, ◌-◌, ◌/◌, ◌%◌, ◌≤◌, ◌<◌}
use Prim.Native.Char.{Char, code}
use Prim.Native.String.{String}
use Prim.Native.String.append
use mathlib.Core.Path.{◌≡◌, refl, sym, ap, ◌∙◌, subst}
use mathlib.Core.Logic.{◌≢◌, inl, inr}
use mathlib.Core.List.{List, [], ◌∷◌, ◌++◌}
use native.Mathlib.Omega.{arith}
use weisley_rpc_framework.Prelude.Branch.{ltb, ◌==◌, if◌then◌else◌, Bool-cases}
pub use Prim.Native.String.{◌++◌ as ◌<>◌}

digit : ℕ → Char
digit d =
    if d == 0
    then "0"
    else if d == 1
    then "1"
    else if d == 2
    then "2"
    else if d == 3
    then "3"
    else if d == 4
    then "4"
    else if d == 5
    then "5"
    else if d == 6
    then "6"
    else if d == 7
    then "7"
    else if d == 8
    then "8"
    else "9"

-- The digits of n before those of `rest`; a number has fewer digits than n + 1.
digits : ℕ → ℕ → String → String
unfolding digit
digits zero n rest = rest
digits (suc fuel) n rest =
    let here = String.◌∷◌ (digit (n % 10)) rest in
    let more = digits fuel (n / 10) here in if ltb n 10 then here else more

-- `String(n)`
unfoldable pub decimal : ℕ → String
unfolding digits
decimal n = digits (suc n) n ""

digit_value : Char → ℕ
digit_value c = code c - 48

digit_value-digit : (d : ℕ) → d < 10 → digit_value (digit d) ≡ d
unfolding digit digit_value
digit_value-digit zero h = refl
digit_value-digit (suc zero) h = refl
digit_value-digit (suc (suc zero)) h = refl
digit_value-digit (suc (suc (suc zero))) h = refl
digit_value-digit (suc (suc (suc (suc zero)))) h = refl
digit_value-digit (suc (suc (suc (suc (suc zero))))) h = refl
digit_value-digit (suc (suc (suc (suc (suc (suc zero)))))) h = refl
digit_value-digit (suc (suc (suc (suc (suc (suc (suc zero))))))) h = refl
digit_value-digit (suc (suc (suc (suc (suc (suc (suc (suc zero)))))))) h = refl
digit_value-digit (suc (suc (suc (suc (suc (suc (suc (suc (suc zero))))))))) h = refl
digit_value-digit (suc (suc (suc (suc (suc (suc (suc (suc (suc (suc n)))))))))) h =
    let never : ⊥ = omega arith in absurd never

-- The characters of a text, and the text of them.
abbrev chars : String → List Char
chars String.[] = []
chars (String.◌∷◌ c s) = c ∷ chars s

abbrev of_chars : List Char → String
of_chars [] = String.[]
of_chars (c ∷ cs) = String.◌∷◌ c (of_chars cs)

of_chars-chars : (s : String) → of_chars (chars s) ≡ s
of_chars-chars String.[] = refl
of_chars-chars (String.◌∷◌ c s) = ap (String.◌∷◌ c) (of_chars-chars s)

chars-append : (s t : String) → chars (s <> t) ≡ chars s ++ chars t
chars-append String.[] t = ap chars (append.nil t)
chars-append (String.◌∷◌ c s) t = ap chars (append.cons c s t) ∙ ap (◌∷◌ c) (chars-append s t)

-- The number that the digits say, after the digits of m.
value : ℕ → List Char → ℕ
unfolding digit_value
value m [] = m
value m (c ∷ cs) = value (10 * m + digit_value c) cs

value-digits :
    (fuel n : ℕ) (rest : String)
    → n < fuel
    → value 0 (chars (digits fuel n rest)) ≡ value n (chars rest)
unfolding value digits
value-digits zero n rest h = let never : ⊥ = omega arith in absurd never
value-digits (suc fuel) n rest h =
    let here = String.◌∷◌ (digit (n % 10)) rest in
    let last = digit_value-digit (n % 10) (omega arith) in
    elim (Bool-cases (ltb n 10)) [
      | inl t ↦
          let small : n < 10 = ground arith in
          let whole : 10 * 0 + digit_value (digit (n % 10)) ≡ n = omega (arith, last) in
          rw (t, digits) (ap (λ m. value m (chars rest)) whole)
      | inr f ↦
          let large : 10 ≤ n = ground arith in
          let whole : 10 * (n / 10) + digit_value (digit (n % 10)) ≡ n = omega (arith, last) in
          rw (f, digits)
            (value-digits fuel (n / 10) here (omega arith) ∙ ap (λ m. value m (chars rest)) whole)
    ]

value-decimal : (n : ℕ) → value 0 (chars (decimal n)) ≡ n
unfolding decimal value
value-decimal n = value-digits (suc n) n "" (omega arith)

-- No character of a list is this one.
unfoldable Without : Char → List Char → Type 0
Without c [] = Unit {0}
Without c (d ∷ ds) = (d ≢ c) × Without c ds

digit-ne-colon : (d : ℕ) → d < 10 → digit d ≢ ":"
unfolding digit_value
digit-ne-colon d h same =
    let read : digit_value (digit d) ≡ 10 = ap digit_value same in
    omega (arith, digit_value-digit d h)

digits-Without :
    (fuel n : ℕ) (rest : String)
    → Without ":" (chars rest)
    → Without ":" (chars (digits fuel n rest))
unfolding digits Without
digits-Without zero n rest h = h
digits-Without (suc fuel) n rest h =
    let here = String.◌∷◌ (digit (n % 10)) rest in
    let free : Without ":" (chars here) = (digit-ne-colon (n % 10) (omega arith), h) in
    elim (Bool-cases (ltb n 10)) [
      | inl t ↦ rw (t, digits) free
      | inr f ↦ rw (f, digits) (digits-Without fuel (n / 10) here free)
    ]

decimal-Without : (n : ℕ) → Without ":" (chars (decimal n))
unfolding decimal Without
decimal-Without n = digits-Without (suc n) n "" tt

append-Without : (c : Char) (xs ds : List Char) → Without c (xs ++ c ∷ ds) → ⊥
unfolding Without
append-Without c [] ds (d, h) = d refl
append-Without c (x ∷ xs) ds (d, h) = append-Without c xs ds h

tail : List Char → List Char
tail [] = []
tail (c ∷ cs) = cs

-- A text splits at its last colon in one way.
split_last :
    (c : Char) (xs ys ds es : List Char)
    → Without c ds
    → Without c es
    → xs ++ c ∷ ds ≡ ys ++ c ∷ es
    → (xs ≡ ys) × (ds ≡ es)
unfolding tail
split_last c [] [] ds es h k same = (refl, ap tail same)
split_last c [] (y ∷ ys) ds es h k same =
    absurd (append-Without c ys es (subst (Without c) (ap tail same) h))
split_last c (x ∷ xs) [] ds es h k same =
    absurd (append-Without c xs ds (subst (Without c) (sym (ap tail same)) k))
split_last c (x ∷ xs) (y ∷ ys) ds es h k same =
    let (firsts, lasts) = split_last c xs ys ds es h k (ap tail same) in
    let heads : x ≡ y = cc same in (cc (heads, firsts), lasts)

chars-joined :
    (s : String) (n : ℕ) → chars (s <> ":" <> decimal n) ≡ chars s ++ ":" ∷ chars (decimal n)
chars-joined s n =
    chars-append s (":" <> decimal n) ∙ ap (◌++◌ (chars s)) (chars-append ":" (decimal n))

pub joined_inj :
    (s t : String) (m n : ℕ) → s <> ":" <> decimal m ≡ t <> ":" <> decimal n → (s ≡ t) × (m ≡ n)
joined_inj s t m n same =
    let (names, numbers) =
      split_last ":" (chars s) (chars t) (chars (decimal m)) (chars (decimal n)) (decimal-Without m)
        (decimal-Without n) (sym (chars-joined s m) ∙ ap chars same ∙ chars-joined t n) in
    (
      sym (of_chars-chars s) ∙ ap of_chars names ∙ of_chars-chars t,
      sym (value-decimal m) ∙ ap (value 0) numbers ∙ value-decimal n,
    )
