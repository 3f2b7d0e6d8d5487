-- ===== src/Common/Decimals.antt =====
-- Decimal texts: std::stoi reads what std::to_string prints.
use Prim.Native.Char.{Char, code}
use Prim.Native.String.{String, [], ◌∷◌, ◌++◌}
use text.Mathlib.TextLemmas.{cons-append, nil-append}
use mathlib.Core.Bool.{Bool, true, false, ◌&&◌, ◌||◌}
use mathlib.Core.Path.{◌≡◌, refl, ap, ◌∙◌, sym, subst}
use mathlib.Core.Logic.{inl, inr}
use mathlib.Core.Option.{Option, none, some}
use Prim.Native.Nat.{ℕ, zero, suc, ◌+◌, ◌-◌, ◌*◌, ◌/◌, ◌%◌, ◌<◌}
use native.Mathlib.Omega.{arith}
use r2dtu_attention.Common.Tests.{ltb, lt→ltb, if◌then◌else◌, ◌==◌, Bool-cases}
use r2dtu_attention.Common.Texts.{digit, digits, to_string, c_str, ◌<>◌}

abbrev pub is_digit : Char → Bool
is_digit c = ltb 47 (code c) && ltb (code c) 58

abbrev is_space : Char → Bool
is_space c = code c == 32 || (ltb 8 (code c) && ltb (code c) 14)

-- The value of the digits that the text begins with, after `value`.
unfoldable pub leading : ℕ → String → ℕ
leading value [] = value
leading value (c ∷ s) =
    let rest = leading (value * 10 + (code c - 48)) s in if is_digit c then rest else value

-- The digits, of which one must be there; a value that an int cannot hold is out of range.
unfoldable pub magnitude : Bool → String → Option (Bool × ℕ)
unfolding leading
magnitude negative [] = none
magnitude negative (c ∷ s) =
    let value = leading 0 (c ∷ s) in
    if is_digit c && ltb value (if negative then 2147483649 else 2147483648)
    then some (negative, value)
    else none

-- The sign and the magnitude; `none` is invalid_argument or out_of_range.
unfoldable pub stoi : String → Option (Bool × ℕ)
unfolding magnitude
stoi [] = none
stoi (c ∷ s) =
    let rest = stoi s in
    if is_space c
    then rest
    else if code c == 45
    then magnitude true s
    else if code c == 43
    then magnitude false s
    else magnitude false (c ∷ s)

AllDigits : String → Type 0
AllDigits [] = Unit
AllDigits (c ∷ s) = (is_digit c ≡ true) × AllDigits s

-- The character of a digit.
abbrev IsDigitChar : ℕ → Char → Type 0
IsDigitChar d c = (digit d ≡ c ∷ []) × (code c ≡ 48 + d)

digit_char : (d : ℕ) → d < 10 → (c : Char) × IsDigitChar d c
digit_char zero h = (_, (refl, refl))
digit_char (suc zero) h = (_, (refl, refl))
digit_char (suc (suc zero)) h = (_, (refl, refl))
digit_char (suc (suc (suc zero))) h = (_, (refl, refl))
digit_char (suc (suc (suc (suc zero)))) h = (_, (refl, refl))
digit_char (suc (suc (suc (suc (suc zero))))) h = (_, (refl, refl))
digit_char (suc (suc (suc (suc (suc (suc zero)))))) h = (_, (refl, refl))
digit_char (suc (suc (suc (suc (suc (suc (suc zero))))))) h = (_, (refl, refl))
digit_char (suc (suc (suc (suc (suc (suc (suc (suc zero)))))))) h = (_, (refl, refl))
digit_char (suc (suc (suc (suc (suc (suc (suc (suc (suc zero))))))))) h = (_, (refl, refl))
digit_char (suc (suc (suc (suc (suc (suc (suc (suc (suc (suc d)))))))))) h = absurd (omega arith)

-- One more digit at the end.
AllDigits-append :
    (s : String) (c : Char) → AllDigits s → is_digit c ≡ true → AllDigits (s ++ (c ∷ []))
unfolding AllDigits
AllDigits-append [] c h d = rw nil-append (d, tt)
AllDigits-append (x ∷ s) c h d = rw (cons-append x s (c ∷ [])) (h.0, AllDigits-append s c h.1 d)

leading-append :
    (v : ℕ) (s : String) (c : Char)
    → AllDigits s
    → is_digit c ≡ true
    → leading v (s ++ (c ∷ [])) ≡ leading v s * 10 + (code c - 48)
unfolding AllDigits leading
leading-append v [] c h d = rw nil-append (rw d)
leading-append v (x ∷ s) c h d =
    rw (cons-append x s (c ∷ [])) (rw h.0 (leading-append (v * 10 + (code x - 48)) s c h.1 d))

-- The decimal digits of n: they are digits, at least one, and their value is n.
record Prints (s : String) (n : ℕ) : Type 0 where
  all : AllDigits s
  value : leading 0 s ≡ n
  first : Char
  others : String
  shape : s ≡ first ∷ others

Prints-digit : (d : ℕ) → d < 10 → Prints (digit d) d
unfolding AllDigits leading
Prints-digit d h =
    let (c, (e, k)) = digit_char d h in
    let q : is_digit c ≡ true = ground arith in
    rw e
      (record { all = (q, tt); value = rw q (omega arith); first = c; others = []; shape = refl })

Prints-snoc : (s : String) (n d : ℕ) → d < 10 → Prints s n → Prints (s <> digit d) (n * 10 + d)
Prints-snoc s n d h p =
    let (c, (e, k)) = digit_char d h in
    let q : is_digit c ≡ true = ground arith in
    rw e (record {
      all = AllDigits-append s c p.all q;
      value = leading-append 0 s c p.all q ∙ omega (arith, p.value);
      first = p.first;
      others = p.others ++ (c ∷ []);
      shape = ap (λ t. t ++ (c ∷ [])) p.shape ∙ cons-append p.first p.others (c ∷ []);
    })

Prints-digits : (fuel n : ℕ) → n < fuel → Prints (digits fuel n) n
unfolding digits
Prints-digits zero n h = elim h [ ]
Prints-digits (suc fuel) n h = elim (Bool-cases (ltb n 10)) [
  | inl y ↦ rw y (Prints-digit n (ground arith))
  | inr m ↦
      let e : n / 10 * 10 + n % 10 ≡ n = omega arith in
      let more : n / 10 < fuel = ground arith in
      rw m (
        subst (λ k. Prints (digits fuel (n / 10) <> digit (n % 10)) k) e
          (Prints-snoc (digits fuel (n / 10)) (n / 10) (n % 10) (omega arith)
            (Prints-digits fuel (n / 10) more)))
]

c_str-digits : (s : String) → AllDigits s → c_str s ≡ s
unfolding AllDigits c_str
c_str-digits [] h = refl
c_str-digits (c ∷ s) h =
    let nz : ltb 0 (code c) ≡ true = ground (arith, h.0) in
    rw nz (ap (λ t. c ∷ t) (c_str-digits s h.1))

pub c_str-to_string : (n : ℕ) → c_str (to_string n) ≡ to_string n
unfolding to_string
c_str-to_string n = c_str-digits (digits (suc n) n) (Prints-digits (suc n) n (omega arith)).all

stoi_digits :
    (c : Char) (s : String) (n : ℕ)
    → is_digit c ≡ true
    → leading 0 (c ∷ s) ≡ n
    → n < 2147483648
    → stoi (c ∷ s) ≡ some (false, n)
unfolding stoi
stoi_digits c s n a v h =
    let sp : is_space c ≡ false = ground arith in
    let minus : (code c == 45) ≡ false = ground arith in
    let plus : (code c == 43) ≡ false = ground arith in
    let small = lt→ltb n 2147483648 h in let v' = rw a at v in rw (sp, minus, plus, a, v', small)

-- What std::to_string prints of an int that is not negative, std::stoi reads as that int.
pub stoi-to_string : (n : ℕ) → n < 2147483648 → stoi (to_string n) ≡ some (false, n)
unfolding to_string AllDigits
stoi-to_string n h =
    let p = Prints-digits (suc n) n (omega arith) in
    ap stoi p.shape
    ∙ stoi_digits p.first p.others n (subst AllDigits p.shape p.all).0
        (ap (leading 0) (sym p.shape) ∙ p.value) h

pub leading-to_string : (n : ℕ) → leading 0 (to_string n) ≡ n
unfolding to_string
leading-to_string n = (Prints-digits (suc n) n (omega arith)).value
