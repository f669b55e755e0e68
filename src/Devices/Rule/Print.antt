-- ===== src/Devices/Rule/Print.antt =====
-- A rule that the program prints is read back as it was meant.
use cml.Prelude.{
  ℕ, zero, suc, ℤ, pos, negsuc, ◌+◌, ◌/◌, ◌%◌, ◌<◌, ◌≡◌, refl, true, false, none, some, ◌>>=◌, [],
  ◌∷◌, ◌++◌, append_assoc, ◌==◌, if◌then◌else◌, arith, All,
}
use cml.Devices.Item.{acc_all}
use cml.Devices.Rule.{
  Text, skip_delims, take_token, strtok_r, is_digit, digits_value, strtol, strtol_signed,
  parse_type, parse_number, fits_int, parse_access, from_device, from_rule_new, digits_onto,
  print_number, device_rule,
}

abbrev Digits : Text → Type 0
Digits = All (λ c. is_digit c ≡ true)

digits_onto-Digits : (fuel n : ℕ) (s : Text) → Digits s → Digits (digits_onto fuel n s)
unfolding digits_onto is_digit
digits_onto-Digits zero n s h = h
digits_onto-Digits (suc fuel) n s h =
    ground (arith, digits_onto-Digits fuel (n / 10) ((b'0' + n % 10) ∷ s))

-- Reading the digits of n gives n, and goes on with what stands behind them.
digits_value-digits_onto :
    (fuel n : ℕ) (s : Text) → n < fuel → digits_value 0 (digits_onto fuel n s) ≡ digits_value n s
unfolding digits_onto digits_value
digits_value-digits_onto zero n s h = elim h [ ]
digits_value-digits_onto (suc fuel) n s h =
    ground (arith, digits_value-digits_onto fuel (n / 10) ((b'0' + n % 10) ∷ s))

-- No byte of a printed number is a delimiter.
abbrev Plain : ℕ → Type 0
Plain c = ((c == b' ') ≡ false) × ((c == b':') ≡ false)

-- A text that strtok_r takes whole, and that is no wildcard.
abbrev Word : Text → Type 0
Word [] = ⊥
Word (c ∷ s) = ((c == b'*') ≡ false) × Plain c × All Plain s

Digits-Plain : (s : Text) → Digits s → All Plain s
unfolding is_digit
Digits-Plain [] h = tt
Digits-Plain (c ∷ s) h = ground (arith, Digits-Plain s h.1)

abbrev NonEmpty : Text → Type 0
NonEmpty [] = ⊥
NonEmpty (c ∷ s) = Unit

digits_onto-NonEmpty : (fuel n c : ℕ) (s : Text) → NonEmpty (digits_onto fuel n (c ∷ s))
unfolding digits_onto
digits_onto-NonEmpty zero n c s = tt
digits_onto-NonEmpty (suc fuel) n c s =
    ground (arith, digits_onto-NonEmpty fuel (n / 10) (b'0' + n % 10) (c ∷ s))

number-NonEmpty : (fuel n : ℕ) → NonEmpty (digits_onto (suc fuel) n [])
unfolding digits_onto
number-NonEmpty fuel n = ground (arith, digits_onto-NonEmpty fuel (n / 10) (b'0' + n % 10) [])

Digits-Word : (s : Text) → NonEmpty s → Digits s → Word s
unfolding is_digit
Digits-Word [] n h = n
Digits-Word (c ∷ s) n h = ground (arith, Digits-Plain s h.1)

print_number-Word : (v : ℤ) → Word (print_number v)
unfolding print_number
print_number-Word (pos n) = Digits-Word _ (number-NonEmpty n n) (digits_onto-Digits (suc n) n [] tt)
print_number-Word (negsuc n) =
    (refl, (refl, refl), Digits-Plain _ (digits_onto-Digits (suc (suc n)) (suc n) [] tt))

take_token_word :
    (d : ℕ) (w rest : Text)
    → All (λ c. (c == d) ≡ false) w
    → take_token d (w ++ d ∷ rest) ≡ (w, rest)
unfolding take_token
take_token_word d [] rest h = ground arith
take_token_word d (c ∷ w) rest h = ground (arith, take_token_word d w rest h.1)

Plain-no_space : (w : Text) → All Plain w → All (λ c. (c == b' ') ≡ false) w
Plain-no_space [] h = tt
Plain-no_space (c ∷ w) h = (h.0.0, Plain-no_space w h.1)

Plain-no_colon : (w : Text) → All Plain w → All (λ c. (c == b':') ≡ false) w
Plain-no_colon [] h = tt
Plain-no_colon (c ∷ w) h = (h.0.1, Plain-no_colon w h.1)

strtok_r_word :
    (d : ℕ) (w rest : Text)
    → NonEmpty w
    → All (λ c. (c == d) ≡ false) w
    → strtok_r d (w ++ d ∷ rest) ≡ (some w, rest)
unfolding strtok_r skip_delims
strtok_r_word d [] rest n h = absurd n
strtok_r_word d (c ∷ w) rest n h = rw h.0 (rw (take_token_word d (c ∷ w) rest h) refl)

take_token_end : (d : ℕ) (s : Text) → All (λ c. (c == d) ≡ false) s → take_token d s ≡ (s, [])
unfolding take_token
take_token_end d [] h = refl
take_token_end d (c ∷ s) h = ground (arith, take_token_end d s h.1)

strtok_r_last :
    (d : ℕ) (w : Text) → NonEmpty w → All (λ c. (c == d) ≡ false) w → strtok_r d w ≡ (some w, [])
unfolding strtok_r skip_delims
strtok_r_last d [] n h = absurd n
strtok_r_last d (c ∷ w) n h = rw h.0 (rw (take_token_end d (c ∷ w) h) refl)

number_value : (n : ℕ) → digits_value 0 (digits_onto (suc n) n []) ≡ n
unfolding digits_value
number_value n = digits_value-digits_onto (suc n) n [] (omega arith)

-- A text of digits is read as a number with no sign.
parse_number-Digits :
    (s : Text)
    → NonEmpty s
    → Digits s
    → parse_number s ≡ (strtol_signed false s >>= λ v. if fits_int v then some v else none)
unfolding parse_number strtol is_digit
parse_number-Digits [] n h = absurd n
parse_number-Digits (c ∷ s) n h = ground arith

parse_number-print_number : (v : ℤ) → fits_int v ≡ true → parse_number (print_number v) ≡ some v
unfolding parse_number print_number strtol strtol_signed
parse_number-print_number (pos n) h =
    rw (parse_number-Digits _ (number-NonEmpty n n) (digits_onto-Digits (suc n) n [] tt))
      (ground (arith, number_value n))
parse_number-print_number (negsuc n) h = ground (arith, number_value (suc n))

Word-NonEmpty : (w : Text) → Word w → NonEmpty w
Word-NonEmpty (c ∷ w) h = tt
Word-NonEmpty [] h = h

Word-Plain : (w : Text) → Word w → All Plain w
Word-Plain (c ∷ w) h = (h.1, h.2)
Word-Plain [] h = tt

no_space-device :
    (v w : Text)
    → All (λ c. (c == b' ') ≡ false) v
    → All (λ c. (c == b' ') ≡ false) w
    → All (λ c. (c == b' ') ≡ false) (v ++ b':' ∷ w)
no_space-device [] w g h = (refl, h)
no_space-device (c ∷ v) w g h = (g.0, no_space-device v w g.1 h)

device-NonEmpty : (v w : Text) → NonEmpty (v ++ b':' ∷ w)
device-NonEmpty [] w = tt
device-NonEmpty (c ∷ v) w = tt

module _ (major minor : ℤ) (fmaj : fits_int major ≡ true) (fmin : fits_int minor ≡ true) where
  abbrev maj_text : Text
  maj_text = print_number major

  abbrev min_text : Text
  min_text = print_number minor

  from_device-printed :
      (type : ℕ)
      → from_device type (maj_text ++ b':' ∷ min_text)
        ≡ some (record { major = major; minor = minor; type = type; access = acc_all })
  unfolding from_device
  from_device-printed type =
      let j = print_number-Word major in
      let k = print_number-Word minor in
      rw
        (
          strtok_r_word b':' maj_text min_text (Word-NonEmpty _ j)
              (Plain-no_colon _ (Word-Plain _ j)),
          parse_number-print_number major fmaj,
          strtok_r_last b' ' min_text (Word-NonEmpty _ k) (Plain-no_space _ (Word-Plain _ k)),
          parse_number-print_number minor fmin,
        )
        (unfold strtok_r parse_access in refl)

  device_token :
      (rest : Text)
      → strtok_r b' ' (maj_text ++ b':' ∷ (min_text ++ b' ' ∷ rest))
        ≡ (some (maj_text ++ b':' ∷ min_text), rest)
  device_token rest =
      let j = Plain-no_space _ (Word-Plain _ (print_number-Word major)) in
      let k = Plain-no_space _ (Word-Plain _ (print_number-Word minor)) in
      rw (← append_assoc maj_text (b':' ∷ min_text) (b' ' ∷ rest)) (
        strtok_r_word b' ' (maj_text ++ b':' ∷ min_text) rest (device-NonEmpty maj_text min_text)
          (no_space-device maj_text min_text j k))

-- The rule text that the program prints for a device is parsed back to that device, with its
-- type, both numbers and every access, for each pair of int values: c is a type letter, other
-- than a space, that stands for the type `type`.
pub from_rule_new-device_rule :
    (c type : ℕ) (major minor : ℤ)
    → parse_type (c ∷ []) ≡ some type
    → (c == b' ') ≡ false
    → fits_int major ≡ true
    → fits_int minor ≡ true
    → from_rule_new (device_rule c major minor)
      ≡ some (record { major = major; minor = minor; type = type; access = acc_all })
unfolding from_rule_new device_rule
from_rule_new-device_rule c type major minor t h fmaj fmin =
    rw
      (
        strtok_r_word b' ' (c ∷ []) _ tt (h, tt),
        t,
        device_token major minor fmaj fmin (b'r' ∷ b'w' ∷ b'm' ∷ []),
        from_device-printed major minor fmaj fmin type,
      )
      refl
