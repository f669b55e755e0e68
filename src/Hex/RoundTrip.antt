-- ===== src/Hex/RoundTrip.antt =====
-- From bytes to text and back, and the characters that are taken for digits (common/hex.c).
use cml.Prelude.{
  ℕ, zero, suc, ◌+◌, ◌*◌, ◌/◌, ◌%◌, ◌≤◌, ◌<◌, ◌≡◌, refl, ap, ap₂, ◌∙◌, pos, true, false, ◌&&◌, some,
  List, [], ◌∷◌, ◌++◌, All, arith, ltb, ◌==◌, length, drop, ◌↔◌, ◌⊎◌, is_some,
}
use cml.Hex.Convert.{
  is_refused, digit, scan_of, scan, to_bin, strip_prefix, convert_hex_to_bin, letter, to_hex,
  convert_bin_to_hex,
}

-- The text of the bytes
abbrev pub letters : List ℕ → List ℕ
letters [] = []
letters (x ∷ bin) = letter (x / 16) ∷ letter (x % 16) ∷ letters bin

length-letters : (bin : List ℕ) → length (letters bin) ≡ length bin * 2
length-letters [] = refl
length-letters (x ∷ bin) = omega (arith, length-letters bin)

to_hex_lem :
    (bin out : List ℕ)
    → length bin * 2 ≤ length out
    → to_hex bin (0 ∷ out) ≡ letters bin ++ 0 ∷ drop (length bin * 2) out
unfolding to_hex
to_hex_lem [] out h = refl
to_hex_lem (x ∷ bin) [] h = absurd (omega arith)
to_hex_lem (x ∷ bin) (o ∷ []) h = absurd (omega arith)
to_hex_lem (x ∷ bin) (o ∷ o' ∷ out) h =
    let more : suc (length bin) * 2 ≡ suc (suc (length bin * 2)) = omega arith in
    rw more (ap (λ l. letter (x / 16) ∷ letter (x % 16) ∷ l) (to_hex_lem bin out (omega arith)))

digit-letter : (n : ℕ) → n < 16 → digit (letter n) ≡ some n
unfolding digit letter
digit-letter n h = ground arith

letter-accepted : (n : ℕ) → n < 16 → is_refused (letter n) ≡ false
unfolding is_refused letter
letter-accepted n h = ground arith

letter_ne_x : (n : ℕ) → n < 16 → (letter n == 88) ≡ false
unfolding letter
letter_ne_x n h = ground arith

abbrev pub AllBytes : List ℕ → Type 0
AllBytes = All (λ x. x < 256)

scan-letter : (x o : ℕ) → x < 256 → scan (letter (x / 16)) (letter (x % 16)) o ≡ x
unfolding scan scan_of
scan-letter x o h =
    ap₂ (λ a b. scan_of a b o) (digit-letter (x / 16) (omega arith))
      (digit-letter (x % 16) (omega arith))
    ∙ omega arith

to_bin-letters :
    (bin out : List ℕ)
    → AllBytes bin
    → length out ≡ length bin
    → to_bin (letters bin) out ≡ (pos 0, bin)
unfolding to_bin
to_bin-letters [] [] h n = refl
to_bin-letters [] (o ∷ out) h n = absurd (omega arith)
to_bin-letters (x ∷ bin) [] h n = absurd (omega arith)
to_bin-letters (x ∷ bin) (o ∷ out) (b, h) n =
    let high : x / 16 < 16 = omega arith in
    let low : x % 16 < 16 = omega arith in
    rw
      (
        letter-accepted (x / 16) high,
        letter-accepted (x % 16) low,
        to_bin-letters bin out h (omega arith),
        scan-letter x o b,
      )
      refl

strip_prefix-letters : (bin : List ℕ) → AllBytes bin → strip_prefix (letters bin) ≡ letters bin
unfolding strip_prefix
strip_prefix-letters [] h = refl
strip_prefix-letters (x ∷ bin) (b, h) =
    let other = letter_ne_x (x % 16) (omega arith) in
    let first_test : ((letter (x / 16) == 48) && (letter (x % 16) == 88)) ≡ false =
      ground (arith, other) in
    rw first_test refl

-- The text passes the tests on its length.
accepted :
    (text text' bytes : List ℕ)
    → strip_prefix text ≡ text'
    → ltb (length text) 2 ≡ false
    → (length text' % 2 == 0) ≡ true
    → (length bytes == length text' / 2) ≡ true
    → convert_hex_to_bin text bytes ≡ some (to_bin text' bytes)
unfolding convert_hex_to_bin
accepted text text' bytes e n m l = rw (n, e, m, l) refl

-- The bytes are written as text, two characters for each and a 0 behind them, when the buffer has a
-- place for all of these, at least one byte; and that text is read back to the bytes, whatever is in
-- the buffer for them before, if that has the right length.
pub convert_hex_to_bin-convert_bin_to_hex :
    (x : ℕ) (bin out bytes : List ℕ)
    → AllBytes (x ∷ bin)
    → length (x ∷ bin) * 2 + 1 ≤ length out
    → length bytes ≡ length (x ∷ bin)
    → (text rest : List ℕ) × (convert_bin_to_hex (x ∷ bin) out ≡ (pos 0, text ++ 0 ∷ rest))
      × (length text ≡ length (x ∷ bin) * 2)
      × (convert_hex_to_bin text bytes ≡ some (pos 0, x ∷ bin))
unfolding convert_bin_to_hex to_hex
convert_hex_to_bin-convert_bin_to_hex x bin [] bytes h n m = absurd (omega arith)
convert_hex_to_bin-convert_bin_to_hex x bin (o ∷ []) bytes h n m = absurd (omega arith)
convert_hex_to_bin-convert_bin_to_hex x bin (o ∷ o' ∷ []) bytes h n m = absurd (omega arith)
convert_hex_to_bin-convert_bin_to_hex x bin (o ∷ o' ∷ o'' ∷ out) bytes h n m =
    let room : ltb (length (o ∷ o' ∷ o'' ∷ out)) (length (x ∷ bin) * 2 + 1) ≡ false =
      ground arith in
    let text = letters (x ∷ bin) in
    let long : length text ≡ length (x ∷ bin) * 2 = length-letters (x ∷ bin) in
    let written = to_hex_lem bin out (omega arith) in
    let enough : ltb (length text) 2 ≡ false = ground (arith, long) in
    let even : (length text % 2 == 0) ≡ true = ground (arith, long) in
    let fits : (length bytes == length text / 2) ≡ true = ground (arith, long) in
    (
      text,
      drop (length bin * 2) out,
      rw room (ap (λ l. (pos 0, letter (x / 16) ∷ letter (x % 16) ∷ l)) written),
      long,
      accepted text text bytes (strip_prefix-letters (x ∷ bin) h) enough even fits
          ∙ ap some (to_bin-letters (x ∷ bin) bytes h m),
    )

-- Text of at signs
abbrev pub at_signs : ℕ → List ℕ
at_signs zero = []
at_signs (suc n) = 64 ∷ 64 ∷ at_signs n

length-at_signs : (n : ℕ) → length (at_signs n) ≡ n * 2
length-at_signs zero = refl
length-at_signs (suc n) = omega (arith, length-at_signs n)

to_bin-at_signs : (out : List ℕ) → to_bin (at_signs (length out)) out ≡ (pos 0, out)
unfolding to_bin is_refused scan scan_of digit
to_bin-at_signs [] = refl
to_bin-at_signs (o ∷ out) = rw (to_bin-at_signs out) refl

strip_prefix-at_signs : (n : ℕ) → strip_prefix (at_signs n) ≡ at_signs n
unfolding strip_prefix
strip_prefix-at_signs zero = refl
strip_prefix-at_signs (suc n) = refl

-- Text of at signs, at least two, is accepted as the text of half as many bytes, and the bytes stay as
-- they are.
pub at_signs-accepted :
    (o : ℕ) (out : List ℕ)
    → convert_hex_to_bin (at_signs (length (o ∷ out))) (o ∷ out) ≡ some (pos 0, o ∷ out)
at_signs-accepted o out =
    let text = at_signs (length (o ∷ out)) in
    let long = length-at_signs (length (o ∷ out)) in
    accepted text text (o ∷ out) (strip_prefix-at_signs (length (o ∷ out))) (ground (arith, long))
      (ground (arith, long)) (ground (arith, long))
    ∙ ap some (to_bin-at_signs (o ∷ out))

-- A character is refused unless it is a hexadecimal digit or the at sign.
pub is_refused-digit : (c : ℕ) → (is_refused c ≡ false) ↔ ((is_some (digit c) ≡ true) ⊎ (c ≡ 64))
unfolding is_refused digit
is_refused-digit c = ground arith
