-- ===== src/Hex/Convert.antt =====
-- The conversions between bytes and hexadecimal text (common/hex.c), with the parts of sscanf and
-- snprintf that they use. Bytes and characters are numbers below 256.
use cml.Prelude.{
  ℕ, zero, suc, ◌+◌, ◌-◌, ◌*◌, ◌/◌, ◌%◌, ℤ, pos, negsuc, minus_one, Bool, ◌||◌, ◌&&◌, not, Option,
  none, some, List, [], ◌∷◌, ltb, leb, ◌==◌, if◌then◌else◌, length,
}

-- The test for a character that is refused
unfoldable pub is_refused : ℕ → Bool
is_refused c = ltb c 48 || (ltb 102 c || ((ltb 57 c && ltb c 64) || (ltb 70 c && ltb c 97)))

-- A hexadecimal digit, as sscanf takes it
unfoldable pub digit : ℕ → Option ℕ
digit c =
    if leb 48 c && leb c 57
    then some (c - 48)
    else if leb 65 c && leb c 70
    then some (c - 55)
    else if leb 97 c && leb c 102
    then some (c - 87)
    else none

-- sscanf with %2hhx at two characters that are no space, no sign and no x: without a first digit the
-- byte stays as it is.
unfoldable pub scan_of : Option ℕ → Option ℕ → ℕ → ℕ
scan_of none y o = o
scan_of (some x) none o = x
scan_of (some x) (some y) o = 16 * x + y

unfoldable pub scan : ℕ → ℕ → ℕ → ℕ
unfolding digit scan_of
scan a b o = scan_of (digit a) (digit b) o

-- The loop of convert_hex_to_bin, over the text and the bytes that it goes to; there are two
-- characters for each byte.
unfoldable pub to_bin : List ℕ → List ℕ → ℤ × List ℕ
unfolding is_refused scan
to_bin (a ∷ b ∷ text) (o ∷ out) =
    let rest = to_bin text out in
    if is_refused a || is_refused b then (negsuc 2, o ∷ out) else (rest.0, scan a b o ∷ rest.1)
to_bin _ out = (pos 0, out)

-- The text behind 0X
unfoldable pub strip_prefix : List ℕ → List ℕ
strip_prefix [] = []
strip_prefix (a ∷ []) = a ∷ []
strip_prefix (a ∷ b ∷ text) = if (a == 48) && (b == 88) then text else a ∷ b ∷ text

-- convert_hex_to_bin, where none is the assertion on the length of the text
unfoldable pub convert_hex_to_bin : List ℕ → List ℕ → Option (ℤ × List ℕ)
unfolding strip_prefix to_bin
convert_hex_to_bin text out =
    let text' = strip_prefix text in
    if ltb (length text) 2
    then none
    else if not (length text' % 2 == 0)
    then some (minus_one, out)
    else if not (length out == length text' / 2)
    then some (negsuc 1, out)
    else some (to_bin text' out)

-- snprintf's small digits
unfoldable pub letter : ℕ → ℕ
letter x = if ltb x 10 then 48 + x else 87 + x

-- The loop of convert_bin_to_hex: two digits for each byte, and a 0 behind them that the next byte
-- writes over
unfoldable pub to_hex : List ℕ → List ℕ → List ℕ
unfolding letter
to_hex (x ∷ bin) (_ ∷ _ ∷ _ ∷ out) = letter (x / 16) ∷ letter (x % 16) ∷ to_hex bin (0 ∷ out)
to_hex _ out = out

-- convert_bin_to_hex; the sizes stay below that of size_t.
unfoldable pub convert_bin_to_hex : List ℕ → List ℕ → ℤ × List ℕ
unfolding to_hex
convert_bin_to_hex bin out =
    if ltb (length out) (length bin * 2 + 1) then (minus_one, out) else (pos 0, to_hex bin out)

abbrev pub zeros : ℕ → List ℕ
zeros zero = []
zeros (suc n) = 0 ∷ zeros n

-- convert_bin_to_hex_new
unfoldable pub convert_bin_to_hex_new : List ℕ → List ℕ
unfolding to_hex
convert_bin_to_hex_new bin = to_hex bin (zeros (length bin * 2 + 1))
