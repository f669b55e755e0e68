-- ===== src/Hex/Examples.antt =====
-- Two bytes as text.
use cml.Prelude.{ℕ, ◌≡◌, refl, some, List, [], ◌∷◌, ◌++◌, pos, length, arith}
use cml.Hex.Convert.{convert_hex_to_bin, convert_bin_to_hex, convert_bin_to_hex_new, letter}
use cml.Hex.RoundTrip.{convert_hex_to_bin-convert_bin_to_hex}

-- 4a0f and the 0 behind it
two_bytes-text : convert_bin_to_hex_new (74 ∷ 15 ∷ []) ≡ 52 ∷ 97 ∷ 48 ∷ 102 ∷ 0 ∷ []
unfolding convert_bin_to_hex_new letter
two_bytes-text = refl

convert_hex_to_bin-convert_bin_to_hex_example :
    (text rest : List ℕ) × (convert_bin_to_hex (74 ∷ 15 ∷ []) (1 ∷ 2 ∷ 3 ∷ 4 ∷ 5 ∷ 6 ∷ [])
      ≡ (pos 0, text ++ 0 ∷ rest))
    × (length text ≡ 4)
    × (convert_hex_to_bin text (8 ∷ 9 ∷ []) ≡ some (pos 0, 74 ∷ 15 ∷ []))
convert_hex_to_bin-convert_bin_to_hex_example =
    convert_hex_to_bin-convert_bin_to_hex 74 (15 ∷ []) (1 ∷ 2 ∷ 3 ∷ 4 ∷ 5 ∷ 6 ∷ []) (8 ∷ 9 ∷ [])
      (omega arith, (omega arith, tt)) (omega arith) refl
