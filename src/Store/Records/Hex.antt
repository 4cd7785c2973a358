-- ===== src/Store/Records/Hex.antt =====
-- encoding/hex, as the store uses it for trace and span ids.
use otelstore.Base.{ℕ, zero, suc, ◌/◌, ◌%◌, Char, String, List, [], ◌∷◌}

nth_char : String → ℕ → Char
nth_char String.[] n = "?"
nth_char (String.◌∷◌ c s) zero = c
nth_char (String.◌∷◌ c s) (suc n) = nth_char s n

unfoldable pub hex_digit : ℕ → Char
unfolding nth_char
hex_digit n = nth_char "0123456789abcdef" n

-- hex.EncodeToString
unfoldable pub hex_encode : List ℕ → String
hex_encode [] = ""
hex_encode (b ∷ bs) =
    String.◌∷◌ (hex_digit (b / 16)) (String.◌∷◌ (hex_digit (b % 16)) (hex_encode bs))
