-- ===== src/Text/Hex.antt =====
-- `{:02x}` to `{:016x}`: lower-case hexadecimal digits behind zeros up to a width.
use gds_traces.Base.{
  Bool, List, [], false, if◌then◌else◌, length, ltb, suc, true, zero, ℕ, ◌%◌, ◌++◌, ◌+◌, ◌-◌, ◌/◌,
  ◌∷◌,
}
use gds_traces.Text.Affix.{codes, Text}

unfoldable pub hex_digit : ℕ → ℕ
hex_digit d = if ltb d 10 then b'0' + d else b'a' + (d - 10)

unfoldable pub hex_on : ℕ → ℕ → Text
unfolding hex_digit
hex_on zero n = []
hex_on (suc fuel) n =
    let front = hex_on fuel (n / 16) in
    if ltb n 16 then hex_digit n ∷ [] else front ++ hex_digit (n % 16) ∷ []

unfoldable pub zeros_before : ℕ → Text → Text
zeros_before zero text = text
zeros_before (suc n) text = b'0' ∷ zeros_before n text

unfoldable pub hex : ℕ → ℕ → Text
unfolding hex_on zeros_before
hex width n = let digits = hex_on (suc n) n in zeros_before (width - length digits) digits

-- The pieces of a text, joined.
unfoldable pub concat : List Text → Text
concat [] = []
concat (t ∷ ts) = t ++ concat ts

-- `join(",")`
unfoldable pub join_commas : List Text → Text
join_commas [] = []
join_commas (t ∷ []) = t
join_commas (t ∷ u ∷ us) = t ++ b',' ∷ join_commas (u ∷ us)

unfoldable pub show_bool : Bool → Text
show_bool true = codes "true"
show_bool false = codes "false"
