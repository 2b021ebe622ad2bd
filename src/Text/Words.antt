-- ===== src/Text/Words.antt =====
-- `lines`, `trim`, `split` and `split_whitespace`, on ASCII texts.
use gds_traces.Base.{
  All, Bool, List, Option, [], false, if◌then◌else◌, leb, none, some, true, ℕ, ◌&&◌, ◌==◌, ◌||◌,
  ◌∷◌, ◌≡◌,
}
use gds_traces.Text.Affix.{Text}

-- A tab, a line's or page's end, or a space.
unfoldable pub is_space : ℕ → Bool
is_space b = (leb 9 b && leb b 13) || (b == b' ')

-- A byte in front of the first part.
abbrev pub push : ℕ → List Text → List Text
push b [] = (b ∷ []) ∷ []
push b (w ∷ ws) = (b ∷ w) ∷ ws

abbrev pub at_newline : Text → Bool
at_newline [] = false
at_newline (b ∷ bs) = b == 10

-- The last line needs no end, and `\r\n` is an end too.
unfoldable pub lines : Text → List Text
lines [] = []
lines (b ∷ bs) =
    let more = lines bs in
    if b == 10 then [] ∷ more else if (b == 13) && at_newline bs then more else push b more

unfoldable pub split_by : (ℕ → Bool) → Text → List Text
split_by p [] = [] ∷ []
split_by p (b ∷ bs) = let more = split_by p bs in if p b then [] ∷ more else push b more

unfoldable pub split : ℕ → Text → List Text
split sep = split_by (λ b. b == sep)

-- The text before a separator, the whole where there is none.
unfoldable pub before_sep : ℕ → Text → Text
before_sep sep [] = []
before_sep sep (b ∷ bs) = let more = before_sep sep bs in if b == sep then [] else b ∷ more

unfoldable pub trim_start : Text → Text
unfolding is_space
trim_start [] = []
trim_start (b ∷ bs) = let more = trim_start bs in if is_space b then more else b ∷ bs

abbrev pub is_empty : Text → Bool
is_empty [] = true
is_empty (b ∷ bs) = false

unfoldable pub trim_end : Text → Text
unfolding is_space
trim_end [] = []
trim_end (b ∷ bs) = let more = trim_end bs in if is_space b && is_empty more then [] else b ∷ more

unfoldable pub trim : Text → Text
unfolding trim_start trim_end
trim text = trim_end (trim_start text)

abbrev pub nonempty : List Text → List Text
nonempty [] = []
nonempty ([] ∷ ws) = nonempty ws
nonempty ((b ∷ bs) ∷ ws) = (b ∷ bs) ∷ nonempty ws

unfoldable pub split_whitespace : Text → List Text
unfolding split_by is_space
split_whitespace text = nonempty (split_by is_space text)

unfoldable pub last : List Text → Option Text
last [] = none
last (w ∷ []) = some w
last (w ∷ v ∷ vs) = last (v ∷ vs)

-- No byte of the text has the property.
abbrev pub Lacks : (ℕ → Bool) → Text → Type 0
Lacks p = All (λ b. p b ≡ false)

-- Spaces only.
abbrev pub IsBlank : Text → Type 0
IsBlank = All (λ b. is_space b ≡ true)
