-- ===== src/Text/Splitting.antt =====
-- Laws of the functions on lines and words.
use gds_traces.Text.Affix.{Text}
use gds_traces.Text.Digits.{all_digits, is_digit}
use gds_traces.Text.Words.{
  IsBlank, Lacks, before_sep, is_empty, is_space, last, lines, nonempty, push, split_by,
  split_whitespace, trim, trim_end, trim_start,
}
use gds_traces.Base.{
  Bool-cases, inl, inr, ◌≢◌, ==_refl, Bool, List, [], ap, arith, false, refl, some, true, ℕ, ◌++◌,
  ◌==◌, ◌∙◌, ◌∷◌, ◌≡◌,
}

pub lines-append :
    (line text : Text)
    → Lacks (λ b. b == 10) line
    → Lacks (λ b. b == 13) line
    → lines (line ++ 10 ∷ text) ≡ line ∷ lines text
unfolding lines
lines-append [] text one_line no_return = refl
lines-append (b ∷ bs) text (b_in, bs_in) (b_no, bs_no) =
    rw b_in (rw b_no (rw (lines-append bs text bs_in bs_no)))

pub split_by-append :
    (p : ℕ → Bool) (a : Text) (s : ℕ) (b : Text)
    → p s ≡ true
    → Lacks p a
    → split_by p (a ++ s ∷ b) ≡ a ∷ split_by p b
unfolding split_by
split_by-append p [] s b at none_in = rw at
split_by-append p (x ∷ xs) s b at (x_in, xs_in) = rw x_in (rw (split_by-append p xs s b at xs_in))

pub split_by-whole : (p : ℕ → Bool) (a : Text) → Lacks p a → split_by p a ≡ a ∷ []
unfolding split_by
split_by-whole p [] none_in = refl
split_by-whole p (x ∷ xs) (x_in, xs_in) = rw x_in (rw (split_by-whole p xs xs_in))

pub before_sep-append :
    (sep : ℕ) (a b : Text) → Lacks (λ x. x == sep) a → before_sep sep (a ++ sep ∷ b) ≡ a
unfolding before_sep
before_sep-append sep [] b none_in = rw (==_refl sep)
before_sep-append sep (x ∷ xs) b (x_in, xs_in) =
    rw x_in (ap (λ t. x ∷ t) (before_sep-append sep xs b xs_in))

pub before_sep-whole : (sep : ℕ) (a : Text) → Lacks (λ x. x == sep) a → before_sep sep a ≡ a
unfolding before_sep
before_sep-whole sep [] none_in = refl
before_sep-whole sep (x ∷ xs) (x_in, xs_in) =
    rw x_in (ap (λ t. x ∷ t) (before_sep-whole sep xs xs_in))

is_empty-cons : (a : Text) (c : ℕ) (b : Text) → is_empty (a ++ c ∷ b) ≡ false
is_empty-cons [] c b = refl
is_empty-cons (x ∷ xs) c b = refl

-- What stands behind a byte that is no space does not matter for what stands before it.
pub trim_end-append :
    (a : Text) (c : ℕ) (b : Text) → is_space c ≡ false → trim_end (a ++ c ∷ b) ≡ a ++ c ∷ trim_end b
unfolding trim_end
trim_end-append [] c b black = rw black
trim_end-append (x ∷ xs) c b black =
    let more = trim_end-append xs c b black in
    let kept : is_empty (trim_end (xs ++ c ∷ b)) ≡ false =
      ap is_empty more ∙ is_empty-cons xs c (trim_end b) in
    ground arith

pub Lacks-append : (p : ℕ → Bool) (a b : Text) → Lacks p a → Lacks p b → Lacks p (a ++ b)
Lacks-append p [] b none_in b_none = b_none
Lacks-append p (x ∷ xs) b (x_in, xs_in) b_none = (x_in, Lacks-append p xs b xs_in b_none)

push-append :
    (b : ℕ) (w : Text) (ws vs : List Text) → push b ((w ∷ ws) ++ vs) ≡ push b (w ∷ ws) ++ vs
push-append b w ws vs = refl

split_by-cons : (p : ℕ → Bool) (a : Text) → (w : Text) × (ws : List Text) × (split_by p a ≡ w ∷ ws)
unfolding split_by
split_by-cons p [] = ([], [], refl)
split_by-cons p (b ∷ bs) = elim (Bool-cases (p b)) [
  | inl at ↦ ([], split_by p bs, rw at)
  | inr in_part ↦ let (w, ws, e) = split_by-cons p bs in (b ∷ w, ws, rw in_part (rw e))
]

-- A separator parts a text whatever stands before it.
split_by-both :
    (p : ℕ → Bool) (a : Text) (s : ℕ) (b : Text)
    → p s ≡ true
    → split_by p (a ++ s ∷ b) ≡ split_by p a ++ split_by p b
unfolding split_by
split_by-both p [] s b at = rw at
split_by-both p (x ∷ xs) s b at =
    let rest = split_by-both p xs s b at in
    let (w, ws, e) = split_by-cons p xs in
    elim (Bool-cases (p x)) [
      | inl parts ↦ rw parts (ap (λ vs. [] ∷ vs) rest)
      | inr in_part ↦ rw in_part (ap (push x) rest ∙ rw e)
    ]

nonempty-append : (vs ws : List Text) → nonempty (vs ++ ws) ≡ nonempty vs ++ nonempty ws
nonempty-append [] ws = refl
nonempty-append ([] ∷ vs) ws = nonempty-append vs ws
nonempty-append ((b ∷ bs) ∷ vs) ws = ap (λ l. (b ∷ bs) ∷ l) (nonempty-append vs ws)

last-append : (vs : List Text) (w : Text) → last (vs ++ w ∷ []) ≡ some w
unfolding last
last-append [] w = refl
last-append (v ∷ []) w = refl
last-append (v ∷ u ∷ us) w = last-append (u ∷ us) w

-- The last word of a text that ends in a space and a word.
pub last-split_whitespace :
    (a word : Text)
    → word ≢ []
    → Lacks is_space word
    → last (split_whitespace (a ++ b' ' ∷ word)) ≡ some word
unfolding split_whitespace
last-split_whitespace a [] some_byte black = absurd (some_byte refl)
last-split_whitespace a (x ∷ xs) some_byte black =
    ap (λ l. last (nonempty l)) (split_by-both is_space a b' ' (x ∷ xs) (unfold is_space in refl))
    ∙ ap (λ l. last (nonempty (split_by is_space a ++ l))) (split_by-whole is_space (x ∷ xs) black)
    ∙ ap last (nonempty-append (split_by is_space a) ((x ∷ xs) ∷ []))
    ∙ last-append (nonempty (split_by is_space a)) (x ∷ xs)

trim_start-blank :
    (blank : Text) (b : ℕ) (bs : Text)
    → IsBlank blank
    → is_space b ≡ false
    → trim_start (blank ++ b ∷ bs) ≡ b ∷ bs
unfolding trim_start
trim_start-blank [] b bs spaces black = rw black
trim_start-blank (w ∷ ws) b bs (space, spaces) black =
    rw space (trim_start-blank ws b bs spaces black)

-- Spaces in front are trimmed.
pub trim-blank :
    (blank : Text) (b : ℕ) (bs : Text)
    → IsBlank blank
    → is_space b ≡ false
    → trim (blank ++ b ∷ bs) ≡ trim_end (b ∷ bs)
unfolding trim
trim-blank blank b bs spaces black = ap trim_end (trim_start-blank blank b bs spaces black)

trim_end-black : (text : Text) → Lacks is_space text → trim_end text ≡ text
unfolding trim_end
trim_end-black [] black = refl
trim_end-black (b ∷ bs) (b_black, bs_black) =
    rw b_black (ap (λ t. b ∷ t) (trim_end-black bs bs_black))

trim_start-black : (text : Text) → Lacks is_space text → trim_start text ≡ text
unfolding trim_start
trim_start-black [] black = refl
trim_start-black (b ∷ bs) (b_black, bs_black) = rw b_black

pub trim-black : (text : Text) → Lacks is_space text → trim text ≡ text
unfolding trim
trim-black text black = ap trim_end (trim_start-black text black) ∙ trim_end-black text black

pub trim_blank-black :
    (blank : Text) (b : ℕ) (bs : Text)
    → IsBlank blank
    → Lacks is_space (b ∷ bs)
    → trim (blank ++ b ∷ bs) ≡ b ∷ bs
trim_blank-black blank b bs spaces black =
    trim-blank blank b bs spaces black.0 ∙ trim_end-black (b ∷ bs) black

-- Spaces are no other byte that is none.
pub blank-Lacks :
    (p : ℕ → Bool) (blank : Text)
    → ((b : ℕ) → is_space b ≡ true → p b ≡ false)
    → IsBlank blank
    → Lacks p blank
blank-Lacks p [] other_bytes spaces = tt
blank-Lacks p (b ∷ bs) other_bytes (space, spaces) =
    (other_bytes b space, blank-Lacks p bs other_bytes spaces)

pub all_digits-Lacks :
    (p : ℕ → Bool) (text : Text)
    → ((b : ℕ) → is_digit b ≡ true → p b ≡ false)
    → all_digits text ≡ true
    → Lacks p text
unfolding all_digits
all_digits-Lacks p [] other_bytes digits = tt
all_digits-Lacks p (b ∷ bs) other_bytes digits = elim (Bool-cases (is_digit b)) [
  | inl digit ↦ (other_bytes b digit, all_digits-Lacks p bs other_bytes (ground arith))
  | inr other_byte ↦ absurd (ground arith)
]

pub Lacks-weaken :
    (p q : ℕ → Bool) (text : Text)
    → ((b : ℕ) → p b ≡ false → q b ≡ false)
    → Lacks p text
    → Lacks q text
Lacks-weaken p q [] weaker h = tt
Lacks-weaken p q (b ∷ bs) weaker (h, hs) = (weaker b h, Lacks-weaken p q bs weaker hs)

pub black-no_end : (b : ℕ) → is_space b ≡ false → (b == 10) ≡ false
unfolding is_space
black-no_end b h = ground arith

pub black-no_return : (b : ℕ) → is_space b ≡ false → (b == 13) ≡ false
unfolding is_space
black-no_return b h = ground arith
