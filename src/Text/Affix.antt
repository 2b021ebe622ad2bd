-- ===== src/Text/Affix.antt =====
-- `strip_prefix`, `strip_suffix` and `==` on texts.
use gds_traces.Base.{
  ==_refl, Bool, List, Option, String, [], arith, drop, drop-append_length, false, if◌then◌else◌,
  length, length-append, none, refl, some, take, take-append-drop, take-append_length, true, ℕ,
  ◌&&◌, ◌++◌, ◌-◌, ◌==◌, ◌∷◌, ◌≡◌,
}
use Prim.Native.Char.{code}

-- A text is its bytes.
abbrev pub Text : Type 0
Text = List ℕ

-- The bytes of an ASCII literal.
abbrev pub codes : String → Text
codes String.[] = []
codes (String.◌∷◌ c s) = code c ∷ codes s

unfoldable pub same_text : Text → Text → Bool
same_text [] [] = true
same_text [] (b ∷ bs) = false
same_text (a ∷ more) [] = false
same_text (a ∷ more) (b ∷ bs) = (a == b) && same_text more bs

unfoldable pub strip_prefix : Text → Text → Option Text
strip_prefix [] text = some text
strip_prefix (p ∷ ps) [] = none
strip_prefix (p ∷ ps) (b ∷ bs) = if p == b then strip_prefix ps bs else none

unfoldable pub strip_suffix : Text → Text → Option Text
unfolding same_text
strip_suffix suffix text =
    let kept = length text - length suffix in
    if same_text (drop kept text) suffix then some (take kept text) else none

pub same_text_refl : (text : Text) → same_text text text ≡ true
unfolding same_text
same_text_refl [] = refl
same_text_refl (b ∷ bs) = ground (arith, same_text_refl bs)

pub same_text→eq : (a b : Text) → same_text a b ≡ true → a ≡ b
unfolding same_text
same_text→eq [] [] h = refl
same_text→eq [] (b ∷ bs) h = cc
same_text→eq (a ∷ more) [] h = cc
same_text→eq (a ∷ more) (b ∷ bs) h = ground (arith, same_text→eq more bs)

pub strip_prefix-append : (prefix text : Text) → strip_prefix prefix (prefix ++ text) ≡ some text
unfolding strip_prefix
strip_prefix-append [] text = refl
strip_prefix-append (p ∷ ps) text = rw (==_refl p) (strip_prefix-append ps text)

pub strip_prefix-inverts :
    (prefix text : Text) {rest : Text}
    → strip_prefix prefix text ≡ some rest
    → text ≡ prefix ++ rest
unfolding strip_prefix
strip_prefix-inverts [] text h = cc
strip_prefix-inverts (p ∷ ps) [] h = cc
strip_prefix-inverts (p ∷ ps) (b ∷ bs) {rest} h =
    ground (arith, strip_prefix-inverts ps bs {rest = rest})

pub strip_suffix-append : (text suffix : Text) → strip_suffix suffix (text ++ suffix) ≡ some text
unfolding strip_suffix
strip_suffix-append text suffix =
    let kept : length (text ++ suffix) - length suffix ≡ length text =
      omega (arith, length-append {0} text suffix) in
    rw kept (
      rw (drop-append_length (length text) text suffix refl)
        (rw (same_text_refl suffix) (rw (take-append_length (length text) text suffix refl))))

pub strip_suffix-inverts :
    (suffix text : Text) {rest : Text}
    → strip_suffix suffix text ≡ some rest
    → text ≡ rest ++ suffix
unfolding strip_suffix
strip_suffix-inverts suffix text h =
    let kept : ℕ = length text - length suffix in
    ground (
      arith,
      same_text→eq (drop (length text - length suffix) text) suffix,
      take-append-drop (length text - length suffix) text,
    )
