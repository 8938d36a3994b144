-- ===== src/Prelude/Texts.antt =====
-- Python's `str(n)` for a number and `str.strip()`.
use Prim.Native.Nat.{ℕ, zero, suc, ◌/◌, ◌%◌}
use Prim.Native.Char.{Char, code}
use Prim.Native.String.{String, [], ◌∷◌, ◌++◌ as text_append}
use mathlib.Core.Bool.{Bool, ◌&&◌, ◌||◌}
use text.Mathlib.Text.{◌==◌ as str_eq}
use vermay_agent.Prelude.Tests.{ltb, leb, nat_eq, if◌then◌else◌}

digit : ℕ → String
digit n =
    if nat_eq n 0
    then "0"
    else if nat_eq n 1
    then "1"
    else if nat_eq n 2
    then "2"
    else if nat_eq n 3
    then "3"
    else if nat_eq n 4
    then "4"
    else if nat_eq n 5
    then "5"
    else if nat_eq n 6
    then "6"
    else if nat_eq n 7
    then "7"
    else if nat_eq n 8
    then "8"
    else "9"

-- With as much fuel as the number itself no digit is left out.
show_from : ℕ → ℕ → String
unfolding digit
show_from zero n = digit (n % 10)
show_from (suc fuel) n =
    let front = show_from fuel (n / 10) in
    if ltb n 10 then digit n else text_append front (digit (n % 10))

unfoldable pub show_nat : ℕ → String
unfolding show_from
show_nat n = show_from n n

-- `str.isspace` of one character
is_space : Char → Bool
is_space c =
    let n = code c in
    (leb 9 n && leb n 13)
    || (leb 28 n && leb n 32)
    || nat_eq n 133
    || nat_eq n 160
    || nat_eq n 5760
    || (leb 8192 n && leb n 8202)
    || nat_eq n 8232
    || nat_eq n 8233
    || nat_eq n 8239
    || nat_eq n 8287
    || nat_eq n 12288

strip_left : String → String
unfolding is_space
strip_left [] = ""
strip_left (c ∷ s) = let rest = strip_left s in if is_space c then rest else c ∷ s

strip_right : String → String
unfolding is_space
strip_right [] = ""
strip_right (c ∷ s) =
    let rest = strip_right s in if is_space c && str_eq rest "" then "" else c ∷ rest

unfoldable pub strip : String → String
unfolding strip_left strip_right
strip s = strip_right (strip_left s)
