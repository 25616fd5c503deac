-- ===== src/Prelude/Text.antt =====
-- The text functions of Go's standard library that the operator calls: the verbs %d, %t and %q of
-- fmt, strings.Join, strings.TrimRight of one character and strings.TrimSpace.
pub mod Digits
use Prim.Native.Nat.{ℕ, zero, suc, ◌/◌, ◌%◌}
use Prim.Native.Char.{Char, code}
use Prim.Native.String.{String, ◌++◌ as ◌<>◌}
use mathlib.Core.Bool.{Bool, true, false, ◌||◌, ◌&&◌}
use mathlib.Core.List.{List, [], ◌∷◌}
use mathlib.Core.Path.{◌≡◌}
use mathlib.Core.Logic.{◌≢◌}
use text.Mathlib.Text.{◌==◌}
use text.Mathlib.TextEquality.{eq_iff}
use text.Mathlib.TextLemmas.{append-eq-nil_iff}
use k8boss_operator.Prelude.Tests.{ltb, leb, eqb, if◌then◌else◌}
use k8boss_operator.Prelude.Int.{ℤ, pos, negsuc}

unfoldable pub digit : ℕ → String
digit d =
    if eqb d 0
    then "0"
    else if eqb d 1
    then "1"
    else if eqb d 2
    then "2"
    else if eqb d 3
    then "3"
    else if eqb d 4
    then "4"
    else if eqb d 5
    then "5"
    else if eqb d 6
    then "6"
    else if eqb d 7
    then "7"
    else if eqb d 8
    then "8"
    else "9"

-- The digits of `n` in front of `acc`. A number has fewer digits than itself plus one, so the fuel
-- of `show_ℕ` is enough.
show_from : ℕ → ℕ → String → String
show_from zero n acc = acc
show_from (suc fuel) n acc =
    let rest = show_from fuel (n / 10) (digit (n % 10) <> acc) in
    if ltb n 10 then digit n <> acc else rest

show_ℕ : ℕ → String
show_ℕ n = show_from (suc n) n ""

-- %d
unfoldable pub show_ℤ : ℤ → String
unfolding show_ℕ show_from digit
show_ℤ (pos n) = show_ℕ n
show_ℤ (negsuc n) = "-" <> show_ℕ (suc n)

-- %d of a length
unfoldable pub show_length : ℕ → String
unfolding show_ℕ show_from digit
show_length n = show_ℕ n

-- %t
unfoldable pub show_bool : Bool → String
show_bool true = "true"
show_bool false = "false"

hex : ℕ → String
unfolding digit
hex d =
    if ltb d 10
    then digit d
    else if eqb d 10
    then "a"
    else if eqb d 11
    then "b"
    else if eqb d 12
    then "c"
    else if eqb d 13
    then "d"
    else if eqb d 14
    then "e"
    else "f"

-- One character inside %q. A character above 0x7f is taken to be printable: the Unicode tables of
-- strconv.IsPrint are not written out.
quote_char : Char → String
unfolding hex
quote_char c =
    let n = code c in
    if eqb n 34
    then "\\\""
    else if eqb n 92
    then "\\\\"
    else if eqb n 7
    then "\\a"
    else if eqb n 8
    then "\\b"
    else if eqb n 12
    then "\\f"
    else if eqb n 10
    then "\\n"
    else if eqb n 13
    then "\\r"
    else if eqb n 9
    then "\\t"
    else if eqb n 11
    then "\\v"
    else if ltb n 32 || eqb n 127
    then "\\x" <> (hex (n / 16) <> hex (n % 16))
    else String.◌∷◌ c String.[]

quote_body : String → String
unfolding quote_char
quote_body String.[] = "\""
quote_body (String.◌∷◌ c s) = quote_char c <> quote_body s

-- %q
unfoldable pub quote : String → String
unfolding quote_body
quote s = "\"" <> quote_body s

-- strings.Join
unfoldable pub join : List String → String → String
join [] sep = ""
join (s ∷ []) sep = s
join (s ∷ t ∷ ss) sep = s <> (sep <> join (t ∷ ss) sep)

-- Whether the rest of a text has only characters that `drop` accepts.
only : (Char → Bool) → String → Bool
only drop String.[] = true
only drop (String.◌∷◌ c s) = drop c && only drop s

-- The text without the longest end whose characters `drop` accepts.
trim_right_func : (Char → Bool) → String → String
unfolding only
trim_right_func drop String.[] = ""
trim_right_func drop (String.◌∷◌ c s) =
    if drop c && only drop s then "" else String.◌∷◌ c (trim_right_func drop s)

trim_left_func : (Char → Bool) → String → String
trim_left_func drop String.[] = ""
trim_left_func drop (String.◌∷◌ c s) = if drop c then trim_left_func drop s else String.◌∷◌ c s

-- strings.TrimRight(s, "/")
unfoldable pub trim_right_slash : String → String
unfolding trim_right_func
trim_right_slash s = trim_right_func (λ c. eqb (code c) 47) s

-- unicode.IsSpace
is_space : Char → Bool
is_space c =
    let n = code c in
    leb 9 n && leb n 13
    || (eqb n 32 || eqb n 133 || eqb n 160 || eqb n 0x1680 || leb 0x2000 n && leb n 0x200a)
    || (eqb n 0x2028 || eqb n 0x2029 || eqb n 0x202f || eqb n 0x205f || eqb n 0x3000)

-- strings.TrimSpace
unfoldable pub trim_space : String → String
unfolding is_space trim_left_func trim_right_func
trim_space s = trim_right_func is_space (trim_left_func is_space s)

-- Two texts that the test tells apart are not equal.
pub ne_of_test : (s t : String) → (s == t) ≡ false → s ≢ t
ne_of_test s t h e = cc (h, (eq_iff s t).1 e)

-- A text with a part in front that is not empty is not empty.
pub append_ne : (s t : String) → (s == "") ≡ false → s <> t ≢ ""
append_ne s t h e = ne_of_test s "" h (append-eq-nil_iff.0 e).0

pub append_ne_right : (s t : String) → (t == "") ≡ false → s <> t ≢ ""
append_ne_right s t h e = ne_of_test t "" h (append-eq-nil_iff.0 e).1
