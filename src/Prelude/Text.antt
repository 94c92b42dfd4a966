-- ===== src/Prelude/Text.antt =====
-- Python's text operations that the program uses, on the native texts: order, case, decimals.
pub mod Digits
use Prim.Native.Char.{Char, code}
use Prim.Native.String.{compare, count as chars}
use text.Mathlib.Text.{is_le}
use sonic_watchtower.Prelude.{
  ℕ, zero, suc, ◌*◌, ◌-◌, Option, none, some, ◌/◌, ◌%◌, ◌+◌, String, ◌<>◌, ◌≡◌, refl, Bool, true,
  false, ◌||◌, ◌&&◌, List, [], ◌∷◌, ltb, leb, eqb, ◌==◌, if◌then◌else◌, Bool-cases, inl, inr, All,
}

-- The order of texts by their bytes, which SQLite's `ORDER BY` follows.
unfoldable pub text_le : String → String → Bool
text_le s t = is_le (compare s t)

abbrev upper_case : List (ℕ × Char)
upper_case =
    (b'a', "A")
    ∷ (b'b', "B")
    ∷ (b'c', "C")
    ∷ (b'd', "D")
    ∷ (b'e', "E")
    ∷ (b'f', "F")
    ∷ (b'g', "G")
    ∷ (b'h', "H")
    ∷ (b'i', "I")
    ∷ (b'j', "J")
    ∷ (b'k', "K")
    ∷ (b'l', "L")
    ∷ (b'm', "M")
    ∷ (b'n', "N")
    ∷ (b'o', "O")
    ∷ (b'p', "P")
    ∷ (b'q', "Q")
    ∷ (b'r', "R")
    ∷ (b's', "S")
    ∷ (b't', "T")
    ∷ (b'u', "U")
    ∷ (b'v', "V")
    ∷ (b'w', "W")
    ∷ (b'x', "X")
    ∷ (b'y', "Y")
    ∷ (b'z', "Z")
    ∷ []

swap_by : List (ℕ × Char) → Char → Char
swap_by [] c = c
swap_by ((n, d) ∷ table) c = if eqb (code c) n then d else swap_by table c

-- `s.upper()` on ASCII text.
unfoldable pub upper : String → String
unfolding swap_by
upper String.[] = ""
upper (String.◌∷◌ c s) = String.◌∷◌ (swap_by upper_case c) (upper s)

-- `s.capitalize()` on text that is in lower case already, as the names of metrics are.
unfoldable pub capitalize : String → String
unfolding swap_by
capitalize String.[] = ""
capitalize (String.◌∷◌ c s) = String.◌∷◌ (swap_by upper_case c) s

-- `s.replace("_", " ")`
unfoldable pub underscores_to_spaces : String → String
unfolding swap_by
underscores_to_spaces String.[] = ""
underscores_to_spaces (String.◌∷◌ c s) =
    String.◌∷◌ (swap_by ((b'_', " ") ∷ []) c) (underscores_to_spaces s)

abbrev digit : ℕ → String
digit n =
    if eqb n 0
    then "0"
    else if eqb n 1
    then "1"
    else if eqb n 2
    then "2"
    else if eqb n 3
    then "3"
    else if eqb n 4
    then "4"
    else if eqb n 5
    then "5"
    else if eqb n 6
    then "6"
    else if eqb n 7
    then "7"
    else if eqb n 8
    then "8"
    else "9"

-- The digits of `n`; `n + 1` rounds of fuel are more than enough.
decimal_rounds : ℕ → ℕ → String → String
decimal_rounds zero n out = out
decimal_rounds (suc fuel) n out =
    let rest = decimal_rounds fuel (n / 10) (digit (n % 10) <> out) in
    if ltb n 10 then digit n <> out else rest

-- `str(n)`, `f"{n}"`
unfoldable pub decimal : ℕ → String
unfolding decimal_rounds
decimal n = decimal_rounds (n + 1) n ""

-- `f"{n:04d}"`
unfoldable pub decimal4 : ℕ → String
unfolding decimal
decimal4 n =
    if ltb n 10
    then "000" <> decimal n
    else if ltb n 100
    then "00" <> decimal n
    else if ltb n 1000
    then "0" <> decimal n
    else decimal n

-- `str.isspace` on ASCII characters.
abbrev is_space : Char → Bool
is_space c = (leb b'\t' (code c) && leb (code c) b'\r') || (leb 28 (code c) && leb (code c) b' ')

-- A word that the text ends, or white space; no word stands between two of those.
abbrev close_word : String → List String → List String
close_word word rest = if word == "" then rest else word ∷ rest

close-some_words :
    (word : String) (rest : List String)
    → All (λ w. (w == "") ≡ false) rest
    → All (λ w. (w == "") ≡ false) (close_word word rest)
close-some_words word rest h = elim (Bool-cases (word == "")) [
  | inl empty ↦ rw empty h
  | inr some_word ↦ rw some_word (some_word, h)
]

-- The words of a text behind the start of one.
unfoldable pub words_from : String → String → List String
words_from word String.[] = close_word word []
words_from word (String.◌∷◌ c s) = elim (is_space c) [
  | true ↦ close_word word (words_from "" s)
  | false ↦ words_from (word <> String.◌∷◌ c "") s
]

-- No word is empty.
pub words_from-some_words : (word s : String) → All (λ w. (w == "") ≡ false) (words_from word s)
unfolding words_from
words_from-some_words word String.[] = close-some_words word [] tt
words_from-some_words word (String.◌∷◌ c s) = elim (Bool-cases (is_space c)) [
  | inl space ↦
      rw (space, words_from) (close-some_words word (words_from "" s) (words_from-some_words "" s))
  | inr letter ↦ rw (letter, words_from) (words_from-some_words (word <> String.◌∷◌ c "") s)
]

-- `s.split()` on text whose white space is ASCII.
unfoldable pub words : String → List String
unfolding words_from
words s = words_from "" s

unfoldable pub strip_left : String → String
strip_left String.[] = ""
strip_left (String.◌∷◌ c s) = let rest = strip_left s in if is_space c then rest else String.◌∷◌ c s

unfoldable pub strip_right : String → String
strip_right String.[] = ""
strip_right (String.◌∷◌ c s) =
    let rest = strip_right s in if is_space c && rest == "" then "" else String.◌∷◌ c rest

-- `s.strip()` on text whose white space is ASCII.
abbrev pub strip : String → String
strip s = strip_right (strip_left s)

unfoldable pub spaces : ℕ → String
spaces zero = ""
spaces (suc n) = " " <> spaces n

-- `f"{s:<ns}"`, `f"{s:>nd}"`
abbrev pub pad_right : ℕ → String → String
pad_right n s = s <> spaces (n - chars s)

abbrev pub pad_left : ℕ → String → String
pad_left n s = spaces (n - chars s) <> s

-- `s.rstrip(":")`
unfoldable pub rstrip_colons : String → String
rstrip_colons String.[] = ""
rstrip_colons (String.◌∷◌ c s) =
    let rest = rstrip_colons s in if eqb (code c) b':' && rest == "" then "" else String.◌∷◌ c rest

-- `s.split(sep, 1)[1] if sep in s else s`, for a separator of one character.
behind : Char → String → Option String
behind sep String.[] = none
behind sep (String.◌∷◌ c s) =
    let rest = behind sep s in if eqb (code c) (code sep) then some s else rest

unfoldable pub after_first : Char → String → String
unfolding behind
after_first sep s = elim (behind sep s) [ none ↦ s | some rest ↦ rest ]

-- The value of a text of digits, of which single underscores may stand between two.
digits_value : ℕ → Bool → String → Option ℕ
digits_value n after_digit String.[] = if after_digit then some n else none
digits_value n after_digit (String.◌∷◌ c s) =
    let more = digits_value (n * 10 + (code c - b'0')) true s in
    let skip = digits_value n false s in
    if leb b'0' (code c) && leb (code c) b'9'
    then more
    else if eqb (code c) b'_' && after_digit
    then skip
    else none

unsigned : String → Option ℕ
unsigned String.[] = none
unsigned (String.◌∷◌ c s) =
    if eqb (code c) b'+' then digits_value 0 false s else digits_value 0 false (String.◌∷◌ c s)

-- `int(s)`, `none` where it raises ValueError. A text with a minus sign is refused too: counters,
-- times and sizes have none.
unfoldable pub int_of : String → Option ℕ
unfolding unsigned digits_value strip_left strip_right
int_of s = unsigned (strip s)

int_of_lem : int_of " 1_024\n" ≡ some 1024
unfolding int_of
int_of_lem = refl

int_of_refused : int_of "10 %" ≡ none
unfolding int_of
int_of_refused = refl

after_first_lem : after_first ":" "BGP_NEIGHBOR_TABLE:fc00::1" ≡ "fc00::1"
unfolding after_first
after_first_lem = refl

-- `sep.join(texts)`
unfoldable pub join : String → List String → String
join sep [] = ""
join sep (t ∷ []) = t
join sep (t ∷ u ∷ ts) = t <> sep <> join sep (u ∷ ts)

words_lem : words "  link  down on\tEthernet0 " ≡ "link" ∷ "down" ∷ "on" ∷ "Ethernet0" ∷ []
unfolding words
words_lem = refl

upper_lem : upper "warning" ≡ "WARNING"
unfolding upper
upper_lem = refl

decimal4_lem : "f-" <> decimal4 42 <> decimal 12345 ≡ "f-004212345"
unfolding decimal4
decimal4_lem = refl
