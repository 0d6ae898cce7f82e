-- ===== src/Text.antt =====
-- sources/mystring.cpp: the texts of bytes, and tests on strings. A string is the list of its codes.
pub mod Hex
pub mod Words
pub mod CStrings
pub mod Base32
use securefs.Prelude.{
  ℕ, zero, suc, ◌+◌, ◌-◌, ◌*◌, ◌/◌, ◌%◌, Bool, true, false, ◌&&◌, List, [], ◌∷◌, ◌++◌, length, drop,
  leb, ltb, same, ◌==◌, if◌then◌else◌,
}
use securefs.Error.{Result, ok, throw, ◌>>=◌, ◌>>◌, guard, invalid_argument}

-- "0123456789abcdef"[digit]
unfoldable pub hex_digit : ℕ → ℕ
hex_digit digit = if ltb digit 10 then 48 + digit else 87 + digit

unfoldable pub hexify : List ℕ → List ℕ
hexify [] = []
hexify (x ∷ bytes) = hex_digit (x / 16) ∷ hex_digit (x % 16) ∷ hexify bytes

-- The two `switch` statements of parse_hex, without the factor of 16 of the first.
unfoldable pub hex_value : ℕ → Result ℕ
hex_value c =
    if leb 48 c && leb c 57
    then ok (c - 48)
    else if leb 97 c && leb c 102
    then ok (c - 87)
    else throw invalid_argument

-- The loop of parse_hex; the length was found to be even.
unfoldable pub parse_digits : List ℕ → Result (List ℕ)
parse_digits [] = ok []
parse_digits (c ∷ []) = ok []
parse_digits (c ∷ d ∷ hex) = do
  high ← hex_value c
  low ← hex_value d
  rest ← parse_digits hex
  ok ((16 * high + low) ∷ rest)

-- The bytes that are written to `output`, which has `len`.
unfoldable pub parse_hex : List ℕ → ℕ → Result (List ℕ)
parse_hex hex len = do
  guard (length hex % 2 == 0) invalid_argument
  guard (length hex / 2 == len) invalid_argument
  parse_digits hex

unfoldable pub prefix_matches : List ℕ → List ℕ → Bool
prefix_matches str [] = true
prefix_matches [] (p ∷ prefix) = false
prefix_matches (c ∷ str) (p ∷ prefix) = if c == p then prefix_matches str prefix else false

unfoldable pub starts_with : List ℕ → List ℕ → Bool
starts_with str prefix = leb (length prefix) (length str) && prefix_matches str prefix

unfoldable pub ends_with : List ℕ → List ℕ → Bool
ends_with str suffix =
    leb (length suffix) (length str) && same (drop (length str - length suffix) str) suffix

unfoldable pub is_ascii : List ℕ → Bool
is_ascii [] = true
is_ascii (c ∷ str) = if leb 128 c then false else is_ascii str

-- The loop of split: `word` is what is between `start` and `str`. It ends at the code 0.
unfoldable pub split_from : List ℕ → List ℕ → ℕ → List (List ℕ)
split_from word [] separator = if ltb 0 (length word) then word ∷ [] else []
split_from word (c ∷ str) separator =
    let rest = split_from [] str separator in
    let longer = split_from (word ++ (c ∷ [])) str separator in
    if c == 0
    then (if ltb 0 (length word) then word ∷ [] else [])
    else if c == separator
    then (if ltb 0 (length word) then word ∷ rest else rest)
    else longer

unfoldable pub split : List ℕ → ℕ → List (List ℕ)
split str separator = split_from [] str separator

-- The string at a pointer: up to the code 0.
unfoldable pub c_string : List ℕ → List ℕ
c_string [] = []
c_string (c ∷ bytes) = if c == 0 then [] else c ∷ c_string bytes
