-- ===== src/Ads/Errors.antt =====
-- internal/ads/errors.go: the text of an error code.
use goadstc.Base.{ℕ, zero, suc, ◌+◌, ◌/◌, ◌%◌, ◌^◌, List, [], ◌∷◌, ◌++◌, ltb, ◌==◌, if◌then◌else◌}
use goadstc.Go.Strings.{text}

-- A digit of `%X`.
abbrev pub hex_digit : ℕ → ℕ
hex_digit d = if ltb d 10 then 48 + d else 55 + d

-- The last `k` hexadecimal digits.
abbrev pub hex_digits : ℕ → ℕ → List ℕ
hex_digits zero n = []
hex_digits (suc k) n = hex_digits k (n / 16) ++ (hex_digit (n % 16) ∷ [])

-- How many digits `%04X` prints of a uint32.
abbrev pub hex_width : ℕ → ℕ
hex_width n =
    if ltb n (2 ^ 16)
    then 4
    else if ltb n (2 ^ 20)
    then 5
    else if ltb n (2 ^ 24)
    then 6
    else if ltb n (2 ^ 28)
    then 7
    else 8

-- Error.Error
unfoldable pub error_text : ℕ → List ℕ
error_text e =
    if e == 0x0000
    then text "no error"
    else if e == 0x0001
    then text "internal error"
    else if e == 0x0006
    then text "target port not found"
    else if e == 0x0007
    then text "target machine not found"
    else if e == 0x0702
    then text "invalid index group"
    else if e == 0x0703
    then text "invalid index offset"
    else text "ADS error 0x" ++ hex_digits (hex_width e) e
