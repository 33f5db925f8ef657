-- ===== src/Prelude/Text.antt =====
-- Texts as the code points of their characters: the bytes, where a text is ASCII.
use Prim.Native.Nat.{ℕ, zero, suc, ◌+◌, ◌-◌}
use Prim.Native.Char.{code}
use Prim.Native.String.{String}
use mathlib.Core.Bool.{Bool, true, false, ◌&&◌, ◌||◌}
use mathlib.Core.List.{List, [], ◌∷◌}
use tandem_verifier_rs.Prelude.Tests.{leb, ◌==◌, nat_eq, if◌then◌else◌}
use tandem_verifier_rs.Prelude.Lists.{length, take, drop}
use tandem_verifier_rs.Prelude.Order.{bytes_eq}

abbrev pub Text : Type 0
Text = List ℕ

-- a literal
abbrev pub text : String → Text
text String.[] = []
text (String.◌∷◌ c s) = code c ∷ text s

-- `low..=high` contains `c`
abbrev pub between : ℕ → ℕ → ℕ → Bool
between low high c = leb low c && leb c high

-- `is_ascii_digit`, `is_ascii_lowercase` and `is_ascii_uppercase` of a byte
abbrev pub is_digit : ℕ → Bool
is_digit c = between 48 57 c

abbrev pub is_lower : ℕ → Bool
is_lower c = between 97 122 c

abbrev pub is_upper : ℕ → Bool
is_upper c = between 65 90 c

-- `is_ascii_hexdigit`
abbrev pub is_hexdigit : ℕ → Bool
is_hexdigit c = is_digit c || (between 97 102 c || between 65 70 c)

-- `is_ascii_alphanumeric`
abbrev pub is_alphanumeric : ℕ → Bool
is_alphanumeric c = is_digit c || (is_lower c || is_upper c)

-- `char::is_whitespace`: the property White_Space
abbrev pub is_whitespace : ℕ → Bool
is_whitespace c =
    between 9 13 c
    || (c == 32
        || (c == 0x85
            || (c == 0xa0
                || (c == 0x1680
                    || (between 0x2000 0x200a c
                        || (c == 0x2028
                            || (c == 0x2029 || (c == 0x202f || (c == 0x205f || c == 0x3000)))))))))

-- `trim_start`, and `trim`
unfoldable pub trim_start : Text → Text
trim_start [] = []
trim_start (c ∷ cs) = let rest = trim_start cs in if is_whitespace c then rest else c ∷ cs

-- the text without the whitespace at its end
unfoldable pub trim_end : Text → Text
trim_end [] = []
trim_end (c ∷ cs) = elim (trim_end cs) [
  | [] ↦ if is_whitespace c then [] else c ∷ []
  | d ∷ ds ↦ c ∷ d ∷ ds
]

unfoldable pub trim : Text → Text
unfolding trim_start trim_end
trim cs = trim_end (trim_start cs)

-- `str::len`: the bytes of a text in UTF-8
abbrev pub char_len : ℕ → ℕ
char_len c = if leb c 0x7f then 1 else if leb c 0x7ff then 2 else if leb c 0xffff then 3 else 4

abbrev pub byte_len : Text → ℕ
byte_len [] = 0
byte_len (c ∷ cs) = char_len c + byte_len cs

-- `starts_with`
abbrev pub starts_with : Text → Text → Bool
starts_with prefix cs = take (length prefix) cs == prefix

-- `ends_with`
abbrev pub ends_with : Text → Text → Bool
ends_with suffix cs =
    leb (length suffix) (length cs) && drop (length cs - length suffix) cs == suffix

-- the ranges of the bytes that may follow the first byte of a UTF-8 sequence: how many bytes follow,
-- and the range of the first of them
pub data Lead : Type 0 where
  bad : Lead
  follow : (count low high : ℕ) → Lead

unfoldable pub lead : ℕ → Lead
lead b =
    if leb b 0x7f
    then follow 0 0x80 0xbf
    else if between 0xc2 0xdf b
    then follow 1 0x80 0xbf
    else if b == 0xe0
    then follow 2 0xa0 0xbf
    else if b == 0xed
    then follow 2 0x80 0x9f
    else if between 0xe1 0xef b
    then follow 2 0x80 0xbf
    else if b == 0xf0
    then follow 3 0x90 0xbf
    else if between 0xf1 0xf3 b
    then follow 3 0x80 0xbf
    else if b == 0xf4
    then follow 3 0x80 0x8f
    else bad

-- `std::str::from_utf8(bytes).is_ok()`, inside a sequence
unfoldable pub is_utf8_from : Lead → List ℕ → Bool
unfolding lead
is_utf8_from bad bytes = false
is_utf8_from (follow zero low high) [] = true
is_utf8_from (follow (suc n) low high) [] = false
is_utf8_from (follow zero low high) (b ∷ bytes) = is_utf8_from (lead b) bytes
is_utf8_from (follow (suc n) low high) (b ∷ bytes) =
    between low high b && is_utf8_from (follow n 0x80 0xbf) bytes

unfoldable pub is_utf8 : List ℕ → Bool
unfolding is_utf8_from
is_utf8 bytes = is_utf8_from (follow 0 0x80 0xbf) bytes
