-- ===== src/Text.antt =====
-- What the backend and its tools use of Go's packages strings and bufio, on whole texts: lines,
-- prefixes, trimming and splitting.
pub mod Lines
use Prim.Native.Char.{Char, code}
use Prim.Native.String.{String, ◌++◌, len, slice}
use astron_claw.Prelude.{
  ℕ, Bool, true, false, not, ◌&&◌, ◌||◌, List, [], ◌∷◌, leb, ltb, ◌==◌, if◌then◌else◌, str_eq,
  starts_with,
}

push_front : Char → List String → List String
push_front c [] = String.◌∷◌ c String.[] ∷ []
push_front c (l ∷ ls) = String.◌∷◌ c l ∷ ls

-- the lines that bufio.ScanLines finds, before a carriage return at their end is dropped
unfoldable pub lines_of : String → List String
unfolding push_front
lines_of String.[] = []
lines_of (String.◌∷◌ c s) =
    let rest = lines_of s in if code c == b'\n' then String.[] ∷ rest else push_front c rest

-- dropCR of bufio
unfoldable pub drop_cr : String → String
drop_cr String.[] = String.[]
drop_cr (String.◌∷◌ c s) =
    let rest = drop_cr s in if str_eq s "" && code c == b'\r' then String.[] else String.◌∷◌ c rest

-- the character is none of `\n` and `\r`
abbrev pub is_plain : Char → Bool
is_plain c = not (code c == b'\n') && not (code c == b'\r')

-- the text has no line break
unfoldable pub one_line : String → Bool
one_line String.[] = true
one_line (String.◌∷◌ c s) = is_plain c && one_line s

-- strings.TrimPrefix
unfoldable pub trim_prefix : String → String → String
trim_prefix s p = if starts_with s p then slice s (len p) (len s) else s

-- unicode.IsSpace
unfoldable pub is_space : Char → Bool
is_space c =
    let n = code c in
    (leb 9 n && leb n 13)
    || n == 32
    || n == 133
    || n == 160
    || n == 5760
    || (leb 8192 n && leb n 8202)
    || n == 8232
    || n == 8233
    || n == 8239
    || n == 8287
    || n == 12288

unfoldable pub trim_left : String → String
trim_left String.[] = String.[]
trim_left (String.◌∷◌ c s) = let rest = trim_left s in if is_space c then rest else String.◌∷◌ c s

unfoldable pub trim_right : String → String
trim_right String.[] = String.[]
trim_right (String.◌∷◌ c s) =
    let rest = trim_right s in if str_eq rest "" && is_space c then String.[] else String.◌∷◌ c rest

-- strings.TrimSpace
unfoldable pub trim_space : String → String
unfolding trim_left trim_right
trim_space s = trim_left (trim_right s)

-- strings.Split at one character
unfoldable pub split_at : ℕ → String → List String
unfolding push_front
split_at sep String.[] = String.[] ∷ []
split_at sep (String.◌∷◌ c s) =
    let rest = split_at sep s in if code c == sep then String.[] ∷ rest else push_front c rest

-- strings.Contains
unfoldable pub contains : String → String → Bool
contains String.[] p = str_eq p ""
contains (String.◌∷◌ c s) p = starts_with (String.◌∷◌ c s) p || contains s p

-- strings.HasSuffix
unfoldable pub ends_with : String → String → Bool
ends_with String.[] p = str_eq p ""
ends_with (String.◌∷◌ c s) p = str_eq (String.◌∷◌ c s) p || ends_with s p
