-- ===== src/Utf8.antt =====
-- str_utf8/str_utf8.c: characters of UTF-8 strings. A C string is the list of its bytes before the
-- NUL, each from 1 to 255; loops run on fuel, one unit for each byte.
pub mod Check
pub mod Count
pub mod Copy
pub mod Tidied
pub mod Trim
mod Tests
use carrots.Base.{
  ℕ, zero, suc, ◌+◌, List, [], ◌∷◌, ◌++◌, Option, none, some, Bool, true, false, leb, ltb, ◌==◌,
  ◌&&◌, ◌||◌, if◌then◌else◌, length, take, drop, bit_and,
}

-- `utf8_check`: the bytes of the character that starts with `c`, 0 if none does.
unfoldable pub utf8_check : ℕ → ℕ
utf8_check c =
    if bit_and c 128 == 0
    then 1
    else (if bit_and c 224 == 192
        then 2
        else (if bit_and c 240 == 224
            then 3
            else (if bit_and c 248 == 240
                then 4
                else (if bit_and c 252 == 248
                    then 5
                    else (if bit_and c 254 == 252 then 6 else 0)))))

-- `tmp > 0 && i + tmp <= slen`, on what is left from `i` on
abbrev pub fits : ℕ → List ℕ → Bool
fits tmp rest = ltb 0 tmp && leb tmp (length rest)

-- The loop of `utf8_strlen`.
unfoldable pub strlen_loop : ℕ → List ℕ → ℕ → Option ℕ
strlen_loop fuel [] ulen = some ulen
strlen_loop zero (c ∷ cs) ulen = none
strlen_loop (suc fuel) (c ∷ cs) ulen =
    let rest = strlen_loop fuel (drop (utf8_check c) (c ∷ cs)) (suc ulen) in
    if fits (utf8_check c) (c ∷ cs) then rest else some ulen

-- `utf8_strlen`; no string is NULL.
unfoldable pub utf8_strlen : Option (List ℕ) → Option ℕ
utf8_strlen none = some 0
utf8_strlen (some src) = strlen_loop (length src) src 0

-- `src[i] == '\r' || src[i] == '\n' || src[i] == '\t'`
abbrev pub is_skipped : ℕ → Bool
is_skipped c = c == 13 || c == 10 || c == 9

-- `*p++` of the bytes, before what the rest of the loop stores
abbrev pub put : List ℕ → Option (List ℕ) → Option (List ℕ)
put bytes none = none
put bytes (some out) = some (bytes ++ out)

-- The loop of `utf8_strncpy`: what it stores from `p` on; `room` is `max - n`.
unfoldable pub strncpy_loop : ℕ → List ℕ → ℕ → Bool → Option (List ℕ)
strncpy_loop fuel [] room flag = some []
strncpy_loop fuel (c ∷ cs) zero flag = some []
strncpy_loop zero (c ∷ cs) (suc room) flag = none
strncpy_loop (suc fuel) (c ∷ cs) (suc room) flag =
    let skip = strncpy_loop fuel cs (suc room) flag in
    let blank = strncpy_loop fuel cs room true in
    let char = strncpy_loop fuel (drop (utf8_check c) (c ∷ cs)) room false in
    if is_skipped c
    then skip
    else (if c == 32
        then (if flag then skip else put (c ∷ []) blank)
        else (if fits (utf8_check c) (c ∷ cs)
            then put (take (utf8_check c) (c ∷ cs)) char
            else some []))

-- What `utf8_strncpy` leaves in `dest`: nothing new, or the bytes and a NUL.
pub data Written : Type 0 where
  untouched : Written
  terminated : List ℕ → Written

abbrev pub terminate : Option (List ℕ) → Option Written
terminate none = none
terminate (some out) = some (terminated out)

-- `utf8_strncpy`; `dest` is not NULL.
unfoldable pub utf8_strncpy : Option (List ℕ) → ℕ → Option Written
utf8_strncpy none max = some untouched
utf8_strncpy (some src) max =
    if max == 0 then some untouched else terminate (strncpy_loop (length src) src max true)

-- `0 == strncmp(str, utf8_space, 3)`
abbrev pub is_wide_space : ℕ → ℕ → ℕ → Bool
is_wide_space c d e = c == 227 && d == 128 && e == 128

-- `utf8_ltrim`: the string from the pointer that it returns on.
unfoldable pub utf8_ltrim : List ℕ → List ℕ
utf8_ltrim [] = []
utf8_ltrim (c ∷ []) = if c == 32 then [] else c ∷ []
utf8_ltrim (c ∷ d ∷ []) = let blank = utf8_ltrim (d ∷ []) in if c == 32 then blank else c ∷ d ∷ []
utf8_ltrim (c ∷ d ∷ e ∷ more) =
    let blank = utf8_ltrim (d ∷ e ∷ more) in
    let wide = utf8_ltrim more in
    if c == 32 then blank else (if is_wide_space c d e then wide else c ∷ d ∷ e ∷ more)
