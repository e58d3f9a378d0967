-- ===== src/Utf8/Tests.antt =====
-- str_utf8/str_utf8.c: runs at concrete inputs.
use carrots.Base.{ℕ, ◌≡◌, refl, List, [], ◌∷◌, some, arith}
use carrots.Utf8.{
  utf8_check, strlen_loop, utf8_strlen, strncpy_loop, utf8_strncpy, terminated, utf8_ltrim,
}
use carrots.Utf8.Count.{Counted, utf8_strlen-Counted}
use carrots.Utf8.Tidied.{Stored, utf8_strncpy-Stored}

-- Two ideographic spaces around a space, an ideograph and a letter.
abbrev line : List ℕ
line = 227 ∷ 128 ∷ 128 ∷ 32 ∷ 227 ∷ 128 ∷ 128 ∷ 228 ∷ 184 ∷ 173 ∷ 97 ∷ []

line-length : utf8_strlen (some line) ≡ some 5
unfolding utf8_strlen strlen_loop utf8_check
line-length = refl

line-trimmed : utf8_ltrim line ≡ 228 ∷ 184 ∷ 173 ∷ 97 ∷ []
unfolding utf8_ltrim
line-trimmed = refl

-- Spaces in a row, a line end and a letter too many.
line-copied :
    utf8_strncpy (some (32 ∷ 97 ∷ 32 ∷ 13 ∷ 32 ∷ 98 ∷ 99 ∷ [])) 3
    ≡ some (terminated (97 ∷ 32 ∷ 98 ∷ []))
unfolding utf8_strncpy strncpy_loop utf8_check
line-copied = refl

utf8_strlen-Counted_example : Counted line 0 (utf8_strlen (some line))
utf8_strlen-Counted_example = utf8_strlen-Counted line

utf8_strncpy-Stored_example :
    (out : List ℕ) × (utf8_strncpy (some line) 3 ≡ some (terminated out)) × Stored line 3 out
utf8_strncpy-Stored_example = utf8_strncpy-Stored line 3 (omega arith)
