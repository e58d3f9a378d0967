-- ===== src/Utf8/Check.antt =====
-- str_utf8/str_utf8.c: `utf8_check` against the ranges of the leading bytes.
use carrots.Base.{
  true-ne, ℕ, zero, suc, ◌<◌, ◌≡◌, refl, sym, inl, inr, Bool, true, ltb, ◌==◌, ◌&&◌, ==_iff,
  Bool-cases, if◌then◌else◌, arith,
}
use carrots.Utf8.{utf8_check}

-- The length of the character that a byte starts, by ranges: a continuation byte, 254 and 255 start
-- none.
unfoldable pub char_size : ℕ → ℕ
char_size c =
    if ltb c 128
    then 1
    else (if ltb c 192
        then 0
        else (if ltb c 224
            then 2
            else (if ltb c 240
                then 3
                else (if ltb c 248
                    then 4
                    else (if ltb c 252 then 5 else (if ltb c 254 then 6 else 0))))))

agrees : ℕ → Bool
agrees zero = true
agrees (suc c) = (utf8_check c == char_size c) && agrees c

agrees-all : agrees 256 ≡ true
unfolding agrees utf8_check char_size
agrees-all = refl

agrees-below : (n c : ℕ) → agrees n ≡ true → c < n → utf8_check c ≡ char_size c
unfolding agrees
agrees-below zero c e h = absurd (omega arith)
agrees-below (suc n) c e h = elim (Bool-cases (utf8_check n == char_size n)) [
  | inr off ↦ absurd (true-ne (sym (rw off at e)))
  | inl on ↦ elim (Bool-cases (c == n)) [
    | inl here ↦ rw ((==_iff c n).0 here) ((==_iff (utf8_check n) (char_size n)).0 on)
    | inr there ↦ agrees-below n c (rw on at e) (ground arith)
  ]
]

-- The masks of utf8_check say for every byte what the ranges of the leading bytes say.
pub utf8_check-char_size : (c : ℕ) → c < 256 → utf8_check c ≡ char_size c
utf8_check-char_size c h = agrees-below 256 c agrees-all h
