-- ===== src/Mfile/Line.antt =====
-- libmfile/mfile.c: `mgetc` and `mread_line`.
pub mod Char
pub mod Lines
use carrots.Base.{
  ℕ, zero, suc, ◌+◌, ◌-◌, List, [], ◌∷◌, ◌++◌, Option, none, some, Bool, true, false, ◌==◌,
  if◌then◌else◌, length, get_elem?,
}
use carrots.Mfile.{
  DataBlock, Mfile, current_write_count, start_reader, advance_reader, reading_block, store_reader,
  set_read_count,
}

-- The byte at `curr_p` and the handler; none is a byte behind the written ones.
take_char : Mfile → ℕ → DataBlock → Option ℕ → Option (ℕ × Mfile)
take_char h p b none = none
take_char h p b (some c) =
    let count = b.current_read_count + 1 in
    some (c, store_reader p (set_read_count count b) (count == current_write_count b) h)

-- `mgetc`: 0 when there is no block, or none after a drained one.
unfoldable pub mgetc : Mfile → Option (ℕ × Mfile)
unfolding take_char
mgetc h = elim (start_reader h) [
  | none ↦ some (0, h)
  | some h₁ ↦ elim (advance_reader h₁) [
    | none ↦ some (0, h₁)
    | some h₂ ↦ elim (reading_block h₂) [
      | none ↦ none
      | some (p, b) ↦ take_char h₂ p b (get_elem? b.written b.current_read_count)
    ]
  ]
]

abbrev pub cr : ℕ
cr = b'\r'

abbrev pub lf : ℕ
lf = b'\n'

-- What `mread_line` returns, the bytes that it wrote from the start of the buffer on, and the
-- handler.
pub record LineResult : Type 0 where
  pub returned : ℕ
  pub line : List ℕ
  pub handler : Mfile

abbrev pub with_cache : ℕ → Mfile → Mfile
with_cache c h = record h { ccache = c }

-- `*d`: the next character, or the cached one, in whose place `\r` is then cached.
unfoldable pub next_char : Mfile → Option (ℕ × Mfile)
next_char h = if h.ccache == lf then mgetc h else some (h.ccache, with_cache cr h)

-- The character after `\r` is cached, and decides how the line ends.
unfoldable pub end_line : List ℕ → Mfile → Option LineResult
end_line out h = elim (mgetc h) [
  | none ↦ none
  | some (c, h₁) ↦
      let h₂ = with_cache c h₁ in
      some (
        if c == 0
        then record { returned = length out + 2; line = out ++ cr ∷ lf ∷ 0 ∷ []; handler = h₂ }
        else (if c == lf
            then record { returned = length out + 2; line = out ++ cr ∷ lf ∷ []; handler = h₂ }
            else record { returned = length out + 1; line = out ++ cr ∷ []; handler = h₂ }))
]

-- The loop of `mread_line` with the rounds left and the bytes that stand in the buffer. When the
-- rounds run out the line was too long, and `r` is still 0.
unfoldable pub line_loop : ℕ → List ℕ → Mfile → Option LineResult
line_loop zero out h = some (record { returned = 0; line = out; handler = h })
line_loop (suc rounds) out h = elim (next_char h) [
  | none ↦ none
  | some (c, h₁) ↦
      let again = line_loop rounds (out ++ c ∷ []) h₁ in
      if c == cr
      then end_line out h₁
      else (if c == lf
          then some (record { returned = length out + 1; line = out ++ lf ∷ []; handler = h₁ })
          else (if c == 0
              then some (record { returned = length out; line = out ++ 0 ∷ []; handler = h₁ })
              else again))
]

-- `mread_line` into a buffer of `n` bytes, `n` at least 2
unfoldable pub mread_line : ℕ → Mfile → Option LineResult
mread_line n h = line_loop (n - 2) [] h
