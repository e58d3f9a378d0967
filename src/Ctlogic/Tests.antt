-- ===== src/Ctlogic/Tests.antt =====
-- Examples for ctserver/src/ctlogicprocess.c.
use carrots.Base.{◌>>=◌, ℕ, ◌≡◌, refl, List, [], ◌∷◌, Option, none, some, true, false, replicate}
use carrots.Ctlogic.{
  store, split_loop, forwarded, ends_command, strlen, same_text, lower, quit_line,
}
use carrots.Mfile.{Mfile}

-- A file with "GET foo\r\n" in two blocks.
abbrev file : Mfile
file = record {
  data_block_size = 8;
  total_size = 9;
  new_header_size = 0;
  block_num = 2;
  head =
      record { written = 71 ∷ 69 ∷ 84 ∷ 32 ∷ 102 ∷ 111 ∷ 111 ∷ 13 ∷ []; current_read_count = 0 }
      ∷ record { written = 10 ∷ []; current_read_count = 0 }
      ∷ [];
  current_write_p = some 1;
  current_read_p = none;
  ccache = 10;
  is_full = false;
  is_empty = false;
}

-- "a b\r\n" behind a name of four bytes that is still in `cmd_name`: the blank goes along, and before it
-- the type of the command.
abbrev shorter_name : Option (List ℕ)
shorter_name = do
  s ←
      split_loop (97 ∷ 32 ∷ 98 ∷ 13 ∷ 10 ∷ 0 ∷ []) 0 0 false (replicate 4 0)
        (102 ∷ 111 ∷ 111 ∷ 0 ∷ [])
  forwarded (97 ∷ 32 ∷ 98 ∷ 13 ∷ 10 ∷ 0 ∷ []) s

shorter_name_test : shorter_name ≡ some (97 ∷ 32 ∷ 98 ∷ 13 ∷ 10 ∷ [])
unfolding forwarded split_loop store ends_command strlen
shorter_name_test = refl

-- "b" alone behind that name: the read starts before the buffer.
abbrev before_buffer : Option (List ℕ)
before_buffer = do
  s ← split_loop (98 ∷ 13 ∷ 10 ∷ 0 ∷ []) 0 0 false (replicate 4 0) (102 ∷ 111 ∷ 111 ∷ 0 ∷ [])
  forwarded (98 ∷ 13 ∷ 10 ∷ 0 ∷ []) s

before_buffer_test : before_buffer ≡ none
unfolding forwarded split_loop store ends_command strlen
before_buffer_test = refl

-- A type of the command that is longer than its buffer is written behind it.
type_overflow_test :
    split_loop (71 ∷ 69 ∷ 84 ∷ 32 ∷ []) 0 0 false (replicate 2 0) (replicate 4 0) ≡ none
unfolding split_loop store ends_command
type_overflow_test = refl

-- "quit\r\n" is the same as "QUIT\r\n".
same_text_test : same_text (113 ∷ 117 ∷ 105 ∷ 116 ∷ 13 ∷ 10 ∷ 0 ∷ []) quit_line ≡ true
unfolding same_text lower
same_text_test = refl
