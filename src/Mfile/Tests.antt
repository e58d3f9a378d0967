-- ===== src/Mfile/Tests.antt =====
-- libmfile/mfile.c on concrete files: runs, and the theorems at inputs that meet their hypotheses.
use carrots.Base.{
  ℕ, zero, suc, ◌+◌, ◌-◌, ◌<◌, ◌≤◌, ◌≡◌, ◌≢◌, ◌⊎◌, refl, ap, List, [], ◌∷◌, ◌++◌, Option, none,
  some, Bool, true, false, length, length-append, take, drop, arith, All,
}
use carrots.Base.Int.{ℤ, pos, negsuc}
use carrots.Mfile.{
  DataBlock, Mfile, mopen, opened, mwrite, write_loop, open_block, current_block, block_at,
  mwrite_head, mread, read_loop, start_reader, reading_block, advance_reader, mseek, rewind_blocks,
  mseek_pos, seek_blocks, mfile_copy, copy_loop, copy_chunk, ReadResult, CopyResult, msize,
  fresh_handler, current_write_count,
}
use carrots.Mfile.Contents.{contents, unread}
use carrots.Mfile.Invariant.{IsValid, IsReadable, IsFilled}
use carrots.Mfile.Write.{WriteOutcome, mwrite-stores}
use carrots.Mfile.Read.{Reads, mread-Reads}
use carrots.Mfile.Seek.{mseek_pos-lands, mseek_pos-block_end}
use carrots.Mfile.Copy.{mfile_copy-copies}
use carrots.Mfile.RoundTrip.{mread-mseek-mwrite}
use carrots.Mfile.Output.{mwrite_file, mwrite_file_cases}
use carrots.Mfile.Line.{mgetc, mread_line}
use carrots.Mfile.Line.Char.{Gets, mgetc-Gets}
use carrots.Mfile.Line.Lines.{Line, mread_line-crlf, mread_line-invents_cr}

abbrev first_block : DataBlock
first_block = record { written = 1 ∷ 2 ∷ 3 ∷ 4 ∷ []; current_read_count = 0 }

abbrev second_block : DataBlock
second_block = record { written = 5 ∷ 6 ∷ []; current_read_count = 0 }

-- Six bytes in blocks of four.
abbrev sample : Mfile
sample = record {
  total_size = 6;
  new_header_size = 0;
  head = first_block ∷ second_block ∷ [];
  block_num = 2;
  current_write_p = some 1;
  current_read_p = none;
  is_full = false;
  is_empty = false;
  data_block_size = 4;
  ccache = b'\n';
}

abbrev always : ℕ → Bool
always k = true

program : Unit {0}
unfolding mopen mwrite write_loop open_block current_block block_at mread read_loop start_reader
    reading_block advance_reader mseek rewind_blocks mseek_pos seek_blocks mfile_copy copy_loop
    copy_chunk
program = tt

write_runs : mwrite always (1 ∷ 2 ∷ 3 ∷ 4 ∷ 5 ∷ 6 ∷ []) (fresh_handler 4) ≡ some (pos 1, sample)
unfolding program
write_runs = refl

sample-IsValid : IsValid sample
sample-IsValid = record {
  positive = omega arith;
  counted = refl;
  fits = omega arith;
  tail_room = λ _. record {
    before = first_block ∷ [];
    last = second_block;
    whole = refl;
    pointer = refl;
    room = omega arith;
  };
}

sample-IsFilled : All IsFilled sample.head
sample-IsFilled = omega arith

sample-IsReadable : IsReadable sample
sample-IsReadable =
    carrots.Base.inl (record { pointer = refl; undrained = refl; fresh = omega arith })

mwrite-stores_example :
    WriteOutcome
      (λ k. carrots.Base.ltb k 3)
      (record sample { total_size = 9 })
      (7 ∷ 8 ∷ 9 ∷ [])
      (mwrite (λ k. carrots.Base.ltb k 3) (7 ∷ 8 ∷ 9 ∷ []) sample)
mwrite-stores_example = mwrite-stores (λ k. carrots.Base.ltb k 3) (7 ∷ 8 ∷ 9 ∷ []) sample-IsValid

mread-Reads_example :
    ((sample.head ≡ [])
      × (mread 5 sample ≡ some (record { returned = negsuc 0; bytes = []; handler = sample })))
    ⊎ Reads 5 sample (mread 5 sample)
mread-Reads_example = mread-Reads 5 sample-IsReadable

mread-mseek-mwrite_example :
    (h' : Mfile) × (r : ReadResult) × (mwrite always (7 ∷ 8 ∷ 9 ∷ []) sample ≡ some (pos 1, h'))
    × (mread 20 (mseek h') ≡ some r)
    × (r.bytes ≡ 1 ∷ 2 ∷ 3 ∷ 4 ∷ 5 ∷ 6 ∷ 7 ∷ 8 ∷ 9 ∷ [])
    × (r.returned ≡ pos (6 + 3))
    × (msize sample ≡ pos 6)
    × (msize h' ≡ pos 9)
mread-mseek-mwrite_example =
    mread-mseek-mwrite always (7 ∷ 8 ∷ 9 ∷ []) 20 (λ _. refl) sample-IsValid sample-IsFilled
      (omega arith) (omega arith) (omega arith) (omega arith)

inside_first :
    (xs : List DataBlock) (b : DataBlock) (ys : List DataBlock)
    → sample.head ≡ xs ++ b ∷ ys
    → 2 ≢ length (contents xs) + current_write_count b
inside_first [] b ys e = ground arith
inside_first (x ∷ []) b ys e = ground arith
inside_first (x ∷ y ∷ xs) b ys e = absurd (omega (arith, ap length e, length-append xs (b ∷ ys)))

mseek_pos-lands_example :
    (unread (mseek_pos sample 2) ≡ 3 ∷ 4 ∷ 5 ∷ 6 ∷ [])
    × (contents (mseek_pos sample 2).head ≡ contents sample.head)
    × IsReadable (mseek_pos sample 2)
mseek_pos-lands_example =
    mseek_pos-lands sample 2 (λ e. cc) sample-IsFilled (omega arith) inside_first

mseek_pos-block_end_example :
    (r : ReadResult) × (mread 10 (mseek_pos sample (0 + 4)) ≡ some r)
    × (r.returned ≡ pos 0)
    × (r.bytes ≡ [])
    × (unread r.handler ≡ 5 ∷ 6 ∷ [])
mseek_pos-block_end_example =
    mseek_pos-block_end sample [] first_block (second_block ∷ []) 10 refl sample-IsFilled

mfile_copy-copies_example :
    (copy : CopyResult) × (mfile_copy always (fresh_handler 3) sample 2 6 ≡ some copy)
    × (copy.returned ≡ pos (6 - 2))
    × (contents copy.dest.head ≡ 3 ∷ 4 ∷ 5 ∷ 6 ∷ [])
    × (contents copy.source.head ≡ contents sample.head)
    × IsValid copy.dest
mfile_copy-copies_example =
    mfile_copy-copies always {dest = fresh_handler 3} sample 2 6 (λ _. refl)
      (record { positive = omega arith; counted = refl; fits = tt; tail_room = λ e. absurd (cc e) })
      (λ e. cc) sample-IsFilled (omega arith) (omega arith) (omega arith) inside_first

-- A `writev` that writes all of its buffers.
abbrev write_all : List (List ℕ) → ℤ
write_all iov = pos (length (carrots.Mfile.Output.bytes_of iov))

mwrite_file_cases_example :
    ((1024 ≤ 2) × (mwrite_file write_all sample ≡ negsuc 0))
    ⊎ ((2 < 1024) × (contents sample.head ≡ []) × (mwrite_file write_all sample ≡ pos 0))
    ⊎ ((2 < 1024)
        × (contents sample.head ≢ [])
        × ((iov : List (List ℕ)) × (carrots.Mfile.Output.bytes_of iov ≡ contents sample.head)
            × (mwrite_file write_all sample ≡ carrots.Mfile.Output.or_minus_one (write_all iov))))
mwrite_file_cases_example = mwrite_file_cases write_all sample

mgetc-Gets_example : Gets sample (1 ∷ 2 ∷ 3 ∷ 4 ∷ 5 ∷ 6 ∷ []) (mgetc sample)
mgetc-Gets_example = mgetc-Gets sample sample-IsReadable

-- A file of one block with the given bytes.
abbrev text_file : List ℕ → ℕ → Mfile
text_file bytes cache = record {
  total_size = length bytes;
  new_header_size = 0;
  head = record { written = bytes; current_read_count = 0 } ∷ [];
  block_num = 1;
  current_write_p = some 0;
  current_read_p = none;
  is_full = false;
  is_empty = false;
  data_block_size = 8888;
  ccache = cache;
}

mread_line-crlf_example :
    Line 4
      (b'H' ∷ b'I' ∷ 13 ∷ 10 ∷ [])
      (b'X' ∷ [])
      10
      (mread_line 1024 (text_file (b'H' ∷ b'I' ∷ 13 ∷ 10 ∷ b'X' ∷ []) 10))
mread_line-crlf_example =
    mread_line-crlf (b'H' ∷ b'I' ∷ []) (b'X' ∷ []) 1024 (omega arith) (omega arith) (record {
      readable =
          carrots.Base.inl (record { pointer = refl; undrained = refl; fresh = omega arith });
      ahead = refl;
      cached = refl;
    })

mread_line-invents_cr_example :
    Line 2 (b'x' ∷ 13 ∷ []) (b'z' ∷ []) b'y' (mread_line 1024 (text_file (b'y' ∷ b'z' ∷ []) b'x'))
mread_line-invents_cr_example =
    mread_line-invents_cr 1024 (omega arith) (omega arith) (omega arith) (record {
      readable =
          carrots.Base.inl (record { pointer = refl; undrained = refl; fresh = omega arith });
      ahead = refl;
      cached = refl;
    })
