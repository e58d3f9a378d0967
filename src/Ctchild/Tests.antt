-- ===== src/Ctchild/Tests.antt =====
-- ctserver/src/ctchild.c: runs at concrete inputs.
use carrots.Base.{◌≡◌, refl, [], ◌∷◌, none, some, false, arith}
use carrots.Mfile.{Mfile}
use carrots.Mfile.Invariant.{IsValid}
use carrots.Ctchild.{
  got, again, no_value, read_buf_to_mfp_from_sockfd, read_buf_from_sockfd, segment_loop,
}
use carrots.Ctchild.Socket.{Saved, read_buf_to_mfp_from_sockfd-Saved}
use carrots.Ctchild.Segment.{
  Takes, crlf, always, read_buf_from_sockfd-Takes, read_buf_from_sockfd-loses,
}

-- A file with one block of four bytes, two of them written.
abbrev file : Mfile
file = record {
  data_block_size = 4;
  total_size = 2;
  new_header_size = 0;
  block_num = 1;
  head = record { written = 1 ∷ 2 ∷ []; current_read_count = 0 } ∷ [];
  current_write_p = some 0;
  current_read_p = none;
  ccache = 0;
  is_full = false;
  is_empty = false;
}

file-IsValid : IsValid file
file-IsValid = record {
  positive = omega arith;
  counted = refl;
  fits = (omega arith, tt);
  tail_room = λ e. record {
    before = [];
    last = record { written = 1 ∷ 2 ∷ []; current_read_count = 0 };
    whole = refl;
    pointer = refl;
    room = omega arith;
  };
}

read_buf_to_mfp_from_sockfd-Saved_example :
    Saved always file
      (5 ∷ 6 ∷ 7 ∷ 8 ∷ [])
      2
      (read_buf_to_mfp_from_sockfd always (got (5 ∷ 6 ∷ []) ∷ got (7 ∷ 8 ∷ []) ∷ again ∷ []) file)
read_buf_to_mfp_from_sockfd-Saved_example =
    read_buf_to_mfp_from_sockfd-Saved always ((5 ∷ 6 ∷ []) ∷ (7 ∷ 8 ∷ []) ∷ []) file file-IsValid

read_buf_from_sockfd-Takes_example :
    Takes file
      (65 ∷ 66 ∷ 67 ∷ 13 ∷ 10 ∷ [])
      5
      (read_buf_from_sockfd always 4 crlf (got (65 ∷ 66 ∷ 67 ∷ 13 ∷ 10 ∷ [])) file)
read_buf_from_sockfd-Takes_example =
    read_buf_from_sockfd-Takes 4 (65 ∷ 66 ∷ 67 ∷ []) file (refl, (refl, (refl, tt))) file-IsValid

read_buf_from_sockfd-loses_example :
    read_buf_from_sockfd always 4 crlf (got (65 ∷ 66 ∷ [])) file ≡ some (no_value, file)
read_buf_from_sockfd-loses_example =
    read_buf_from_sockfd-loses 4 (65 ∷ 66 ∷ []) file (refl, (refl, tt)) (omega arith)

-- A CR before the line's end: the second CR is not taken as the start of the end.
two_crs : read_buf_from_sockfd always 9 crlf (got (13 ∷ 13 ∷ 10 ∷ [])) file ≡ some (no_value, file)
unfolding read_buf_from_sockfd segment_loop
two_crs = refl
