-- ===== src/Ctlogic.antt =====
-- ctserver/src/ctlogicprocess.c: the commands that the child takes line by line from its `Mfile`. None is
-- undefined behaviour: a read before the start of the buffer.
pub mod Forward
pub mod Whole
mod Tests
use carrots.Base.{
  ℕ, zero, suc, ◌+◌, ◌-◌, List, [], ◌∷◌, ◌++◌, Option, none, some, Bool, true, false, not, ltb, leb,
  ◌==◌, ◌&&◌, ◌||◌, if◌then◌else◌, length, take, drop, set, replicate, get_or, ◌>>=◌,
}
use carrots.Mfile.{Mfile, mseek, mread}
use carrots.Mfile.Line.{mread_line}

abbrev pub max_line : ℕ
max_line = 1024

unfoldable pub strlen : List ℕ → ℕ
strlen [] = 0
strlen (c ∷ cs) = let n = strlen cs in if c == 0 then 0 else suc n

-- Where the splitting of a line stops, and the two buffers.
pub record Split : Type 0 where
  pub at : ℕ
  pub cmd_type : List ℕ
  pub cmd_name : List ℕ

unfoldable pub ends_command : ℕ → Bool
ends_command c = c == 0 || c == 13 || c == 10

-- A character that is stored into a buffer; none is a write outside of it.
unfoldable pub store : List ℕ → ℕ → ℕ → Option (List ℕ)
store [] j ch = none
store (b ∷ bs) zero ch = some (ch ∷ bs)
store (b ∷ bs) (suc j) ch = do stored ← store bs j ch; some (b ∷ stored)

-- The loop over the characters of `buf` from `i` on; `named` is whether `flag` is 1.
unfoldable pub split_loop : List ℕ → ℕ → ℕ → Bool → List ℕ → List ℕ → Option Split
split_loop [] i j named type_buf name_buf =
    some (record { at = i; cmd_type = type_buf; cmd_name = name_buf })
split_loop (c ∷ cs) i j named type_buf name_buf =
    let second = (do
      stored ← store name_buf j 0
      some (record { at = i; cmd_type = type_buf; cmd_name = stored })) in
    let next = (do stored ← store type_buf j 0; split_loop cs (suc i) 0 true stored name_buf) in
    let in_name = (do
      stored ← store name_buf j c
      split_loop cs (suc i) (suc j) named type_buf stored) in
    let in_type = (do
      stored ← store type_buf j c
      split_loop cs (suc i) (suc j) named stored name_buf) in
    if ends_command c
    then some (record { at = i; cmd_type = type_buf; cmd_name = name_buf })
    else if c == 32
    then (if named then second else next)
    else if named
    then in_name
    else in_type

-- The bytes that are written to the client: from the name, as long as `cmd_name` is, to the end of the line.
unfoldable pub forwarded : List ℕ → Split → Option (List ℕ)
forwarded buf s =
    let n = strlen s.cmd_name in
    if leb n s.at then some (take (strlen (drop s.at buf) + n) (drop (s.at - n) buf)) else none

unfoldable pub lower : ℕ → ℕ
lower c = if leb 65 c && leb c 90 then c + 32 else c

-- `strcasecmp(buf, text) == 0`
unfoldable pub same_text : List ℕ → List ℕ → Bool
same_text [] [] = true
same_text [] (d ∷ ds) = d == 0
same_text (c ∷ cs) [] = c == 0
same_text (c ∷ cs) (d ∷ ds) = lower c == lower d && (c == 0 || same_text cs ds)

-- "QUIT\r\n", "220 Bye.\r\n" and "FAIL To Write"
abbrev pub quit_line : List ℕ
quit_line = 81 ∷ 85 ∷ 73 ∷ 84 ∷ 13 ∷ 10 ∷ []

abbrev pub bye_line : List ℕ
bye_line = 50 ∷ 50 ∷ 48 ∷ 32 ∷ 66 ∷ 121 ∷ 101 ∷ 46 ∷ 13 ∷ 10 ∷ []

abbrev pub fail_line : List ℕ
fail_line = 70 ∷ 65 ∷ 73 ∷ 76 ∷ 32 ∷ 84 ∷ 111 ∷ 32 ∷ 87 ∷ 114 ∷ 105 ∷ 116 ∷ 101 ∷ []

-- A write to `client_fd`, and one to `sockfd`.
pub data Output : Type 0 where
  to_client : List ℕ → Output
  to_socket : List ℕ → Output

-- How `socket_protocol_process` ends: whether it exits, what it has written, and the file.
pub record Processed : Type 0 where
  pub exits : Bool
  pub outputs : List Output
  pub mfp : Mfile

-- `buf` when a line is written over its start.
unfoldable pub overlay : List ℕ → List ℕ → List ℕ
overlay line buf = line ++ drop (length line) buf

unfoldable pub cleared : List ℕ
cleared = replicate max_line 0

-- The rest of a line that was too long: whether all writes worked, what was written, and the file. The
-- pieces that `mread_line` could not end are written with its result 0 for their length.
unfoldable pub rest_of_line :
    ℕ → (ℕ → Bool) → List ℕ → List Output → Mfile → Option (Bool × List Output × Mfile)
rest_of_line zero works buf out mfp = none
rest_of_line (suc fuel) works buf out mfp = do
  r ← mread_line max_line mfp
  let line = overlay r.line buf
  let something = not (get_or line 0 0 == 0)
  let rest = rest_of_line fuel works cleared (out ++ to_client [] ∷ []) r.handler
  if r.returned == 0 && something
      then (if works (length out) then rest else some (false, out ++ to_client [] ∷ [], r.handler))
      else if something
      then some (works (length out), out ++ to_client (take r.returned line) ∷ [], r.handler)
      else some (true, out, r.handler)

-- The loop of `socket_protocol_process`; `works` says whether the write after so many others does.
unfoldable pub process_loop :
    ℕ → (ℕ → Bool) → Bool → List ℕ → List ℕ → List Output → Mfile → Option Processed
process_loop zero works finished type_buf name_buf out mfp = none
process_loop (suc fuel) works finished type_buf name_buf out mfp = do
  r ← mread_line max_line mfp
  let buf = overlay r.line cleared
  let ended = finished && not (r.returned == 0)
  let split = split_loop (take (r.returned + 1) buf) 0 0 false type_buf name_buf
  if r.returned == 0 && get_or buf 0 0 == 0
      then some (record { exits = false; outputs = out; mfp = r.handler })
      else if same_text buf quit_line
      then (do
        s ← split
        q ← mread 4196 r.handler
        some (record { exits = true; outputs = out ++ to_socket bye_line ∷ []; mfp = q.handler }))
      else (do
        s ← split
        bytes ← forwarded buf s
        let out₂ = out ++ to_client bytes ∷ []
        if works (length out)
            then (if ended
                then process_loop fuel works ended s.cmd_type s.cmd_name out₂ r.handler
                else (do
                  more ← rest_of_line fuel works buf out₂ r.handler
                  if more.0
                      then process_loop fuel works ended s.cmd_type s.cmd_name more.1 more.2
                      else some (record { exits = false; outputs = more.1; mfp = more.2 })))
            else some (record {
              exits = false;
              outputs = out₂ ++ to_socket fail_line ∷ [];
              mfp = r.handler;
            }))

-- `socket_protocol_process`
unfoldable pub socket_protocol_process : ℕ → (ℕ → Bool) → Mfile → Option Processed
socket_protocol_process fuel works mfp = process_loop fuel works true cleared cleared [] (mseek mfp)
