-- ===== src/Ctutils.antt =====
-- ctserver/src/ctutils.c: descriptors, unique ids and copying, and how the child program is given its
-- descriptors in ctserver/src/ctserver.c.
pub mod Move
pub mod Bytes
mod Tests
use carrots.Base.{
  ℕ, zero, suc, ◌+◌, ◌/◌, ◌%◌, List, [], ◌∷◌, Option, none, some, Bool, true, false, ltb, ◌==◌,
  if◌then◌else◌, ◌>>=◌,
}

-- The open file behind each descriptor.
abbrev pub Fds : Type 0
Fds = ℕ → Option ℕ

-- `close`
unfoldable pub close_fd : ℕ → Fds → Fds
close_fd d fds x = if x == d then none else fds x

unfoldable pub put_fd : ℕ → Option ℕ → Fds → Fds
put_fd d file fds x = if x == d then file else fds x

-- Whether 0 was returned, else -1, and the descriptors.
pub record FdResult : Type 0 where
  pub ok : Bool
  pub fds : Fds

-- `fd_copy`; `dup` says what `fcntl` returns for F_DUPFD.
unfoldable pub fd_copy : (Fds → ℕ → Option ℕ) → ℕ → ℕ → Fds → FdResult
fd_copy dup to from fds = if to == from then record { ok = true; fds = fds } else elim (fds from) [
  | none ↦ record { ok = false; fds = fds }
  | some file ↦
      let closed = close_fd to fds in
      elim (dup closed to) [
        | none ↦ record { ok = false; fds = closed }
        | some d ↦ record { ok = true; fds = put_fd d (closed from) closed }
      ]
]

-- `fd_move`
unfoldable pub fd_move : (Fds → ℕ → Option ℕ) → ℕ → ℕ → Fds → FdResult
fd_move dup to from fds =
    let copied = fd_copy dup to from fds in
    if to == from
    then record { ok = true; fds = fds }
    else if copied.ok
    then record { ok = true; fds = close_fd from copied.fds }
    else copied

unfoldable pub and_move : (Fds → ℕ → Option ℕ) → ℕ → ℕ → FdResult → FdResult
and_move dup to from m = if m.ok then fd_move dup to from m.fds else m

-- What the child does behind `fork`, before it runs the program; it exits when that is not ok.
unfoldable pub take_descriptors : (Fds → ℕ → Option ℕ) → ℕ → ℕ → (ℕ × ℕ) → (ℕ × ℕ) → Fds → FdResult
take_descriptors dup listen_fd connfd pi1 pi2 fds =
    let left = close_fd listen_fd (close_fd pi2.0 (close_fd pi1.1 fds)) in
    and_move dup 1 pi2.1 (and_move dup 0 pi1.0 (fd_move dup 2 connfd left))

-- A digit of "%02X"
unfoldable pub hex_digit : ℕ → ℕ
hex_digit n = if ltb n 10 then 48 + n else 55 + n

-- `create_unique_id`: the characters stored into `mid`, for the bytes that `uuid_generate` gives.
unfoldable pub create_unique_id : List ℕ → List ℕ
create_unique_id [] = []
create_unique_id (p ∷ ps) = hex_digit (p / 16) ∷ hex_digit (p % 16) ∷ create_unique_id ps

-- `byte_copy` onto `to`, whose three steps in a row are the same; none is an access behind a buffer.
unfoldable pub byte_copy : List ℕ → ℕ → List ℕ → Option (List ℕ)
byte_copy to zero from = some to
byte_copy [] (suc n) from = none
byte_copy (d ∷ to) (suc n) [] = none
byte_copy (d ∷ to) (suc n) (c ∷ from) = do rest ← byte_copy to n from; some (c ∷ rest)
