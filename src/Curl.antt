-- ===== src/Curl.antt =====
-- ctapi_curl/ctapi_curl.c: the callbacks that collect what a server sends in growing buffers, and the
-- submitting of a request. A callback returns none where the code writes behind its buffer.
pub mod Receive
pub mod Submit
mod Tests
use carrots.Base.{
  ℕ, zero, suc, ◌+◌, ◌-◌, ◌*◌, ◌%◌, ◌^◌, List, [], ◌∷◌, ◌++◌, Option, none, some, Bool, true, false,
  ltb, leb, ◌==◌, if◌then◌else◌, length, ◌>>=◌,
}

-- `pstr_t`; the text is the first `len` bytes behind `str`.
pub record Pstr : Type 0 where
  pub str : Option (List ℕ)
  pub len : ℕ
  pub size : ℕ

abbrev pub buf_size : ℕ
buf_size = 10

-- What a callback returns, and what it leaves.
pub record Received : Type 0 where
  pub taken : ℕ
  pub pstr : Pstr

-- The first buffer; none without memory.
unfoldable pub first_buffer : Bool → Pstr → Option Pstr
first_buffer calloc p = elim p.str [
  | some text ↦ some p
  | none ↦ if calloc then some (record { str = some []; len = 0; size = buf_size }) else none
]

-- The buffer with room for `n` bytes and a NUL; none without memory. The new size has 32 bits.
unfoldable pub grown : Bool → Pstr → ℕ → Option Pstr
grown realloc p n =
    if ltb (p.size - p.len) (n + 1)
    then (if realloc then some (record p { size = (p.size * 2 + n + 1) % 2 ^ 32 }) else none)
    else some p

-- The bytes and a NUL behind the text.
unfoldable pub store_bytes : Pstr → List ℕ → Option Received
store_bytes p buffer =
    let n = length buffer in
    elim p.str [
      | none ↦ none
      | some text ↦
          if leb (p.len + n + 1) p.size
          then some (record {
            taken = n;
            pstr = record p { str = some (text ++ buffer); len = p.len + n };
          })
          else none
    ]

-- `_recive_header_from_http_api` and `_recive_data_from_http_api`, which are the same; the Booleans say
-- whether there is memory for the first buffer and for a larger one.
unfoldable pub receive : Bool → Bool → Pstr → List ℕ → Option Received
receive calloc realloc p buffer = elim (first_buffer calloc p) [
  | none ↦ some (record { taken = 0; pstr = p })
  | some first ↦ elim (grown realloc first (length buffer)) [
    | none ↦ some (record { taken = 0; pstr = first })
    | some room ↦ store_bytes room buffer
  ]
]

-- `curl_return_string`
pub record Collected : Type 0 where
  pub headers : Pstr
  pub data_part : Pstr

-- What libcurl hands over, piece by piece, to one of the two callbacks.
pub data Piece : Type 0 where
  header : List ℕ → Piece
  body : List ℕ → Piece

unfoldable pub receive_piece : Bool → Piece → Collected → Option (Bool × Collected)
receive_piece memory (header bytes) r = do
  got ← receive memory memory r.headers bytes
  some (got.taken == length bytes, record r { headers = got.pstr })
receive_piece memory (body bytes) r = do
  got ← receive memory memory r.data_part bytes
  some (got.taken == length bytes, record r { data_part = got.pstr })

-- `curl_easy_perform`: it stops at the first piece that is not taken whole. The memory at each piece.
unfoldable pub perform : List (Bool × Piece) → Collected → Option Collected
perform [] r = some r
perform (p ∷ ps) r = do
  got ← receive_piece p.0 p.1 r
  let rest = perform ps got.1
  if got.0 then rest else some got.1

-- What `submit_data_to_http` returns, and the result behind the pointer.
pub record Submitted : Type 0 where
  pub ret : ℕ
  pub result : Collected

-- `submit_data_to_http`: whether libcurl could be set up, and what it hands over. Whether the transfer
-- succeeded does not matter for what is returned, an int, here as a number of 32 bits.
unfoldable pub submit_data_to_http : Bool → List (Bool × Piece) → Collected → Option Submitted
submit_data_to_http set_up pieces r =
    if set_up
    then (do
      got ← perform pieces r
      some (record { ret = (got.headers.len + got.data_part.len) % 2 ^ 32; result = got }))
    else some (record {
      ret = 0;
      result = (elim r.headers.str [
        | none ↦ r
        | some text ↦ record r { headers = record { str = none; len = r.headers.len; size = 0 } }
      ]);
    })
