-- ===== src/Curl/Tests.antt =====
-- ctapi_curl/ctapi_curl.c: runs at concrete inputs.
use carrots.Base.{◌≡◌, refl, inl, List, [], ◌∷◌, none, some, true, false, arith}
use carrots.Curl.{
  Pstr, Received, first_buffer, grown, store_bytes, receive, Collected, Piece, header, body,
  Submitted, submit_data_to_http,
}
use carrots.Curl.Receive.{IsText, Taken, receive-Taken, text_of}
use carrots.Curl.Submit.{Holds, headers_of, body_of, with_memory, submit_data_to_http-Holds}

abbrev empty : Pstr
empty = record { str = none; len = 0; size = 0 }

empty-IsText : IsText empty []
unfolding IsText
empty-IsText = inl (refl, refl, refl)

-- The first piece does not fit into the first buffer.
grows :
    receive true true empty (1 ∷ 2 ∷ 3 ∷ 4 ∷ 5 ∷ 6 ∷ 7 ∷ 8 ∷ 9 ∷ 10 ∷ [])
    ≡ some (record {
      taken = 10;
      pstr = record {
        str = some (1 ∷ 2 ∷ 3 ∷ 4 ∷ 5 ∷ 6 ∷ 7 ∷ 8 ∷ 9 ∷ 10 ∷ []);
        len = 10;
        size = 31;
      };
    })
unfolding receive first_buffer grown store_bytes
grows = refl

receive-Taken_example :
    (r : Received) × (receive false false empty (1 ∷ 2 ∷ []) ≡ some r)
    × Taken false r [] (1 ∷ 2 ∷ [])
receive-Taken_example = receive-Taken false empty [] (1 ∷ 2 ∷ []) empty-IsText (omega arith)

abbrev nothing_yet : Collected
nothing_yet = record { headers = empty; data_part = empty }

nothing_yet-Holds : Holds nothing_yet [] []
unfolding Holds
nothing_yet-Holds = (empty-IsText, empty-IsText)

abbrev pieces : List Piece
pieces = header (72 ∷ 13 ∷ 10 ∷ []) ∷ body (1 ∷ []) ∷ body (2 ∷ 3 ∷ []) ∷ []

submit_data_to_http-Holds_example :
    (s : Submitted) × (submit_data_to_http true (with_memory pieces) nothing_yet ≡ some s)
    × (s.ret ≡ 6)
    × (text_of s.result.headers ≡ 72 ∷ 13 ∷ 10 ∷ [])
    × (text_of s.result.data_part ≡ 1 ∷ 2 ∷ 3 ∷ [])
unfolding headers_of body_of
submit_data_to_http-Holds_example =
    submit_data_to_http-Holds pieces nothing_yet [] [] nothing_yet-Holds (omega arith) (omega arith)
