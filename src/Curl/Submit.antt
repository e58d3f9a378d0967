-- ===== src/Curl/Submit.antt =====
-- ctapi_curl/ctapi_curl.c: what a request collects, piece by piece.
use carrots.Base.{
  ℕ, ◌+◌, ◌%◌, ◌^◌, ◌<◌, ◌≡◌, refl, sym, ap, ◌∙◌, inl, inr, List, [], ◌∷◌, ◌++◌, some, Bool, true,
  ◌==◌, ==_iff, length, length-append, append_assoc, append-nil, arith, true-ne,
}
use carrots.Curl.{
  Pstr, Received, Collected, Piece, header, body, receive_piece, perform, Submitted,
  submit_data_to_http,
}
use carrots.Curl.Receive.{text_of, Filled, IsText, Taken, receive-Taken}

-- The bytes of the pieces for each of the two buffers.
unfoldable pub headers_of : List Piece → List ℕ
headers_of [] = []
headers_of (header bytes ∷ ps) = bytes ++ headers_of ps
headers_of (body bytes ∷ ps) = headers_of ps

unfoldable pub body_of : List Piece → List ℕ
body_of [] = []
body_of (header bytes ∷ ps) = body_of ps
body_of (body bytes ∷ ps) = bytes ++ body_of ps

-- Every piece while there is memory.
unfoldable pub with_memory : List Piece → List (Bool × Piece)
with_memory [] = []
with_memory (p ∷ ps) = (true, p) ∷ with_memory ps

-- A result whose two buffers hold these texts.
unfoldable pub Holds : Collected → List ℕ → List ℕ → Type 0
Holds r headers data_text = IsText r.headers headers × IsText r.data_part data_text

taken_all :
    (r : Received) (text buffer : List ℕ)
    → Taken true r text buffer
    → (r.taken ≡ length buffer) × Filled r.pstr (text ++ buffer)
unfolding Taken
taken_all r text buffer t = elim t [ inl all ↦ all | inr failed ↦ absurd (true-ne failed.0) ]

receive_piece-Holds :
    (p : Piece) (r : Collected) (headers data_text : List ℕ)
    → Holds r headers data_text
    → length headers + length (headers_of (p ∷ [])) < 2 ^ 30
    → length data_text + length (body_of (p ∷ [])) < 2 ^ 30
    → (got : Collected) × (receive_piece true p r ≡ some (true, got))
      × Holds got (headers ++ headers_of (p ∷ [])) (data_text ++ body_of (p ∷ []))
unfolding receive_piece Holds headers_of body_of IsText
receive_piece-Holds (header bytes) r headers data_text held small small₂ =
    let l = length-append bytes [] in
    let (got, runs, taken) =
      receive-Taken true r.headers headers bytes held.0 (omega (arith, small, l)) in
    let (all, f) = taken_all got headers bytes taken in
    let whole : (got.taken == length bytes) ≡ true = (==_iff got.taken (length bytes)).1 all in
    (
      record r { headers = got.pstr },
      rw (runs, whole) refl,
      (rw (append-nil bytes) (inr f), rw (append-nil data_text) held.1),
    )
receive_piece-Holds (body bytes) r headers data_text held small small₂ =
    let l = length-append bytes [] in
    let (got, runs, taken) =
      receive-Taken true r.data_part data_text bytes held.1 (omega (arith, small₂, l)) in
    let (all, f) = taken_all got data_text bytes taken in
    let whole : (got.taken == length bytes) ≡ true = (==_iff got.taken (length bytes)).1 all in
    (
      record r { data_part = got.pstr },
      rw (runs, whole) refl,
      (rw (append-nil headers) held.0, rw (append-nil bytes) (inr f)),
    )

headers_of-cons :
    (p : Piece) (ps : List Piece) → headers_of (p ∷ ps) ≡ headers_of (p ∷ []) ++ headers_of ps
unfolding headers_of
headers_of-cons (header bytes) ps = ap (λ (b : List ℕ). b ++ headers_of ps) (sym (append-nil bytes))
headers_of-cons (body bytes) ps = refl

body_of-cons : (p : Piece) (ps : List Piece) → body_of (p ∷ ps) ≡ body_of (p ∷ []) ++ body_of ps
unfolding body_of
body_of-cons (body bytes) ps = ap (λ (b : List ℕ). b ++ body_of ps) (sym (append-nil bytes))
body_of-cons (header bytes) ps = refl

perform-Holds :
    (ps : List Piece) (r : Collected) (headers data_text : List ℕ)
    → Holds r headers data_text
    → length headers + length (headers_of ps) < 2 ^ 30
    → length data_text + length (body_of ps) < 2 ^ 30
    → (got : Collected) × (perform (with_memory ps) r ≡ some got)
      × Holds got (headers ++ headers_of ps) (data_text ++ body_of ps)
unfolding perform with_memory headers_of body_of
perform-Holds [] r headers data_text held small small₂ =
    (r, refl, rw (append-nil headers, append-nil data_text) held)
perform-Holds (p ∷ ps) r headers data_text held small small₂ =
    let a = headers_of-cons p ps in
    let b = body_of-cons p ps in
    let la = ap length a ∙ length-append (headers_of (p ∷ [])) (headers_of ps) in
    let lb = ap length b ∙ length-append (body_of (p ∷ [])) (body_of ps) in
    let (mid, once, h) =
      receive_piece-Holds p r headers data_text held (omega (arith, small, la))
        (omega (arith, small₂, lb)) in
    let (got, rest, held₂) =
      perform-Holds ps mid (headers ++ headers_of (p ∷ [])) (data_text ++ body_of (p ∷ [])) h
        (omega (arith, small, la, length-append headers (headers_of (p ∷ []))))
        (omega (arith, small₂, lb, length-append data_text (body_of (p ∷ [])))) in
    (
      got,
      rw once rest,
      rw
          (
            a,
            b,
            sym (append_assoc headers (headers_of (p ∷ [])) (headers_of ps)),
            sym (append_assoc data_text (body_of (p ∷ [])) (body_of ps)),
          )
          held₂,
    )

text-len : (p : Pstr) (text : List ℕ) → IsText p text → (p.len ≡ length text) × (text_of p ≡ text)
unfolding IsText text_of
text-len p text held = elim held [
  | inl empty ↦ (empty.2 ∙ sym (ap length empty.1), simp (text_of, empty.0, empty.1))
  | inr f ↦ (f.len, simp (text_of, f.str))
]

-- With memory, on buffers that hold texts or none yet and with less than 2 ^ 30 bytes in each:
-- whatever pieces of headers and of the body the server sends, in any order, submit_data_to_http
-- always returns the number of all bytes in both buffers, and each holds its former text with its
-- pieces behind it, in order.
pub submit_data_to_http-Holds :
    (ps : List Piece) (r : Collected) (headers data_text : List ℕ)
    → Holds r headers data_text
    → length headers + length (headers_of ps) < 2 ^ 30
    → length data_text + length (body_of ps) < 2 ^ 30
    → (s : Submitted) × (submit_data_to_http true (with_memory ps) r ≡ some s)
      × (s.ret ≡ length headers + length (headers_of ps) + (length data_text + length (body_of ps)))
      × (text_of s.result.headers ≡ headers ++ headers_of ps)
      × (text_of s.result.data_part ≡ data_text ++ body_of ps)
unfolding submit_data_to_http Holds
submit_data_to_http-Holds ps r headers data_text held small small₂ =
    let (got, runs, h) = perform-Holds ps r headers data_text held small small₂ in
    let (len₁, text₁) = text-len got.headers (headers ++ headers_of ps) h.0 in
    let (len₂, text₂) = text-len got.data_part (data_text ++ body_of ps) h.1 in
    (
      record { ret = (got.headers.len + got.data_part.len) % 2 ^ 32; result = got },
      rw runs refl,
      omega (
        arith,
        small,
        small₂,
        len₁,
        len₂,
        length-append headers (headers_of ps),
        length-append data_text (body_of ps),
      ),
      text₁,
      text₂,
    )
