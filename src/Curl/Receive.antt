-- ===== src/Curl/Receive.antt =====
-- ctapi_curl/ctapi_curl.c: the buffers hold what was sent, in order.
use carrots.Base.{
  ℕ, ◌+◌, ◌-◌, ◌*◌, ◌%◌, ◌^◌, ◌≤◌, ◌<◌, ◌≡◌, ◌⊎◌, refl, sym, ap, ◌∙◌, inl, inr, List, [], ◌++◌,
  none, some, Bool, true, false, ltb, leb, length, length-append, arith, Bool-cases,
}
use carrots.Curl.{Pstr, buf_size, Received, first_buffer, grown, store_bytes, receive}

-- The text of a buffer, empty before the first one.
unfoldable pub text_of : Pstr → List ℕ
text_of p = elim p.str [ none ↦ [] | some text ↦ text ]

-- A buffer with its text, its length and room for a NUL, not more than three times as large as needed.
pub record Filled (p : Pstr) (text : List ℕ) : Type 0 where
  pub str : p.str ≡ some text
  pub len : p.len ≡ length text
  pub room : p.len < p.size
  pub tight : p.size ≤ 3 * p.len + 10

unfoldable pub IsText : Pstr → List ℕ → Type 0
IsText p text = ((p.str ≡ none) × (text ≡ []) × (p.len ≡ 0)) ⊎ Filled p text

grown-room :
    (p : Pstr) (text : List ℕ) (n : ℕ)
    → Filled p text
    → length text + n < 2 ^ 30
    → (q : Pstr) × (grown true p n ≡ some q)
      × (q.str ≡ p.str)
      × (q.len ≡ p.len)
      × (p.len + n < q.size)
      × (q.size ≤ 3 * (p.len + n) + 10)
unfolding grown
grown-room p text n f small = elim (Bool-cases (ltb (p.size - p.len) (n + 1))) [
  | inr off ↦
      let len = f.len in
      let room = f.room in
      let tight = f.tight in
      rw off (p, refl, refl, refl, ground (arith, len, room, tight), omega (arith, tight))
  | inl on ↦
      let less : p.size - p.len < n + 1 = ground arith in
      let wide : (p.size * 2 + n + 1) % 2 ^ 32 ≡ p.size * 2 + n + 1 =
        omega (arith, less, f.len, f.room, small) in
      rw (on, wide)
        (
          record p { size = p.size * 2 + n + 1 },
          refl,
          refl,
          refl,
          omega (arith, f.room),
          omega (arith, less, f.room),
        )
]

store_bytes-Filled :
    (p : Pstr) (text buffer : List ℕ)
    → p.str ≡ some text
    → p.len ≡ length text
    → p.len + length buffer < p.size
    → p.size ≤ 3 * (p.len + length buffer) + 10
    → (r : Received) × (store_bytes p buffer ≡ some r)
      × (r.taken ≡ length buffer)
      × Filled r.pstr (text ++ buffer)
unfolding store_bytes
store_bytes-Filled p text buffer here len room tight =
    let fits : leb (p.len + length buffer + 1) p.size ≡ true = ground arith in
    (
      record {
        taken = length buffer;
        pstr = record p { str = some (text ++ buffer); len = p.len + length buffer };
      },
      rw (store_bytes, here, fits) refl,
      refl,
      record {
        str = refl;
        len = omega (arith, len, length-append text buffer);
        room = room;
        tight = tight;
      },
    )

first_buffer-filled :
    (calloc : Bool) (p : Pstr) (text : List ℕ) → p.str ≡ some text → first_buffer calloc p ≡ some p
unfolding first_buffer
first_buffer-filled calloc p text here = simp (first_buffer, here)

first-Filled :
    (calloc : Bool) (p : Pstr) (text : List ℕ)
    → IsText p text
    → ((first_buffer calloc p ≡ none)
        × (calloc ≡ false)
        × (p.str ≡ none)
        × (text ≡ [])
        × (p.len ≡ 0))
      ⊎ ((q : Pstr) × (first_buffer calloc p ≡ some q) × Filled q text)
unfolding first_buffer IsText
first-Filled calloc p text held = elim held [
  | inr f ↦ inr (p, first_buffer-filled calloc p text f.str, f)
  | inl empty ↦ elim (Bool-cases calloc) [
    | inr off ↦ inl (rw (first_buffer, empty.0, off) refl, off, empty.0, empty.1, empty.2)
    | inl on ↦ inr (
      record { str = some []; len = 0; size = buf_size },
      rw (first_buffer, empty.0, on) refl,
      record {
        str = ap some (sym empty.1);
        len = omega (arith, ap (length {A = ℕ}) empty.1);
        room = omega arith;
        tight = omega arith;
      },
    )
  ]
]

-- What the callback does with a piece: it takes it whole, or nothing of it for want of memory.
unfoldable pub Taken : Bool → Received → List ℕ → List ℕ → Type 0
Taken memory r text buffer =
    ((r.taken ≡ length buffer) × Filled r.pstr (text ++ buffer))
    ⊎ ((memory ≡ false) × (r.taken ≡ 0) × IsText r.pstr text)

grown-false :
    (p : Pstr) (text buffer : List ℕ)
    → Filled p text
    → (grown false p (length buffer) ≡ none)
      ⊎ ((grown false p (length buffer) ≡ some p) × (p.len + length buffer < p.size))
unfolding grown
grown-false p text buffer f = elim (Bool-cases (ltb (p.size - p.len) (length buffer + 1))) [
  | inl on ↦ rw on (inl refl)
  | inr off ↦ rw off (inr (refl, (let room = f.room in ground (arith, room))))
]

store_bytes-Taken :
    (memory : Bool) (p : Pstr) (text buffer : List ℕ)
    → p.str ≡ some text
    → p.len ≡ length text
    → p.len + length buffer < p.size
    → p.size ≤ 3 * (p.len + length buffer) + 10
    → (r : Received) × (store_bytes p buffer ≡ some r) × Taken memory r text buffer
unfolding Taken
store_bytes-Taken memory p text buffer here len room tight =
    let (r, runs, all, f) = store_bytes-Filled p text buffer here len room tight in
    (r, runs, inl (all, f))

-- On a buffer that holds a text, or none yet, and with less than 2 ^ 30 bytes in all, the callback
-- never writes behind its buffer: it takes the piece whole, and the buffer holds the text with the
-- piece behind it and has room for the NUL; or, only when there is no memory, it returns 0 and the
-- buffer holds the text as before.
pub receive-Taken :
    (memory : Bool) (p : Pstr) (text buffer : List ℕ)
    → IsText p text
    → length text + length buffer < 2 ^ 30
    → (r : Received) × (receive memory memory p buffer ≡ some r) × Taken memory r text buffer
unfolding receive Taken IsText
receive-Taken memory p text buffer held small = elim (first-Filled memory p text held) [
  | inl failed ↦
      let (none_first, off, empty, nothing, zero_len) = failed in
      (
        record { taken = 0; pstr = p },
        rw (receive, none_first) refl,
        inr (off, refl, inl (empty, nothing, zero_len)),
      )
  | inr made ↦
      let (q, first, f) = made in
      elim (Bool-cases memory) [
        | inl on ↦
            let (g, wide, same, len, room, tight) = grown-room q text (length buffer) f small in
            let (r, runs, taken) =
              store_bytes-Taken memory g text buffer (same ∙ f.str) (len ∙ f.len)
                (omega (arith, len, room)) (omega (arith, len, tight)) in
            let wide₂ : grown memory q (length buffer) ≡ some g = rw on wide in
            (r, rw (receive, first, wide₂) runs, taken)
        | inr off ↦ elim (grown-false q text buffer f) [
          | inl short ↦
              let short₂ : grown memory q (length buffer) ≡ none = rw off short in
              (
                record { taken = 0; pstr = q },
                rw (receive, first, short₂) refl,
                inr (off, refl, inr f),
              )
          | inr fits ↦
              let keep : grown memory q (length buffer) ≡ some q = rw off fits.0 in
              let (r, runs, taken) =
                store_bytes-Taken memory q text buffer f.str f.len fits.1
                  (omega (arith, f.tight)) in
              (r, rw (receive, first, keep) runs, taken)
        ]
      ]
]
