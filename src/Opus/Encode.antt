-- ===== src/Opus/Encode.antt =====
-- opus_api/SCOpusAPI_ios.c: `encode_with_opus`. The codec is a parameter. The statistics, which are
-- only printed, are left out.
use carrots.Base.{
  ℕ, zero, suc, ◌+◌, ◌-◌, ◌*◌, ◌/◌, List, [], ◌++◌, Option, none, some, Bool, false, ltb, leb,
  if◌then◌else◌, length, take, drop, replicate,
}
use carrots.Base.Int.{ℤ, pos, negsuc}
use carrots.Opus.{File, Run, fwrite, int_to_char, read_items, item_samples, check_invalid}

-- The encoder of the codec: `opus_encode`, and what it leaves to be asked: the length it returned, the
-- packet in `data`, the product of the packet's frames and their samples, and the final range.
pub record Encoder (S : Type 0) : Type 0 where
  pub encode : S → List ℤ → S
  pub len : S → ℤ
  pub data_of : S → List ℕ
  pub nb_encoded : S → ℤ
  pub final_range : S → ℕ

-- The three writes of a packet.
unfoldable pub write_packet : (ℕ → ℕ → ℕ) → File → ℕ → ℕ → List ℕ → Bool × File
write_packet disk file len range packet =
    let (wrote_len, f₁) = fwrite disk file (int_to_char len) in
    let (wrote_range, f₂) = fwrite disk f₁ (int_to_char range) in
    let last = fwrite disk f₂ (take len packet) in
    if wrote_len then (if wrote_range then last else (false, f₂)) else (false, f₁)

-- `remaining`, none when it is negative.
unfoldable pub remaining_of : ℕ → ℕ → Option ℕ
remaining_of frame_size nb = if leb nb frame_size then some (frame_size - nb) else none

-- The samples that are moved to the front of `in`.
unfoldable pub shifted : ℕ → ℕ → Option ℕ → List ℤ → List ℤ
shifted channels nb none frame = []
shifted channels nb (some remaining) frame =
    take (remaining * channels) (drop (nb * channels) frame)

-- The samples of `in` that the encoder gets.
unfoldable pub frame_of : ℕ → ℕ → ℕ → List ℤ → List (List ℕ) → List ℤ
frame_of frame_size channels remaining carried items =
    carried
    ++ item_samples items
    ++ replicate (frame_size * channels - (length items + remaining) * channels) (pos 0)

-- The loop of `encode_with_opus`; `remaining` samples of each channel are carried over in `in`. A
-- negative number of encoded samples, or a negative `remaining` at the start of a round, makes the code
-- use `in` out of bounds.
unfoldable pub encode_loop :
    {S : Type 0}
    → Encoder S
    → ℕ
    → ℕ
    → (ℕ → ℕ → ℕ)
    → ℕ
    → List ℕ
    → Option ℕ
    → List ℤ
    → S
    → File
    → Option Run
encode_loop enc frame_size channels disk zero input remaining carried s file = none
encode_loop enc frame_size channels disk (suc fuel) input none carried s file = none
encode_loop enc frame_size channels disk (suc fuel) input (some remaining) carried s file =
    let want = frame_size - remaining in
    let items = read_items want (2 * channels) input in
    let frame = frame_of frame_size channels remaining carried items in
    let s₂ = enc.encode s frame in
    elim (enc.nb_encoded s₂) [
      | negsuc _ ↦ none
      | pos nb ↦ elim (enc.len s₂) [
        | negsuc _ ↦ some (record { ret = 1; file = file })
        | pos len ↦
            let (wrote, file₂) = write_packet disk file len (enc.final_range s₂) (enc.data_of s₂) in
            let left = remaining_of frame_size nb in
            let rest =
              encode_loop enc frame_size channels disk fuel (drop (want * (2 * channels)) input)
                left (shifted channels nb left frame) s₂ file₂ in
            if wrote
            then (if ltb (length items + remaining) frame_size
                then some (record { ret = 0; file = file₂ })
                else rest)
            else some (record { ret = 1; file = file₂ })
      ]
    ]

abbrev pub empty_file : File
empty_file = record { bytes = []; position = 0 }

-- `encode_with_opus`: the input file, none when it cannot be opened or is not there to be opened; whether
-- the output file can; the encoder, none when it cannot be created; whether there is memory.
unfoldable pub encode_with_opus :
    {S : Type 0}
    → Encoder S
    → (ℕ → ℕ → ℕ)
    → ℕ
    → ℕ
    → ℕ
    → Bool
    → Bool
    → Option (List ℕ)
    → Bool
    → Option S
    → Bool
    → Option Run
encode_with_opus enc disk fuel rate channels in_file out_file fin fout created memory =
    let failed = some (record { ret = 1; file = empty_file }) in
    if check_invalid rate channels in_file out_file then failed else elim fin [
      | none ↦ failed
      | some input ↦
          if fout
          then elim created [
            | none ↦ failed
            | some s ↦
                if memory
                then encode_loop enc (rate / 50) channels disk fuel input (some 0) [] s empty_file
                else failed
          ]
          else failed
    ]
