-- ===== src/Opus/Decode.antt =====
-- opus_api/SCOpusAPI_ios.c: `decode_with_opus`, with the WAVE header. The codec is a parameter. The
-- statistics, which are only printed, are left out.
use carrots.Base.{
  ℕ, zero, suc, ◌+◌, ◌-◌, ◌*◌, ◌/◌, ◌%◌, ◌^◌, List, [], ◌∷◌, ◌++◌, Option, none, some, Bool, true,
  ltb, ◌==◌, if◌then◌else◌, length, take, drop,
}
use carrots.Base.Int.{ℤ}
use carrots.Opus.{File, Run, fwrite, fseek, char_to_int, from_samples, check_invalid, max_packet}
use carrots.Opus.Encode.{empty_file}

-- The decoder of the codec: `opus_decode` of a packet, none for a lost one, with room for so many
-- samples of each channel; then the samples it returned, 0 for an error, what is in `out`, and the
-- duration of the last packet.
pub record Decoder (S : Type 0) : Type 0 where
  pub decode : S → Option (List ℕ) → ℕ → S
  pub output_samples : S → ℕ
  pub out : S → List ℤ
  pub last_duration : S → ℕ

-- The little-endian bytes of the fields of the headers.
unfoldable pub le16 : ℕ → List ℕ
le16 n = n % 256 ∷ n / 256 % 256 ∷ []

unfoldable pub le32 : ℕ → List ℕ
le32 n = n % 256 ∷ n / 256 % 256 ∷ n / 2 ^ 16 % 256 ∷ n / 2 ^ 24 % 256 ∷ []

-- `header_wave_st` with its size, `header_fmt_st`, and `header_data_st` with its size
unfoldable pub wave_header : ℕ → List ℕ
wave_header size = 82 ∷ 73 ∷ 70 ∷ 70 ∷ (le32 size ++ 87 ∷ 65 ∷ 86 ∷ 69 ∷ [])

unfoldable pub fmt_header : ℕ → ℕ → List ℕ
fmt_header rate channels =
    102
    ∷ 109
    ∷ 116
    ∷ 32
    ∷ (le32 16
        ++ le16 1
        ++ le16 channels
        ++ le32 rate
        ++ le32 (rate * 16 * channels / 8)
        ++ le16 (channels * 16 / 8)
        ++ le16 16)

unfoldable pub data_header : ℕ → List ℕ
data_header size = 100 ∷ 97 ∷ 116 ∷ 97 ∷ le32 size

-- What is written before the first packet, and after the last.
unfoldable pub start_file : (ℕ → ℕ → ℕ) → Bool → ℕ → ℕ → File
start_file disk add_header rate channels =
    if add_header
    then (let (wrote, f) = fwrite disk (fseek empty_file 12) (fmt_header rate channels) in
        fseek f (f.position + 8))
    else empty_file

unfoldable pub finish_file : (ℕ → ℕ → ℕ) → Bool → ℕ → File → File
finish_file disk add_header wh_size file =
    if add_header
    then (let (wrote_wave, f₁) =
          fwrite disk (fseek file 0) (wave_header ((44 + wh_size) % 2 ^ 32)) in
        let (wrote_data, f₂) = fwrite disk (fseek f₁ (f₁.position + 24)) (data_header wh_size) in
        f₂)
    else file

-- The bytes of the samples of a packet behind those to skip, and the number of samples that are left to
-- be skipped.
unfoldable pub pcm_of : ℕ → ℕ → ℕ → List ℤ → List ℕ
pcm_of channels skip samples out =
    from_samples (take ((samples - skip) * channels) (drop (skip * channels) out))

unfoldable pub skip_after : ℕ → ℕ → ℕ
skip_after samples skip =
    if samples == 0 then skip else if ltb samples skip then skip - samples else 0

-- What of a packet's samples is written: whether that worked, the file and the size of the data.
pub record Written : Type 0 where
  pub wrote : Bool
  pub file : File
  pub wh_size : ℕ

unfoldable pub write_samples : (ℕ → ℕ → ℕ) → Bool → ℕ → ℕ → ℕ → List ℤ → File → ℕ → Written
write_samples disk add_header channels skip samples out file wh_size =
    let (wrote, f) = fwrite disk file (pcm_of channels skip samples out) in
    if ltb skip samples
    then record {
      wrote = wrote;
      file = f;
      wh_size =
          if add_header then (wh_size + 2 * channels * (samples - skip)) % 2 ^ 32 else wh_size;
    }
    else record { wrote = true; file = file; wh_size = wh_size }

-- The state of the decoder after a packet; one without a byte counts as lost.
unfoldable pub after_packet : {S : Type 0} → Decoder S → S → ℕ → List ℕ → S
after_packet dec s len body =
    if len == 0
    then dec.decode s none (dec.last_duration s)
    else dec.decode s (some (take len body)) 96000

-- The loop of `decode_with_opus` over the rest of the input, up to the writing of the headers.
unfoldable pub decode_loop :
    {S : Type 0} → Decoder S → Bool → ℕ → (ℕ → ℕ → ℕ) → ℕ → List ℕ → ℕ → ℕ → S → File → Option Run
decode_loop dec add_header channels disk zero input skip wh_size s file = none
decode_loop dec add_header channels disk (suc fuel) input skip wh_size s file =
    let len = char_to_int input in
    let body = drop 8 input in
    let s₂ = after_packet dec s len body in
    let w =
      write_samples disk add_header channels skip (dec.output_samples s₂) (dec.out s₂) file
        wh_size in
    let rest =
      decode_loop dec add_header channels disk fuel (drop len body)
        (skip_after (dec.output_samples s₂) skip) w.wh_size s₂ w.file in
    if ltb (length input) 4
    then some (record { ret = 0; file = finish_file disk add_header wh_size file })
    else if ltb max_packet len
    then some (record { ret = 1; file = file })
    else if ltb (length body) len
    then some (record { ret = 1; file = file })
    else if w.wrote
    then rest
    else some (record { ret = 1; file = w.file })

-- `decode_with_opus`, with the arguments of `encode_with_opus`.
unfoldable pub decode_with_opus :
    {S : Type 0}
    → Decoder S
    → (ℕ → ℕ → ℕ)
    → ℕ
    → ℕ
    → ℕ
    → Bool
    → Bool
    → Bool
    → Option (List ℕ)
    → Bool
    → Option S
    → Bool
    → Option Run
decode_with_opus dec disk fuel rate channels add_header in_file out_file fin fout created memory =
    let failed : Run = record { ret = 1; file = empty_file } in
    let started = start_file disk add_header rate channels in
    if check_invalid rate channels in_file out_file then some failed else elim fin [
      | none ↦ some failed
      | some input ↦
          if fout
          then elim created [
            | none ↦ some (record { ret = 1; file = started })
            | some s ↦
                if memory
                then decode_loop dec add_header channels disk fuel input 0 0 s started
                else some (record { ret = 1; file = started })
          ]
          else some failed
    ]
