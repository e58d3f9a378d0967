-- ===== src/Opus/Header.antt =====
-- opus_api/SCOpusAPI_ios.c: the WAVE file that `decode_with_opus` writes.
use carrots.Base.{
  ℕ, suc, ◌+◌, ◌*◌, ◌%◌, ◌^◌, ◌≤◌, ◌≡◌, refl, ap, ◌∙◌, List, [], ◌∷◌, ◌++◌, some, true, false,
  length, replicate, arith, All,
}
use carrots.Opus.{File, fseek, overwrite, check_invalid, max_packet}
use carrots.Opus.Encode.{empty_file}
use carrots.Opus.Decode.{
  Decoder, decode_with_opus, le16, le32, wave_header, fmt_header, data_header, start_file,
  finish_file,
}
use carrots.Opus.Framing.{appended, fwrite-appended, overwrite-behind}
use carrots.Opus.Packets.{Packet, packets_bytes, decode_packets, decode_loop-packets, sized}

head_short : (rate channels : ℕ) → length (replicate 12 0 ++ fmt_header rate channels) ≤ 44
unfolding fmt_header le16 le32
head_short rate channels = omega arith

start_file-headed :
    (disk : ℕ → ℕ → ℕ) (rate channels : ℕ)
    → ((p n : ℕ) → disk p n ≡ n)
    → start_file disk true rate channels
      ≡ record { bytes = replicate 12 0 ++ fmt_header rate channels; position = 44 }
unfolding start_file fmt_header le16 le32 overwrite
start_file-headed disk rate channels roomy =
    rw (fwrite-appended disk (fseek empty_file 12) (fmt_header rate channels) roomy) refl

wave_36 : (size : ℕ) → 0 + length (wave_header size) + 24 ≡ 36
unfolding wave_header le32
wave_36 size = refl

finish_file-appended :
    (disk : ℕ → ℕ → ℕ) (n : ℕ) (f : File)
    → ((p n : ℕ) → disk p n ≡ n)
    → finish_file disk true n f
      ≡ appended (fseek (appended (fseek f 0) (wave_header ((44 + n) % 2 ^ 32))) 36) (data_header n)
unfolding finish_file
finish_file-appended disk n f roomy =
    let wave = wave_header ((44 + n) % 2 ^ 32) in
    rw
      (
        fwrite-appended disk (fseek f 0) wave roomy,
        wave_36 ((44 + n) % 2 ^ 32),
        fwrite-appended disk (fseek (appended (fseek f 0) wave) 36) (data_header n) roomy,
      )
      refl

abbrev head : ℕ → ℕ → List ℕ
head rate channels = replicate 12 0 ++ fmt_header rate channels

-- The file before the headers are finished: the gap for the data header is there once there are data.
begun-nil : (rate channels : ℕ) → overwrite 44 [] (head rate channels) ≡ head rate channels
unfolding overwrite
begun-nil rate channels = refl

begun-cons :
    (rate channels b : ℕ) (bs : List ℕ)
    → overwrite 44 (b ∷ bs) (head rate channels) ≡ head rate channels ++ (replicate 8 0 ++ (b ∷ bs))
unfolding fmt_header le16 le32
begun-cons rate channels b bs = overwrite-behind 44 b bs (head rate channels) (omega arith)

headed :
    (rate channels size n : ℕ) (pcm : List ℕ)
    → overwrite 36
        (data_header n)
        (overwrite 0 (wave_header size) (overwrite 44 pcm (head rate channels)))
      ≡ wave_header size ++ (fmt_header rate channels ++ (data_header n ++ pcm))
unfolding overwrite wave_header data_header fmt_header le16 le32
headed rate channels size n [] = refl
headed rate channels size n (b ∷ bs) =
    ap (λ f. overwrite 36 (data_header n) (overwrite 0 (wave_header size) f))
      (begun-cons rate channels b bs)
    ∙ refl

-- When the disk takes every write, the rate and the number of channels are supported and the
-- decoder fills in as many samples as it says: decode_with_opus with a header, of a file of
-- packets that fit, returns 0 and leaves the WAVE header, the format header, the data header with
-- the size of the data modulo 2 ^ 32 and the samples of the packets, without a gap; the size in
-- the WAVE header is 44 more than that of the data.
pub decode_with_opus-wave :
    {D : Type 0} (dec : Decoder D) (disk : ℕ → ℕ → ℕ) (rate channels : ℕ) (ps : List Packet) (d : D)
    → ((p n : ℕ) → disk p n ≡ n)
    → ((x : D) → length (dec.out x) ≡ dec.output_samples x * channels)
    → check_invalid rate channels true true ≡ false
    → All (λ p. length p.data_of ≤ max_packet) ps
    → let pcm = decode_packets dec channels ps 0 d in
      (g : File) × (decode_with_opus dec disk
          (suc (length ps))
          rate
          channels
          true
          true
          true
          (some (packets_bytes ps))
          true
          (some d)
          true
        ≡ some (record { ret = 0; file = g }))
      × (g.bytes
          ≡ wave_header ((44 + length pcm % 2 ^ 32) % 2 ^ 32)
            ++ (fmt_header rate channels ++ (data_header (length pcm % 2 ^ 32) ++ pcm)))
unfolding decode_with_opus sized
decode_with_opus-wave dec disk rate channels ps d roomy full valid fits =
    let pcm = decode_packets dec channels ps 0 d in
    let n = length pcm % 2 ^ 32 in
    let begun : File = record { bytes = head rate channels; position = 44 } in
    let z : 0 + length pcm ≡ length pcm = omega arith in
    let behind : length begun.bytes ≤ 44 = head_short rate channels in
    let a = fseek (appended begun pcm) 0 in
    let wave = wave_header ((44 + n) % 2 ^ 32) in
    let b = fseek (appended a wave) 36 in
    (
      appended b (data_header n),
      rw (valid, start_file-headed disk rate channels roomy)
          (decode_loop-packets dec true channels disk roomy full ps (suc (length ps)) 0 0 d begun
              fits (omega arith) behind (omega arith)
            ∙ ap
                (λ k. some (record {
                  ret = 0;
                  file = finish_file disk true (k % 2 ^ 32) (appended begun pcm);
                }))
                z
            ∙ ap (λ f. some (record { ret = 0; file = f }))
                (finish_file-appended disk n (appended begun pcm) roomy)),
      headed rate channels ((44 + n) % 2 ^ 32) n pcm,
    )
