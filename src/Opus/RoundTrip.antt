-- ===== src/Opus/RoundTrip.antt =====
-- opus_api/SCOpusAPI_ios.c: a file that `encode_with_opus` writes, read by `decode_with_opus`.
use carrots.Base.{
  ℕ, zero, suc, ◌+◌, ◌*◌, ◌/◌, ◌≤◌, ◌<◌, ◌≡◌, ◌⊎◌, refl, ap, ◌∙◌, inl, inr, List, [], ◌∷◌, ◌++◌,
  some, Bool, true, false, ltb, length, drop, length-append, length-drop, drop-nil, append-nil,
  none, arith, All, Bool-cases, if◌then◌else◌,
}
use carrots.Base.Int.{ℤ}
use carrots.Opus.{
  File, Run, char_to_int, is_supported, check_invalid, max_packet, int_to_char, overwrite,
}
use carrots.Opus.Encode.{Encoder, encode_with_opus, empty_file}
use carrots.Opus.Decode.{
  Decoder, after_packet, write_samples, skip_after, finish_file, start_file, decode_loop,
  decode_with_opus,
}
use carrots.Opus.Framing.{appended}
use carrots.Opus.Packets.{
  Packet, packet_bytes, packets_bytes, decode_packets, decode_loop-packets, sized,
}
use carrots.Opus.Produce.{IsWhole, encode_frames, AreFrames}
use carrots.Opus.Encoded.{encode_loop-frames}

check_invalid-passed :
    (rate channels : ℕ)
    → check_invalid rate channels true true ≡ false
    → (0 < rate / 50) × (0 < channels)
unfolding check_invalid is_supported
check_invalid-passed rate channels valid = ground arith

encode_frames-fit :
    {S : Type 0} (enc : Encoder S) (frame_size : ℕ) (s : S) (fs : List (List ℤ))
    → IsWhole enc frame_size
    → All (λ (p : Packet). length p.data_of ≤ max_packet) (encode_frames enc s fs)
unfolding encode_frames
encode_frames-fit enc frame_size s [] w = tt
encode_frames-fit enc frame_size s (f ∷ fs) w =
    (w.fits s f, encode_frames-fit enc frame_size (enc.encode s f) fs w)

length-packets_bytes : (ps : List Packet) → length ps ≤ length (packets_bytes ps)
unfolding packets_bytes packet_bytes int_to_char
length-packets_bytes [] = omega arith
length-packets_bytes (p ∷ ps) =
    let l = length-append (packet_bytes p) (packets_bytes ps) in
    omega (arith, l, length-packets_bytes ps)

overwrite-empty : (new : List ℕ) → overwrite 0 new [] ≡ new
unfolding overwrite
overwrite-empty [] = refl
overwrite-empty (b ∷ bs) =
    ap (λ (r : List ℕ). b ∷ (bs ++ r)) (drop-nil (0 + suc (length bs))) ∙ append-nil (b ∷ bs)

-- When the disk takes every write, the rate and the number of channels are supported, the encoder
-- turns each frame whole into a packet that fits and the decoder fills in as many samples as it
-- says: encode_with_opus of any input always returns 0, and the frames that it encodes are, one
-- after the other, the samples of all whole items of the input followed by silence, at least one
-- sample and at most a frame; and decode_with_opus of the file that it wrote, without a header,
-- always returns 0 and writes the samples that the decoder gives for exactly these packets in
-- order.
pub encode_with_opus-decode_with_opus :
    {S D : Type 0} (enc : Encoder S) (dec : Decoder D) (disk : ℕ → ℕ → ℕ) (rate channels : ℕ)
    (input : List ℕ) (s : S) (d : D)
    → ((p n : ℕ) → disk p n ≡ n)
    → IsWhole enc (rate / 50)
    → ((x : D) → length (dec.out x) ≡ dec.output_samples x * channels)
    → check_invalid rate channels true true ≡ false
    → (fs : List (List ℤ)) × (f g : File) × AreFrames (rate / 50) channels input fs
      × (encode_with_opus enc disk
            (suc (length input))
            rate
            channels
            true
            true
            (some input)
            true
            (some s)
            true
          ≡ some (record { ret = 0; file = f }))
      × (decode_with_opus dec disk
            (suc (length f.bytes))
            rate
            channels
            false
            true
            true
            (some f.bytes)
            true
            (some d)
            true
          ≡ some (record { ret = 0; file = g }))
      × (g.bytes ≡ decode_packets dec channels (encode_frames enc s fs) 0 d)
unfolding encode_with_opus decode_with_opus start_file finish_file sized
encode_with_opus-decode_with_opus enc dec disk rate channels input s d roomy w full valid =
    let (some_frame, some_channel) = check_invalid-passed rate channels valid in
    let (fs, framed, runs) =
      encode_loop-frames enc (rate / 50) channels disk roomy w some_frame some_channel
        (suc (length input)) input s empty_file (omega arith) (omega arith) in
    let ps = encode_frames enc s fs in
    let pcm = decode_packets dec channels ps 0 d in
    (
      fs,
      appended empty_file (packets_bytes ps),
      appended empty_file pcm,
      framed,
      rw valid runs,
      rw (valid, overwrite-empty (packets_bytes ps))
          (decode_loop-packets dec false channels disk roomy full ps
            (suc (length (packets_bytes ps))) 0 0 d empty_file
            (encode_frames-fit enc (rate / 50) s fs w) (omega (arith, length-packets_bytes ps))
            (omega arith) (omega arith)),
      overwrite-empty pcm,
    )

decode_loop-returns :
    {S : Type 0} (dec : Decoder S) (add_header : Bool) (channels : ℕ) (disk : ℕ → ℕ → ℕ) (fuel : ℕ)
    (input : List ℕ) (skip wh_size : ℕ) (s : S) (file : File)
    → length input < fuel
    → (r : Run) × (decode_loop dec add_header channels disk fuel input skip wh_size s file ≡ some r)
      × ((r.ret ≡ 0) ⊎ (r.ret ≡ 1))
unfolding decode_loop
decode_loop-returns dec add_header channels disk zero input skip wh_size s file h =
    absurd (omega arith)
decode_loop-returns dec add_header channels disk (suc fuel) input skip wh_size s file h =
    let len = char_to_int input in
    let s₂ = after_packet dec s len (drop 8 input) in
    let w =
      write_samples disk add_header channels skip (dec.output_samples s₂) (dec.out s₂) file
        wh_size in
    elim (Bool-cases (ltb (length input) 4)) [
      | inl on ↦
          rw on
            (record { ret = 0; file = finish_file disk add_header wh_size file }, refl, inl refl)
      | inr four ↦ elim (Bool-cases (ltb max_packet len)) [
        | inl on ↦ rw (four, on) (record { ret = 1; file = file }, refl, inr refl)
        | inr fits ↦ elim (Bool-cases (ltb (length (drop 8 input)) len)) [
          | inl on ↦ rw (four, fits, on) (record { ret = 1; file = file }, refl, inr refl)
          | inr there ↦ elim (Bool-cases w.wrote) [
            | inr off ↦
                rw (four, fits, there, off) (record { ret = 1; file = w.file }, refl, inr refl)
            | inl on ↦
                rw (four, fits, there, on)
                  (decode_loop-returns dec add_header channels disk fuel (drop len (drop 8 input))
                    (skip_after (dec.output_samples s₂) skip) w.wh_size s₂ w.file
                    (let a = length-drop len (drop 8 input) in
                      let b = length-drop 8 input in ground (arith, a, b)))
          ]
        ]
      ]
    ]

module _ {S : Type 0} (dec : Decoder S) (disk : ℕ → ℕ → ℕ) (rate channels : ℕ)
    (add_header in_file out_file : Bool) (input : List ℕ) (s : S) where
  abbrev Returns : Bool → Bool → Bool → Bool → Type 0
  Returns opened fout created memory =
      (r : Run) × (decode_with_opus dec disk (suc (length input)) rate channels add_header in_file
          out_file (if opened then some input else none) fout (if created then some s else none)
          memory
        ≡ some r)
      × ((r.ret ≡ 0) ⊎ (r.ret ≡ 1))

  abbrev failed_at : File → Run
  failed_at f = record { ret = 1; file = f }

  valid-Returns :
      (opened fout created memory : Bool)
      → check_invalid rate channels in_file out_file ≡ false
      → Returns opened fout created memory
  unfolding decode_with_opus
  valid-Returns false fout created memory ok = rw ok (failed_at empty_file, refl, inr refl)
  valid-Returns true false created memory ok = rw ok (failed_at empty_file, refl, inr refl)
  valid-Returns true true false memory ok =
      rw ok (failed_at (start_file disk add_header rate channels), refl, inr refl)
  valid-Returns true true true false ok =
      rw ok (failed_at (start_file disk add_header rate channels), refl, inr refl)
  valid-Returns true true true true ok = rw ok (
      decode_loop-returns dec add_header channels disk (suc (length input)) input 0 0 s
        (start_file disk add_header rate channels) (omega arith))

-- decode_with_opus, for every input, every codec, every disk, every rate, number of channels and
-- choice of the header, and whatever of its set-up fails, ends and returns 0 or 1.
pub decode_with_opus-returns :
    {S : Type 0} (dec : Decoder S) (disk : ℕ → ℕ → ℕ) (rate channels : ℕ)
    (add_header in_file out_file opened fout created memory : Bool) (input : List ℕ) (s : S)
    → (r : Run) × (decode_with_opus dec disk
          (suc (length input))
          rate
          channels
          add_header
          in_file
          out_file
          (if opened then some input else none)
          fout
          (if created then some s else none)
          memory
        ≡ some r)
      × ((r.ret ≡ 0) ⊎ (r.ret ≡ 1))
unfolding decode_with_opus
decode_with_opus-returns dec disk rate channels add_header in_file out_file opened fout created
      memory input s =
    elim (Bool-cases (check_invalid rate channels in_file out_file)) [
      | inl bad ↦ rw bad (record { ret = 1; file = empty_file }, refl, inr refl)
      | inr ok ↦
          valid-Returns dec disk rate channels add_header in_file out_file input s opened fout
            created memory ok
    ]
