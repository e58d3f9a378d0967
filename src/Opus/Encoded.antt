-- ===== src/Opus/Encoded.antt =====
-- opus_api/SCOpusAPI_ios.c: the loop of `encode_with_opus` as a whole.
use carrots.Base.{
  ℕ, zero, suc, ◌*◌, ◌≤◌, ◌<◌, ◌≡◌, sym, ap, ◌∙◌, inl, inr, List, [], ◌∷◌, some, ltb, length, drop,
  length-drop, append-nil, arith, Bool-cases,
}
use native.Mathlib.Nat.{mul-pos}
use carrots.Base.Int.{ℤ}
use carrots.Opus.{File, read_items}
use carrots.Opus.Encode.{Encoder, frame_of, encode_loop}
use carrots.Opus.Framing.{appended, appended-append, appended-behind}
use carrots.Opus.Packets.{Packet, packet_bytes, packets_bytes}
use carrots.Opus.Frames.{length-read_items, read_items-all}
use carrots.Opus.Produce.{
  IsWhole, encode_frames, AreFrames, encode_loop-round, last-AreFrames, more-AreFrames,
}

-- The loop of the encoder ends, and writes the packets of the frames of its input.
module _ {S : Type 0} (enc : Encoder S) (frame_size channels : ℕ) (disk : ℕ → ℕ → ℕ)
    (roomy : (p n : ℕ) → disk p n ≡ n) (w : IsWhole enc frame_size) (some_frame : 0 < frame_size)
    (some_channel : 0 < channels) where
  pub encode_loop-frames :
      (fuel : ℕ) (input : List ℕ) (s : S) (file : File)
      → length input < fuel
      → length file.bytes ≤ file.position
      → (fs : List (List ℤ)) × AreFrames frame_size channels input fs
        × (encode_loop enc frame_size channels disk fuel input (some 0) [] s file
            ≡ some
                (record { ret = 0; file = appended file (packets_bytes (encode_frames enc s fs)) }))
  unfolding encode_frames packets_bytes
  encode_loop-frames zero input s file fuelled at = absurd (omega arith)
  encode_loop-frames (suc fuel) input s file fuelled at =
      let is = read_items frame_size (2 * channels) input in
      let f = frame_of frame_size channels 0 [] is in
      let s₂ = enc.encode s f in
      let p : Packet = record { range = enc.final_range s₂; data_of = enc.data_of s₂ } in
      let most = length-read_items frame_size (2 * channels) input in
      elim (Bool-cases (ltb (length is) frame_size)) [
        | inl short ↦ (
          f ∷ [],
          last-AreFrames frame_size channels input some_channel (ground arith),
          rw (encode_loop-round enc frame_size channels disk roomy w input s file at fuel, short)
              (ap (λ b. some (record { ret = 0; file = appended file b }))
                (sym (append-nil (packet_bytes p)))),
        )
        | inr full ↦
            let all : length is ≡ frame_size = ground (arith, most) in
            let l = length-drop (frame_size * (2 * channels)) input in
            let fits = (read_items-all frame_size (2 * channels) input all).1 in
            let eaten : 0 < frame_size * (2 * channels) = mul-pos some_frame (omega arith) in
            let (fs, framed, runs) =
              encode_loop-frames fuel (drop (frame_size * (2 * channels)) input) s₂
                (appended file (packet_bytes p)) (omega (arith, l, fits, eaten))
                (appended-behind file (packet_bytes p) at) in
            (
              f ∷ fs,
              more-AreFrames frame_size channels input some_channel fs all framed,
              rw (encode_loop-round enc frame_size channels disk roomy w input s file at fuel, full)
                  (runs
                    ∙ ap (λ g. some (record { ret = 0; file = g }))
                        (appended-append file (packet_bytes p)
                          (packets_bytes (encode_frames enc s₂ fs)) at)),
            )
      ]
