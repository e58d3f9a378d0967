-- ===== src/Opus/Produce.antt =====
-- opus_api/SCOpusAPI_ios.c: the packets that `encode_with_opus` writes.
use carrots.Base.{
  ℕ, suc, ◌+◌, ◌-◌, ◌*◌, ◌≤◌, ◌<◌, ◌≡◌, refl, sym, ap, ◌∙◌, List, [], ◌∷◌, ◌++◌, some, true, ltb,
  leb, if◌then◌else◌, length, drop, replicate, length-append, length-replicate, take-length,
  append_assoc, append-nil, arith, All, All-append,
}
use native.Mathlib.Nat.{mul-le-mul_right, mul-lt-mul_of_pos_right}
use carrots.Base.Int.{ℤ, pos}
use carrots.Opus.{File, int_to_char, read_items, item_samples, max_packet}
use carrots.Opus.Encode.{Encoder, write_packet, remaining_of, shifted, frame_of, encode_loop}
use carrots.Opus.Framing.{appended, fwrite-appended, appended-append}
use carrots.Opus.Packets.{Packet, packet_bytes}
use carrots.Opus.Frames.{
  flat, length-read_items, read_items-sized, read_items-all, read_items-short, length-item_samples,
  flat-append, item_samples-append,
}

-- A codec that encodes each frame whole, into a packet that fits.
pub record IsWhole {S : Type 0} (enc : Encoder S) (frame_size : ℕ) : Type 0 where
  pub whole : (s : S) (f : List ℤ) → enc.nb_encoded (enc.encode s f) ≡ pos frame_size
  pub returned :
      (s : S) (f : List ℤ) → enc.len (enc.encode s f) ≡ pos (length (enc.data_of (enc.encode s f)))
  pub fits : (s : S) (f : List ℤ) → length (enc.data_of (enc.encode s f)) ≤ max_packet

-- The packets of frames in order.
unfoldable pub encode_frames : {S : Type 0} → Encoder S → S → List (List ℤ) → List Packet
encode_frames enc s [] = []
encode_frames enc s (f ∷ fs) =
    let s₂ = enc.encode s f in
    record { range = enc.final_range s₂; data_of = enc.data_of s₂ } ∷ encode_frames enc s₂ fs

-- The frames are the samples of the whole items of the input, and some silence; each has as many samples
-- as a frame takes.
pub record AreFrames (frame_size channels : ℕ) (input : List ℕ) (fs : List (List ℤ)) : Type 0 where
  pub items : List (List ℕ)
  pub rest : List ℕ
  pub silence : ℕ
  pub input_is : flat items ++ rest ≡ input
  pub sized : All (λ i. length i ≡ 2 * channels) items
  pub partial : length rest < 2 * channels
  pub frames_are : flat fs ≡ item_samples items ++ replicate silence (pos 0)
  pub full : All (λ f. length f ≡ frame_size * channels) fs
  pub some_silence : 0 < silence
  pub at_most_a_frame : silence ≤ frame_size * channels

module _ (disk : ℕ → ℕ → ℕ) (roomy : (p n : ℕ) → disk p n ≡ n) where
  write_packet-appended :
      (file : File) (range : ℕ) (packet : List ℕ)
      → length file.bytes ≤ file.position
      → write_packet disk file (length packet) range packet
        ≡ (true, appended file (packet_bytes (record { range = range; data_of = packet })))
  unfolding write_packet packet_bytes
  write_packet-appended file range packet at =
      let a = int_to_char (length packet) in
      let b = int_to_char range in
      let f₁ = appended file a in
      let f₂ = appended f₁ b in
      rw
        (
          take-length (length packet) packet (omega arith),
          fwrite-appended disk file a roomy,
          fwrite-appended disk f₁ b roomy,
          fwrite-appended disk f₂ packet roomy,
        )
        (ap (λ f. (true, f))
          (ap (λ f. appended f packet) (appended-append file a b at)
            ∙ appended-append file (a ++ b) packet at))

-- A round of the loop for a codec that encodes each frame whole.
module _ {S : Type 0} (enc : Encoder S) (frame_size channels : ℕ) (disk : ℕ → ℕ → ℕ)
    (roomy : (p n : ℕ) → disk p n ≡ n) (w : IsWhole enc frame_size) (input : List ℕ) (s : S)
    (file : File) (at : length file.bytes ≤ file.position) where
  abbrev items_read : List (List ℕ)
  items_read = read_items frame_size (2 * channels) input

  abbrev frame_read : List ℤ
  frame_read = frame_of frame_size channels 0 [] items_read

  abbrev packet_made : Packet
  packet_made = record {
    range = enc.final_range (enc.encode s frame_read);
    data_of = enc.data_of (enc.encode s frame_read);
  }

  pub encode_loop-round :
      (fuel : ℕ)
      → encode_loop enc frame_size channels disk (suc fuel) input (some 0) [] s file ≡ (
          if ltb (length items_read) frame_size
          then some (record { ret = 0; file = appended file (packet_bytes packet_made) })
          else encode_loop enc frame_size channels disk fuel
              (drop (frame_size * (2 * channels)) input)
              (some 0)
              []
              (enc.encode s frame_read)
              (appended file (packet_bytes packet_made)))
  unfolding encode_loop remaining_of shifted
  encode_loop-round fuel =
      let z : frame_size - 0 ≡ frame_size = omega arith in
      let n : length items_read + 0 ≡ length items_read = omega arith in
      let le : leb frame_size frame_size ≡ true = ground arith in
      let nothing : frame_size - frame_size ≡ 0 = omega arith in
      let none_left : 0 * channels ≡ 0 = omega arith in
      let f =
        frame_of frame_size channels 0 [] (read_items (frame_size - 0) (2 * channels) input) in
      rw
        (
          encode_loop,
          w.whole s f,
          w.returned s f,
          z,
          write_packet-appended disk roomy file (enc.final_range (enc.encode s frame_read))
              (enc.data_of (enc.encode s frame_read)) at,
          n,
          le,
          nothing,
          none_left,
        )
        refl

module _ (frame_size channels : ℕ) (input : List ℕ) (some_channel : 0 < channels) where
  abbrev items : List (List ℕ)
  items = read_items frame_size (2 * channels) input

  abbrev frame : List ℤ
  frame = frame_of frame_size channels 0 [] items

  samples_read : length (item_samples items) ≡ length items * channels
  samples_read =
      length-item_samples channels items (read_items-sized frame_size (2 * channels) input)

  in_frame : length items * channels ≤ frame_size * channels
  in_frame = mul-le-mul_right channels (length-read_items frame_size (2 * channels) input)

  length-frame : length frame ≡ frame_size * channels
  unfolding frame_of
  length-frame =
      let k : length items + 0 ≡ length items = omega arith in
      rw k (
        length-append (item_samples items)
          (replicate (frame_size * channels - length items * channels) (pos 0))
        ∙ omega (
          arith,
          samples_read,
          in_frame,
          length-replicate (frame_size * channels - length items * channels) (pos 0),
        ))

  pub last-AreFrames : length items < frame_size → AreFrames frame_size channels input (frame ∷ [])
  unfolding flat frame_of
  last-AreFrames short =
      let (rest, whole, few) = read_items-short frame_size (2 * channels) input short in
      let k : length items + 0 ≡ length items = omega arith in
      let less : length items * channels < frame_size * channels =
        mul-lt-mul_of_pos_right short some_channel in
      record {
        items = items;
        rest = rest;
        silence = frame_size * channels - length items * channels;
        input_is = whole;
        sized = read_items-sized frame_size (2 * channels) input;
        partial = few;
        frames_are = append-nil frame ∙ rw k refl;
        full = (length-frame, tt);
        some_silence = omega (arith, less);
        at_most_a_frame = omega arith;
      }

  pub more-AreFrames :
      (fs : List (List ℤ))
      → length items ≡ frame_size
      → AreFrames frame_size channels (drop (frame_size * (2 * channels)) input) fs
      → AreFrames frame_size channels input (frame ∷ fs)
  unfolding flat frame_of
  more-AreFrames fs all r =
      let (whole, fits) = read_items-all frame_size (2 * channels) input all in
      let k : length items + 0 ≡ frame_size = omega (arith, all) in
      let none_left : frame_size * channels - frame_size * channels ≡ 0 = omega arith in
      record {
        items = items ++ r.items;
        rest = r.rest;
        silence = r.silence;
        input_is =
            ap (λ (x : List ℕ). x ++ r.rest) (flat-append items r.items)
            ∙ append_assoc (flat items) (flat r.items) r.rest
            ∙ ap (◌++◌ (flat items)) r.input_is
            ∙ whole;
        sized =
            All-append (λ i. length i ≡ 2 * channels) items r.items
              (read_items-sized frame_size (2 * channels) input) r.sized;
        partial = r.partial;
        frames_are =
            rw (k, none_left, append-nil (item_samples items))
              (ap (◌++◌ (item_samples items)) r.frames_are
                ∙ sym (
                    append_assoc (item_samples items) (item_samples r.items)
                      (replicate r.silence (pos 0)))
                ∙ ap (λ (x : List ℤ). x ++ replicate r.silence (pos 0))
                    (sym (item_samples-append items r.items)));
        full = (length-frame, r.full);
        some_silence = r.some_silence;
        at_most_a_frame = r.at_most_a_frame;
      }
