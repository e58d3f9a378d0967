-- ===== src/Opus/Packets.antt =====
-- opus_api/SCOpusAPI_ios.c: the decoder reads from a file of packets exactly these packets.
use carrots.Base.{
  ℕ, zero, suc, ◌+◌, ◌-◌, ◌*◌, ◌%◌, ◌^◌, ◌≤◌, ◌<◌, ◌≡◌, refl, sym, ap, ap₂, ◌∙◌, inl, inr, List, [],
  ◌∷◌, ◌++◌, some, Bool, true, false, ltb, if◌then◌else◌, length, take, drop, length-append,
  take-append_lt, drop-append_lt, length-take, length-drop, drop-length, arith, All, Bool-cases,
}
use native.Mathlib.Nat.{add-mul, mul_assoc, mul_comm}
use carrots.Base.Int.{ℤ, pos, negsuc}
use carrots.Opus.{File, int_to_char, char_to_int, from_sample, from_samples, max_packet}
use carrots.Opus.Decode.{
  Decoder, after_packet, decode_loop, pcm_of, skip_after, write_samples, finish_file,
}
use carrots.Opus.Framing.{
  appended, fwrite-appended, appended-append, appended-nil, appended-behind,
  char_to_int-int_to_char,
}

pub record Packet : Type 0 where
  pub range : ℕ
  pub data_of : List ℕ

unfoldable pub packet_bytes : Packet → List ℕ
packet_bytes p = int_to_char (length p.data_of) ++ int_to_char p.range ++ p.data_of

unfoldable pub packets_bytes : List Packet → List ℕ
packets_bytes [] = []
packets_bytes (p ∷ ps) = packet_bytes p ++ packets_bytes ps

-- The bytes that are written for a packet.
unfoldable pub packet_pcm : ℕ → ℕ → ℕ → List ℤ → List ℕ
packet_pcm channels skip samples out =
    if ltb skip samples then pcm_of channels skip samples out else []

-- The bytes of the samples of the packets in order.
unfoldable pub decode_packets : {S : Type 0} → Decoder S → ℕ → List Packet → ℕ → S → List ℕ
decode_packets dec channels [] skip s = []
decode_packets dec channels (p ∷ ps) skip s =
    let s₂ = after_packet dec s (length p.data_of) p.data_of in
    packet_pcm channels skip (dec.output_samples s₂) (dec.out s₂)
    ++ decode_packets dec channels ps (skip_after (dec.output_samples s₂) skip) s₂

length-from_samples : (ss : List ℤ) → length (from_samples ss) ≡ 2 * length ss
unfolding from_samples from_sample
length-from_samples [] = omega arith
length-from_samples (pos n ∷ ss) = omega (arith, length-from_samples ss)
length-from_samples (negsuc n ∷ ss) = omega (arith, length-from_samples ss)

length-pcm_of :
    (channels skip samples : ℕ) (out : List ℤ)
    → skip < samples
    → length out ≡ samples * channels
    → length (pcm_of channels skip samples out) ≡ 2 * channels * (samples - skip)
unfolding pcm_of
length-pcm_of channels skip samples out low full =
    let a = length-from_samples (take ((samples - skip) * channels) (drop (skip * channels) out)) in
    let b = length-take ((samples - skip) * channels) (drop (skip * channels) out) in
    let c = length-drop (skip * channels) out in
    let d : (samples - skip) * channels + skip * channels ≡ samples * channels =
      let whole : samples - skip + skip ≡ samples = omega arith in
      sym (add-mul (samples - skip) skip channels) ∙ ap (λ k. k * channels) whole in
    let e : 2 * channels * (samples - skip) ≡ 2 * ((samples - skip) * channels) =
      mul_assoc 2 channels (samples - skip)
      ∙ ap (λ k. 2 * k) (mul_comm channels (samples - skip)) in
    omega (arith, a, b, c, d, e, full)

-- What a packet file begins with.
head-packet :
    (p : Packet) (rest : List ℕ)
    → length p.data_of ≤ max_packet
    → (char_to_int (packet_bytes p ++ rest) ≡ length p.data_of)
      × (drop 8 (packet_bytes p ++ rest) ≡ p.data_of ++ rest)
      × (ltb (length (packet_bytes p ++ rest)) 4 ≡ false)
unfolding packet_bytes int_to_char
head-packet p rest small = (
  char_to_int-int_to_char (length p.data_of) (int_to_char p.range ++ p.data_of ++ rest)
      (omega (arith, small)),
  refl,
  ground arith,
)

-- The size of the data after so many bytes.
unfoldable pub sized : Bool → ℕ → ℕ → ℕ
sized add_header wh_size n = if add_header then (wh_size + n) % 2 ^ 32 else wh_size

sized-zero :
    (add_header : Bool) (wh_size : ℕ) → wh_size < 2 ^ 32 → sized add_header wh_size 0 ≡ wh_size
unfolding sized
sized-zero true wh_size h = omega arith
sized-zero false wh_size h = refl

sized-bound :
    (add_header : Bool) (wh_size n : ℕ) → wh_size < 2 ^ 32 → sized add_header wh_size n < 2 ^ 32
unfolding sized
sized-bound true wh_size n h = omega arith
sized-bound false wh_size n h = h

sized-sized :
    (add_header : Bool) (wh_size m n : ℕ)
    → sized add_header (sized add_header wh_size m) n ≡ sized add_header wh_size (m + n)
unfolding sized
sized-sized true wh_size m n = omega arith
sized-sized false wh_size m n = refl

after_packet-append :
    {S : Type 0} (dec : Decoder S) (s : S) (packet rest : List ℕ)
    → after_packet dec s (length packet) (packet ++ rest)
      ≡ after_packet dec s (length packet) packet
unfolding after_packet
after_packet-append dec s packet rest =
    rw (take-append_lt (length packet) packet rest (omega arith)) refl

-- A decoder that fills `out` with as many samples as it says.
module _ {S : Type 0} (dec : Decoder S) (add_header : Bool) (channels : ℕ) (disk : ℕ → ℕ → ℕ)
    (roomy : (p n : ℕ) → disk p n ≡ n)
    (full : (s : S) → length (dec.out s) ≡ dec.output_samples s * channels) where
  -- The samples of one packet are written at the end of the file.
  write_samples-appended :
      (skip : ℕ) (s : S) (file : File) (wh_size : ℕ)
      → wh_size < 2 ^ 32
      → write_samples disk add_header channels skip (dec.output_samples s) (dec.out s) file wh_size
        ≡ record {
          wrote = true;
          file = appended file (packet_pcm channels skip (dec.output_samples s) (dec.out s));
          wh_size =
              sized add_header wh_size
                (length (packet_pcm channels skip (dec.output_samples s) (dec.out s)));
        }
  unfolding write_samples sized packet_pcm
  write_samples-appended skip s file wh_size small =
      elim (Bool-cases (ltb skip (dec.output_samples s))) [
        | inl on ↦
            let pcm = pcm_of channels skip (dec.output_samples s) (dec.out s) in
            let low : skip < dec.output_samples s = ground arith in
            rw
              (
                on,
                fwrite-appended disk file pcm roomy,
                length-pcm_of channels skip (dec.output_samples s) (dec.out s) low (full s),
              )
              refl
        | inr off ↦ rw (off, appended-nil file, sized-zero add_header wh_size small) refl
      ]

  -- The decoder reads from a file of packets exactly these packets.
  pub decode_loop-packets :
      (ps : List Packet) (fuel skip wh_size : ℕ) (s : S) (file : File)
      → All (λ p. length p.data_of ≤ max_packet) ps
      → length ps < fuel
      → length file.bytes ≤ file.position
      → wh_size < 2 ^ 32
      → decode_loop dec add_header channels disk fuel (packets_bytes ps) skip wh_size s file
        ≡ some (record {
          ret = 0;
          file =
              finish_file disk add_header
                (sized add_header wh_size (length (decode_packets dec channels ps skip s)))
                (appended file (decode_packets dec channels ps skip s));
        })
  unfolding decode_loop packets_bytes decode_packets
  decode_loop-packets ps zero skip wh_size s file fits fuelled at small = absurd (omega arith)
  decode_loop-packets [] (suc fuel) skip wh_size s file fits fuelled at small =
      rw (appended-nil file, sized-zero add_header wh_size small) refl
  decode_loop-packets (p ∷ ps) (suc fuel) skip wh_size s file fits fuelled at small =
      let n = length p.data_of in
      let (len, body, long) = head-packet p (packets_bytes ps) fits.0 in
      let short : ltb max_packet n ≡ false = let f = fits.0 in ground arith in
      let there : ltb (length (p.data_of ++ packets_bytes ps)) n ≡ false =
        let l = length-append p.data_of (packets_bytes ps) in ground arith in
      let tail : drop n (p.data_of ++ packets_bytes ps) ≡ packets_bytes ps =
        drop-append_lt n p.data_of (packets_bytes ps) (omega arith)
        ∙ ap (λ (r : List ℕ). r ++ packets_bytes ps) (drop-length n p.data_of (omega arith)) in
      let s₂ = after_packet dec s n p.data_of in
      let pcm = packet_pcm channels skip (dec.output_samples s₂) (dec.out s₂) in
      let later = decode_packets dec channels ps (skip_after (dec.output_samples s₂) skip) s₂ in
      rw
        (
          long,
          len,
          short,
          body,
          there,
          after_packet-append dec s p.data_of (packets_bytes ps),
          tail,
          write_samples-appended skip s₂ file wh_size small,
        )
        (decode_loop-packets ps fuel (skip_after (dec.output_samples s₂) skip)
            (sized add_header wh_size (length pcm)) s₂ (appended file pcm) fits.1 (omega arith)
            (appended-behind file pcm at) (sized-bound add_header wh_size (length pcm) small)
          ∙ ap₂ (λ w f. some (record { ret = 0; file = finish_file disk add_header w f }))
              (sized-sized add_header wh_size (length pcm) (length later)
                ∙ ap (sized add_header wh_size) (sym (length-append pcm later)))
              (appended-append file pcm later at))
