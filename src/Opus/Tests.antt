-- ===== src/Opus/Tests.antt =====
-- opus_api/SCOpusAPI_ios.c: runs at concrete inputs, with a codec that packs a frame into one byte.
use carrots.Base.{
  ℕ, suc, ◌+◌, ◌/◌, ◌%◌, ◌^◌, ◌≡◌, ◌⊎◌, refl, List, [], ◌∷◌, ◌++◌, some, true, false, length, arith,
}
use carrots.Base.Int.{ℤ, pos}
use carrots.Opus.{File, Run, check_invalid, is_supported, to_samples, from_samples}
use carrots.Opus.Encode.{Encoder, encode_with_opus}
use carrots.Opus.Decode.{Decoder, decode_with_opus, wave_header, fmt_header, data_header}
use carrots.Opus.Framing.{Even, from_samples-to_samples}
use carrots.Opus.Packets.{Packet, packets_bytes, decode_packets}
use carrots.Opus.Produce.{IsWhole, AreFrames, encode_frames}
use carrots.Opus.RoundTrip.{encode_with_opus-decode_with_opus, decode_with_opus-returns}
use carrots.Opus.Header.{decode_with_opus-wave}

abbrev encoder : Encoder (List ℤ)
encoder = record {
  encode = λ s f. f;
  len = λ s. pos 1;
  data_of = λ s. 7 ∷ [];
  nb_encoded = λ s. pos 160;
  final_range = length;
}

encoder-IsWhole : IsWhole encoder (8000 / 50)
encoder-IsWhole = record { whole = λ s f. refl; returned = λ s f. refl; fits = λ s f. omega arith }

-- Each packet is one sample, the number of the packet.
abbrev decoder : Decoder ℕ
decoder = record {
  decode = λ s packet room. suc s;
  output_samples = λ s. 1;
  out = λ s. pos s ∷ [];
  last_duration = λ s. 1;
}

abbrev disk : ℕ → ℕ → ℕ
disk p n = n

mono-valid : check_invalid 8000 1 true true ≡ false
unfolding check_invalid is_supported
mono-valid = refl

encode_with_opus-decode_with_opus_example :
    (fs : List (List ℤ)) × (f g : File) × AreFrames 160 1 (1 ∷ 0 ∷ 2 ∷ []) fs
    × (encode_with_opus encoder disk 4 8000 1 true true (some (1 ∷ 0 ∷ 2 ∷ [])) true (some []) true
        ≡ some (record { ret = 0; file = f }))
    × (decode_with_opus decoder disk
          (suc (length f.bytes))
          8000
          1
          false
          true
          true
          (some f.bytes)
          true
          (some 0)
          true
        ≡ some (record { ret = 0; file = g }))
    × (g.bytes ≡ decode_packets decoder 1 (encode_frames encoder [] fs) 0 0)
encode_with_opus-decode_with_opus_example =
    encode_with_opus-decode_with_opus encoder decoder disk 8000 1 (1 ∷ 0 ∷ 2 ∷ []) [] 0
      (λ p n. refl) encoder-IsWhole (λ x. refl) mono-valid

decode_with_opus-returns_example :
    (r : Run) × (decode_with_opus decoder disk 5 8000 1 true true true
        (some (0 ∷ 0 ∷ 9 ∷ 9 ∷ []))
        true
        (some 0)
        true
      ≡ some r)
    × ((r.ret ≡ 0) ⊎ (r.ret ≡ 1))
decode_with_opus-returns_example =
    decode_with_opus-returns decoder disk 8000 1 true true true true true true true
      (0 ∷ 0 ∷ 9 ∷ 9 ∷ []) 0

abbrev two_packets : List Packet
two_packets =
    record { range = 5; data_of = 7 ∷ [] } ∷ record { range = 6; data_of = 8 ∷ 9 ∷ [] } ∷ []

decode_with_opus-wave_example :
    (g : File) × (decode_with_opus decoder disk 3 8000 1 true true true
        (some (packets_bytes two_packets))
        true
        (some 0)
        true
      ≡ some (record { ret = 0; file = g }))
    × (g.bytes
        ≡ wave_header ((44 + length (decode_packets decoder 1 two_packets 0 0) % 2 ^ 32) % 2 ^ 32)
          ++ (fmt_header 8000 1
              ++ (data_header (length (decode_packets decoder 1 two_packets 0 0) % 2 ^ 32)
                  ++ decode_packets decoder 1 two_packets 0 0)))
decode_with_opus-wave_example =
    decode_with_opus-wave decoder disk 8000 1 two_packets 0 (λ p n. refl) (λ x. refl) mono-valid
      (omega arith, (omega arith, tt))

from_samples-to_samples_example :
    from_samples (to_samples (1 ∷ 255 ∷ 0 ∷ 128 ∷ [])) ≡ 1 ∷ 255 ∷ 0 ∷ 128 ∷ []
unfolding Even
from_samples-to_samples_example =
    from_samples-to_samples (1 ∷ 255 ∷ 0 ∷ 128 ∷ []) tt
      (omega arith, (omega arith, (omega arith, (omega arith, tt))))
