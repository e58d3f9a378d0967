-- ===== src/Opus.antt =====
-- opus_api/SCOpusAPI_ios.c: the checks of the arguments, the framing of packets by big-endian lengths,
-- samples of 16 bits in little-endian bytes, and the files that the encoder and the decoder write.
pub mod Encode
pub mod Decode
pub mod Framing
pub mod Packets
pub mod Frames
pub mod Produce
pub mod Encoded
pub mod RoundTrip
pub mod Header
mod Tests
use carrots.Base.{
  ℕ, zero, suc, ◌+◌, ◌-◌, ◌*◌, ◌/◌, ◌%◌, ◌^◌, min, List, [], ◌∷◌, ◌++◌, Bool, true, false, ltb, leb,
  ◌==◌, ◌||◌, ◌&&◌, not, if◌then◌else◌, length, take, drop, replicate,
}
use carrots.Base.Int.{ℤ, pos, negsuc}

abbrev pub max_packet : ℕ
max_packet = 1500

-- `int_to_char` and `char_to_int`
unfoldable pub int_to_char : ℕ → List ℕ
int_to_char i = i / 2 ^ 24 ∷ i / 2 ^ 16 % 256 ∷ i / 2 ^ 8 % 256 ∷ i % 256 ∷ []

unfoldable pub char_to_int : List ℕ → ℕ
char_to_int (a ∷ b ∷ c ∷ d ∷ _) = a * 2 ^ 24 + b * 2 ^ 16 + c * 2 ^ 8 + d
char_to_int _ = 0

-- The checks at the start of `encode_with_opus` and of `decode_with_opus`; whether a file is named.
unfoldable pub is_supported : ℕ → Bool
is_supported rate = rate == 8000 || rate == 12000 || rate == 16000 || rate == 24000 || rate == 48000

unfoldable pub check_invalid : ℕ → ℕ → Bool → Bool → Bool
check_invalid rate channels in_file out_file =
    not (is_supported rate) || ltb channels 1 || ltb 2 channels || not in_file || not out_file

-- A sample of two bytes, the low one first, and the bytes of a sample.
unfoldable pub to_sample : ℕ → ℕ → ℤ
to_sample lo hi =
    let s = (hi * 256 + lo) % 2 ^ 16 in if ltb s 32768 then pos s else negsuc (65535 - s)

unfoldable pub from_sample : ℤ → List ℕ
from_sample (pos n) = n % 256 ∷ n / 256 % 256 ∷ []
from_sample (negsuc n) = (65535 - n) % 256 ∷ (65535 - n) / 256 % 256 ∷ []

unfoldable pub to_samples : List ℕ → List ℤ
to_samples [] = []
to_samples (lo ∷ []) = []
to_samples (lo ∷ hi ∷ bytes) = to_sample lo hi ∷ to_samples bytes

unfoldable pub from_samples : List ℤ → List ℕ
from_samples [] = []
from_samples (s ∷ ss) = from_sample s ++ from_samples ss

-- The items that `fread` reads, and the samples in them.
unfoldable pub read_items : ℕ → ℕ → List ℕ → List (List ℕ)
read_items zero unit input = []
read_items (suc n) unit input =
    let rest = read_items n unit (drop unit input) in
    if leb unit (length input) then take unit input ∷ rest else []

unfoldable pub item_samples : List (List ℕ) → List ℤ
item_samples [] = []
item_samples (i ∷ is) = to_samples i ++ item_samples is

-- A file open for writing; a write of some bytes behind its end fills the gap with zeros.
pub record File : Type 0 where
  pub bytes : List ℕ
  pub position : ℕ

unfoldable pub overwrite : ℕ → List ℕ → List ℕ → List ℕ
overwrite p [] old = old
overwrite p (b ∷ bs) old =
    take p (old ++ replicate (p - length old) 0) ++ (b ∷ bs) ++ drop (p + length (b ∷ bs)) old

-- `fwrite`, which writes as many bytes as the disk takes of those at hand at that position.
unfoldable pub fwrite : (ℕ → ℕ → ℕ) → File → List ℕ → Bool × File
fwrite disk f new =
    let n = min (disk f.position (length new)) (length new) in
    (
      n == length new,
      record { bytes = overwrite f.position (take n new) f.bytes; position = f.position + n },
    )

abbrev pub fseek : File → ℕ → File
fseek f p = record f { position = p }

-- How a call ended: what it returns, and the output file.
pub record Run : Type 0 where
  pub ret : ℕ
  pub file : File
