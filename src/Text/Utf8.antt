-- ===== src/Text/Utf8.antt =====
-- UTF-8: `char::encode_utf8` and `String::from_utf8_lossy` of the standard library. The decoder
-- reads a byte at a time; each maximal invalid piece becomes one U+FFFD.
pub mod RoundTrip
use bench_cli.Base.{
  ℕ, zero, suc, ◌+◌, ◌-◌, ◌*◌, ◌/◌, ◌%◌, ◌<◌, ◌≡◌, refl, Bool, ◌&&◌, List, [], ◌∷◌, ◌++◌, All,
  arith, ltb, leb, ◌==◌, if◌then◌else◌,
}

abbrev pub replacement : ℕ
replacement = 0xFFFD

unfoldable pub encode_char : ℕ → List ℕ
encode_char c =
    if ltb c 0x80
    then c ∷ []
    else if ltb c 0x800
    then (0xC0 + c / 64) ∷ (0x80 + c % 64) ∷ []
    else if ltb c 0x10000
    then (0xE0 + c / 4096) ∷ (0x80 + c / 64 % 64) ∷ (0x80 + c % 64) ∷ []
    else (0xF0 + c / 262144) ∷ (0x80 + c / 4096 % 64) ∷ (0x80 + c / 64 % 64) ∷ (0x80 + c % 64) ∷ []

-- `more left lo hi acc`: inside a sequence, `left + 1` bytes are due, the next in `lo..=hi`.
pub data Decoder : Type 0 where
  start : Decoder
  more : ℕ → ℕ → ℕ → ℕ → Decoder

pub record Decoded : Type 0 where
  pub next : Decoder
  pub out : List ℕ

abbrev decoded : Decoder → List ℕ → Decoded
decoded d cs = record { next = d; out = cs }

-- A byte at the start of a sequence.
unfoldable pub decode_first : ℕ → Decoded
decode_first b =
    if ltb b 0x80
    then decoded start (b ∷ [])
    else if leb 0xC2 b && leb b 0xDF
    then decoded (more 0 0x80 0xBF (b - 0xC0)) []
    else if b == 0xE0
    then decoded (more 1 0xA0 0xBF 0) []
    else if b == 0xED
    then decoded (more 1 0x80 0x9F 13) []
    else if leb 0xE1 b && leb b 0xEF
    then decoded (more 1 0x80 0xBF (b - 0xE0)) []
    else if b == 0xF0
    then decoded (more 2 0x90 0xBF 0) []
    else if b == 0xF4
    then decoded (more 2 0x80 0x8F 4) []
    else if leb 0xF1 b && leb b 0xF3
    then decoded (more 2 0x80 0xBF (b - 0xF0)) []
    else decoded start (replacement ∷ [])

-- An accepted continuation byte.
abbrev continued : ℕ → ℕ → Decoded
continued zero acc = decoded start (acc ∷ [])
continued (suc left) acc = decoded (more left 0x80 0xBF acc) []

-- A byte that breaks a sequence ends it and begins the next one.
abbrev broken : Decoded → Decoded
broken d = record d { out = replacement ∷ d.out }

unfoldable pub decode_byte : Decoder → ℕ → Decoded
unfolding decode_first
decode_byte start b = decode_first b
decode_byte (more left lo hi acc) b =
    if leb lo b && leb b hi then continued left (acc * 64 + (b - 0x80)) else broken (decode_first b)

-- At the end of the input an unfinished sequence is one more U+FFFD.
unfoldable pub decode_end : Decoder → List ℕ
decode_end start = []
decode_end (more left lo hi acc) = replacement ∷ []

unfoldable pub decode_from : Decoder → List ℕ → List ℕ
unfolding decode_byte decode_end
decode_from d [] = decode_end d
decode_from d (b ∷ bs) = (decode_byte d b).out ++ decode_from (decode_byte d b).next bs

unfoldable pub from_utf8_lossy : List ℕ → List ℕ
unfolding decode_from
from_utf8_lossy = decode_from start

unfoldable pub encode : List ℕ → List ℕ
unfolding encode_char
encode [] = []
encode (c ∷ cs) = encode_char c ++ encode cs
