-- ===== src/Text/Utf8/RoundTrip.antt =====
-- Decoding what was encoded gives the text back.
use bench_cli.Base.{
  ℕ, ◌+◌, ◌/◌, ◌%◌, ◌<◌, ◌≤◌, ◌≡◌, ◌∙◌, refl, ap, ◌⊎◌, List, [], ◌∷◌, ◌++◌, All, arith,
}
use bench_cli.Text.Utf8.{
  start, encode_char, decode_first, decode_byte, decode_end, decode_from, from_utf8_lossy, encode,
}

-- The scalar values, `char` of Rust.
abbrev pub IsScalar : ℕ → Type 0
IsScalar c = (c < 0xD800) ⊎ ((0xDFFF < c) × (c < 0x110000))

decode-one :
    (c : ℕ) (rest : List ℕ) → c < 0x80 → decode_from start (c ∷ rest) ≡ c ∷ decode_from start rest
unfolding decode_from decode_byte decode_first
decode-one c rest h = ground arith

decode-two :
    (c : ℕ) (rest : List ℕ)
    → 0x80 ≤ c
    → c < 0x800
    → decode_from start ((0xC0 + c / 64) ∷ (0x80 + c % 64) ∷ rest) ≡ c ∷ decode_from start rest
unfolding decode_from decode_byte decode_first
decode-two c rest h k = ground arith

decode-three :
    (c : ℕ) (rest : List ℕ)
    → 0x800 ≤ c
    → c < 0x10000
    → IsScalar c
    → decode_from start ((0xE0 + c / 4096) ∷ (0x80 + c / 64 % 64) ∷ (0x80 + c % 64) ∷ rest)
      ≡ c ∷ decode_from start rest
unfolding decode_from decode_byte decode_first
decode-three c rest h k s = ground arith

decode-four :
    (c : ℕ) (rest : List ℕ)
    → 0x10000 ≤ c
    → c < 0x110000
    → decode_from start (
        (0xF0 + c / 262144)
        ∷ (0x80 + c / 4096 % 64)
        ∷ (0x80 + c / 64 % 64)
        ∷ (0x80 + c % 64)
        ∷ rest)
      ≡ c ∷ decode_from start rest
unfolding decode_from decode_byte decode_first
decode-four c rest h k = ground arith

decode-encode_char :
    (c : ℕ) (rest : List ℕ)
    → IsScalar c
    → decode_from start (encode_char c ++ rest) ≡ c ∷ decode_from start rest
unfolding encode_char
decode-encode_char c rest s =
    ground (arith, decode-one c rest, decode-two c rest, decode-three c rest, decode-four c rest)

decode-encode : (cs : List ℕ) → All IsScalar cs → decode_from start (encode cs) ≡ cs
unfolding encode decode_from decode_end
decode-encode [] h = refl
decode-encode (c ∷ cs) h = decode-encode_char c (encode cs) h.0 ∙ ap (◌∷◌ c) (decode-encode cs h.1)

-- A text of scalar values is read back from its bytes.
pub from_utf8_lossy-encode : (cs : List ℕ) → All IsScalar cs → from_utf8_lossy (encode cs) ≡ cs
unfolding from_utf8_lossy
from_utf8_lossy-encode cs h = decode-encode cs h
