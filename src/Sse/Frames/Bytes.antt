-- ===== src/Sse/Frames/Bytes.antt =====
-- A whole line of the input: its encoded bytes, and what the byte machine does with them.
use bench_cli.Base.{
  ℕ, ◌≡◌, refl, ap, ◌∙◌, false, Option, List, [], ◌∷◌, ◌++◌, append-nil, append_assoc, All,
  All-append, arith, ◌==◌, ◌≢◌,
}
use bench_cli.Text.{Text, trim_end, keep_unless_blank, is_whitespace}
use bench_cli.Text.Utf8.{encode, encode_char}
use bench_cli.Sse.{SseEvent, SseParser, newline, pop_if, handle_line, push_event}
use bench_cli.Sse.Scan.{IsClean, scan_byte, scan_byte-other, scan}

abbrev pub IsOneLine : Text → Type 0
IsOneLine = All (λ c. (c == newline) ≡ false)

pub encode-append : (a b : Text) → encode (a ++ b) ≡ encode a ++ encode b
unfolding encode
encode-append [] b = refl
encode-append (c ∷ a) b = rw (encode-append a b) (rw append_assoc)

encode_char-IsClean : (c : ℕ) → (c == newline) ≡ false → IsClean (encode_char c)
unfolding encode_char
encode_char-IsClean c h = ground arith

pub encode-IsClean : (cs : Text) → IsOneLine cs → IsClean (encode cs)
unfolding encode
encode-IsClean [] h = tt
encode-IsClean (c ∷ cs) h =
    All-append _ (encode_char c) (encode cs) (encode_char-IsClean c h.0) (encode-IsClean cs h.1)

pop_if-append : (b c : ℕ) (xs ys : List ℕ) → pop_if b (xs ++ c ∷ ys) ≡ xs ++ pop_if b (c ∷ ys)
unfolding pop_if
pop_if-append b c [] ys = refl
pop_if-append b c (x ∷ []) ys = refl
pop_if-append b c (x ∷ y ∷ xs) ys = ap (◌∷◌ x) (pop_if-append b c (y ∷ xs) ys)

-- A carriage return is no part of a longer sequence.
pop_if-encode_char : (c : ℕ) → (c == b'\r') ≡ false → pop_if b'\r' (encode_char c) ≡ encode_char c
unfolding pop_if encode_char
pop_if-encode_char c h = ground arith

encode_char-ne-nil : (c : ℕ) → encode_char c ≢ []
unfolding encode_char
encode_char-ne-nil c h = ground arith

append-ne-nil : (xs ys : List ℕ) → xs ≢ [] → (xs ++ ys) ≢ []
append-ne-nil [] ys ne e = ne refl
append-ne-nil (x ∷ xs) ys ne e = cc

pop_if-append_ne : (b : ℕ) (xs ys : List ℕ) → ys ≢ [] → pop_if b (xs ++ ys) ≡ xs ++ pop_if b ys
pop_if-append_ne b xs [] ne = absurd (ne refl)
pop_if-append_ne b xs (c ∷ ys) ne = pop_if-append b c xs ys

last_ne_cr : (c : ℕ) → trim_end (c ∷ []) ≡ c ∷ [] → (c == b'\r') ≡ false
unfolding trim_end keep_unless_blank is_whitespace
last_ne_cr c h = ground arith

kept_tail : (c d : ℕ) (cs t : Text) → keep_unless_blank c t ≡ c ∷ d ∷ cs → t ≡ d ∷ cs
unfolding keep_unless_blank is_whitespace
kept_tail c d cs [] h = ground arith
kept_tail c d cs (x ∷ t) h = cc

trim_end-tail :
    (c d : ℕ) (cs : Text) → trim_end (c ∷ d ∷ cs) ≡ c ∷ d ∷ cs → trim_end (d ∷ cs) ≡ d ∷ cs
trim_end-tail c d cs h = kept_tail c d cs (trim_end (d ∷ cs)) (unfold trim_end in h)

-- The last character is no carriage return.
abbrev pub NoCr : Text → Type 0
NoCr [] = Unit
NoCr (c ∷ []) = (c == b'\r') ≡ false
NoCr (c ∷ d ∷ cs) = NoCr (d ∷ cs)

pub NoCr-trim_end : (cs : Text) → trim_end cs ≡ cs → NoCr cs
NoCr-trim_end [] h = tt
NoCr-trim_end (c ∷ []) h = last_ne_cr c h
NoCr-trim_end (c ∷ d ∷ cs) h = NoCr-trim_end (d ∷ cs) (trim_end-tail c d cs h)

-- Then none is popped.
pub pop_if-encode : (cs : Text) → NoCr cs → pop_if b'\r' (encode cs) ≡ encode cs
unfolding encode
pop_if-encode [] h = unfold pop_if in refl
pop_if-encode (c ∷ []) h = rw append-nil (pop_if-encode_char c h)
pop_if-encode (c ∷ d ∷ cs) h =
    pop_if-append_ne b'\r' (encode_char c) (encode (d ∷ cs))
      (append-ne-nil (encode_char d) (encode cs) (encode_char-ne-nil d))
    ∙ ap (◌++◌ (encode_char c)) (pop_if-encode (d ∷ cs) h)

module _ {V : Type 0} (from_str : Text → Option V) where
  scan-bytes :
      (bs rest : List ℕ) (p : SseParser) (events : List (SseEvent V))
      → IsClean bs
      → scan from_str p events (bs ++ rest)
        ≡ scan from_str (record p { pending = p.pending ++ bs }) events rest
  unfolding scan
  scan-bytes [] rest p events h = rw append-nil
  scan-bytes (b ∷ bs) rest p events h =
      rw (scan_byte-other from_str p b h.0, scan)
        (scan-bytes bs rest (record p { pending = p.pending ++ b ∷ [] }) events h.1
          ∙ rw append_assoc)

  pub scan-line :
      (bs rest : List ℕ) (lines : List Text) (events : List (SseEvent V))
      → IsClean bs
      → scan from_str (record { pending = []; data_lines = lines }) events (bs ++ newline ∷ rest)
        ≡ (let q =
              handle_line from_str
                (record { pending = []; data_lines = lines })
                (pop_if b'\r' bs) in
            scan from_str q.0 (push_event from_str events q.1) rest)
  unfolding scan scan_byte
  scan-line bs rest lines events h =
      scan-bytes bs (newline ∷ rest) (record { pending = []; data_lines = lines }) events h
