-- ===== src/Sse/Frames.antt =====
-- What a server writes for an event, and that src/sse.rs reads the event back.
mod Bytes
use bench_cli.Base.{
  ℕ, ◌≡◌, refl, ap, ◌∙◌, Bool, true, false, Option, none, some, List, [], ◌∷◌, ◌++◌, append-nil,
  append_assoc, All, All-append, ◌≢◌, map, flatten, arith, ◌==◌, inl,
}
use bench_cli.Text.{
  Text, codes, is_empty, is_whitespace, keep_unless_blank, trim, trim_start, trim_end, strip_prefix,
  starts_with, join,
}
use bench_cli.Text.Utf8.{encode, encode_char, decode_from, decode_end, from_utf8_lossy}
use bench_cli.Text.Utf8.RoundTrip.{IsScalar, from_utf8_lossy-encode}
use bench_cli.Sse.{
  SseEvent, SseParser, new, newline, pop_if, event_of, dispatch_event, handle_field, handle_text,
  handle_line, push_event, feed,
}
use bench_cli.Sse.Scan.{IsClean, scan, feed-scan}
use bench_cli.Sse.Chunks.{feed_all, feed_all-flatten}
use Bytes.{IsOneLine, encode-append, encode-IsClean, pop_if-encode, NoCr, NoCr-trim_end, scan-line}

-- A line that a `data:` field can carry: scalar values, no newline, no white space at the end.
pub record IsLine (l : Text) : Type 0 where
  pub scalars : All IsScalar l
  pub one_line : IsOneLine l
  pub trimmed : trim_end l ≡ l

-- One event on the wire: a `data:` field for each line, then a blank line.
unfoldable pub frame : List Text → Text
frame [] = newline ∷ []
frame (l ∷ ls) = (codes "data: " ++ l) ++ newline ∷ frame ls

trim_end-field_cons :
    (l : Text) (x : ℕ) (xs : Text)
    → trim_end l ≡ x ∷ xs
    → trim_end (codes "data: " ++ l) ≡ codes "data: " ++ x ∷ xs
unfolding trim_end keep_unless_blank
trim_end-field_cons l x xs h = rw h

trim-field : (l : Text) → trim (codes "data: " ++ l) ≡ trim_end (codes "data: " ++ l)
unfolding trim trim_start is_whitespace
trim-field l = refl

NoCr-field : (l : Text) → trim_end l ≡ l → NoCr (codes "data: " ++ l)
NoCr-field [] h = refl
NoCr-field (x ∷ xs) h = NoCr-trim_end (x ∷ xs) h

IsScalar-field : (l : Text) → All IsScalar l → All IsScalar (codes "data: " ++ l)
IsScalar-field l h = All-append IsScalar (codes "data: ") l (omega arith) h

encode-newline : (cs : Text) → encode (newline ∷ cs) ≡ newline ∷ encode cs
unfolding encode encode_char
encode-newline cs = refl

frame_bytes :
    (l : Text) (cs : Text) (rest : List ℕ)
    → encode ((codes "data: " ++ l) ++ newline ∷ cs) ++ rest
      ≡ encode (codes "data: " ++ l) ++ newline ∷ (encode cs ++ rest)
frame_bytes l cs rest = rw (encode-append (codes "data: " ++ l) (newline ∷ cs)) (
    rw (encode-newline cs) (append_assoc (encode (codes "data: " ++ l)) (newline ∷ encode cs) rest))

abbrev parser : List Text → SseParser
parser lines = record { pending = []; data_lines = lines }

module _ {V : Type 0} (from_str : Text → Option V) where
  handle_text-field :
      (lines : List Text) (l : Text)
      → trim_end l ≡ l
      → handle_text from_str (parser lines) (codes "data: " ++ l) ≡ (parser (lines ++ l ∷ []), none)
  unfolding handle_text handle_field strip_prefix starts_with is_empty
  handle_text-field lines [] h =
      unfold trim trim_start trim_end keep_unless_blank is_whitespace in refl
  handle_text-field lines (x ∷ xs) h =
      rw (trim-field (x ∷ xs)) (rw (trim_end-field_cons (x ∷ xs) x xs h))

  handle_line-field :
      (lines : List Text) (l : Text)
      → IsLine l
      → handle_line from_str (parser lines) (pop_if b'\r' (encode (codes "data: " ++ l)))
        ≡ (parser (lines ++ l ∷ []), none)
  unfolding handle_line
  handle_line-field lines l h = rw (pop_if-encode (codes "data: " ++ l) (NoCr-field l h.trimmed)) (
      rw (from_utf8_lossy-encode (codes "data: " ++ l) (IsScalar-field l h.scalars))
        (handle_text-field lines l h.trimmed))

  handle_line-blank :
      (lines : List Text)
      → handle_line from_str (parser lines) (pop_if b'\r' [])
        ≡ dispatch_event from_str (parser lines)
  unfolding handle_line handle_text pop_if from_utf8_lossy decode_from decode_end is_empty trim
      trim_start trim_end
  handle_line-blank lines = refl

  -- The machine on a framed event, with the lines of the event that it has already.
  scan-frame :
      (ls lines : List Text) (rest : List ℕ) (events : List (SseEvent V))
      → All IsLine ls
      → scan from_str (parser lines) events (encode (frame ls) ++ rest) ≡ (
          let q = dispatch_event from_str (parser (lines ++ ls)) in
          scan from_str q.0 (push_event from_str events q.1) rest)
  unfolding frame
  scan-frame [] lines rest events h = rw append-nil (
      rw (encode-newline []) (
        unfold encode in scan-line from_str [] rest lines events tt ∙ rw (handle_line-blank lines)))
  scan-frame (l ∷ ls) lines rest events h = rw (frame_bytes l (frame ls) rest) (
      scan-line from_str (encode (codes "data: " ++ l)) (encode (frame ls) ++ rest) lines events (
        encode-IsClean (codes "data: " ++ l) (
          All-append _ (codes "data: ") l (refl, (refl, (refl, (refl, (refl, (refl, tt))))))
            h.0.one_line))
      ∙ rw (handle_line-field lines l h.0)
          (scan-frame ls (lines ++ l ∷ []) rest events h.1 ∙ rw (append_assoc lines (l ∷ []) ls)))

  -- The event that a list of lines stands for.
  abbrev pub event_of_lines : List Text → SseEvent V
  event_of_lines ls = event_of from_str (join (newline ∷ []) ls)

  -- The stream of several events.
  unfoldable pub frames : List (List Text) → Text
  frames [] = []
  frames (e ∷ es) = frame e ++ frames es

  dispatch_event-lines :
      (ls : List Text)
      → ls ≢ []
      → dispatch_event from_str (parser ls) ≡ (new, some (event_of_lines ls))
  unfolding dispatch_event is_empty
  dispatch_event-lines [] ne = absurd (ne refl)
  dispatch_event-lines (l ∷ ls) ne = refl

  -- Each event has a line, and each of its lines can be sent.
  abbrev pub IsSendable : List Text → Type 0
  IsSendable ls = (ls ≢ []) × All IsLine ls

  scan-frames :
      (es : List (List Text)) (events : List (SseEvent V))
      → All IsSendable es
      → scan from_str new events (encode (frames es)) ≡ (new, events ++ map event_of_lines es)
  unfolding frames
  scan-frames [] events h = unfold encode scan in rw append-nil
  scan-frames (e ∷ es) events h = rw (encode-append (frame e) (frames es)) (
      scan-frame e [] (encode (frames es)) events h.0.1
      ∙ rw (dispatch_event-lines e h.0.0) (
          scan-frames es (events ++ event_of_lines e ∷ []) h.1
          ∙ rw (append_assoc events (event_of_lines e ∷ []) (map event_of_lines es))))

  -- However the bytes of a stream of sendable events are cut into chunks, feeding the chunks to a
  -- new parser gives exactly these events, in order, and leaves the parser as new.
  pub feed_all-frames :
      (es : List (List Text)) (chunks : List (List ℕ))
      → All IsSendable es
      → flatten chunks ≡ encode (frames es)
      → feed_all from_str new chunks ≡ (new, map event_of_lines es)
  feed_all-frames es chunks h e =
      feed_all-flatten from_str new chunks tt
      ∙ rw e (feed-scan from_str new (encode (frames es)) tt ∙ scan-frames es [] h)
