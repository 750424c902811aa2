-- ===== src/Chat/Errors.antt =====
-- src/error.rs and `classify_app_error` of src/jsonl.rs. `reqwest::Error` is not part of the
-- repository and is a parameter.
pub mod Causes
use bench_cli.Base.{
  ℕ, zero, suc, ◌+◌, ◌/◌, ◌%◌, Bool, true, false, ◌||◌, Option, none, some, List, [], ◌∷◌, ◌++◌,
  ltb, ◌==◌, if◌then◌else◌,
}
use bench_cli.Text.{Text, codes, contains, to_ascii_lowercase}

pub data RequestError : Type 0 where
  timeout connect : RequestError
  http_status : ℕ → RequestError
  rate_limit stream_truncated : RequestError
  parse_error : Text → RequestError
  no_output_token reasoning_truncated usage_missing : RequestError
  api_error other : Text → RequestError

-- `from_status`
unfoldable pub from_status : ℕ → RequestError
from_status status = if status == 429 then rate_limit else http_status status

-- `type_name`
unfoldable pub type_name : RequestError → Text
type_name timeout = codes "timeout"
type_name connect = codes "connect"
type_name (http_status _) = codes "http_status"
type_name rate_limit = codes "rate_limit"
type_name stream_truncated = codes "stream_truncated"
type_name (parse_error _) = codes "parse_error"
type_name no_output_token = codes "no_output_token"
type_name reasoning_truncated = codes "reasoning_truncated"
type_name usage_missing = codes "usage_missing"
type_name (api_error _) = codes "api_error"
type_name (other _) = codes "other"

-- The decimal digits of a number below `10 ^ fuel`.
unfoldable pub decimal_onto : ℕ → ℕ → Text → Text
decimal_onto zero n rest = rest
decimal_onto (suc fuel) n rest =
    let longer = decimal_onto fuel (n / 10) ((b'0' + n % 10) ∷ rest) in
    if ltb n 10 then (b'0' + n) ∷ rest else longer

-- A `u16` has five digits at most.
abbrev show_u16 : ℕ → Text
show_u16 n = decimal_onto 5 n []

-- `Display`
unfoldable pub display : RequestError → Text
unfolding decimal_onto
display timeout = codes "timeout"
display connect = codes "connect error"
display (http_status status) = codes "HTTP " ++ show_u16 status
display rate_limit = codes "rate limited (429)"
display stream_truncated = codes "stream truncated"
display (parse_error message) = codes "parse error: " ++ message
display no_output_token = codes "no output token"
display reasoning_truncated = codes "reasoning truncated before visible output"
display usage_missing = codes "usage missing"
display (api_error message) = codes "API error: " ++ message
display (other message) = message

-- `classify_app_error`, on the text of the error.
unfoldable pub classify_app_error : Text → RequestError
classify_app_error msg =
    let lowered = to_ascii_lowercase msg in
    if contains lowered (codes "no output token")
    then no_output_token
    else if contains lowered (codes "stream truncated")
    then stream_truncated
    else if contains lowered (codes "api error")
    then api_error msg
    else other msg

-- `std::io::ErrorKind`, as far as it is told apart.
pub data IoKind : Type 0 where
  connection_reset broken_pipe connection_aborted another : IoKind

-- An error of the source chain: its kind if it is a `std::io::Error`, and its text.
pub record Link : Type 0 where
  pub io_kind : Option IoKind
  pub text : Text

abbrev is_reset_kind : Option IoKind → Bool
is_reset_kind (some connection_reset) = true
is_reset_kind (some broken_pipe) = true
is_reset_kind (some connection_aborted) = true
is_reset_kind _ = false

unfoldable pub is_reset_text : Text → Bool
is_reset_text text =
    let msg = to_ascii_lowercase text in
    contains msg (codes "connection reset")
    || contains msg (codes "broken pipe")
    || contains msg (codes "connection aborted")

-- `is_connection_reset`, over the error and its sources.
unfoldable pub is_connection_reset : List Link → Bool
is_connection_reset [] = false
is_connection_reset (e ∷ sources) =
    is_reset_kind e.io_kind || is_reset_text e.text || is_connection_reset sources

-- What the code asks of a `reqwest::Error`, and `redact_reqwest_error` of its text.
pub record Reqwest : Type 1 where
  pub Error : Type 0
  pub is_timeout : Error → Bool
  pub is_connect : Error → Bool
  pub status : Error → Option ℕ
  pub chain : Error → List Link
  pub redacted : Error → Text

module _ (R : Reqwest) where
  open R use {Error, is_timeout, is_connect, status, chain, redacted}

  unfoldable pub from_reqwest : Error → RequestError
  from_reqwest e =
      if is_timeout e then timeout else if is_connect e then connect else elim (status e) [
        | some s ↦ from_status s
        | none ↦ if is_connection_reset (chain e) then connect else other (redacted e)
      ]

  -- What an error of a chain is, as the two downcasts see it.
  pub data Cause : Type 0 where
    typed : RequestError → Cause
    transport : Error → Cause
    opaque : Cause

  -- `from_error`, on the text of the error and on the chain that starts with it.
  unfoldable pub from_error : Text → List Cause → RequestError
  from_error text [] = classify_app_error text
  from_error text (typed e ∷ sources) = e
  from_error text (transport e ∷ sources) = from_reqwest e
  from_error text (opaque ∷ sources) = from_error text sources
