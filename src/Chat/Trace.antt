-- ===== src/Chat/Trace.antt =====
-- The timeline of a traced request, src/chat_stream.rs: categories and times, no content.
use bench_cli.Base.{
  ℕ, ◌/◌, ◌%◌, ◌^◌, Bool, Option, none, some, List, [], ◌∷◌, ◌++◌, length, if◌then◌else◌,
}

-- The names that a trace has for what an event carries.
pub data Category : Type 0 where
  done other error usage finish reasoning content : Category

pub record StreamEventTrace : Type 0 where
  pub index : ℕ
  pub t_ms : ℕ
  pub categories : List Category

-- `Duration::as_millis() as u64`
abbrev pub as_millis : ℕ → ℕ
as_millis t = t / 1000000 % 2 ^ 64

-- `if b { categories.push(c); }`
abbrev pub push_if : Bool → Category → List Category → List Category
push_if b c cs = if b then cs ++ c ∷ [] else cs

-- `trace.push(…)`, if there is a trace; the index is `len() as u32`.
unfoldable pub push_trace :
    ℕ → List Category → Option (List StreamEventTrace) → Option (List StreamEventTrace)
push_trace elapsed cs none = none
push_trace elapsed cs (some t) =
    some
      (t ++ (record { index = length t % 2 ^ 32; t_ms = as_millis elapsed; categories = cs }) ∷ [])
