-- ===== src/Telemetry/History.antt =====
-- The sample times of the telemetry sources, src/telemetry/scraper.rs: bounded buffers, and the
-- newest sample at or before a time. The lock of the shared map is held for each operation.
pub mod Newest
use bench_cli.Base.{
  ℕ, zero, suc, ◌+◌, ◌-◌, ◌*◌, ◌/◌, ◌%◌, ◌^◌, min, max, Bool, true, false, Option, none, some,
  and_then, find, unwrap_or, List, [], ◌∷◌, ◌++◌, length, ltb, leb, if◌then◌else◌,
}
use bench_cli.Text.{Text}
use bench_cli.Text.Maps.{Map, get, insert}

-- `SampleHistoryMap`. The oldest time of a buffer is its first.
pub record SampleHistoryMap : Type 0 where
  pub samples : Map (List ℕ)
  pub caps : Map ℕ

abbrev pub sample_history_fallback_cap : ℕ
sample_history_fallback_cap = 256

abbrev pub sample_history_max_cap : ℕ
sample_history_max_cap = 65536

-- `u128::div_ceil`
abbrev pub div_ceil : ℕ → ℕ → ℕ
div_ceil a b = (a + (b - 1)) / b

-- `usize::saturating_add`
abbrev pub saturating_add : ℕ → ℕ → ℕ
saturating_add a b = min (a + b) (2 ^ 64 - 1)

-- `sample_history_cap`; `as usize` keeps the low 64 bits.
unfoldable pub sample_history_cap : ℕ → ℕ → ℕ
sample_history_cap interval_ms request_timeout_s =
    min (saturating_add (div_ceil ((request_timeout_s + 60) * 1000) (max interval_ms 1) % 2 ^ 64) 2)
      sample_history_max_cap

-- `new_sample_history`
unfoldable pub new_sample_history : Map ℕ → SampleHistoryMap
new_sample_history caps = record { samples = []; caps = caps }

-- `while deque.len() > cap { deque.pop_front(); }`
unfoldable pub trim : ℕ → List ℕ → List ℕ
trim cap [] = []
trim cap (t ∷ ts) = let rest = trim cap ts in if ltb cap (length (t ∷ ts)) then rest else t ∷ ts

abbrev pub cap_of : SampleHistoryMap → Text → ℕ
cap_of history source = unwrap_or (get history.caps source) sample_history_fallback_cap

abbrev pub times_of : SampleHistoryMap → Text → List ℕ
times_of history source = unwrap_or (get history.samples source) []

-- `note_sample`
unfoldable pub note_sample : SampleHistoryMap → Text → ℕ → SampleHistoryMap
unfolding trim
note_sample history source t_ns = record {
  samples =
      insert source (trim (cap_of history source) (times_of history source ++ t_ns ∷ []))
        history.samples;
  caps = history.caps;
}

-- `iter().rev()`
unfoldable pub reverse : List ℕ → List ℕ
reverse [] = []
reverse (t ∷ ts) = reverse ts ++ t ∷ []

-- `sample_at_or_before`
unfoldable pub sample_at_or_before : SampleHistoryMap → Text → ℕ → Option ℕ
unfolding reverse
sample_at_or_before history source t_ns =
    and_then (get history.samples source) (λ dq. find (λ t. leb t t_ns) (reverse dq))
