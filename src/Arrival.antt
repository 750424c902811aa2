-- ===== src/Arrival.antt =====
-- Arrival schedules, src/load.rs. A duration is a number of nanoseconds. `f64` and
-- `Duration::from_secs_f64` are a parameter, and so are the gaps that the random numbers give.
use bench_cli.Base.{
  ℕ, zero, suc, ◌+◌, ◌^◌, ◌*◌, ◌-◌, ◌≡◌, min, ◌&&◌, Option, some, and_then, map_some, List, [], ◌∷◌,
  if◌then◌else◌, ltb,
}
use bench_cli.Base.{Float}

-- `ArrivalKind`
pub data ArrivalKind : Type 0 where
  closed_loop constant poisson burst : ArrivalKind

pub record RequestSlot : Type 0 where
  pub seq : ℕ
  pub scheduled_delay : ℕ

-- `Duration::MAX`
abbrev pub duration_max : ℕ
duration_max = 2 ^ 64 * 1000000000 - 1

-- `Duration::saturating_add`
abbrev pub saturating_add : ℕ → ℕ → ℕ
saturating_add a b = min (a + b) duration_max

-- `FakeClock`: its `now` is the number.
unfoldable pub advance : ℕ → ℕ → ℕ
advance by now = saturating_add now by

unfoldable pub sleep_until : ℕ → ℕ → ℕ
sleep_until deadline now = if ltb now deadline then deadline else now

-- A slot in front of the others, unless one of them panics.
abbrev put : ℕ → Option ℕ → Option (List RequestSlot) → Option (List RequestSlot)
put i delay rest =
    and_then delay (λ d. map_some rest (λ slots. record { seq = i; scheduled_delay = d } ∷ slots))

-- The numbers from `i` on, `n` of them, each with the delay that the step gives it.
unfoldable pub slots_from : (ℕ → Option ℕ) → ℕ → ℕ → Option (List RequestSlot)
slots_from delay i zero = some []
slots_from delay i (suc n) = put i (delay i) (slots_from delay (suc i) n)

-- `Duration::from_secs_f64` panics, with `none`, on what is no duration.
module _ (F : Float) (from_secs_f64 : F.F64 → Option ℕ) where
  -- The gap between arrivals at a constant rate.
  unfoldable pub constant_gap : F.F64 → F.F64
  constant_gap request_rate =
      if F.lt (F.of_nat 0) request_rate then F.div (F.of_nat 1) request_rate else F.of_nat 0

  -- The map over the numbers with the running time `t`; `gap i` is `-u.ln() / lambda` of the draw
  -- for the slot `i`, and `lambda` the rate, not below zero.
  unfoldable pub poisson_from : (ℕ → F.F64) → F.F64 → ℕ → F.F64 → ℕ → Option (List RequestSlot)
  poisson_from gap lambda i t zero = some []
  poisson_from gap lambda i t (suc n) =
      let u = if ltb 0 i && F.lt (F.of_nat 0) lambda then F.add t (gap i) else t in
      put i (from_secs_f64 u) (poisson_from gap lambda (suc i) u n)

  -- `schedule`
  unfoldable pub schedule : (ℕ → F.F64) → ArrivalKind → ℕ → F.F64 → Option (List RequestSlot)
  unfolding slots_from poisson_from constant_gap
  schedule gap closed_loop n request_rate = slots_from (λ _. some 0) 0 n
  schedule gap burst n request_rate = slots_from (λ _. some 0) 0 n
  schedule gap constant n request_rate =
      slots_from (λ seq. from_secs_f64 (F.mul (F.of_nat seq) (constant_gap request_rate))) 0 n
  schedule gap poisson n request_rate =
      poisson_from gap (F.max request_rate (F.of_nat 0)) 0 (F.of_nat 0) n

-- The slots carry the numbers from `i` on.
abbrev pub IsNumbered : ℕ → List RequestSlot → Type 0
IsNumbered i [] = Unit
IsNumbered i (s ∷ ss) = (s.seq ≡ i) × IsNumbered (suc i) ss

-- When each slot is due.
abbrev pub IsDue : (ℕ → Option ℕ) → ℕ → List RequestSlot → Type 0
IsDue due i [] = Unit
IsDue due i (s ∷ ss) = (s.seq ≡ i) × (due i ≡ some s.scheduled_delay) × IsDue due (suc i) ss

pub IsDue-IsNumbered :
    (due : ℕ → Option ℕ) (i : ℕ) (slots : List RequestSlot) → IsDue due i slots → IsNumbered i slots
IsDue-IsNumbered due i [] h = tt
IsDue-IsNumbered due i (s ∷ ss) h = (h.0, IsDue-IsNumbered due (suc i) ss h.2)

module _ (F : Float) (from_secs_f64 : F.F64 → Option ℕ) (gap : ℕ → F.F64) where
  -- The time of the arrival `i` of a Poisson process: the sum of the gaps up to it.
  abbrev pub arrival : F.F64 → ℕ → F.F64
  arrival lambda zero = F.of_nat 0
  arrival lambda (suc i) =
      if F.lt (F.of_nat 0) lambda then F.add (arrival lambda i) (gap (suc i)) else arrival lambda i

  -- When the slot `i` is due, if that is a duration.
  abbrev pub due : ArrivalKind → F.F64 → ℕ → Option ℕ
  due closed_loop rate i = some 0
  due burst rate i = some 0
  due constant rate i = from_secs_f64 (F.mul (F.of_nat i) (constant_gap F from_secs_f64 rate))
  due poisson rate i = from_secs_f64 (arrival (F.max rate (F.of_nat 0)) i)
