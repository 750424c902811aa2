-- ===== src/TimeWeighted.antt =====
-- Time-weighted metrics over the intervals of the requests, src/time_weighted.rs: the segments of
-- the six blocks, and the sweep over their events. The `i64` of open segments is a pair: how many
-- events have opened one, and how many have closed one.
pub mod Closed
pub mod Blocks
pub mod Counts
use bench_cli.Base.{
  ℕ, zero, suc, ◌+◌, Bool, true, false, not, ◌&&◌, ◌||◌, Option, none, some, and_then, map_some,
  filter_some, is_some, List, [], ◌∷◌, ◌++◌, length, ltb, ◌==◌, if◌then◌else◌, Float,
}

module _ (F : Float) where
  -- `RequestSpan`
  pub record RequestSpan : Type 0 where
    pub start_s : F.F64
    pub latency_s : F.F64
    pub prefill_end_s : Option F.F64
    pub input_tokens : Option ℕ
    pub output_tokens : Option ℕ

  -- `TimeWeightedStat`
  pub record TimeWeightedStat : Type 0 where
    pub n : ℕ
    pub avg : Option F.F64
    pub active_avg : Option F.F64
    pub greatest : Option F.F64
    pub active_s : Option F.F64

  -- `TimeWeightedMetrics`
  pub record TimeWeightedMetrics : Type 0 where
    pub effective_concurrency : TimeWeightedStat
    pub effective_prefill_concurrency : TimeWeightedStat
    pub effective_decode_concurrency : TimeWeightedStat
    pub tokens_in_flight : TimeWeightedStat
    pub effective_prefill_throughput : TimeWeightedStat
    pub effective_decode_throughput : TimeWeightedStat

  -- `Segment`
  pub record Segment : Type 0 where
    pub start : F.F64
    pub stop : F.F64
    pub level : F.F64
    pub slope : F.F64

  abbrev pub zero_f : F.F64
  zero_f = F.of_nat 0

  -- `Segment::flat`
  unfoldable pub flat : F.F64 → F.F64 → F.F64 → Segment
  flat start stop level = record { start = start; stop = stop; level = level; slope = zero_f }

  -- An event of the sweep: its time, whether it opens a segment, and the changes of `a` and `b`.
  pub record Event : Type 0 where
    pub time : F.F64
    pub opens : Bool
    pub da : F.F64
    pub db : F.F64

  -- `-v`
  abbrev pub negated : F.F64 → F.F64
  negated v = F.sub zero_f v

  -- The loop over the segments: what each adds to the integral, and its two events.
  unfoldable pub collect : F.F64 → F.F64 → List Segment → F.F64 × List Event
  collect window_s integral [] = (integral, [])
  collect window_s integral (seg ∷ segs) =
      let start = F.max seg.start zero_f in
      let stop = F.min seg.stop window_s in
      let level = F.add seg.level (F.mul seg.slope (F.sub start seg.start)) in
      let width = F.sub stop start in
      let area =
        F.add (F.mul width level) (F.div (F.mul (F.mul seg.slope width) width) (F.of_nat 2)) in
      let a = F.sub level (F.mul seg.slope start) in
      let skipped = collect window_s integral segs in
      let (sum, events) = collect window_s (F.add integral area) segs in
      let kept : F.F64 × List Event = (
        sum,
        record { time = start; opens = true; da = a; db = seg.slope }
            ∷ record { time = stop; opens = false; da = negated a; db = negated seg.slope }
            ∷ events,
      ) in
      if F.le stop start then skipped else kept

  -- `events.sort_by(|x, y| x.0.total_cmp(&y.0))`
  unfoldable pub insert : Event → List Event → List Event
  insert x [] = x ∷ []
  insert x (y ∷ ys) =
      let rest = insert x ys in if F.total_gt x.time y.time then y ∷ rest else x ∷ y ∷ ys

  unfoldable pub sort : List Event → List Event
  unfolding insert
  sort [] = []
  sort (x ∷ xs) = insert x (sort xs)

  -- The variables of the sweep.
  pub record Sweep : Type 0 where
    pub opened : ℕ
    pub closed : ℕ
    pub a : F.F64
    pub b : F.F64
    pub greatest : F.F64
    pub active_s : F.F64

  abbrev pub is_open : Sweep → Bool
  is_open s = ltb s.closed s.opened

  -- `max = max.max(a + b * t)`, when a segment is open.
  unfoldable pub raise : F.F64 → Sweep → Sweep
  raise t s = record {
    opened = s.opened;
    closed = s.closed;
    a = s.a;
    b = s.b;
    greatest = if is_open s then F.max s.greatest (F.add s.a (F.mul s.b t)) else s.greatest;
    active_s = s.active_s;
  }

  -- The inner loop's step.
  unfoldable pub absorb : Event → Sweep → Sweep
  absorb e s = record {
    opened = if e.opens then suc s.opened else s.opened;
    closed = if e.opens then s.closed else suc s.closed;
    a = F.add s.a e.da;
    b = F.add s.b e.db;
    greatest = s.greatest;
    active_s = s.active_s;
  }

  -- The end of a group of events at one time, before the next time if there is one.
  unfoldable pub leave : F.F64 → Option F.F64 → Sweep → Sweep
  unfolding raise
  leave t next s =
      let raised = raise t s in
      if is_open s
      then record {
        opened = s.opened;
        closed = s.closed;
        a = s.a;
        b = s.b;
        greatest = raised.greatest;
        active_s = elim next [ none ↦ s.active_s | some u ↦ F.add s.active_s (F.sub u t) ];
      }
      else record {
        opened = s.opened;
        closed = s.closed;
        a = zero_f;
        b = zero_f;
        greatest = s.greatest;
        active_s = s.active_s;
      }

  -- The loop over the events, in the group at the time `t`. A time is equal to itself, since no
  -- time is NaN after the clipping.
  unfoldable pub walk : F.F64 → Sweep → List Event → Sweep
  unfolding absorb leave raise
  walk t s [] = leave t none s
  walk t s (e ∷ es) =
      let same = walk t (absorb e s) es in
      let next = walk e.time (absorb e (raise e.time (leave t (some e.time) s))) es in
      if F.eq e.time t then same else next

  abbrev pub at_rest : Sweep
  at_rest = record {
    opened = 0;
    closed = 0;
    a = zero_f;
    b = zero_f;
    greatest = zero_f;
    active_s = zero_f;
  }

  unfoldable pub run : List Event → Sweep
  unfolding walk absorb raise
  run [] = at_rest
  run (e ∷ es) = walk e.time (absorb e (raise e.time at_rest)) es

  -- `sweep`
  unfoldable pub sweep : List Segment → ℕ → F.F64 → TimeWeightedStat
  unfolding collect sort run
  sweep segments n window_s =
      let (integral, events) = collect window_s zero_f segments in
      let s = run (sort events) in
      let empty : TimeWeightedStat = record {
        n = n;
        avg = none;
        active_avg = none;
        greatest = none;
        active_s = none;
      } in
      let stat : TimeWeightedStat = record {
        n = n;
        avg = some (F.div integral window_s);
        active_avg = if F.lt zero_f s.active_s then some (F.div integral s.active_s) else none;
        greatest = some s.greatest;
        active_s = some s.active_s;
      } in
      if n == 0 || not (F.is_finite window_s) || F.le window_s zero_f then empty else stat
