-- ===== src/TimeWeighted/Blocks.antt =====
-- The segments of the six blocks and their metrics, `compute` of src/time_weighted.rs.
use bench_cli.Base.{
  ℕ, suc, Bool, not, ◌&&◌, Option, none, some, and_then, map_some, filter_some, is_some, List, [],
  ◌∷◌, ◌++◌, length, ltb, if◌then◌else◌, Float,
}
use bench_cli.TimeWeighted.{RequestSpan, Segment, TimeWeightedMetrics, flat, sweep}

module _ (F : Float) where
  -- The segments and the counts of the six blocks.
  pub record Blocks : Type 0 where
    pub all : List (Segment F)
    pub prefill : List (Segment F)
    pub decode : List (Segment F)
    pub tokens : List (Segment F)
    pub prefill_rate : List (Segment F)
    pub decode_rate : List (Segment F)
    pub n_split : ℕ
    pub n_tokens : ℕ
    pub n_prefill_rate : ℕ
    pub n_decode_rate : ℕ

  abbrev pub no_blocks : Blocks
  no_blocks = record {
    all = [];
    prefill = [];
    decode = [];
    tokens = [];
    prefill_rate = [];
    decode_rate = [];
    n_split = 0;
    n_tokens = 0;
    n_prefill_rate = 0;
    n_decode_rate = 0;
  }

  -- `v.clamp(0.0, upper)`
  abbrev pub clamp : F.F64 → F.F64 → F.F64
  clamp upper v = if F.lt v (F.of_nat 0) then (F.of_nat 0) else if F.lt upper v then upper else v

  -- Where the first token splits a span.
  unfoldable pub split_of : RequestSpan F → Option F.F64
  split_of span = map_some (filter_some span.prefill_end_s F.is_finite) (clamp span.latency_s)

  unfoldable pub is_span : RequestSpan F → Bool
  is_span span =
      F.is_finite span.start_s
      && F.is_finite span.latency_s
      && not (F.lt span.latency_s (F.of_nat 0))

  abbrev pub both : Option ℕ → Option ℕ → Option (ℕ × ℕ)
  both isl osl = and_then isl (λ i. map_some osl (λ o. (i, o)))

  unfoldable pub token_segments : F.F64 → F.F64 → F.F64 → F.F64 → ℕ × ℕ → List (Segment F)
  unfolding flat
  token_segments start split stop decode_s (isl, osl) =
      let rate =
        if F.lt (F.of_nat 0) decode_s then F.div (F.of_nat osl) decode_s else (F.of_nat 0) in
      flat F start split (F.of_nat isl)
      ∷ record { start = split; stop = stop; level = F.of_nat isl; slope = rate }
      ∷ []

  -- The segments of the tokens, when both counts are known.
  unfoldable pub pair_segments : F.F64 → F.F64 → F.F64 → F.F64 → Option (ℕ × ℕ) → List (Segment F)
  unfolding token_segments
  pair_segments start split stop decode_s none = []
  pair_segments start split stop decode_s (some counts) =
      token_segments start split stop decode_s counts

  -- The rate of a phase and its count, for tokens that are some and a phase that is not empty.
  unfoldable pub note_rate :
      F.F64 → F.F64 → Option ℕ → F.F64 → List (Segment F) × ℕ → List (Segment F) × ℕ
  unfolding flat
  note_rate start stop tokens phase_s (segments, n) = elim (filter_some tokens (λ t. ltb 0 t)) [
    | none ↦ (segments, n)
    | some t ↦
        if F.lt (F.of_nat 0) phase_s
        then (segments ++ flat F start stop (F.div (F.of_nat t) phase_s) ∷ [], suc n)
        else (segments, n)
  ]

  -- The body of the loop over the spans.
  unfoldable pub note_span : F.F64 → Blocks → RequestSpan F → Blocks
  unfolding flat split_of is_span pair_segments note_rate
  note_span window_start_s blocks span =
      let start = F.sub span.start_s window_start_s in
      let stop = F.add start span.latency_s in
      let whole : Blocks = record {
        all = blocks.all ++ flat F start stop (F.of_nat 1) ∷ [];
        prefill = blocks.prefill;
        decode = blocks.decode;
        tokens = blocks.tokens;
        prefill_rate = blocks.prefill_rate;
        decode_rate = blocks.decode_rate;
        n_split = blocks.n_split;
        n_tokens = blocks.n_tokens;
        n_prefill_rate = blocks.n_prefill_rate;
        n_decode_rate = blocks.n_decode_rate;
      } in
      let divided : F.F64 → Blocks = λ first.
        let split = F.add start first in
        let decode_s = F.sub span.latency_s first in
        let tokens =
          pair_segments start split stop decode_s (both span.input_tokens span.output_tokens) in
        let prefill =
          note_rate start split span.input_tokens first
            (blocks.prefill_rate, blocks.n_prefill_rate) in
        let decode =
          note_rate split stop span.output_tokens decode_s
            (blocks.decode_rate, blocks.n_decode_rate) in
        record {
          all = whole.all;
          prefill = blocks.prefill ++ flat F start split (F.of_nat 1) ∷ [];
          decode = blocks.decode ++ flat F split stop (F.of_nat 1) ∷ [];
          tokens = blocks.tokens ++ tokens;
          prefill_rate = prefill.0;
          decode_rate = decode.0;
          n_split = suc blocks.n_split;
          n_tokens =
              if is_some (both span.input_tokens span.output_tokens)
              then suc blocks.n_tokens
              else blocks.n_tokens;
          n_prefill_rate = prefill.1;
          n_decode_rate = decode.1;
        } in
      let noted : Blocks = elim (split_of span) [ none ↦ whole | some first ↦ divided first ] in
      if is_span span then noted else blocks

  unfoldable pub note_spans : F.F64 → Blocks → List (RequestSpan F) → Blocks
  unfolding note_span
  note_spans window_start_s blocks [] = blocks
  note_spans window_start_s blocks (span ∷ spans) =
      note_spans window_start_s (note_span window_start_s blocks span) spans

  -- `compute`
  unfoldable pub compute : List (RequestSpan F) → F.F64 → F.F64 → TimeWeightedMetrics F
  unfolding note_spans sweep
  compute spans window_start_s window_s =
      let b = note_spans window_start_s no_blocks spans in
      record {
        effective_concurrency = sweep F b.all (length b.all) window_s;
        effective_prefill_concurrency = sweep F b.prefill b.n_split window_s;
        effective_decode_concurrency = sweep F b.decode b.n_split window_s;
        tokens_in_flight = sweep F b.tokens b.n_tokens window_s;
        effective_prefill_throughput = sweep F b.prefill_rate b.n_prefill_rate window_s;
        effective_decode_throughput = sweep F b.decode_rate b.n_decode_rate window_s;
      }
