-- ===== src/TimeWeighted/Counts.antt =====
-- The requests that the six blocks of src/time_weighted.rs count.
use bench_cli.Base.{
  ℕ, suc, ◌+◌, ◌*◌, ◌≤◌, ◌≡◌, refl, subst, Bool, true, false, Bool-cases, Option-cases, inl, inr,
  none, some, is_some, Option, List, [], ◌∷◌, length, length-append, ltb, if◌then◌else◌,
  filter_some, Float, arith,
}
use bench_cli.TimeWeighted.{RequestSpan, Segment}
use bench_cli.TimeWeighted.Blocks.{
  Blocks, no_blocks, split_of, is_span, both, token_segments, pair_segments, note_rate, note_span,
  note_spans,
}

module _ (F : Float) where
  -- Each count is that of the segments of its block, and no block counts more requests than the
  -- one that it is a part of.
  pub record IsCounted (n : ℕ) (b : Blocks F) : Type 0 where
    pub all_in : length b.all ≤ n
    pub split_in : b.n_split ≤ length b.all
    pub prefill_all : length b.prefill ≡ b.n_split
    pub decode_all : length b.decode ≡ b.n_split
    pub tokens_all : length b.tokens ≡ 2 * b.n_tokens
    pub tokens_in : b.n_tokens ≤ b.n_split
    pub prefill_rate_all : length b.prefill_rate ≡ b.n_prefill_rate
    pub decode_rate_all : length b.decode_rate ≡ b.n_decode_rate
    pub prefill_rate_in : b.n_prefill_rate ≤ b.n_split
    pub decode_rate_in : b.n_decode_rate ≤ b.n_split

  -- The count of a rate is that of its segments, and goes up by one at most.
  note_rate-count :
      (start stop : F.F64) (tokens : Option ℕ) (phase_s : F.F64) (segments : List (Segment F))
      (n m : ℕ)
      → length segments ≡ n
      → n ≤ m
      → (length (note_rate F start stop tokens phase_s (segments, n)).0
          ≡ (note_rate F start stop tokens phase_s (segments, n)).1)
        × ((note_rate F start stop tokens phase_s (segments, n)).1 ≤ suc m)
  unfolding note_rate
  note_rate-count start stop tokens phase_s segments n m e l =
      elim (Option-cases (filter_some tokens (λ t. ltb 0 t))) [
        | inl f ↦ rw (f, note_rate) (e, omega (arith, l))
        | inr (t, f) ↦
            rw (f, note_rate)
              (elim (Bool-cases (F.lt (F.of_nat 0) phase_s)) [
                | inl h ↦ rw h (omega (arith, e, length-append segments (_ ∷ [])), omega (arith, l))
                | inr h ↦ rw h (e, omega (arith, l))
              ])
      ]

  pair_segments-length :
      (a b c d : F.F64) (counts : Option (ℕ × ℕ)) (m : ℕ)
      → length (pair_segments F a b c d counts) + 2 * m ≡ 2 * (if is_some counts then suc m else m)
  unfolding pair_segments token_segments
  pair_segments-length a b c d none m = omega arith
  pair_segments-length a b c d (some counts) m = omega arith

  next-le : (c : Bool) (m n : ℕ) → m ≤ n → (if c then suc m else m) ≤ suc n
  next-le true m n h = omega (arith, h)
  next-le false m n h = omega (arith, h)

  note_span-IsCounted :
      (at : F.F64) (n : ℕ) (b : Blocks F) (span : RequestSpan F)
      → IsCounted n b
      → IsCounted (suc n) (note_span F at b span)
  unfolding note_span token_segments
  note_span-IsCounted at n b span k = elim (Bool-cases (is_span F span)) [
    | inl s ↦ elim (Option-cases (split_of F span)) [
      | inl e ↦
          rw (s, e)
            (record {
              all_in = omega (arith, k.all_in, length-append b.all (_ ∷ []));
              split_in = omega (arith, k.split_in, length-append b.all (_ ∷ []));
              prefill_all = k.prefill_all;
              decode_all = k.decode_all;
              tokens_all = k.tokens_all;
              tokens_in = k.tokens_in;
              prefill_rate_all = k.prefill_rate_all;
              decode_rate_all = k.decode_rate_all;
              prefill_rate_in = k.prefill_rate_in;
              decode_rate_in = k.decode_rate_in;
            })
      | inr (first, e) ↦
          let start = F.sub span.start_s at in
          let split = F.add start first in
          let stop = F.add start span.latency_s in
          let decode_s = F.sub span.latency_s first in
          let prefill =
            note_rate-count start split span.input_tokens first b.prefill_rate b.n_prefill_rate
              b.n_split (k.prefill_rate_all) (k.prefill_rate_in) in
          let decode =
            note_rate-count split stop span.output_tokens decode_s b.decode_rate b.n_decode_rate
              b.n_split (k.decode_rate_all) (k.decode_rate_in) in
          rw (s, e)
            (record {
              all_in = omega (arith, k.all_in, length-append b.all (_ ∷ []));
              split_in = omega (arith, k.split_in, length-append b.all (_ ∷ []));
              prefill_all = omega (arith, k.prefill_all, length-append b.prefill (_ ∷ []));
              decode_all = omega (arith, k.decode_all, length-append b.decode (_ ∷ []));
              tokens_all = omega (
                arith,
                k.tokens_all,
                length-append b.tokens
                    (pair_segments F _ _ _ _ (both F span.input_tokens span.output_tokens)),
                pair_segments-length start split stop decode_s
                    (both F span.input_tokens span.output_tokens) b.n_tokens,
              );
              tokens_in = next-le _ b.n_tokens b.n_split (k.tokens_in);
              prefill_rate_all = prefill.0;
              decode_rate_all = decode.0;
              prefill_rate_in = prefill.1;
              decode_rate_in = decode.1;
            })
    ]
    | inr s ↦ rw s (record {
      all_in = omega (arith, k.all_in);
      split_in = k.split_in;
      prefill_all = k.prefill_all;
      decode_all = k.decode_all;
      tokens_all = k.tokens_all;
      tokens_in = k.tokens_in;
      prefill_rate_all = k.prefill_rate_all;
      decode_rate_all = k.decode_rate_all;
      prefill_rate_in = k.prefill_rate_in;
      decode_rate_in = k.decode_rate_in;
    })
  ]

  note_spans-extend :
      (at : F.F64) (spans : List (RequestSpan F)) (n : ℕ) (b : Blocks F)
      → IsCounted n b
      → IsCounted (n + length spans) (note_spans F at b spans)
  unfolding note_spans
  note_spans-extend at [] n b k = subst (λ m. IsCounted m b) (omega arith) k
  note_spans-extend at (span ∷ spans) n b k =
      subst (λ m. IsCounted m (note_spans F at (note_span F at b span) spans))
        {x = suc n + length spans} (omega arith)
        (note_spans-extend at spans (suc n) (note_span F at b span)
          (note_span-IsCounted at n b span k))

  -- Of some spans, each block counts its segments, of the tokens two for each request; no more
  -- requests have a first token than are valid, and no more have a count of tokens or the rate of
  -- a phase than have a first token.
  pub note_spans-IsCounted :
      (at : F.F64) (spans : List (RequestSpan F))
      → IsCounted (length spans) (note_spans F at (no_blocks F) spans)
  note_spans-IsCounted at spans =
      subst (λ m. IsCounted m (note_spans F at (no_blocks F) spans)) {x = 0 + length spans}
        (omega arith)
        (note_spans-extend at spans 0 (no_blocks F) (record {
          all_in = omega arith;
          split_in = omega arith;
          prefill_all = refl;
          decode_all = refl;
          tokens_all = omega arith;
          tokens_in = omega arith;
          prefill_rate_all = refl;
          decode_rate_all = refl;
          prefill_rate_in = omega arith;
          decode_rate_in = omega arith;
        }))
