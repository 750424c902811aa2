-- ===== src/Measurement/Ttft.antt =====
-- Where the first-token time of a request comes from, src/measurement.rs.
use bench_cli.Base.{◌≡◌, refl, Bool, true, false, Option, none, some, is_some, Float, ◌&&◌, ◌||◌}
use bench_cli.Measurement.{
  resolve_ttft, resolve_ttft_with_fallback, first_any, infer_ttft, TtftSource, stream,
  first_byte_approx,
}

-- The source that the specification gives a time: a token that was streamed comes before the HTTP
-- approximation, which is used on demand only.
abbrev pub source_of : Bool → Bool → Bool → Bool → Option TtftSource
source_of streaming token_seen byte_seen infer = elim (streaming && token_seen) [
  | true ↦ some stream
  | false ↦ elim (infer && byte_seen) [ true ↦ some first_byte_approx | false ↦ none ]
]

module _ (F : Float) where
  -- A time comes with its source and no source without a time; a streamed token, of the answer or of
  -- the reasoning, is the source if there is one and the request streams, otherwise the first byte if
  -- it was asked for, otherwise there is none; the fallback flag changes nothing.
  pub resolve_ttft_with_fallback-source :
      (streaming : Bool) (visible reasoning first_byte : Option F.F64) (infer fallback : Bool)
      → let r =
          resolve_ttft_with_fallback F streaming visible reasoning first_byte infer fallback in
        (r.source
          ≡ source_of streaming (is_some visible || is_some reasoning) (is_some first_byte) infer)
        × (is_some r.ttft_s ≡ is_some r.source)
  unfolding resolve_ttft_with_fallback resolve_ttft first_any infer_ttft
  resolve_ttft_with_fallback-source true (some a) (some b) byte infer fallback = (refl, refl)
  resolve_ttft_with_fallback-source true (some a) none byte infer fallback = (refl, refl)
  resolve_ttft_with_fallback-source true none (some b) byte infer fallback = (refl, refl)
  resolve_ttft_with_fallback-source true none none (some t) true fallback = (refl, refl)
  resolve_ttft_with_fallback-source true none none (some t) false fallback = (refl, refl)
  resolve_ttft_with_fallback-source true none none none true fallback = (refl, refl)
  resolve_ttft_with_fallback-source true none none none false fallback = (refl, refl)
  resolve_ttft_with_fallback-source false a b (some t) true fallback = (refl, refl)
  resolve_ttft_with_fallback-source false a b (some t) false fallback = (refl, refl)
  resolve_ttft_with_fallback-source false a b none true fallback = (refl, refl)
  resolve_ttft_with_fallback-source false a b none false fallback = (refl, refl)
