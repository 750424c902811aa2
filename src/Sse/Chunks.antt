-- ===== src/Sse/Chunks.antt =====
-- The chunks of a stream, fed one after the other: the loop over a response body, less the clock.
use bench_cli.Base.{ℕ, ◌≡◌, refl, sym, ap, ◌∙◌, Option, List, [], ◌∷◌, ◌++◌, flatten}
use bench_cli.Text.{Text}
use bench_cli.Sse.{SseEvent, SseParser, feed}
use bench_cli.Sse.Scan.{IsClean, scan, feed-scan, feed-IsClean, feed-append}

module _ {V : Type 0} (from_str : Text → Option V) where
  unfoldable pub feed_all : SseParser → List (List ℕ) → SseParser × List (SseEvent V)
  feed_all p [] = (p, [])
  feed_all p (chunk ∷ chunks) =
      let q = feed from_str p chunk in let r = feed_all q.0 chunks in (r.0, q.1 ++ r.1)

  feed-nil : (p : SseParser) → IsClean p.pending → feed from_str p [] ≡ (p, [])
  feed-nil p clean = feed-scan from_str p [] clean ∙ unfold scan in refl

  -- Chunk by chunk is all at once.
  pub feed_all-flatten :
      (p : SseParser) (chunks : List (List ℕ))
      → IsClean p.pending
      → feed_all p chunks ≡ feed from_str p (flatten chunks)
  unfolding feed_all flatten
  feed_all-flatten p [] clean = sym (feed-nil p clean)
  feed_all-flatten p (chunk ∷ chunks) clean =
      rw (feed_all-flatten (feed from_str p chunk).0 chunks (feed-IsClean from_str p chunk clean))
        (sym (feed-append from_str p chunk (flatten chunks) clean))

  -- From a state with no newline pending, two ways to cut the same bytes give the same events and
  -- the same state.
  pub feed_all-cut :
      (p : SseParser) (chunks others : List (List ℕ))
      → IsClean p.pending
      → flatten chunks ≡ flatten others
      → feed_all p chunks ≡ feed_all p others
  feed_all-cut p chunks others clean e =
      feed_all-flatten p chunks clean
      ∙ ap (feed from_str p) e
      ∙ sym (feed_all-flatten p others clean)
