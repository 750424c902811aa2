-- ===== src/Prompts/Replay.antt =====
-- A recorded run replayed on another pool with the same prompts, src/prompt_sequence.rs.
use bench_cli.Base.{
  ℕ, zero, suc, ◌+◌, ◌≤◌, ◌<◌, ◌≡◌, refl, sym, false, Option, none, some, List, [], ◌∷◌, map,
  length, get_elem?, All, All-get_elem?, Elem, ◌↔◌, ◌*◌, ◌⊎◌, inl, inr, arith, ok, err,
}
use bench_cli.Text.{Text, text_eq, is_empty}
use bench_cli.Prompts.{
  PromptSlotEntry, out_of_range, >>=-eq-ok, at, slot_index, entry_of, sequence_log,
  resolve_prescribed_order, resolve_slot, validate_from, validate_prescribed_sequence,
  candidates_from, apply_prescribed_sequence, delay_ns,
}
use bench_cli.Prompts.Resolve.{IsInPool, resolve_from-Replays, apply-Replays}

-- `validate_prescribed_sequence` accepts exactly the sequences whose indices are all in the pool.
validate_from_iff :
    (order : List ℕ) (slot pool_len : ℕ)
    → (validate_from slot order pool_len ≡ none) ↔ All (λ i. i < pool_len) order
unfolding validate_from
validate_from_iff [] slot pool_len = ((λ h. tt), (λ h. refl))
validate_from_iff (i ∷ order) slot pool_len =
    let ih = validate_from_iff order (slot + 1) pool_len in
    ((λ h. (ground arith, ih.0 (ground arith))), (λ h. ground (arith, ih.1 h.1, h.0)))

-- A pool is accepted with a sequence exactly if it has a prompt and each index is in range.
pub validate_iff :
    (order : List ℕ) (pool_len : ℕ)
    → (validate_prescribed_sequence order pool_len ≡ none)
      ↔ ((0 < pool_len) × All (λ i. i < pool_len) order)
unfolding validate_prescribed_sequence
validate_iff order pool_len =
    let inner = validate_from_iff order 0 pool_len in
    ((λ h. (ground arith, inner.0 (ground arith))), (λ h. ground (arith, h.0, inner.1 h.1)))

-- The jitter of a slot is zero at a bound of zero milliseconds, and otherwise is below the bound in
-- nanoseconds.
pub delay_ns-bounds :
    (draw : ℕ → ℕ → ℕ) (max_ms seed seq : ℕ)
    → ((max_ms ≡ 0) × (delay_ns draw max_ms seed seq ≡ 0))
      ⊎ (delay_ns draw max_ms seed seq < max_ms * 1000000)
unfolding delay_ns
delay_ns-bounds draw zero seed seq = inl (refl, refl)
delay_ns-bounds draw (suc n) seed seq = inr (grind arith)

module _ (prompt_fingerprint : Text → Text) (byte_len : Text → ℕ)
    (fingerprinted : (prompt : Text) → is_empty (prompt_fingerprint prompt) ≡ false) where
  -- A row of the log names a prompt of the recorded pool, by index and by content.
  abbrev Records : List Text → PromptSlotEntry → Type 0
  Records pool e =
      (prompt : Text) × (get_elem? pool e.prompt_index ≡ some prompt)
      × (e.prompt_sha256_16 ≡ prompt_fingerprint prompt)

  entry_of-Records :
      (pool : List Text) (concurrency : ℕ) (prescribed : Option (List ℕ)) (seq : ℕ)
      (e : PromptSlotEntry)
      → entry_of prompt_fingerprint byte_len pool concurrency prescribed seq ≡ ok e
      → Records pool e
  unfolding entry_of
  entry_of-Records pool concurrency prescribed seq e h =
      let (i, sloted, k) = >>=-eq-ok (slot_index seq (length pool) prescribed) _ h in
      let (p, at_i, built) = >>=-eq-ok (at pool i) _ k in (p, ground arith, ground arith)

  sequence_log-Records :
      (n seq : ℕ) (pool : List Text) (concurrency : ℕ) (prescribed : Option (List ℕ))
      (es : List PromptSlotEntry)
      → sequence_log prompt_fingerprint byte_len pool concurrency prescribed seq n ≡ ok es
      → All (Records pool) es
  unfolding sequence_log
  sequence_log-Records zero seq pool concurrency prescribed [] h = tt
  sequence_log-Records zero seq pool concurrency prescribed (e ∷ es) h = cc
  sequence_log-Records (suc n) seq pool concurrency prescribed [] h = ground arith
  sequence_log-Records (suc n) seq pool concurrency prescribed (e ∷ es) h =
      let (e', first, k) =
        >>=-eq-ok (entry_of prompt_fingerprint byte_len pool concurrency prescribed seq) _ h in
      let (es', rest, built) =
        >>=-eq-ok (sequence_log prompt_fingerprint byte_len pool concurrency prescribed (seq + 1) n)
          _ k in
      (
        entry_of-Records pool concurrency prescribed seq e (ground arith),
        sequence_log-Records n (seq + 1) pool concurrency prescribed es (ground arith),
      )

  Records-IsInPool :
      (pool other : List Text) (es : List PromptSlotEntry)
      → All (λ p. Elem p other) pool
      → All (Records pool) es
      → All (IsInPool prompt_fingerprint other) es
  Records-IsInPool pool other [] sub h = tt
  Records-IsInPool pool other (e ∷ es) sub h =
      let (p, at_i, same) = h.0 in
      let (j, at_j) = All-get_elem? (λ q. Elem q other) pool e.prompt_index p sub at_i in
      (
        record {
          fingerprinted = rw same (fingerprinted p);
          index = j;
          found = (p, at_j, sym same);
        },
        Records-IsInPool pool other es sub h.1,
      )

  -- With a digest that has no empty fingerprint: the log of a run, taken over to a pool that has
  -- the same prompts and perhaps others, in any order, is resolved with no error, and the order
  -- that is found gives for each slot a prompt with the recorded fingerprint.
  pub replay_lem :
      (pool other : List Text) (concurrency n : ℕ) (prescribed : Option (List ℕ))
      (es : List PromptSlotEntry)
      → sequence_log prompt_fingerprint byte_len pool concurrency prescribed 0 n ≡ ok es
      → All (λ p. Elem p other) pool
      → (order : List ℕ) × (prompts : List Text) × (resolve_prescribed_order prompt_fingerprint es
            other
          ≡ ok order)
        × (apply_prescribed_sequence other order ≡ ok prompts)
        × (map prompt_fingerprint prompts ≡ map (λ e. e.prompt_sha256_16) es)
  replay_lem pool other concurrency n prescribed es h sub =
      let inside =
        Records-IsInPool pool other es sub
          (sequence_log-Records n 0 pool concurrency prescribed es h) in
      let (order, resolved, replays) =
        resolve_from-Replays prompt_fingerprint other (λ _. 0) 0 es inside in
      let (prompts, applied, same) = apply-Replays prompt_fingerprint other es order replays in
      (order, prompts, resolved, applied, same)

  candidates_from-nil :
      (k : ℕ) (pool : List Text) → candidates_from prompt_fingerprint k [] pool ≡ []
  unfolding candidates_from text_eq is_empty
  candidates_from-nil k [] = refl
  candidates_from-nil k (p ∷ pool) =
      ground (arith, fingerprinted p, candidates_from-nil (k + 1) pool)

  -- With a digest that has no empty fingerprint and a pool that has a prompt: an entry with no
  -- fingerprint and an index past the end of the pool is refused whatever its slot, and the error
  -- names slot 0.
  pub resolve_slot-out_of_range :
      (pool : List Text) (used : Text → ℕ) (slot : ℕ) (entry : PromptSlotEntry)
      → entry.prompt_sha256_16 ≡ []
      → 0 < length pool
      → length pool ≤ entry.prompt_index
      → resolve_slot prompt_fingerprint pool used slot entry
        ≡ err (out_of_range 0 entry.prompt_index (length pool))
  unfolding resolve_slot is_empty validate_prescribed_sequence validate_from
  resolve_slot-out_of_range pool used slot entry e filled h =
      ground (arith, candidates_from-nil 0 pool)
