-- ===== src/Prompts.antt =====
-- Prompt sequences, src/prompt_sequence.rs: which prompt of the pool each slot of a run uses, the
-- recorded sequence, and its replay. The digest of `sha2` is a parameter, `prompt_fingerprint`.
pub mod Replay
pub mod Resolve
use bench_cli.Base.{
  ℕ, ◌≡◌, refl, zero, suc, ◌+◌, ◌-◌, ◌/◌, ◌%◌, ◌^◌, ◌*◌, min, max, Bool, true, false, Option, none,
  some, List, [], ◌∷◌, ◌++◌, leb, ◌==◌, if◌then◌else◌, length, get_elem?, unwrap_or, Result, ok,
  err,
}
use bench_cli.Text.{Text, text_eq, is_empty}

pub record PromptSlotEntry : Type 0 where
  pub seq : ℕ
  pub prompt_index : ℕ
  pub prompt_sha256_16 : Text
  pub prompt_bytes : ℕ
  pub cohort : ℕ

-- What the `String` errors say.
pub data SequenceError : Type 0 where
  pool_is_empty : SequenceError
  -- the slot and the fingerprint
  no_pool_prompt : ℕ → Text → SequenceError
  -- the slot, the index and the length of the pool
  out_of_range : ℕ → ℕ → ℕ → SequenceError
  -- an index out of bounds or a division by zero, where the code panics
  panic : SequenceError

-- `?` in front of the rest of a body: an error is returned at once.
infixl 4 ◌>>=◌
abbrev pub ◌>>=◌ :
    {A B : Type 0} → Result A SequenceError → (A → Result B SequenceError) → Result B SequenceError
err failure >>= rest = err failure
ok value >>= rest = rest value

-- Where a body comes to its end, what it called did too.
pub >>=-eq-ok :
    {X Y : Type 0} {y : Y} (call : Result X SequenceError) (rest : X → Result Y SequenceError)
    → (call >>= rest) ≡ ok y
    → (x : X) × (call ≡ ok x) × (rest x ≡ ok y)
>>=-eq-ok (err failure) rest e = cc
>>=-eq-ok (ok value) rest e = (value, refl, e)

-- Indexing, which panics out of bounds.
abbrev pub at : {A : Type 0} → List A → ℕ → Result A SequenceError
at xs i = elim (get_elem? xs i) [ none ↦ err panic | some a ↦ ok a ]

-- `slot_index`
unfoldable pub slot_index : ℕ → ℕ → Option (List ℕ) → Result ℕ SequenceError
slot_index seq pool_len none = if pool_len == 0 then err panic else ok (seq % pool_len)
slot_index seq pool_len (some order) =
    if length order == 0 then err panic else at order (seq % length order)

-- `validate_prescribed_sequence`: the loop, from a slot on.
unfoldable pub validate_from : ℕ → List ℕ → ℕ → Option SequenceError
validate_from slot [] pool_len = none
validate_from slot (index ∷ order) pool_len =
    let rest = validate_from (slot + 1) order pool_len in
    if leb pool_len index then some (out_of_range slot index pool_len) else rest

unfoldable pub validate_prescribed_sequence : List ℕ → ℕ → Option SequenceError
validate_prescribed_sequence order pool_len =
    if pool_len == 0 then some pool_is_empty else validate_from 0 order pool_len

-- `apply_prescribed_sequence`: the new pool.
unfoldable pub apply_prescribed_sequence : List Text → List ℕ → Result (List Text) SequenceError
apply_prescribed_sequence original [] = ok []
apply_prescribed_sequence original (index ∷ order) = do
  prompt ← at original index
  rest ← apply_prescribed_sequence original order
  ok (prompt ∷ rest)

module _ (prompt_fingerprint : Text → Text) (byte_len : Text → ℕ) where
  -- One row of `write_sequence_log`.
  unfoldable pub entry_of :
      List Text → ℕ → Option (List ℕ) → ℕ → Result PromptSlotEntry SequenceError
  entry_of prompts concurrency prescribed seq = do
    index ← slot_index seq (length prompts) prescribed
    prompt ← at prompts index
    ok (record {
      seq = seq;
      prompt_index = index;
      prompt_sha256_16 = prompt_fingerprint prompt;
      prompt_bytes = byte_len prompt;
      cohort = seq / max concurrency 1;
    })

  -- `write_sequence_log`: the rows from `seq` on.
  unfoldable pub sequence_log :
      List Text → ℕ → Option (List ℕ) → ℕ → ℕ → Result (List PromptSlotEntry) SequenceError
  sequence_log prompts concurrency prescribed seq zero = ok []
  sequence_log prompts concurrency prescribed seq (suc left) = do
    entry ← entry_of prompts concurrency prescribed seq
    rest ← sequence_log prompts concurrency prescribed (seq + 1) left
    ok (entry ∷ rest)

module _ (prompt_fingerprint : Text → Text) where
  -- `by_fingerprint.get`: the indices of the prompts with this fingerprint, in order.
  unfoldable pub candidates_from : ℕ → Text → List Text → List ℕ
  candidates_from index fingerprint [] = []
  candidates_from index fingerprint (prompt ∷ prompts) =
      let rest = candidates_from (index + 1) fingerprint prompts in
      if text_eq (prompt_fingerprint prompt) fingerprint then index ∷ rest else rest

  -- `used_per_fingerprint`: how often a fingerprint was used, as a map that starts at 0.
  abbrev pub Used : Type 0
  Used = Text → ℕ

  abbrev pub use_once : Text → Used → Used
  use_once fingerprint used other = if text_eq fingerprint other then used other + 1 else used other

  -- One slot of `resolve_prescribed_order`.
  unfoldable pub resolve_slot :
      List Text → Used → ℕ → PromptSlotEntry → Result (ℕ × Used) SequenceError
  resolve_slot prompts used slot entry =
      let fingerprint = entry.prompt_sha256_16 in
      let candidates = candidates_from 0 fingerprint prompts in
      if is_empty candidates
      then (if is_empty fingerprint
          then elim (validate_prescribed_sequence (entry.prompt_index ∷ []) (length prompts)) [
            | some e ↦ err e
            | none ↦ ok (entry.prompt_index, used)
          ]
          else err (no_pool_prompt slot fingerprint))
      else (do
        index ← at candidates (used fingerprint % length candidates)
        ok (index, use_once fingerprint used))

  unfoldable pub resolve_from :
      List Text → Used → ℕ → List PromptSlotEntry → Result (List ℕ) SequenceError
  resolve_from prompts used slot [] = ok []
  resolve_from prompts used slot (entry ∷ entries) = do
    r ← resolve_slot prompts used slot entry
    rest ← resolve_from prompts r.1 (slot + 1) entries
    ok (r.0 ∷ rest)

  -- `resolve_prescribed_order`
  abbrev pub resolve_prescribed_order :
      List PromptSlotEntry → List Text → Result (List ℕ) SequenceError
  resolve_prescribed_order entries prompts = resolve_from prompts (λ _. 0) 0 entries

-- `StartJitter::delay_ns`; `draw` is the first eight bytes of the digest of the seed and the slot.
unfoldable pub delay_ns : (draw : ℕ → ℕ → ℕ) (max_ms seed seq : ℕ) → ℕ
delay_ns draw max_ms seed seq =
    if max_ms == 0 then 0 else draw seed seq % min (max_ms * 1000000) (2 ^ 64 - 1)
