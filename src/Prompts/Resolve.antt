-- ===== src/Prompts/Resolve.antt =====
-- `resolve_prescribed_order` of src/prompt_sequence.rs finds each recorded prompt by its content.
use native.Mathlib.Nat.{mod-lt}
use bench_cli.Base.{
  ℕ, zero, suc, ◌+◌, ◌%◌, ◌<◌, ◌≡◌, refl, subst, ap₂, false, Bool-cases, inl, inr, some, List, [],
  ◌∷◌, ◌++◌, map, append_assoc, length, length-append, get_elem?, get_elem?-append, get_elem?-lt,
  All, All-get_elem?, arith, ok,
}
use bench_cli.Text.{Text, text_eq, text_eq_iff, is_empty}
use bench_cli.Prompts.{
  PromptSlotEntry, ◌>>=◌, at, candidates_from, resolve_slot, resolve_from, use_once,
  apply_prescribed_sequence,
}

at-eq-ok : {A : Type 0} (xs : List A) (i : ℕ) (a : A) → at xs i ≡ ok a → get_elem? xs i ≡ some a
at-eq-ok xs i a h = ground arith

length-concat : (pre : List Text) (p : Text) → length (pre ++ p ∷ []) ≡ length pre + 1
length-concat pre p = omega (arith, length-append pre (p ∷ []))

mod_length : (xs : List ℕ) (n : ℕ) → is_empty xs ≡ false → n % length xs < length xs
unfolding is_empty
mod_length [] n h = cc
mod_length (x ∷ xs) n h = mod-lt n (omega arith)

module _ (prompt_fingerprint : Text → Text) where
  -- Index `i` of the pool holds a prompt with this fingerprint.
  abbrev pub Names : Text → List Text → ℕ → Type 0
  Names fingerprint pool i =
      (prompt : Text) × (get_elem? pool i ≡ some prompt) × (prompt_fingerprint prompt ≡ fingerprint)

  candidates_from-Names :
      (fingerprint : Text) (pre prompts : List Text)
      → All
          (Names fingerprint (pre ++ prompts))
          (candidates_from prompt_fingerprint (length pre) fingerprint prompts)
  unfolding candidates_from
  candidates_from-Names fingerprint pre [] = tt
  candidates_from-Names fingerprint pre (p ∷ prompts) =
      let ih = candidates_from-Names fingerprint (pre ++ p ∷ []) prompts in
      let here =
        subst
          (λ pool.
            All (Names fingerprint pool)
              (candidates_from prompt_fingerprint (length (pre ++ p ∷ [])) fingerprint prompts))
          (append_assoc pre (p ∷ []) prompts) ih in
      let rest =
        subst
          (λ n.
            All (Names fingerprint (pre ++ p ∷ prompts))
              (candidates_from prompt_fingerprint n fingerprint prompts))
          (length-concat pre p) here in
      elim (Bool-cases (text_eq (prompt_fingerprint p) fingerprint)) [
        | inl same ↦
            rw (same, candidates_from)
              ((p, get_elem?-append pre p prompts, (text_eq_iff _ _).0 same), rest)
        | inr other ↦ rw (other, candidates_from) rest
      ]

  -- A fingerprint of the pool has a candidate.
  candidates_from-Elem :
      (fingerprint : Text) (k i : ℕ) (prompt : Text) (prompts : List Text)
      → get_elem? prompts i ≡ some prompt
      → prompt_fingerprint prompt ≡ fingerprint
      → is_empty (candidates_from prompt_fingerprint k fingerprint prompts) ≡ false
  unfolding candidates_from is_empty
  candidates_from-Elem fingerprint k i prompt [] h e = cc
  candidates_from-Elem fingerprint k zero prompt (p ∷ prompts) h e =
      ground (arith, text_eq_iff (prompt_fingerprint p) fingerprint)
  candidates_from-Elem fingerprint k (suc i) prompt (p ∷ prompts) h e =
      ground (arith, candidates_from-Elem fingerprint (k + 1) i prompt prompts h e)

  -- A recorded entry: it has a fingerprint, and the pool has a prompt with it.
  pub record IsInPool (pool : List Text) (entry : PromptSlotEntry) : Type 0 where
    pub fingerprinted : is_empty entry.prompt_sha256_16 ≡ false
    pub index : ℕ
    pub found : Names entry.prompt_sha256_16 pool index

  -- Each slot's index names a prompt with the fingerprint of its entry.
  abbrev pub Replays : List Text → List PromptSlotEntry → List ℕ → Type 0
  Replays pool [] [] = Unit
  Replays pool (e ∷ es) (i ∷ order) = Names e.prompt_sha256_16 pool i × Replays pool es order
  Replays pool _ _ = ⊥

  resolve_slot_lem :
      (pool : List Text) (used : Text → ℕ) (slot : ℕ) (entry : PromptSlotEntry)
      → IsInPool pool entry
      → (r : ℕ × (Text → ℕ)) × (resolve_slot prompt_fingerprint pool used slot entry ≡ ok r)
        × Names entry.prompt_sha256_16 pool r.0
  unfolding resolve_slot
  resolve_slot_lem pool used slot entry h =
      let fp = entry.prompt_sha256_16 in
      let cs = candidates_from prompt_fingerprint 0 fp pool in
      let filled = candidates_from-Elem fp 0 h.index h.found.0 pool h.found.1 h.found.2 in
      let (i, at_i) = get_elem?-lt cs (used fp % length cs) (mod_length cs (used fp) filled) in
      (
        (i, use_once prompt_fingerprint fp used),
        rw (filled, resolve_slot) (rw (at_i, at) refl),
        All-get_elem? (Names fp pool) cs (used fp % length cs) i (candidates_from-Names fp [] pool)
            at_i,
      )

  -- A sequence whose prompts are all in the pool is resolved, each slot by its content.
  pub resolve_from-Replays :
      (pool : List Text) (used : Text → ℕ) (slot : ℕ) (entries : List PromptSlotEntry)
      → All (IsInPool pool) entries
      → (order : List ℕ) × (resolve_from prompt_fingerprint pool used slot entries ≡ ok order)
        × Replays pool entries order
  unfolding resolve_from
  resolve_from-Replays pool used slot [] h = ([], refl, tt)
  resolve_from-Replays pool used slot (e ∷ es) h =
      let (r, resolved, named) = resolve_slot_lem pool used slot e h.0 in
      let (order, rest, replays) = resolve_from-Replays pool r.1 (slot + 1) es h.1 in
      (r.0 ∷ order, rw (resolved, resolve_from) (rw (rest, ◌>>=◌) refl), (named, replays))

  -- Applied to the pool, such an order gives prompts with the recorded fingerprints.
  pub apply-Replays :
      (pool : List Text) (entries : List PromptSlotEntry) (order : List ℕ)
      → Replays pool entries order
      → (prompts : List Text) × (apply_prescribed_sequence pool order ≡ ok prompts)
        × (map prompt_fingerprint prompts ≡ map (λ e. e.prompt_sha256_16) entries)
  unfolding apply_prescribed_sequence
  apply-Replays pool [] [] h = ([], refl, refl)
  apply-Replays pool [] (i ∷ order) h = absurd h
  apply-Replays pool (e ∷ es) [] h = absurd h
  apply-Replays pool (e ∷ es) (i ∷ order) h =
      let (prompt, at_i, same) = h.0 in
      let (prompts, rest, all_same) = apply-Replays pool es order h.1 in
      (prompt ∷ prompts, ground (arith, at_i, rest), ap₂ ◌∷◌ same all_same)
