-- ===== src/Telemetry/History/Newest.antt =====
-- The buffers of src/telemetry/scraper.rs keep the newest times, and a look-up finds the newest of them.
use bench_cli.Base.{
  ℕ, zero, suc, ◌+◌, ◌-◌, ◌*◌, ◌%◌, ◌^◌, ◌≤◌, ◌<◌, ◌≡◌, refl, sym, ap, ◌∙◌, subst, min, max, Bool,
  true, Bool-cases, Option-cases, any, ◌==◌, ◌⊎◌, inl, inr, Option, none, some, find, unwrap_or,
  List, [], ◌∷◌, ◌++◌, append-nil, append_assoc, length, length-append, ltb, leb, if◌then◌else◌,
  arith, All,
}
use native.Mathlib.Nat.{mod-eq_of_lt, div-lt_iff_lt-mul, div-add-mod, mod-lt}
use bench_cli.Text.{Text, text_eq_iff}
use bench_cli.Text.Maps.{get, get-insert}
use bench_cli.Telemetry.History.{
  SampleHistoryMap, sample_history_cap, sample_history_max_cap, div_ceil, trim, cap_of, times_of,
  note_sample, reverse, sample_at_or_before,
}

-- The last times, at most so many.
abbrev drop : ℕ → List ℕ → List ℕ
drop zero ts = ts
drop (suc n) [] = []
drop (suc n) (t ∷ ts) = drop n ts

unfoldable pub newest : ℕ → List ℕ → List ℕ
newest n ts = drop (length ts - n) ts

trim-newest : (cap : ℕ) (ts : List ℕ) → trim cap ts ≡ newest cap ts
unfolding trim newest
trim-newest cap [] = ap (λ n. drop n []) {x = 0} (omega arith)
trim-newest cap (t ∷ ts) = elim (Bool-cases (ltb cap (length (t ∷ ts)))) [
  | inl e ↦
      rw (e, trim)
        (trim-newest cap ts
          ∙ ap (λ n. drop n (t ∷ ts)) {x = suc (length ts - cap)} (ground (arith, e)))
  | inr e ↦ rw (e, trim) (ap (λ n. drop n (t ∷ ts)) {x = 0} (ground (arith, e)))
]

-- Times that do not decrease.
abbrev pub Ascending : List ℕ → Type 0
Ascending [] = Unit
Ascending (t ∷ ts) = All (λ u. t ≤ u) ts × Ascending ts

All-drop : (P : ℕ → Type 0) (n : ℕ) (ts : List ℕ) → All P ts → All P (drop n ts)
All-drop P zero ts h = h
All-drop P (suc n) [] h = tt
All-drop P (suc n) (t ∷ ts) h = All-drop P n ts h.1

Ascending-drop : (n : ℕ) (ts : List ℕ) → Ascending ts → Ascending (drop n ts)
Ascending-drop zero ts h = h
Ascending-drop (suc n) [] h = tt
Ascending-drop (suc n) (t ∷ ts) h = Ascending-drop n ts h.1

-- The newest of some times at or before another, if any.
abbrev pub IsNewest : ℕ → List ℕ → Option ℕ → Type 0
IsNewest t ts none = All (λ u. t < u) ts
IsNewest t ts (some s) = (any (λ u. u == s) ts ≡ true) × (s ≤ t) × All (λ u. (u ≤ s) ⊎ (t < u)) ts

find-append :
    (p : ℕ → Bool) (ts us : List ℕ)
    → find p (ts ++ us) ≡ elim (find p ts) [ none ↦ find p us | some s ↦ some s ]
find-append p [] us = refl
find-append p (t ∷ ts) us = elim (Bool-cases (p t)) [
  | inl e ↦ rw e refl
  | inr e ↦ rw e (find-append p ts us)
]

All-any : (u s : ℕ) (ts : List ℕ) → All (λ v. u ≤ v) ts → any (λ v. v == s) ts ≡ true → u ≤ s
All-any u s [] h e = absurd (cc e)
All-any u s (t ∷ ts) h e = ground (arith, All-any u s ts h.1, h.0, e)

late_others : (t u : ℕ) (ts : List ℕ) → All (λ v. t < v) ts → All (λ v. (v ≤ u) ⊎ (t < v)) ts
late_others t u [] h = tt
late_others t u (v ∷ ts) h = (inr (h.0), late_others t u ts h.1)

find-IsNewest :
    (t : ℕ) (ts : List ℕ) → Ascending ts → IsNewest t ts (find (λ u. leb u t) (reverse ts))
unfolding reverse
find-IsNewest t [] h = tt
find-IsNewest t (u ∷ ts) h =
    let rest = find-IsNewest t ts h.1 in
    elim (Option-cases (find (λ v. leb v t) (reverse ts))) [
      | inl e ↦
          let late : All (λ v. t < v) ts = subst (IsNewest t ts) e rest in
          let found : find (λ v. leb v t) (reverse ts ++ u ∷ [])
              ≡ (if leb u t then some u else none) =
            find-append (λ v. leb v t) (reverse ts) (u ∷ []) ∙ rw e (ground arith) in
          rw found (elim (Bool-cases (leb u t)) [
            | inl b ↦
                rw b (ground arith, ground (arith, b), (inl (omega arith), late_others t u ts late))
            | inr b ↦ rw b (ground (arith, b), late)
          ])
      | inr (s, e) ↦
          let (here, before, others) : IsNewest t ts (some s) = subst (IsNewest t ts) e rest in
          subst (IsNewest t (u ∷ ts)) {x = some s}
            (sym (find-append (λ v. leb v t) (reverse ts) (u ∷ []) ∙ rw e refl))
            (ground (arith, here), before, (inl (All-any u s ts (h.0) here), others))
    ]

ceil-covers : (a d : ℕ) → 1 ≤ d → a ≤ div_ceil a d * d
ceil-covers a d h = omega (arith, div-add-mod (a + (d - 1)) d, mod-lt (a + (d - 1)) h)

ceil-le : (a d : ℕ) → 1 ≤ d → div_ceil a d ≤ a
ceil-le a d h =
    omega (arith, (div-lt_iff_lt-mul {x = a + (d - 1)} {y = a + 1} h).1 (grind (arith, h)))

capped :
    (q d span interval : ℕ)
    → span ≤ q * d
    → interval ≤ d
    → (span + interval ≤ min (min (q + 2) (2 ^ 64 - 1)) sample_history_max_cap * d)
      ⊎ (min (min (q + 2) (2 ^ 64 - 1)) sample_history_max_cap ≡ sample_history_max_cap)
capped q d span interval h g = elim (Bool-cases (ltb sample_history_max_cap (q + 2))) [
  | inl e ↦ inr (ground (arith, e))
  | inr e ↦
      inl
        (subst (λ n. span + interval ≤ n * d) {x = q + 2} (ground (arith, e)) (grind (arith, h, g)))
]

-- When the time that a request may take and a minute are fewer than `2 ^ 64` milliseconds, the cap
-- covers them at one sample in each interval, unless it is the greatest cap.
pub sample_history_cap-covers :
    (interval_ms request_timeout_s : ℕ)
    → (request_timeout_s + 60) * 1000 < 2 ^ 64
    → ((request_timeout_s + 60) * 1000 + interval_ms
        ≤ sample_history_cap interval_ms request_timeout_s * max interval_ms 1)
      ⊎ (sample_history_cap interval_ms request_timeout_s ≡ sample_history_max_cap)
unfolding sample_history_cap
sample_history_cap-covers interval_ms request_timeout_s h =
    let d = max interval_ms 1 in
    let span = (request_timeout_s + 60) * 1000 in
    let q = div_ceil span d in
    let small : q % 2 ^ 64 ≡ q = mod-eq_of_lt (omega (arith, ceil-le span d (omega arith), h)) in
    rw small (capped q d span interval_ms (ceil-covers span d (omega arith)) (omega arith))

drop-nil : (n : ℕ) → drop n [] ≡ []
drop-nil zero = refl
drop-nil (suc n) = refl

length-drop : (n : ℕ) (ts : List ℕ) → length (drop n ts) ≡ length ts - n
length-drop zero ts = omega arith
length-drop (suc n) [] = omega arith
length-drop (suc n) (t ∷ ts) = omega (arith, length-drop n ts)

drop-append : (n : ℕ) (ts us : List ℕ) → n ≤ length ts → drop n (ts ++ us) ≡ drop n ts ++ us
drop-append zero ts us h = refl
drop-append (suc n) [] us h = absurd (omega (arith, h))
drop-append (suc n) (t ∷ ts) us h = drop-append n ts us (omega (arith, h))

drop-drop : (a b : ℕ) (ts : List ℕ) → drop a (drop b ts) ≡ drop (b + a) ts
drop-drop a zero ts = ap (λ n. drop n ts) (omega arith)
drop-drop a (suc b) [] = drop-nil a ∙ sym (drop-nil (suc b + a))
drop-drop a (suc b) (t ∷ ts) =
    drop-drop a b ts ∙ ap (λ n. drop n (t ∷ ts)) {x = suc (b + a)} (omega arith)

newest-append :
    (n : ℕ) (ts : List ℕ) (t : ℕ) → newest n (newest n ts ++ t ∷ []) ≡ newest n (ts ++ t ∷ [])
unfolding newest
newest-append n ts t =
    let kept = drop (length ts - n) ts ++ t ∷ [] in
    ap (drop (length kept - n)) (sym (drop-append (length ts - n) ts (t ∷ []) (omega arith)))
    ∙ drop-drop (length kept - n) (length ts - n) (ts ++ t ∷ [])
    ∙ ap (λ k. drop k (ts ++ t ∷ []))
        (omega (
          arith,
          length-append (drop (length ts - n) ts) (t ∷ []),
          length-append ts (t ∷ []),
          length-drop (length ts - n) ts,
        ))

-- The samples of one source, noted one after the other.
unfoldable pub note_all : SampleHistoryMap → Text → List ℕ → SampleHistoryMap
note_all history source [] = history
note_all history source (t ∷ ts) = note_all (note_sample history source t) source ts

note_sample-newest :
    (history : SampleHistoryMap) (source : Text) (t : ℕ)
    → times_of (note_sample history source t) source
      ≡ newest (cap_of history source) (times_of history source ++ t ∷ [])
unfolding note_sample
note_sample-newest history source t =
    ap (λ o. unwrap_or o [])
      {y = some (trim (cap_of history source) (times_of history source ++ t ∷ []))}
      (get-insert source _ history.samples source ∙ rw ((text_eq_iff source source).1 refl) refl)
    ∙ trim-newest (cap_of history source) (times_of history source ++ t ∷ [])

note_sample-cap :
    (history : SampleHistoryMap) (source : Text) (t : ℕ)
    → cap_of (note_sample history source t) source ≡ cap_of history source
unfolding note_sample
note_sample-cap history source t = refl

note_all-newest :
    (history : SampleHistoryMap) (source : Text) (before ts : List ℕ)
    → times_of history source ≡ newest (cap_of history source) before
    → times_of (note_all history source ts) source ≡ newest (cap_of history source) (before ++ ts)
unfolding note_all note_sample
note_all-newest history source before [] h =
    h ∙ ap (newest (cap_of history source)) (sym (append-nil before))
note_all-newest history source before (t ∷ ts) h =
    note_all-newest (note_sample history source t) source (before ++ t ∷ []) ts (
      note_sample-newest history source t
      ∙ ap (λ us. newest (cap_of history source) (us ++ t ∷ [])) h
      ∙ newest-append (cap_of history source) before t)
    ∙ ap (newest (cap_of history source)) (append_assoc before (t ∷ []) ts)

sample_at_or_before-find :
    (history : SampleHistoryMap) (source : Text) (t : ℕ)
    → sample_at_or_before history source t ≡ find (λ u. leb u t) (reverse (times_of history source))
unfolding sample_at_or_before reverse
sample_at_or_before-find history source t = elim (Option-cases (get history.samples source)) [
  | inl e ↦ rw e refl
  | inr (dq, e) ↦ rw e refl
]

-- The times of a source, noted in order in a history that has none of it, leave the newest of them
-- in its buffer, as many as its cap; a look-up finds the newest of those at or before a time.
pub note_all-IsNewest :
    (history : SampleHistoryMap) (source : Text) (ts : List ℕ) (t : ℕ)
    → get history.samples source ≡ none
    → Ascending ts
    → (times_of (note_all history source ts) source ≡ newest (cap_of history source) ts)
      × IsNewest t
          (newest (cap_of history source) ts)
          (sample_at_or_before (note_all history source ts) source t)
unfolding newest
note_all-IsNewest history source ts t none_yet h =
    let kept : times_of (note_all history source ts) source ≡ newest (cap_of history source) ts =
      note_all-newest history source [] ts (rw none_yet (sym (drop-nil _))) in
    (
      kept,
      subst (IsNewest t (newest (cap_of history source) ts))
          (sym (
            sample_at_or_before-find (note_all history source ts) source t
            ∙ ap (λ us. find (λ u. leb u t) (reverse us)) kept))
          (find-IsNewest t (newest (cap_of history source) ts) (Ascending-drop _ ts h)),
    )
