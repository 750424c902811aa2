-- ===== src/IslOsl/Gate.antt =====
-- The mismatches that the gate of src/isl_osl.rs counts, and the targets that it accepts.
use bench_cli.Base.{
  ℕ, suc, ◌+◌, ◌≡◌, ◌↔◌, refl, subst, ap, ap₂, ◌∙◌, Bool, true, false, ◌&&◌, Bool-cases, inl, inr,
  Option, none, some, is_some, is_some_and, List, [], ◌∷◌, map, length, ok, if◌then◌else◌, Float,
  arith,
}
use bench_cli.Measurement.{is_measure, count}
use bench_cli.Stats.Defined.{from_values-kept}
use bench_cli.IslOsl.{
  Pair, Basis, IslOslTargets, MixReportTargets, IslOslValidation, RequestRecord, is_active,
  fill_gaps, is_bad, check_targets, resolve, measured_isl, measured_osl, is_mismatch, mismatches,
  summarize_pairs, successes_of, value_of, pair_of, validate_records, validation_of, given,
  enforce_osl_gate,
}

module _ (F : Float) (t : IslOslTargets F) where
  abbrev pub is_compared : RequestRecord F → Bool
  is_compared r = is_measure r.phase && r.is_success

  -- A measured success whose completion length is known and misses the target.
  abbrev pub misses_osl : RequestRecord F → Bool
  misses_osl r =
      is_compared r && is_mismatch F t.osl_target t.osl_tolerance (value_of F (measured_osl F r))

  abbrev pub misses_isl : RequestRecord F → Bool
  misses_isl r =
      is_compared r && is_mismatch F t.isl_target t.isl_tolerance (value_of F (measured_isl F r))

  add-if : (m : Bool) (c a : ℕ) → c + (if m then suc a else a) ≡ (if m then suc c else c) + a
  add-if true c a = omega arith
  add-if false c a = omega arith

  mismatches-count :
      (records : List (RequestRecord F)) (a b : ℕ)
      → mismatches F t (a, b) (map (pair_of F) (successes_of F records))
        ≡ (count misses_isl records + a, count misses_osl records + b)
  unfolding mismatches successes_of measured_isl pair_of measured_osl
  mismatches-count [] a b = ap₂ (λ x y. (x, y)) (omega arith) (omega arith)
  mismatches-count (r ∷ rs) a b = elim (Bool-cases (is_compared r)) [
    | inl e ↦ rw e (
        mismatches-count rs _ _
        ∙ ap₂ (λ x y. (x, y)) (add-if _ (count misses_isl rs) a) (add-if _ (count misses_osl rs) b))
    | inr e ↦ rw e (mismatches-count rs a b)
  ]

  length-successes_of :
      (records : List (RequestRecord F))
      → length (successes_of F records) ≡ count is_compared records
  unfolding successes_of
  length-successes_of [] = refl
  length-successes_of (r ∷ rs) = elim (Bool-cases (is_compared r)) [
    | inl e ↦ rw e (ap suc (length-successes_of rs))
    | inr e ↦ rw e (length-successes_of rs)
  ]

  active : is_some t.osl_target ≡ true → is_active F t ≡ true
  unfolding is_active
  active h = ground (arith, h)

  gate_iff :
      (v : IslOslValidation F) (c : ℕ)
      → is_some v.osl_target ≡ true
      → v.osl_mismatch_count ≡ c
      → (enforce_osl_gate F v true ≡ ok false) ↔ (c ≡ 0)
  unfolding enforce_osl_gate
  gate_iff v c h e = (λ g. ground (arith, h, e, g), λ z. ground (arith, h, e, z))

  summarize_pairs-counts :
      (isl osl : List F.F64) (compared : ℕ) (pairs : List (Pair F)) (basis : Option Basis)
      → (v : IslOslValidation F) × (summarize_pairs F t isl osl compared pairs basis ≡ some v)
        × (v.osl_target ≡ t.osl_target)
        × (v.compared ≡ compared)
        × ((v.isl_mismatch_count, v.osl_mismatch_count) ≡ mismatches F t (0, 0) pairs)
  unfolding summarize_pairs
  summarize_pairs-counts isl osl compared pairs basis =
      let (isl_dist, a, _, _, _) = from_values-kept F isl in
      let (osl_dist, b, _, _, _) = from_values-kept F osl in rw (a, b) (_, refl, refl, refl, refl)

  validation_of-counts :
      (records : List (RequestRecord F))
      → (v : IslOslValidation F) × (validation_of F records t ≡ some v)
        × (v.osl_target ≡ t.osl_target)
        × (v.compared ≡ length (successes_of F records))
        × ((v.isl_mismatch_count, v.osl_mismatch_count)
            ≡ mismatches F t (0, 0) (map (pair_of F) (successes_of F records)))
  unfolding validation_of
  validation_of-counts records =
      summarize_pairs-counts _ _ _ (map (pair_of F) (successes_of F records)) _

  -- The gate over the measured successes of a run with a target for the completion length: it
  -- does not panic, compares all of them, counts those whose completion length is known and misses
  -- the target, and lets the run pass, when it is asked to fail it, exactly when there is none.
  pub validate_records-gate :
      (records : List (RequestRecord F))
      → is_some t.osl_target ≡ true
      → (v : IslOslValidation F) × (validate_records F records t ≡ some (some v))
        × (v.compared ≡ count is_compared records)
        × (v.isl_mismatch_count ≡ count misses_isl records)
        × (v.osl_mismatch_count ≡ count misses_osl records)
        × ((enforce_osl_gate F v true ≡ ok false) ↔ (count misses_osl records ≡ 0))
  unfolding validate_records
  validate_records-gate records h =
      let counted = mismatches-count records 0 0 in
      let (v, e, target, compared, counts) = validation_of-counts records in
      let isl_count : v.isl_mismatch_count ≡ count misses_isl records =
        ap (λ (c : ℕ × ℕ). c.0) (counts ∙ counted) ∙ omega arith in
      let osl_count : v.osl_mismatch_count ≡ count misses_osl records =
        ap (λ (c : ℕ × ℕ). c.1) (counts ∙ counted) ∙ omega arith in
      (
        v,
        rw (active h, e) refl,
        compared ∙ length-successes_of records,
        isl_count,
        osl_count,
        gate_iff v _ (ap is_some target ∙ h) osl_count,
      )

check_targets-ok :
    (F : Float) (s t : IslOslTargets F)
    → check_targets F s ≡ ok t
    → (s ≡ t)
      × (is_some_and s.isl_target (is_bad F) ≡ false)
      × (is_some_and s.osl_target (is_bad F) ≡ false)
      × (is_bad F s.isl_tolerance ≡ false)
      × (is_bad F s.osl_tolerance ≡ false)
unfolding check_targets
check_targets-ok F s t h = elim (Bool-cases (is_some_and s.isl_target (is_bad F))) [
  | inl a ↦ absurd (cc (rw (a, check_targets) at h))
  | inr a ↦ elim (Bool-cases (is_some_and s.osl_target (is_bad F))) [
    | inl b ↦ absurd (cc (rw (a, b, check_targets) at h))
    | inr b ↦ elim (Bool-cases (is_bad F s.isl_tolerance)) [
      | inl c ↦ absurd (cc (rw (a, b, c, check_targets) at h))
      | inr c ↦ elim (Bool-cases (is_bad F s.osl_tolerance)) [
        | inl d ↦ absurd (cc (rw (a, b, c, d, check_targets) at h))
        | inr d ↦ (cc (rw (a, b, c, d, check_targets) at h), a, b, c, d)
      ]
    ]
  ]
]

-- A number that is finite and not negative.
abbrev pub IsSound : (F : Float) → F.F64 → Type 0
IsSound F v = (F.is_finite v ≡ true) × (F.lt v (F.of_nat 0) ≡ false)

-- A length that, if it is set, is finite and not negative.
abbrev pub IsLength : (F : Float) → Option F.F64 → Type 0
IsLength F none = Unit
IsLength F (some v) = IsSound F v

is_bad_iff : (F : Float) (v : F.F64) → (is_bad F v ≡ false) ↔ IsSound F v
is_bad_iff F v = (λ h. (ground arith, ground arith), λ h. ground (arith, h.0, h.1))

some_bad_iff : (F : Float) (o : Option F.F64) → (is_some_and o (is_bad F) ≡ false) ↔ IsLength F o
some_bad_iff F none = (λ h. tt, λ h. refl)
some_bad_iff F (some v) = is_bad_iff F v

-- The targets of the command line, with the gaps that the mix report fills, are accepted exactly
-- when the lengths that are set and both tolerances are finite and not negative; they are accepted
-- as they are.
pub resolve_iff :
    (F : Float) (isl osl : Option F.F64) (isl_tolerance osl_tolerance : F.F64)
    (report : Option (MixReportTargets F)) (t : IslOslTargets F)
    → (resolve F isl osl isl_tolerance osl_tolerance report ≡ ok t) ↔ (
        (fill_gaps F (given F isl osl isl_tolerance osl_tolerance) report ≡ t)
        × IsLength F t.isl_target
        × IsLength F t.osl_target
        × IsSound F t.isl_tolerance
        × IsSound F t.osl_tolerance)
unfolding resolve check_targets
resolve_iff F isl osl isl_tolerance osl_tolerance report t = (
  λ h.
      let s = fill_gaps F (given F isl osl isl_tolerance osl_tolerance) report in
      let (e, a, b, c, d) = check_targets-ok F s t h in
      (
        e,
        (some_bad_iff F t.isl_target).0
            (subst (λ (u : IslOslTargets F). is_some_and u.isl_target (is_bad F) ≡ false) e a),
        (some_bad_iff F t.osl_target).0
            (subst (λ (u : IslOslTargets F). is_some_and u.osl_target (is_bad F) ≡ false) e b),
        (is_bad_iff F t.isl_tolerance).0
            (subst (λ (u : IslOslTargets F). is_bad F u.isl_tolerance ≡ false) e c),
        (is_bad_iff F t.osl_tolerance).0
            (subst (λ (u : IslOslTargets F). is_bad F u.osl_tolerance ≡ false) e d),
      ),
  λ (e, a, b, c, d).
      ap (check_targets F) e
      ∙ rw
          (
            (some_bad_iff F t.isl_target).1 a,
            (some_bad_iff F t.osl_target).1 b,
            (is_bad_iff F t.isl_tolerance).1 c,
            (is_bad_iff F t.osl_tolerance).1 d,
          )
          refl,
)
