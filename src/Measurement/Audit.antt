-- ===== src/Measurement/Audit.antt =====
-- What an audit that passes says of the records, src/measurement.rs.
use bench_cli.Base.{
  ℕ, ◌+◌, ◌≤◌, ◌≡◌, refl, Bool, true, false, not, ◌&&◌, List, [], ◌∷◌, Option, none, some, is_some,
  ok, Float, arith, All, Bool-cases, inl, inr, if◌then◌else◌, subst, ap, ◌∙◌,
}
use bench_cli.Measurement.{
  Phase, warmup, measure, drain, RequestRecord, MeasuredTtftRow, TtftAudit, ChatTtftAuditInput,
  audit_input, audit_chat_ttft_observed, audit_chat_request_records, is_missing, count, filter,
  is_measure, is_missing_success, is_source, first_byte_approx, TtftSource, stream,
  first_token_fallback, count_from, note_row, count_ttft_gaps,
}

observed-covered :
    (i : ChatTtftAuditInput) (a : TtftAudit)
    → audit_chat_ttft_observed i ≡ ok a
    → i.streaming ≡ true
    → i.allow_missing ≡ false
    → (i.missing_successes ≡ 0) × (a.approx_count ≡ i.first_byte_count)
unfolding audit_chat_ttft_observed is_missing
observed-covered i a e s m = (ground (arith, e, s, m), ground (arith, e, s, m))

module _ {A : Type 0} where
  count_zero : (p : A → Bool) (xs : List A) → count p xs ≡ 0 → All (λ x. p x ≡ false) xs
  count_zero p [] h = tt
  count_zero p (x ∷ xs) h = elim (Bool-cases (p x)) [
    | inl e ↦ absurd (ground (arith, h, e))
    | inr e ↦ (e, count_zero p xs (ground (arith, h, e)))
  ]

  All-filter :
      (P : A → Type 0) (p : A → Bool) (xs : List A)
      → All P (filter p xs)
      → All (λ x. p x ≡ true → P x) xs
  All-filter P p [] h = tt
  All-filter P p (x ∷ xs) h = elim (Bool-cases (p x)) [
    | inl e ↦
        (let kept : All P (x ∷ filter p xs) =
            subst (λ b. All P (if b then x ∷ filter p xs else filter p xs)) e h in
          (λ _. kept.0, All-filter P p xs (kept.1)))
    | inr e ↦ (
      λ h. absurd (cc (e, h)),
      All-filter P p xs (subst (λ b. All P (if b then x ∷ filter p xs else filter p xs)) e h),
    )
  ]

  All-implies : (P Q : A → Type 0) (xs : List A) → ((x : A) → P x → Q x) → All P xs → All Q xs
  All-implies P Q [] f h = tt
  All-implies P Q (x ∷ xs) f h = (f x (h.0), All-implies P Q xs f (h.1))

abbrev bit : Bool → ℕ
bit b = if b then 1 else 0

uncovered_no :
    (p : Phase) (missing : Bool)
    → (is_measure p ≡ true → missing ≡ false)
    → (is_measure p && missing) ≡ false
uncovered_no warmup missing h = refl
uncovered_no drain missing h = refl
uncovered_no measure missing h = h refl

module _ (F : Float) where
  -- A measured record of a success with no first-token time.
  abbrev pub is_uncovered : RequestRecord F → Bool
  is_uncovered r = is_measure r.phase && is_missing_success F r

  -- When the audit of a streaming run passes and missing times were not allowed, every measured
  -- request that succeeded has a first-token time.
  pub audit_chat_request_records-covered :
      (records : List (RequestRecord F)) (infer fallback : Bool) (a : TtftAudit)
      → audit_chat_request_records F records true infer fallback false ≡ ok a
      → All (λ r. is_uncovered r ≡ false) records
  unfolding audit_chat_request_records
  audit_chat_request_records-covered records infer fallback a e =
      let rows = filter (λ (r : RequestRecord F). is_measure r.phase) records in
      let none_missing =
        observed-covered (audit_input F rows true infer fallback false) a e
          (unfold audit_input in refl) (unfold audit_input in refl) in
      All-implies _ (λ r. is_uncovered r ≡ false) records
        (λ r h. uncovered_no r.phase (is_missing_success F r) h)
        (All-filter (λ r. is_missing_success F r ≡ false)
          (λ (r : RequestRecord F). is_measure r.phase) records
          (count_zero (is_missing_success F) rows (unfold audit_input in none_missing.0)))

  abbrev pub is_counted : MeasuredTtftRow F → Bool
  is_counted r = r.success && not r.warmed

  abbrev pub is_approximated : MeasuredTtftRow F → Bool
  is_approximated r = is_counted r && is_source first_byte_approx r.row_source

  abbrev pub is_gap : MeasuredTtftRow F → Bool
  is_gap r = is_counted r && not (is_some r.row_source) && not (is_some r.row_ttft_s)

  note_row-counts :
      (s w : Bool) (t : Option F.F64) (o : Option TtftSource) (x y z : ℕ)
      → let r : MeasuredTtftRow F = record {
        success = s;
        warmed = w;
        row_ttft_s = t;
        row_source = o;
      } in
        note_row F r (x, y, z)
        ≡ (x + bit (is_counted r), y + bit (is_gap r), z + bit (is_approximated r))
  unfolding note_row
  note_row-counts false w t o x y z = ground arith
  note_row-counts true true t o x y z = ground arith
  note_row-counts true false t (some first_byte_approx) x y z = ground arith
  note_row-counts true false t (some stream) x y z = ground arith
  note_row-counts true false t (some first_token_fallback) x y z = ground arith
  note_row-counts true false (some v) none x y z = ground arith
  note_row-counts true false none none x y z = ground arith

  count_from-counts :
      (rows : List (MeasuredTtftRow F)) (x y z : ℕ)
      → count_from F rows (x, y, z)
        ≡ (x + count is_counted rows, y + count is_gap rows, z + count is_approximated rows)
  unfolding count_from
  count_from-counts [] x y z = ground arith
  count_from-counts (r ∷ rows) x y z =
      ap (count_from F rows) (note_row-counts r.success r.warmed r.row_ttft_s r.row_source x y z)
      ∙ count_from-counts rows _ _ _
      ∙ ground arith

  approximated_source :
      (o : Option TtftSource) → is_source first_byte_approx o ≡ true → is_some o ≡ true
  approximated_source none h = h
  approximated_source (some o) h = refl

  disjoint_counts :
      (rows : List (MeasuredTtftRow F))
      → count is_gap rows + count is_approximated rows ≤ count is_counted rows
  disjoint_counts [] = omega arith
  disjoint_counts (r ∷ rows) = elim (Bool-cases (is_source first_byte_approx r.row_source)) [
    | inl e ↦ ground (arith, disjoint_counts rows, e, approximated_source r.row_source e)
    | inr e ↦ ground (arith, disjoint_counts rows, e)
  ]

  -- The loop counts the measured successes, those of them that have neither a source nor a time, and
  -- those whose time is an approximation; the last two together are no more than the first.
  pub count_ttft_gaps-counts :
      (rows : List (MeasuredTtftRow F))
      → (count_ttft_gaps F rows
          ≡ (count is_counted rows, count is_gap rows, count is_approximated rows))
        × (count is_gap rows + count is_approximated rows ≤ count is_counted rows)
  count_ttft_gaps-counts rows = (count_from-counts rows 0 0 0 ∙ ground arith, disjoint_counts rows)
