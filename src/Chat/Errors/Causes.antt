-- ===== src/Chat/Errors/Causes.antt =====
-- Which error of a chain decides how a failed request is classified, src/error.rs.
use bench_cli.Base.{◌≡◌, refl, Bool, true, false, List, [], ◌∷◌, ◌++◌, All, arith}
use bench_cli.Text.{Text}
use bench_cli.Chat.Errors.{
  RequestError, no_output_token, stream_truncated, api_error, other, Reqwest, Cause, typed,
  transport, opaque, from_error, classify_app_error,
}

-- The classes that the text of an error can lead to.
abbrev pub is_textual : RequestError → Bool
is_textual no_output_token = true
is_textual stream_truncated = true
is_textual (api_error _) = true
is_textual (other _) = true
is_textual _ = false

classify_app_error-textual : (text : Text) → is_textual (classify_app_error text) ≡ true
unfolding classify_app_error
classify_app_error-textual text = ground arith

module _ (R : Reqwest) where
  abbrev pub is_opaque : Cause R → Bool
  is_opaque opaque = true
  is_opaque _ = false

  -- A chain is classified by its first error that is an error of the program or of the transport,
  -- whatever its text is and whatever comes after that error; and by its text, as no class but the
  -- four that a text can lead to, if it has no such error.
  pub from_error-first :
      (text words : Text) (before after : List (Cause R)) (c : Cause R)
      → All (λ b. is_opaque b ≡ true) before
      → is_opaque c ≡ false
      → (from_error R text (before ++ c ∷ after) ≡ from_error R words (c ∷ []))
        × (is_textual (from_error R text before) ≡ true)
  unfolding from_error
  from_error-first text words [] after (typed e) h k = (refl, classify_app_error-textual text)
  from_error-first text words [] after (transport e) h k = (refl, classify_app_error-textual text)
  from_error-first text words [] after opaque h k = cc
  from_error-first text words (opaque ∷ before) after c h k =
      from_error-first text words before after c h.1 k
  from_error-first text words (typed e ∷ before) after c h k = absurd (cc (h.0))
  from_error-first text words (transport e ∷ before) after c h k = absurd (cc (h.0))
