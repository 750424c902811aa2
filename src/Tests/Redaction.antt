-- ===== src/Tests/Redaction.antt =====
-- URLs with credentials and secrets in the query.
use bench_cli.Base.{◌≡◌, refl, true, none, [], ◌∷◌, ◌++◌}
use bench_cli.Text.{
  Text, codes, is_empty, join, strip_prefix, trim, trim_start, trim_end, keep_unless_blank,
  is_whitespace,
}
use bench_cli.Text.Scan.{span, find_split}
use bench_cli.Endpoints.Redact.{
  UrlReader, onto_first, split_on, redact_pair, redact_query, redact_userinfo,
  redact_url_string_level, redact_url,
}
use bench_cli.Endpoints.Redact.Masked.{
  IsPair, query, print_pair, mask_pair, redact_url_string_level-masked,
}

-- A reader that accepts nothing.
abbrev refusing : UrlReader
refusing = record {
  Url = Text;
  parse = λ _. none;
  has_authority = λ _. true;
  username = λ url. url;
  set_username = λ name _. name;
  clear_password = λ url. url;
  query_keys = λ _. none;
  set_query = λ _ url. url;
  to_text = λ url. url;
}

redact_url-two_marks :
    redact_url refusing (codes " user:p@ss@host/v1 ") ≡ codes "REDACTED@ss@host/v1"
unfolding redact_url redact_url_string_level redact_query redact_userinfo span find_split
    strip_prefix is_empty trim trim_start trim_end keep_unless_blank is_whitespace
redact_url-two_marks = refl

redact_url-scheme_in_query :
    redact_url refusing (codes "user:pass@host/?to=http://x") ≡ codes "user:pass@host/?to=REDACTED"
unfolding redact_url redact_url_string_level redact_query redact_userinfo redact_pair split_on
    onto_first join span find_split strip_prefix is_empty trim trim_start trim_end keep_unless_blank
    is_whitespace
redact_url-scheme_in_query = refl

abbrev key_pair : Text × Text
key_pair = (codes "k", codes "s")

abbrev other_pair : Text × Text
other_pair = (codes "t", codes "w")

key_pair-IsPair : IsPair key_pair
unfolding is_empty
key_pair-IsPair = record {
  filled = refl;
  key_plain = (refl, tt);
  key_whole = (refl, tt);
  value_whole = (refl, tt);
}

other_pair-IsPair : IsPair other_pair
unfolding is_empty
other_pair-IsPair = record {
  filled = refl;
  key_plain = (refl, tt);
  key_whole = (refl, tt);
  value_whole = (refl, tt);
}

redact_url_string_level-masked_example :
    redact_url_string_level (
      codes "ws"
      ++ (codes "://"
          ++ (codes "u:p" ++ b'@' ∷ (codes "h/" ++ query print_pair (key_pair ∷ other_pair ∷ [])))))
    ≡ codes "ws"
      ++ (codes "://REDACTED@" ++ (codes "h/" ++ query mask_pair (key_pair ∷ other_pair ∷ [])))
redact_url_string_level-masked_example =
    redact_url_string_level-masked (codes "ws") (codes "u:p") (codes "h/") key_pair
      (other_pair ∷ []) (refl, (refl, tt)) (refl, (refl, tt)) (refl, (refl, (refl, tt)))
      (refl, (refl, (refl, tt))) (refl, (refl, tt)) key_pair-IsPair (other_pair-IsPair, tt)
