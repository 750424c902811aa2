-- ===== src/Endpoints/Redact.antt =====
-- The redaction of the URLs that messages and reports carry, in src/endpoints.rs. The URL parser
-- and the changes of a parsed URL are a parameter.
pub mod Masked
use bench_cli.Base.{
  ℕ, ◌≡◌, Bool, true, false, ◌&&◌, not, Option, none, some, List, [], ◌∷◌, ◌++◌, map, length, ltb,
  ◌==◌, if◌then◌else◌,
}
use bench_cli.Text.{Text, codes, is_empty, join, trim}
use bench_cli.Text.Scan.{span, find_split}

-- What the code asks of `reqwest::Url`. The keys of the query are there when it has a query; a
-- change that the URL refuses leaves it as it is.
pub record UrlReader : Type 1 where
  pub Url : Type 0
  pub parse : Text → Option Url
  pub has_authority : Url → Bool
  pub username : Url → Text
  pub set_username : Text → Url → Url
  pub clear_password : Url → Url
  pub query_keys : Url → Option (List Text)
  pub set_query : Text → Url → Url
  pub to_text : Url → Text

-- `str::split` at a character.
unfoldable pub onto_first : ℕ → List Text → List Text
onto_first c [] = (c ∷ []) ∷ []
onto_first c (piece ∷ pieces) = (c ∷ piece) ∷ pieces

unfoldable pub split_on : ℕ → Text → List Text
unfolding onto_first
split_on sep [] = [] ∷ []
split_on sep (c ∷ cs) =
    let rest = split_on sep cs in if c == sep then [] ∷ rest else onto_first c rest

-- The value of one pair of the query.
unfoldable pub redact_pair : Text → Text
redact_pair pair = elim (find_split (codes "=") pair) [
  | none ↦ pair
  | some r ↦ if is_empty r.0 then pair else r.0 ++ codes "=REDACTED"
]

-- What follows the first question mark, the mark included.
unfoldable pub redact_query : Text → Text
unfolding redact_pair split_on
redact_query url =
    let at = span (λ c. not (c == b'?')) url in
    if is_empty at.1 then url else at.0 ++ join (codes "&") (map redact_pair (split_on b'&' at.1))

-- What stands before the first `@`, when that precedes the first slash.
unfoldable pub redact_userinfo : Text → Text
redact_userinfo authority =
    let at = span (λ c. not (c == b'@')) authority in
    let sep = span (λ c. not (c == b'/')) authority in
    if not (is_empty at.1) && ltb (length at.0) (length sep.0)
    then codes "REDACTED" ++ at.1
    else authority

-- `redact_url_string_level`
unfoldable pub redact_url_string_level : Text → Text
unfolding redact_query redact_userinfo
redact_url_string_level trimmed = elim (find_split (codes "://") trimmed) [
  | none ↦ redact_query (redact_userinfo trimmed)
  | some r ↦ redact_query (r.0 ++ (codes "://" ++ redact_userinfo r.1))
]

module _ (R : UrlReader) where
  open R use {
    Url, parse, has_authority, username, set_username, clear_password, query_keys, set_query,
    to_text,
  }

  -- The changes of a URL that has an authority.
  unfoldable pub redact_parsed : Url → Url
  redact_parsed url =
      let named = if is_empty (username url) then url else set_username (codes "REDACTED") url in
      let bare = clear_password named in
      elim (query_keys bare) [
        | none ↦ bare
        | some keys ↦ set_query (join (codes "&") (map (λ key. key ++ codes "=REDACTED") keys)) bare
      ]

  -- `redact_url`
  unfoldable pub redact_url : Text → Text
  unfolding redact_parsed redact_url_string_level
  redact_url raw =
      let trimmed = trim raw in
      elim (parse trimmed) [
        | none ↦ redact_url_string_level trimmed
        | some url ↦
            if has_authority url
            then to_text (redact_parsed url)
            else redact_url_string_level trimmed
      ]
