-- ===== src/Endpoints.antt =====
-- The endpoints of a run and the selector that spreads requests over them, src/endpoints.rs.
-- `reqwest::Url` and the YAML reader are parameters. An error is the stage that raised it, without
-- its text. Time is a number of nanoseconds, the monotonic clock's reading an argument.
pub mod Load
pub mod Selector
pub mod Select
pub mod Leases
pub mod Served
pub mod Redact
use bench_cli.Base.{
  ℕ, ◌+◌, ◌%◌, ◌<◌, ◌≡◌, Bool, true, false, ◌&&◌, ◌||◌, not, Option, none, some, List, [], ◌∷◌,
  ◌++◌, length, get_elem?, replicate, first, filter_some, unwrap_or, or_else, map_some, Result, ok,
  err, ltb, leb, ◌==◌, if◌then◌else◌, max, map, and_then,
}
use bench_cli.Text.{Text, codes, text_eq, is_empty, trim, strip_prefix}
use bench_cli.Text.Scan.{span}

-- `EndpointTuple`: the URL, the key and the name.
abbrev pub EndpointTuple : Type 0
EndpointTuple = Text × Text × Text

-- `EndpointConfig`
pub record EndpointConfig : Type 0 where
  pub url : Text
  pub api_key : Text
  pub name : Option Text
  pub weight : Option ℕ

-- `ResolvedEndpoints`
pub data ResolvedEndpoints : Type 0 where
  single : Text → Text → Text → ResolvedEndpoints
  multi : List EndpointTuple → List (Text × ℕ) → ResolvedEndpoints

-- `endpoint_names_for_display`
unfoldable pub endpoint_names_for_display : ResolvedEndpoints → List (Text × ℕ)
endpoint_names_for_display (single url api_key name) = (name, 1) ∷ []
endpoint_names_for_display (multi weighted names) = names

-- The `choices` of `select`.
unfoldable pub choices : ResolvedEndpoints → List EndpointTuple
choices (single url api_key name) = (url, api_key, name) ∷ []
choices (multi weighted names) = weighted

-- `hostname_from_url`: what stands before the first slash.
unfoldable pub hostname_from_url : Text → Text
hostname_from_url url =
    let bare =
      unwrap_or (or_else (strip_prefix (codes "https://") url) (strip_prefix (codes "http://") url))
        url in
    (span (λ c. not (c == b'/')) bare).0

-- What the URL parser says of a URL that it accepts.
pub record ParsedUrl : Type 0 where
  pub scheme : Text
  pub host : Option Text

pub data LoadError : Type 0 where
  empty_url malformed_url wrong_scheme no_host empty_api_key : LoadError
  unreadable invalid_yaml no_endpoint no_mode both_modes : LoadError

-- The parameters: `reqwest::Url::parse`, and the file with its YAML reader.
pub record Reader : Type 0 where
  pub parse_url : Text → Option ParsedUrl
  pub read_file : Text → Option Text
  pub parse_yaml : Text → Option (List EndpointConfig)

pub data LoadBalancer : Type 0 where
  round_robin least_inflight : LoadBalancer

module _ (R : Reader) where
  open R use {parse_url, read_file, parse_yaml}

  unfoldable pub check_parsed : ParsedUrl → Result Unit LoadError
  check_parsed url =
      if text_eq url.scheme (codes "http") || text_eq url.scheme (codes "https")
      then (if is_empty (unwrap_or url.host []) then err no_host else ok tt)
      else err wrong_scheme

  -- `validate_endpoint_url`
  unfoldable pub validate_endpoint_url : Text → Result Unit LoadError
  validate_endpoint_url raw =
      let url = trim raw in
      let parsed : Result Unit LoadError = elim (parse_url url) [
        | none ↦ err malformed_url
        | some u ↦ check_parsed u
      ] in
      if is_empty url then err empty_url else parsed

  -- The name of an endpoint: the one that is given unless it is empty.
  unfoldable pub name_of : EndpointConfig → Text → Text
  name_of c url = unwrap_or (filter_some c.name (λ s. not (is_empty s))) (hostname_from_url url)

  abbrev pub weight_of : EndpointConfig → ℕ
  weight_of c = max (unwrap_or c.weight 1) 1

  -- The checks of one entry, in the order of the loop's body.
  unfoldable pub check_config : EndpointConfig → Result Unit LoadError
  check_config c =
      let valid : Result Unit LoadError = elim (validate_endpoint_url (trim c.url)) [
        | err e ↦ err e
        | ok _ ↦ if is_empty (trim c.api_key) then err empty_api_key else ok tt
      ] in
      if is_empty (trim c.url) then err empty_url else valid

  -- The loop of `load_endpoints_file`, with the two lists built so far.
  unfoldable pub load_loop :
      List EndpointConfig
      → List EndpointTuple
      → List (Text × ℕ)
      → Result (List EndpointTuple × List (Text × ℕ)) LoadError
  load_loop [] weighted names = ok (weighted, names)
  load_loop (c ∷ cs) weighted names =
      let url = trim c.url in
      let name = name_of c url in
      let copies = replicate (weight_of c) (url, trim c.api_key, name) in
      let rest = load_loop cs (weighted ++ copies) (names ++ (name, weight_of c) ∷ []) in
      elim (check_config c) [ err e ↦ err e | ok _ ↦ rest ]

  unfoldable pub load_configs :
      List EndpointConfig → Result (List EndpointTuple × List (Text × ℕ)) LoadError
  load_configs [] = err no_endpoint
  load_configs (c ∷ cs) = load_loop (c ∷ cs) [] []

  -- `load_endpoints_file`
  unfoldable pub load_endpoints_file :
      Text → Result (List EndpointTuple × List (Text × ℕ)) LoadError
  load_endpoints_file path = elim (read_file path) [
    | none ↦ err unreadable
    | some contents ↦ elim (parse_yaml contents) [
      | none ↦ err invalid_yaml
      | some configs ↦ load_configs configs
    ]
  ]

  -- `resolve_endpoints`
  unfoldable pub resolve_endpoints :
      Option Text → Option Text → Option Text → Result ResolvedEndpoints LoadError
  resolve_endpoints (some u) (some a) none = elim (validate_endpoint_url u) [
    | err e ↦ err e
    | ok _ ↦ ok (single u a (hostname_from_url u))
  ]
  resolve_endpoints none none (some path) = elim (load_endpoints_file path) [
    | err e ↦ err e
    | ok (weighted, names) ↦ ok (multi weighted names)
  ]
  resolve_endpoints none none none = err no_mode
  resolve_endpoints _ _ _ = err both_modes
