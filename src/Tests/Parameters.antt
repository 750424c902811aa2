-- ===== src/Tests/Parameters.antt =====
-- Concrete functions for what is not part of the repository.
use bench_cli.Base.{
  ℕ, suc, zero, ◌+◌, ◌-◌, ◌*◌, ◌/◌, ◌≡◌, refl, min, max, Bool, true, false, ◌||◌, Option, none,
  some, [], ◌∷◌, ltb, leb, ◌==◌, if◌then◌else◌, Float, arith,
}
use bench_cli.Text.{Text, codes, text_eq, is_empty}
use bench_cli.Json.{Json}
use bench_cli.Chat.Errors.{Reqwest}
use bench_cli.Concurrency.System.{Semaphore}
use bench_cli.Endpoints.{Reader, EndpointConfig}
use bench_cli.Telemetry.Exposition.{Syntax}

-- Whole numbers for floats.
abbrev pub whole : Float
whole = record {
  F64 = ℕ;
  of_nat = λ n. n;
  to_u64 = λ n. n;
  add = λ a b. a + b;
  sub = λ a b. a - b;
  mul = λ a b. a * b;
  div = λ a b. a / b;
  min = λ a b. min a b;
  max = λ a b. max a b;
  lt = ltb;
  le = leb;
  eq = λ a b. a == b;
  abs = λ a. a;
  fract = λ _. 0;
  is_finite = λ _. true;
  total_gt = λ a b. ltb b a;
  floor = λ a. a;
  ceil = λ a. a;
  sqrt = λ a. a;
  infinity = 1000;
  neg_infinity = 0;
  epsilon = 0;
}

abbrev is_echoed : Text → Bool
is_echoed key =
    text_eq key (codes "choices") || text_eq key (codes "delta") || text_eq key (codes "content")

-- A value is a text, its own only choice and its own content; a count is the length of the key.
abbrev pub echo : Json ℕ
echo = record {
  Value = Text;
  from_str = λ s. some s;
  get = λ v key. if is_echoed key then some v else none;
  pointer = λ v key. if is_empty v then none else some v;
  as_str = λ v. some v;
  as_u64 = λ v. if text_eq v (codes "7") then some 7 else none;
  as_f64 = λ v. none;
  as_array = λ v. some (v ∷ []);
  is_object = λ _. false;
  show = λ v. v;
}

-- A transport whose only error is a timeout.
abbrev pub timeouts : Reqwest
timeouts = record {
  Error = Unit;
  is_timeout = λ _. true;
  is_connect = λ _. false;
  status = λ _. none;
  chain = λ _. [];
  redacted = λ _. [];
}

abbrev pub take_one : ℕ → Option ℕ
take_one zero = none
take_one (suc n) = some n

pub taken_one : (p q : ℕ) → take_one p ≡ some q → p ≡ suc q
taken_one zero q e = cc
taken_one (suc p) q e = ground (arith, e)

pub refused_one : (p : ℕ) → take_one p ≡ none → p ≡ 0
refused_one zero e = refl
refused_one (suc p) e = cc

-- A number of permits.
abbrev pub permits : Semaphore
permits = record {
  Permits = ℕ;
  available = λ n. n;
  with_permits = λ n. n;
  try_acquire = take_one;
  release = λ n. suc n;
  available-with_permits = λ n. refl;
  taken = taken_one;
  refused = refused_one;
  given_back = λ p. refl;
}

abbrev pub one_endpoint : EndpointConfig
one_endpoint = record { url = codes "http://a/v1"; api_key = codes "k"; name = none; weight = none }

abbrev pub two_copies : EndpointConfig
two_copies = record {
  url = codes "http://b/v1";
  api_key = codes "k";
  name = some (codes "b");
  weight = some 2;
}

-- Every URL is one of a host, and the file lists two endpoints.
abbrev pub reader : Reader
reader = record {
  parse_url = λ _. some (record { scheme = codes "http"; host = some (codes "h") });
  read_file = λ path. some path;
  parse_yaml = λ _. some (one_endpoint ∷ two_copies ∷ []);
}

-- Every name is included, and a float is the number of its characters.
abbrev pub every_name : Syntax
every_name = record {
  F64 = ℕ;
  nan = 0;
  infinity = 0;
  neg_infinity = 0;
  parse_f64 = λ s. if is_empty s then none else some 1;
  include_is_empty = false;
  include_is_match = λ _. true;
}
