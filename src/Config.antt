-- ===== src/Config.antt =====
-- config/config.go: the configuration, its defaults, and how it is loaded. Reading the file, decoding its
-- JSON over the defaults, and the environment are parameters. An `int` has 64 bits.
pub mod Valid
use go_mathsearch.Base.{
  ℕ, Bool, true, false, not, ◌&&◌, List, [], ◌∷◌, Option, none, some, ◌==◌, nat_eq, if◌then◌else◌,
}
use go_mathsearch.Base.Int.{ℤ, pos, negsuc, is_positive, int_ltb, times_nat, wrap64}
use go_mathsearch.Base.Text.{Text, codes, text_eq}

pub record Server : Type 0 where
  pub addr : Text
  pub read_timeout_sec : ℤ
  pub write_timeout_sec : ℤ

pub record Corpus : Type 0 where
  pub roots : List Text

pub record Search : Type 0 where
  pub fuzzy_limit : ℤ
  pub candidate_pool : ℤ

pub record User : Type 0 where
  pub username : Text
  pub password_hash : Text

pub record OauthProvider : Type 0 where
  pub client_id : Text
  pub client_secret : Text
  pub redirect_url : Text
  pub scopes : List Text
  pub auth_url : Text
  pub token_url : Text
  pub user_info_url : Text

pub record RateLimit : Type 0 where
  pub requests_per_minute : ℤ
  pub burst : ℤ
  pub privileged_exempt : Bool

pub record Auth : Type 0 where
  pub enabled : Bool
  pub jwt_secret : Text
  pub token_ttl_min : ℤ
  pub users : List User
  pub oauth : List (Text × OauthProvider)
  pub rate_limit : RateLimit

pub record Config : Type 0 where
  pub database : Text
  pub server : Server
  pub corpus : Corpus
  pub search : Search
  pub auth : Auth

-- `Default`
abbrev pub default : Config
default = record {
  database = codes "mathsearch.db";
  server = record { addr = codes ":8080"; read_timeout_sec = pos 15; write_timeout_sec = pos 30 };
  corpus = record { roots = [] };
  search = record { fuzzy_limit = pos 25; candidate_pool = pos 200 };
  auth = record {
    enabled = false;
    jwt_secret = [];
    token_ttl_min = pos 60;
    users = [];
    oauth = [];
    rate_limit = record { requests_per_minute = pos 60; burst = pos 20; privileged_exempt = true };
  };
}

-- What `Load` returns: the error of the file, that of the JSON, or the configuration, with the error of
-- `validate` or with none.
pub data Loaded : Type 0 where
  unreadable : Loaded
  unparsable : Loaded
  rejected : Config → Loaded
  accepted : Config → Loaded

-- The first two conditions of `validate`.
unfoldable pub tuned : Search → Search
tuned s =
    let limit = if is_positive s.fuzzy_limit then s.fuzzy_limit else pos 25 in
    record {
      fuzzy_limit = limit;
      candidate_pool =
          if int_ltb s.candidate_pool limit then wrap64 (times_nat limit 5) else s.candidate_pool;
    }

-- `validate`
unfoldable pub validate : Config → Loaded
unfolding tuned
validate c =
    let set = record c { search = tuned c.search } in
    if c.auth.enabled && c.auth.jwt_secret == []
    then rejected set
    else accepted (record set {
      auth = record c.auth {
        token_ttl_min = if is_positive c.auth.token_ttl_min then c.auth.token_ttl_min else pos 60;
      };
    })

-- `os.ReadFile`, `json.Unmarshal` over a configuration, and `os.Getenv`; `none` is an error.
pub record Environment : Type 0 where
  pub read_file : Text → Option Text
  pub unmarshal : Text → Config → Option Config
  pub getenv : Text → Text

-- The override of the secret, and `validate`.
unfoldable pub overridden : Environment → Config → Loaded
unfolding validate
overridden env c =
    let v = env.getenv (codes "MATHSEARCH_JWT_SECRET") in
    validate (if not (v == []) then record c { auth = record c.auth { jwt_secret = v } } else c)

-- `Load`
unfoldable pub load : Environment → Text → Loaded
unfolding overridden
load env path =
    if not (path == [])
    then (elim (env.read_file path) [
      | none ↦ unreadable
      | some raw ↦ elim (env.unmarshal raw default) [
        | none ↦ unparsable
        | some c ↦ overridden env c
      ]
    ])
    else overridden env default
