-- ===== src/Tests/Requests.antt =====
-- Requests to the server of cmd/mathsearch/serve.go, on a small database.
use go_mathsearch.Base.{
  ℕ, arith, List, true, false, [], ◌∷◌, none, some, ◌==◌, nat_eq, if◌then◌else◌, ◌≡◌, inr, refl,
}
use go_mathsearch.Base.Spaces.{trim_space, trim_front, trim_back}
use go_mathsearch.Base.Text.{Text, codes, text_eq, text_beq, lookup, put}
use go_mathsearch.Auth.Authenticator.{
  role_privileged, new_authenticator, user_map, login, issue, annotate, bearer, parse, key_for,
}
use go_mathsearch.Auth.RateLimit.{has_prefix}
use go_mathsearch.Config.{Config, default}
use go_mathsearch.Latexfmt.Names.{drop}
use go_mathsearch.Latexfmt.Terms.{Expr}
use go_mathsearch.Store.Canonical.{Canonical, parsed}
use go_mathsearch.Store.Database.{find_formula}
use go_mathsearch.Store.Writes.{exec, set_proof}
use go_mathsearch.Store.Writes.Consistent.{IsConsistent}
use go_mathsearch.Server.Replies.{Entry, ProofBody, Reads, stored_proof}
use go_mathsearch.Server.Searches.{handle_get_proof}
use go_mathsearch.Server.Edits.{add_sides, handle_add_formula, handle_put_proof}
use go_mathsearch.Server.Stored.{handle_get_proof-handle_put_proof}
use go_mathsearch.Server.Added.{IsStored, handle_add_formula-IsStored}
use go_mathsearch.Server.Guarded.{serve-db}
use go_mathsearch.Server.Limited.{run-IsTidy, serve-login}
use go_mathsearch.Auth.RateLimit.Buckets.{IsTidy}
use go_mathsearch.Auth.Authenticator.Granted.{is_exact, expiry}
use go_mathsearch.Base.Int.{pos, int_ltb, later, truncate, wrap64}
use go_mathsearch.Server.Runs.{run, run-IsConsistent}
use go_mathsearch.Server.{
  post_formula, HttpRequest, Libraries, State, started, authenticator, dispatch, serve,
}
use go_mathsearch.Tests.Crypto.{crypto, key_text, token_text, crypto-KeepsSeconds, crypto-IsParser}
use go_mathsearch.Tests.Data.{engine, engine-IsFresh, empty}
use go_mathsearch.Tests.Limits.{tokens}
use go_mathsearch.Tests.Sessions.{client, header, filled, tight}
use go_mathsearch.Tests.Tables.{empty-IsConsistent, upsert_all}

abbrev pub canon : Canonical
canon = record {
  parse = λ s. parsed (Expr.free s);
  canonical = λ e. codes "v0";
  signature = λ e. codes "s";
}

abbrev reads : Reads engine
reads = record { answers = λ query db. true }

abbrev libraries : Libraries
libraries = record {
  engine = engine;
  reads = reads;
  canon = canon;
  crypto = crypto;
  client = client;
  rate = tokens;
  index_html = [];
  docs_html = [];
  openapi_json = [];
}

abbrev configuration : Config
configuration = record default {
  auth = record default.auth {
    enabled = true;
    jwt_secret = key_text;
    users = record { username = codes "bob"; password_hash = codes "#pw" } ∷ [];
  };
}

abbrev state : State libraries
state = record {
  db = empty;
  limiter = record {
    rpm = 60;
    burst = 20;
    exempt = true;
    buckets = [];
    last_gc = 0;
    path_pref = codes "/api/";
  };
}

abbrev pub entry : Entry
entry = record {
  id = codes "a";
  label = [];
  source = [];
  class = [];
  latex = [];
  lhs = codes "Sin[x]";
  rhs = [];
  verified = [];
}

abbrev request : Text → HttpRequest
request authorization = record {
  path = codes "/api/formulas";
  authorization = authorization;
  forwarded_for = [];
  remote_addr = codes "1.2.3.4:5";
  remote_host = some (codes "1.2.3.4");
  call = post_formula (some entry);
}

anonymous : annotate crypto (authenticator libraries configuration) 9 [] ≡ none
unfolding annotate bearer has_prefix text_beq new_authenticator
anonymous = refl

serve-db_example : (serve libraries configuration 9 (request []) state).1.db ≡ empty
serve-db_example = serve-db libraries configuration 9 (request []) state (inr anonymous)

bob_asks :
    annotate crypto (authenticator libraries configuration) 9 header
    ≡ some (codes "bob", role_privileged)
unfolding annotate bearer parse key_for has_prefix drop trim_space trim_front trim_back text_beq
    new_authenticator
bob_asks = refl

-- Two requests, a moment apart.
abbrev two_requests : List (ℕ × HttpRequest)
two_requests = (9, request header) ∷ (10, request []) ∷ []

run-IsTidy_example :
    IsTidy
      (run libraries configuration two_requests (started libraries configuration empty)).1.limiter
run-IsTidy_example =
    run-IsTidy libraries configuration two_requests empty (omega arith, (omega arith, tt))

bob_logs_in :
    login crypto (authenticator libraries configuration) 5 (codes "bob") (codes "pw")
    ≡ some token_text
unfolding login issue lookup text_beq later truncate new_authenticator user_map put wrap64
bob_logs_in = refl

exact : is_exact (expiry crypto (authenticator libraries configuration) 5) ≡ true
unfolding later truncate new_authenticator wrap64
exact = refl

alive : int_ltb (pos 11) (expiry crypto (authenticator libraries configuration) 5) ≡ true
unfolding later truncate new_authenticator wrap64
alive = refl

authentication_on : (authenticator libraries configuration).enabled ≡ true
unfolding new_authenticator
authentication_on = refl

-- What the two requests leave.
abbrev after_two : State libraries
after_two = (run libraries configuration two_requests (started libraries configuration empty)).1

serve-login_example : serve libraries configuration 11 (request header) after_two ≡ (
  (dispatch libraries configuration 11 (request header) after_two.db).0,
  record {
    db = (dispatch libraries configuration 11 (request header) after_two.db).1;
    limiter = after_two.limiter;
  },
)
serve-login_example =
    serve-login libraries configuration two_requests empty 5 11 (request header) (codes "bob")
      (codes "pw") token_text crypto-KeepsSeconds crypto-IsParser authentication_on refl exact alive
      filled tight bob_logs_in refl

run-IsConsistent_example :
    IsConsistent
      (run libraries configuration ((9, request header) ∷ (10, request []) ∷ []) state).1.db
run-IsConsistent_example =
    run-IsConsistent libraries configuration ((9, request header) ∷ (10, request []) ∷ []) state
      engine-IsFresh empty-IsConsistent

added : (handle_add_formula engine canon (some entry) empty).0.0 ≡ 200
unfolding handle_add_formula add_sides text_beq
added = rw upsert_all

elsewhere : (entry.id == codes "b") ≡ false
unfolding text_beq
elsewhere = refl

handle_add_formula-IsStored_example :
    IsStored engine canon entry
      (handle_add_formula engine canon (some entry) empty).1
      (codes "lhs", entry.lhs)
    × IsStored engine canon entry
        (handle_add_formula engine canon (some entry) empty).1
        (codes "rhs", entry.rhs)
    × (find_formula
          (codes "b", codes "lhs")
          (handle_add_formula engine canon (some entry) empty).1.rows
        ≡ find_formula (codes "b", codes "lhs") empty.rows)
handle_add_formula-IsStored_example =
    handle_add_formula-IsStored engine canon entry empty (codes "b", codes "lhs") elsewhere added

abbrev body : ProofBody
body = record { system = codes "lean4"; status = []; proof = codes "by rfl" }

proved : (handle_put_proof engine canon (codes "a") (some body) empty).0.0 ≡ 200
unfolding handle_put_proof set_proof exec text_beq
proved = refl

handle_get_proof-handle_put_proof_example :
    handle_get_proof engine reads canon configuration.search
      (codes "a")
      (handle_put_proof engine canon (codes "a") (some body) empty).1
    ≡ (
      200,
      stored_proof
          (codes "a")
          body.system
          (if body.status == [] then codes "draft" else body.status)
          body.proof,
    )
handle_get_proof-handle_put_proof_example =
    handle_get_proof-handle_put_proof engine reads canon (codes "a") body configuration.search empty
      proved refl
