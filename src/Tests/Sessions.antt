-- ===== src/Tests/Sessions.antt =====
-- The tokens of auth/auth.go and the identities of auth/oauth.go at work.
use go_mathsearch.Base.{
  if◌then◌else◌, true, false, List, [], ◌∷◌, ◌++◌, none, some, ◌==◌, nat_eq, contains, IsDistinct,
  All, ◌≡◌, ◌↔◌, refl,
}
use go_mathsearch.Base.Int.{pos, int_ltb, later, truncate}
use go_mathsearch.Base.Spaces.{trim_space, trim_front, trim_back}
use go_mathsearch.Base.Text.{Text, codes, text_eq, text_beq, lookup}
use go_mathsearch.Auth.RateLimit.{has_prefix}
use go_mathsearch.Latexfmt.Names.{drop}
use go_mathsearch.Config.{OauthProvider}
use go_mathsearch.Auth.Authenticator.{
  role_privileged, bearer, key_for, refused, granted, issue, login, parse, require, annotate,
}
use go_mathsearch.Auth.Authenticator.Granted.{is_exact, expiry, require-granted_iff, require-login}
use go_mathsearch.Auth.Authenticator.Sessions.{
  Reachable, initially, then_step, logs_in, calls, IsEarned, Reachable-IsEarned,
}
use go_mathsearch.Auth.Oauth.{
  Identity, preset_of, client_config, filled_preset, first_non_empty, new_oauth, Client, identified,
  identity_from_user_info, resolve, identify,
}
use go_mathsearch.Auth.Oauth.Providers.{names, HasClientId, identify-identified}
use go_mathsearch.Tests.Crypto.{
  crypto, authenticator, token_text, crypto-KeepsSeconds, crypto-IsParser, crypto-IsFaithful,
}

abbrev pub header : Text
header = codes "Bearer " ++ token_text

require-granted_iff_example :
    (require crypto authenticator 9 header ≡ granted (codes "bob", role_privileged))
    ↔ (annotate crypto authenticator 9 header ≡ some (codes "bob", role_privileged))
require-granted_iff_example =
    require-granted_iff crypto authenticator 9 header (codes "bob", role_privileged)

login_bob : login crypto authenticator 5 (codes "bob") (codes "pw") ≡ some token_text
unfolding login issue lookup text_beq later truncate
login_bob = refl

wrong_password : login crypto authenticator 5 (codes "bob") (codes "pW") ≡ none
unfolding login issue lookup text_beq
wrong_password = refl

exact : is_exact (expiry crypto authenticator 5) ≡ true
unfolding later truncate
exact = refl

pub filled : (token_text == []) ≡ false
unfolding text_beq
filled = refl

pub tight : trim_space token_text ≡ token_text
unfolding trim_space trim_front trim_back
tight = refl

require-login_example : require crypto authenticator 9 (codes "Bearer " ++ token_text) ≡ (
    if int_ltb (pos 9) (expiry crypto authenticator 5)
    then granted (codes "bob", role_privileged)
    else refused 401 (codes "invalid or expired token"))
require-login_example =
    require-login crypto authenticator 5 9 (codes "bob") (codes "pw") token_text crypto-KeepsSeconds
      crypto-IsParser refl exact filled tight login_bob

-- Five nanoseconds less than its lifetime after the login, the token has expired.
too_late :
    require crypto authenticator 3600000000000 header
    ≡ refused 401 (codes "invalid or expired token")
unfolding require bearer parse key_for has_prefix drop trim_space trim_front trim_back text_beq
too_late = refl

let_in : require crypto authenticator 9 header ≡ granted (codes "bob", role_privileged)
unfolding require bearer parse key_for has_prefix drop trim_space trim_front trim_back text_beq
let_in = refl

presented : contains (bearer header) (token_text ∷ []) ≡ true
unfolding contains bearer has_prefix drop trim_space trim_front trim_back text_beq
presented = refl

-- Bob logs in, and calls with his token.
bob_calls : Reachable crypto authenticator (record {
  tokens = token_text ∷ [];
  logins = (codes "bob", codes "pw") ∷ [];
  admitted = (codes "bob", role_privileged) ∷ [];
})
bob_calls =
    then_step (then_step initially (logs_in 5 (codes "bob") (codes "pw") token_text login_bob))
      (calls 9 header (codes "bob", role_privileged) presented let_in)

Reachable-IsEarned_example :
    All
      (IsEarned crypto authenticator ((codes "bob", codes "pw") ∷ []))
      ((codes "bob", role_privileged) ∷ [])
Reachable-IsEarned_example = Reachable-IsEarned crypto authenticator crypto-IsFaithful bob_calls

abbrev google : OauthProvider
google = record {
  client_id = codes "client";
  client_secret = [];
  redirect_url = [];
  scopes = [];
  auth_url = [];
  token_url = [];
  user_info_url = [];
}

abbrev pub client : Client
client = record {
  Token = Text;
  auth_code_url = λ c state. c.auth_url ++ state;
  exchange = λ c code. some code;
  user_info = λ url token. some (200, token);
  decode_info = λ body. some (record { sub = []; id = body; email = [] });
  id_token = λ token. none;
  decode_base64 = λ part. none;
  decode_claims = λ json. none;
}

abbrev configuration : List (Text × OauthProvider)
configuration = (codes "google", google) ∷ []

abbrev somebody : Identity
somebody = record { provider = codes "google"; subject = codes "42"; email = [] }

one_name : IsDistinct (names configuration)
unfolding contains
one_name = (refl, tt)

google_user :
    identify client (new_oauth configuration) (codes "google") (codes "42") ≡ identified somebody
unfolding identify resolve identity_from_user_info new_oauth client_config filled_preset preset_of
    first_non_empty lookup text_beq
google_user = refl

identify-identified_example :
    (somebody.provider ≡ codes "google")
    × ((somebody.subject == []) ≡ false)
    × HasClientId configuration (codes "google")
identify-identified_example =
    identify-identified client configuration (codes "google") (codes "42") somebody one_name
      google_user
