-- ===== src/Auth/Oauth.antt =====
-- auth/oauth.go: the providers of social logins, and whom a login with one identifies. The libraries are
-- parameters: the code exchange and the authorization URL of `golang.org/x/oauth2`, the call of the user
-- info endpoint, and the decoders of JSON and base64. A Go map is a list of its entries, its keys unique.
pub mod Providers
use go_mathsearch.Base.{
  ℕ, Bool, true, false, List, [], ◌∷◌, ◌++◌, Option, none, some, map, ◌==◌, nat_eq, if◌then◌else◌,
}
use go_mathsearch.Base.Sorting.{sort}
use go_mathsearch.Base.Text.{Text, codes, text_eq, lookup}
use go_mathsearch.Config.{OauthProvider}

pub record Identity : Type 0 where
  pub provider : Text
  pub subject : Text
  pub email : Text

pub record ProviderPreset : Type 0 where
  pub auth_url : Text
  pub token_url : Text
  pub user_info_url : Text
  pub use_id_token : Bool
  pub scopes : List Text

abbrev pub presets : List (Text × ProviderPreset)
presets =
    (
      codes "google",
      record {
        auth_url = codes "https://accounts.google.com/o/oauth2/auth";
        token_url = codes "https://oauth2.googleapis.com/token";
        user_info_url = codes "https://www.googleapis.com/oauth2/v3/userinfo";
        use_id_token = false;
        scopes = codes "openid" ∷ codes "email" ∷ codes "profile" ∷ [];
      },
    )
    ∷ (
      codes "facebook",
      record {
        auth_url = codes "https://www.facebook.com/v18.0/dialog/oauth";
        token_url = codes "https://graph.facebook.com/v18.0/oauth/access_token";
        user_info_url = codes "https://graph.facebook.com/me?fields=id,name,email";
        use_id_token = false;
        scopes = codes "email" ∷ [];
      },
    )
    ∷ (
      codes "apple",
      record {
        auth_url = codes "https://appleid.apple.com/auth/authorize";
        token_url = codes "https://appleid.apple.com/auth/token";
        user_info_url = [];
        use_id_token = true;
        scopes = codes "name" ∷ codes "email" ∷ [];
      },
    )
    ∷ []

-- The zero value.
abbrev pub no_preset : ProviderPreset
no_preset = record {
  auth_url = [];
  token_url = [];
  user_info_url = [];
  use_id_token = false;
  scopes = [];
}

unfoldable pub preset_of : Text → ProviderPreset
preset_of name = elim (lookup name presets) [ some pre ↦ pre | none ↦ no_preset ]

-- The fields of an `oauth2.Config`.
pub record ClientConfig : Type 0 where
  pub client_id : Text
  pub client_secret : Text
  pub redirect_url : Text
  pub scopes : List Text
  pub auth_url : Text
  pub token_url : Text

-- `OAuth`, less its HTTP client.
pub record Oauth : Type 0 where
  pub cfgs : List (Text × ClientConfig)
  pub preset : List (Text × ProviderPreset)

-- `firstNonEmpty`
unfoldable pub first_non_empty : Text → Text → Text
first_non_empty a b = if a == [] then b else a

-- What the loop of `NewOAuth` enters for a provider.
unfoldable pub client_config : Text → OauthProvider → ClientConfig
unfolding preset_of first_non_empty
client_config name p =
    let pre = preset_of name in
    record {
      client_id = p.client_id;
      client_secret = p.client_secret;
      redirect_url = p.redirect_url;
      scopes = elim p.scopes [ [] ↦ pre.scopes | s ∷ ss ↦ s ∷ ss ];
      auth_url = first_non_empty p.auth_url pre.auth_url;
      token_url = first_non_empty p.token_url pre.token_url;
    }

unfoldable pub filled_preset : Text → OauthProvider → ProviderPreset
unfolding preset_of first_non_empty
filled_preset name p =
    let pre = preset_of name in
    record pre { user_info_url = first_non_empty p.user_info_url pre.user_info_url }

-- `NewOAuth`: a provider without a client id is left out.
unfoldable pub new_oauth : List (Text × OauthProvider) → Oauth
unfolding client_config filled_preset
new_oauth [] = record { cfgs = []; preset = [] }
new_oauth ((name, p) ∷ providers) =
    let rest = new_oauth providers in
    if p.client_id == [] then rest else record {
      cfgs = (name, client_config name p) ∷ rest.cfgs;
      preset = (name, filled_preset name p) ∷ rest.preset;
    }

-- `Providers`
unfoldable pub providers : Oauth → List Text
providers o = sort (map (λ (e : Text × ClientConfig). e.0) o.cfgs)

-- `Configured`
unfoldable pub configured : Oauth → Text → Bool
configured o name = elim (lookup name o.cfgs) [ some c ↦ true | none ↦ false ]

-- The fields of the user info's JSON.
pub record UserInfo : Type 0 where
  pub sub : Text
  pub id : Text
  pub email : Text

-- The libraries; `none` is an error. `user_info` returns the status and the body as far as it is read,
-- `id_token` the extra field if it is a string, and `decode_claims` the subject and the email.
pub record Client : Type 1 where
  pub Token : Type 0
  pub auth_code_url : ClientConfig → Text → Text
  pub exchange : ClientConfig → Text → Option Token
  pub user_info : Text → Token → Option (ℕ × Text)
  pub decode_info : Text → Option UserInfo
  pub id_token : Token → Option Text
  pub decode_base64 : Text → Option Text
  pub decode_claims : Text → Option (Text × Text)

pub data Identified : Type 0 where
  identified : Identity → Identified
  not_configured : Identified
  exchange_failed : Identified
  user_info_failed : Identified
  user_info_status : ℕ → Identified
  user_info_undecodable : Identified
  no_id_token : Identified
  malformed_id_token : Identified
  id_token_undecodable : Identified
  missing_subject : Identified

-- `strings.Split(raw, ".")`
unfoldable pub split_dots : Text → List Text
split_dots [] = [] ∷ []
split_dots (c ∷ s) = elim (split_dots s) [
  | [] ↦ (c ∷ []) ∷ []
  | part ∷ parts ↦ if c == b'.' then [] ∷ part ∷ parts else (c ∷ part) ∷ parts
]

-- The last test of both ways, and the identity.
abbrev pub with_subject : Text → Text → Text → Identified
with_subject name subject email =
    if subject == []
    then missing_subject
    else identified (record { provider = name; subject = subject; email = email })

module _ (C : Client) where
  -- `AuthCodeURL`
  unfoldable pub auth_code_url : Oauth → Text → Text → Option Text
  auth_code_url o name state = elim (lookup name o.cfgs) [
    | none ↦ none
    | some c ↦ some (C.auth_code_url c state)
  ]

  -- `identityFromUserInfo`
  unfoldable pub identity_from_user_info : Text → Text → C.Token → Identified
  unfolding first_non_empty
  identity_from_user_info name url tok = elim (C.user_info url tok) [
    | none ↦ user_info_failed
    | some (status, body) ↦
        if status == 200
        then (elim (C.decode_info body) [
          | none ↦ user_info_undecodable
          | some info ↦ with_subject name (first_non_empty info.sub info.id) info.email
        ])
        else user_info_status status
  ]

  -- The payload of an id token with three parts.
  unfoldable pub identity_of_parts : Text → List Text → Identified
  identity_of_parts name (header ∷ payload ∷ signature ∷ []) = elim (C.decode_base64 payload) [
    | none ↦ id_token_undecodable
    | some json ↦ elim (C.decode_claims json) [
      | none ↦ id_token_undecodable
      | some (sub, email) ↦ with_subject name sub email
    ]
  ]
  identity_of_parts name _ = malformed_id_token

  -- `identityFromIDToken`
  unfoldable pub identity_from_id_token : Text → C.Token → Identified
  unfolding split_dots identity_of_parts
  identity_from_id_token name tok = elim (C.id_token tok) [
    | none ↦ no_id_token
    | some raw ↦ if raw == [] then no_id_token else identity_of_parts name (split_dots raw)
  ]

  -- `o.preset[name]`, and the identity of a token.
  unfoldable pub resolve : Oauth → Text → C.Token → Identified
  unfolding identity_from_user_info identity_from_id_token
  resolve o name tok =
      let pre : ProviderPreset = elim (lookup name o.preset) [ some p ↦ p | none ↦ no_preset ] in
      if pre.use_id_token
      then identity_from_id_token name tok
      else identity_from_user_info name pre.user_info_url tok

  -- `Identify`
  unfoldable pub identify : Oauth → Text → Text → Identified
  unfolding resolve
  identify o name code = elim (lookup name o.cfgs) [
    | none ↦ not_configured
    | some c ↦ elim (C.exchange c code) [ none ↦ exchange_failed | some tok ↦ resolve o name tok ]
  ]
