-- ===== src/Auth/Oauth/Providers.antt =====
-- Whom a social login of auth/oauth.go can identify, and for which providers.
use go_mathsearch.Base.{
  ℕ, Bool, true, false, List, [], ◌∷◌, Option, none, some, map, ◌==◌, nat_eq, contains, IsDistinct,
  if◌then◌else◌, Bool-cases, ◌≡◌, refl, subst, inl, inr, arith,
}
use go_mathsearch.Base.Text.{Text, text_eq, text_beq, text_beq_iff, lookup}
use go_mathsearch.Config.{OauthProvider}
use go_mathsearch.Auth.Oauth.{
  Identity, ClientConfig, Oauth, first_non_empty, new_oauth, UserInfo, Client, identified,
  not_configured, exchange_failed, user_info_failed, user_info_status, user_info_undecodable,
  no_id_token, id_token_undecodable, missing_subject, split_dots, with_subject,
  identity_from_user_info, identity_of_parts, identity_from_id_token, resolve, identify,
}

abbrev pub names {ℓ} : {A : Type ℓ} → List (Text × A) → List Text
names = map (λ p. p.0)

cfgs_absent :
    (name : Text) (ps : List (Text × OauthProvider))
    → contains name (names ps) ≡ false
    → lookup name (new_oauth ps).cfgs ≡ none
unfolding new_oauth lookup contains
cfgs_absent name [] h = refl
cfgs_absent name ((j, p) ∷ ps) h = ground (arith, cfgs_absent name ps)

-- A provider of the configuration has a client id.
abbrev pub HasClientId : List (Text × OauthProvider) → Text → Type 0
HasClientId ps name =
    (p : OauthProvider) × (lookup name ps ≡ some p) × ((p.client_id == []) ≡ false)

configured-HasClientId :
    (name : Text) (ps : List (Text × OauthProvider)) (c : ClientConfig)
    → IsDistinct (names ps)
    → lookup name (new_oauth ps).cfgs ≡ some c
    → HasClientId ps name
unfolding new_oauth lookup
configured-HasClientId name [] c d h = cc
configured-HasClientId name ((j, p) ∷ ps) c d h = elim (Bool-cases (p.client_id == [])) [
  | inl empty ↦
      let found : lookup name (new_oauth ps).cfgs ≡ some c = rw empty at h in
      elim (Bool-cases (text_beq j name)) [
        | inl same ↦
            let gone =
              cfgs_absent name ps
                (subst (λ k. contains k (names ps) ≡ false) ((text_beq_iff j name).0 same) d.0) in
            cc
        | inr apart ↦ rw apart (configured-HasClientId name ps c d.1 found)
      ]
  | inr full ↦ elim (Bool-cases (text_beq j name)) [
    | inl same ↦ rw same (p, refl, full)
    | inr apart ↦ rw apart (configured-HasClientId name ps c d.1 (rw (full, apart) at h))
  ]
]

module _ (C : Client) where
  -- The identity has this provider and some subject.
  abbrev IsOf : Text → Identity → Type 0
  IsOf name id = (id.provider ≡ name) × ((id.subject == []) ≡ false)

  with_subject-IsOf :
      (name subject email : Text) (id : Identity)
      → with_subject name subject email ≡ identified id
      → IsOf name id
  with_subject-IsOf name subject email id h = elim (Bool-cases (subject == [])) [
    | inl missing ↦ let impossible : missing_subject ≡ identified id = rw missing at h in cc
    | inr there ↦
        let found : identified (record { provider = name; subject = subject; email = email })
            ≡ identified id =
          rw there at h in
        let same : record { provider = name; subject = subject; email = email } ≡ id = cc in
        subst (IsOf name) same (refl, there)
  ]

  user_info-IsOf :
      (name url : Text) (tok : C.Token) (id : Identity)
      → identity_from_user_info C name url tok ≡ identified id
      → IsOf name id
  unfolding identity_from_user_info
  user_info-IsOf name url tok id = answered (C.user_info url tok)
    where
      decoded :
          (o : Option UserInfo)
          → elim o [
            | none ↦ user_info_undecodable
            | some info ↦ with_subject name (first_non_empty info.sub info.id) info.email
          ]
            ≡ identified id
          → IsOf name id
      decoded none h = cc
      decoded (some info) h =
          with_subject-IsOf name (first_non_empty info.sub info.id) info.email id h

      answered :
          (o : Option (ℕ × Text))
          → elim o [
            | none ↦ user_info_failed
            | some (status, body) ↦
                if status == 200
                then (elim (C.decode_info body) [
                  | none ↦ user_info_undecodable
                  | some info ↦ with_subject name (first_non_empty info.sub info.id) info.email
                ])
                else user_info_status status
          ]
            ≡ identified id
          → IsOf name id
      answered none h = cc
      answered (some (status, body)) h = elim (Bool-cases (status == 200)) [
        | inl fine ↦ decoded (C.decode_info body) (rw fine at h)
        | inr other ↦ let impossible : user_info_status status ≡ identified id = rw other at h in cc
      ]

  parts-IsOf :
      (name : Text) (parts : List Text) (id : Identity)
      → identity_of_parts C name parts ≡ identified id
      → IsOf name id
  unfolding identity_of_parts
  parts-IsOf name [] id h = cc
  parts-IsOf name (a ∷ []) id h = cc
  parts-IsOf name (a ∷ b ∷ []) id h = cc
  parts-IsOf name (a ∷ payload ∷ c ∷ []) id h = decoded (C.decode_base64 payload) h
    where
      claimed :
          (o : Option (Text × Text))
          → elim o [ none ↦ id_token_undecodable | some (sub, email) ↦ with_subject name sub email ]
            ≡ identified id
          → IsOf name id
      claimed none k = cc
      claimed (some (sub, email)) k = with_subject-IsOf name sub email id k

      decoded :
          (o : Option Text)
          → elim o [
            | none ↦ id_token_undecodable
            | some json ↦ elim (C.decode_claims json) [
              | none ↦ id_token_undecodable
              | some (sub, email) ↦ with_subject name sub email
            ]
          ]
            ≡ identified id
          → IsOf name id
      decoded none k = cc
      decoded (some json) k = claimed (C.decode_claims json) k
  parts-IsOf name (a ∷ b ∷ c ∷ d ∷ parts) id h = cc

  id_token-IsOf :
      (name : Text) (tok : C.Token) (id : Identity)
      → identity_from_id_token C name tok ≡ identified id
      → IsOf name id
  unfolding identity_from_id_token
  id_token-IsOf name tok id = go (C.id_token tok)
    where
      go :
          (o : Option Text)
          → elim o [
            | none ↦ no_id_token
            | some raw ↦
                if raw == [] then no_id_token else identity_of_parts C name (split_dots raw)
          ]
            ≡ identified id
          → IsOf name id
      go none h = cc
      go (some raw) h = elim (Bool-cases (raw == [])) [
        | inl empty ↦ let impossible : no_id_token ≡ identified id = rw empty at h in cc
        | inr full ↦ parts-IsOf name (split_dots raw) id (rw full at h)
      ]

  token-IsOf :
      (b : Bool) (name url : Text) (tok : C.Token) (id : Identity)
      → (if b then identity_from_id_token C name tok else identity_from_user_info C name url tok)
        ≡ identified id
      → IsOf name id
  token-IsOf true name url tok id h = id_token-IsOf name tok id h
  token-IsOf false name url tok id h = user_info-IsOf name url tok id h

  resolve-IsOf :
      (o : Oauth) (name : Text) (tok : C.Token) (id : Identity)
      → resolve C o name tok ≡ identified id
      → IsOf name id
  unfolding resolve
  resolve-IsOf o name tok id h = token-IsOf _ name _ tok id h

  -- A social login identifies only users of a provider that the configuration gives a client id, under the
  -- name of that provider and with a subject that is not empty.
  pub identify-identified :
      (ps : List (Text × OauthProvider)) (name code : Text) (id : Identity)
      → IsDistinct (names ps)
      → identify C (new_oauth ps) name code ≡ identified id
      → (id.provider ≡ name) × ((id.subject == []) ≡ false) × HasClientId ps name
  unfolding identify
  identify-identified ps name code id d h = go (lookup name (new_oauth ps).cfgs) refl h
    where
      exchanged :
          (o : Option C.Token)
          → elim o [ none ↦ exchange_failed | some tok ↦ resolve C (new_oauth ps) name tok ]
            ≡ identified id
          → IsOf name id
      exchanged none k = cc
      exchanged (some tok) k = resolve-IsOf (new_oauth ps) name tok id k

      go :
          (o : Option ClientConfig)
          → lookup name (new_oauth ps).cfgs ≡ o
          → elim o [
            | none ↦ not_configured
            | some c ↦ elim (C.exchange c code) [
              | none ↦ exchange_failed
              | some tok ↦ resolve C (new_oauth ps) name tok
            ]
          ]
            ≡ identified id
          → (id.provider ≡ name) × ((id.subject == []) ≡ false) × HasClientId ps name
      go none is k = cc
      go (some c) is k =
          let right = exchanged (C.exchange c code) k in
          (right.0, right.1, configured-HasClientId name ps c d is)
