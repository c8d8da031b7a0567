-- ===== src/RtspServer/Access.antt =====
-- Who may see a description: the digest of a request, against the table of users.
use dorsvr.Common.{
  ℕ, ◌≡◌, ◌↔◌, refl, sym, ap, ◌∙◌, Bool, true, false, Bool-cases, inl, inr, [], Option, none, some,
}
use dorsvr.Common.Text.{Text, codes, text_eq→eq, text_eq_refl, is_empty, store_self}
use dorsvr.Auth.{
  Digest, Database, AuthorizationHeader, lookup_password, compute_response, new_auth_database,
  parse_authorization_header, has_text,
}
use dorsvr.RtspServer.{Server, World, Request, ClientConnection, unauthorized}
use dorsvr.RtspServer.Media.{set_response}
use dorsvr.RtspServer.Connection.{
  try_header, try_digest, challenge, end_authentication, authenticate, authentication_ok,
}

-- The header of a request that answers the digest's challenge for the user that it names.
pub record Answers (md5 : Text → Text) (d : Digest) (database : Database) (cmd_name : Text)
    (header : AuthorizationHeader) : Type 0 where
  pub challenged : is_empty d.nonce ≡ false
  pub known : is_empty (lookup_password database header.username) ≡ false
  pub response_eq :
      header.response
      ≡ compute_response md5
          (record d {
            password = lookup_password database header.username;
            username = header.username;
          })
          cmd_name
          header.uri

absurd_false : {A : Type 0} → false ≡ true → A
absurd_false e = cc

module _ (md5 : Text → Text) (d : Digest) (database : Database) (cmd_name : Text) where
  try_digest-Answers :
      (header : AuthorizationHeader)
      → (try_digest md5 d database cmd_name (some header)).1 ≡ true
      → Answers md5 d database cmd_name header
  unfolding try_digest try_header
  try_digest-Answers header h = elim (Bool-cases (is_empty d.nonce)) [
    | inl no_nonce ↦ absurd_false (rw no_nonce at h)
    | inr challenged ↦ elim (Bool-cases (is_empty (lookup_password database header.username))) [
      | inl unknown ↦ absurd_false (rw (challenged, unknown) at h)
      | inr known ↦ record {
        challenged = challenged;
        known = known;
        response_eq = sym (text_eq→eq _ header.response (rw (challenged, known) at h));
      }
    ]
  ]

  try_none : (try_digest md5 d database cmd_name none).1 ≡ true → false ≡ true
  unfolding try_digest
  try_none h = h

  Answers-try_digest :
      (header : AuthorizationHeader)
      → Answers md5 d database cmd_name header
      → (try_digest md5 d database cmd_name (some header)).1 ≡ true
  unfolding try_digest try_header
  Answers-try_digest header a = rw (a.challenged, a.known, a.response_eq, text_eq_refl) refl

end_authentication-eq :
    (md5 : Text → Text) (w : World) (s : Server) (c : ℕ) (database : Database)
    (tried : Digest × Bool)
    → (end_authentication md5 w s c database tried).1 ≡ tried.1
unfolding end_authentication
end_authentication-eq md5 w s c database (d, true) = refl
end_authentication-eq md5 w s c database (d, false) = refl

tried-Answers :
    (md5 : Text → Text) (d : Digest) (database : Database) (cmd_name : Text)
    (o : Option AuthorizationHeader)
    → (try_digest md5 d database cmd_name o).1 ≡ true
    → (header : AuthorizationHeader) × (o ≡ some header) × Answers md5 d database cmd_name header
tried-Answers md5 d database cmd_name (some header) h =
    (header, refl, try_digest-Answers md5 d database cmd_name header h)
tried-Answers md5 d database cmd_name none h = absurd_false (try_none md5 d database cmd_name h)

-- With a table of users, a request is let in exactly when the header that is read answers the connection's challenge.
authentication_ok-Answers :
    (md5 : Text → Text) (w : World) (s : Server) (c : ℕ) (cmd_name : Text) (r : Request)
    (database : Database)
    → s.auth_database ≡ some database
    → ((authentication_ok md5 w s c cmd_name r).1 ≡ true) ↔ (
        (header : AuthorizationHeader) × (parse_authorization_header r.full_request_str
          ≡ some header)
        × Answers md5 (s.connections c).digest database cmd_name header)
unfolding authentication_ok authenticate
authentication_ok-Answers md5 w s c cmd_name r database e =
    rw
      (ap (λ o. (authenticate md5 w s c cmd_name r o).1) e
        ∙ end_authentication-eq md5 w s c database _)
      (
        tried-Answers md5 (s.connections c).digest database cmd_name
            (parse_authorization_header r.full_request_str),
        λ (header, has, a).
            rw has (Answers-try_digest md5 (s.connections c).digest database cmd_name header a),
      )

-- No field of a header is ever read.
header_is_empty :
    (buf : Text) (header : AuthorizationHeader)
    → parse_authorization_header buf ≡ some header
    → header.response ≡ []
unfolding parse_authorization_header
header_is_empty buf header e = elim (Bool-cases (is_empty buf)) [
  | inl empty ↦ absurd_none (rw empty at e)
  | inr full ↦ elim (Bool-cases (has_text (codes "Authorization: Digest ") buf)) [
    | inl has ↦ sym (ap (λ h. response_of h) (rw (full, has) at e))
    | inr lacks ↦ absurd_none (rw (full, lacks) at e)
  ]
]
  where
    absurd_none : {A : Type 0} → none ≡ some header → A
    absurd_none e = cc

    response_of : Option AuthorizationHeader → Text
    response_of none = []
    response_of (some h) = h.response

-- No digest is the empty text.
abbrev pub NeverEmpty : (Text → Text) → Type 0
NeverEmpty md5 = (t : Text) → is_empty (md5 t) ≡ false

Answers-absurd :
    (md5 : Text → Text) (d : Digest) (database : Database) (cmd_name : Text)
    (header : AuthorizationHeader)
    → NeverEmpty md5
    → header.response ≡ []
    → Answers md5 d database cmd_name header
    → ⊥
unfolding compute_response
Answers-absurd md5 d database cmd_name header never empty a =
    absurd_false (sym (never _) ∙ ap is_empty (sym a.response_eq ∙ empty))

refused-challenge :
    (md5 : Text → Text) (w : World) (s : Server) (c : ℕ) (database : Database)
    (tried : Digest × Bool)
    → tried.1 ≡ false
    → (((end_authentication md5 w s c database tried).0.connections c).response_buffer
        ≡ some (unauthorized (s.connections c).current_cseq database.realm w.nonce))
      × (((end_authentication md5 w s c database tried).0.connections c).digest.nonce ≡ w.nonce)
unfolding end_authentication challenge set_response
refused-challenge md5 w s c database (d, true) e = absurd_false (sym e)
refused-challenge md5 w s c database (d, false) e = (
  ap (λ (k : ClientConnection). k.response_buffer) (store_self _ c _),
  ap (λ (k : ClientConnection). k.digest.nonce) (store_self _ c _)
      ∙ ap (λ (k : ClientConnection). k.digest.nonce) (store_self s.connections c _),
)

-- No user of any table can log in: where no digest is the empty text, a server with a table of users refuses every
-- request, whatever its text is, answers it by "401 Unauthorized" with the table's realm and the fresh nonce, and keeps
-- the nonce for the connection.
pub authentication_ok-refuses :
    (md5 : Text → Text) (w : World) (s : Server) (c : ℕ) (cmd_name : Text) (r : Request)
    (database : Database)
    → NeverEmpty md5
    → s.auth_database ≡ some database
    → ((authentication_ok md5 w s c cmd_name r).1 ≡ false)
      × (((authentication_ok md5 w s c cmd_name r).0.connections c).response_buffer
          ≡ some (unauthorized (s.connections c).current_cseq database.realm w.nonce))
      × (((authentication_ok md5 w s c cmd_name r).0.connections c).digest.nonce ≡ w.nonce)
unfolding authentication_ok authenticate
authentication_ok-refuses md5 w s c cmd_name r database never e =
    let (answer, nonce) = refused-challenge md5 w s c database _ refused in
    rw (ap (λ o. authenticate md5 w s c cmd_name r o) e)
      (end_authentication-eq md5 w s c database _ ∙ refused, answer, nonce)
  where
    refused :
        (try_digest md5
          (s.connections c).digest
          database
          cmd_name
          (parse_authorization_header r.full_request_str)).1
        ≡ false
    refused = elim (Bool-cases _) [
      | inl accepted ↦
          let (header, has, a) =
            tried-Answers md5 (s.connections c).digest database cmd_name
              (parse_authorization_header r.full_request_str) accepted in
          absurd (
            Answers-absurd md5 (s.connections c).digest database cmd_name header never
              (header_is_empty r.full_request_str header has) a)
      | inr denied ↦ denied
    ]

no_user :
    (realm username : Text) → is_empty (lookup_password (new_auth_database realm) username) ≡ true
unfolding lookup_password new_auth_database
no_user realm username = refl

-- A table as it is created has no records, and lets no request in.
pub new_auth_database-refuses :
    (md5 : Text → Text) (w : World) (s : Server) (c : ℕ) (cmd_name : Text) (r : Request)
    (realm : Text)
    → s.auth_database ≡ some (new_auth_database realm)
    → (authentication_ok md5 w s c cmd_name r).1 ≡ false
new_auth_database-refuses md5 w s c cmd_name r realm e =
    elim (Bool-cases (authentication_ok md5 w s c cmd_name r).1) [
      | inl accepted ↦
          let (header, has, a) =
            (authentication_ok-Answers md5 w s c cmd_name r (new_auth_database realm) e).0
              accepted in
          absurd_false (sym a.known ∙ no_user realm header.username)
      | inr refused ↦ refused
    ]
