-- ===== src/Auth.antt =====
-- auth/db.go and auth/digest.go: the table of users and the digest of a request. The hash, MD5 in hexadecimal, is a
-- parameter. `none` is a panic.
use dorsvr.Common.{
  Bool, true, false, ◌==◌, ◌&&◌, ◌||◌, [], ◌∷◌, ◌++◌, Option, none, some, if◌then◌else◌,
}
use dorsvr.Common.Text.{Text, codes, is_empty, put}

pub record Digest : Type 0 where
  pub realm : Text
  pub nonce : Text
  pub username : Text
  pub password : Text

unfoldable pub new_digest : Digest
new_digest = record { realm = []; nonce = []; username = []; password = [] }

pub record AuthorizationHeader : Type 0 where
  pub uri : Text
  pub realm : Text
  pub nonce : Text
  pub username : Text
  pub response : Text

-- No records are a nil map: it can be read, and a write to it panics.
pub record Database : Type 0 where
  pub realm : Text
  pub records : Option (Text → Option Text)

unfoldable pub new_auth_database : Text → Database
new_auth_database realm = record {
  realm = (if is_empty realm then codes "dorsvr streaming server" else realm);
  records = none;
}

abbrev pub password_of : Option (Text → Option Text) → Text → Option Text
password_of none username = none
password_of (some records) username = records username

abbrev pub or_empty : Option Text → Text
or_empty none = []
or_empty (some t) = t

unfoldable pub lookup_password : Database → Text → Text
lookup_password d username = or_empty (password_of d.records username)

abbrev pub write_record : Database → Option (Text → Option Text) → Text → Text → Option Database
write_record d none username password = none
write_record d (some records) username password =
    some (record d { records = some (put records username (some password)) })

unfoldable pub insert_user_record : Database → Text → Text → Option Database
insert_user_record d username password =
    if is_empty username || is_empty password
    then some d
    else elim (password_of d.records username) [
      | none ↦ write_record d d.records username password
      | some _ ↦ some d
    ]

abbrev pub delete_record : Option (Text → Option Text) → Text → Option (Text → Option Text)
delete_record none username = none
delete_record (some records) username = some (put records username none)

unfoldable pub remove_user_record : Database → Text → Database
remove_user_record d username = elim (password_of d.records username) [
  | none ↦ d
  | some _ ↦ record d { records = delete_record d.records username }
]

abbrev pub colon : Text → Text → Text
colon s t = s ++ (codes ":" ++ t)

unfoldable pub compute_response : (Text → Text) → Digest → Text → Text → Text
compute_response md5 d cmd url = md5 (
    colon (md5 (colon d.username (colon d.realm d.password))) (colon d.nonce (md5 (colon cmd url))))

abbrev pub starts_with : Text → Text → Bool
starts_with [] s = true
starts_with (c ∷ cs) [] = false
starts_with (c ∷ cs) (x ∷ xs) = x == c && starts_with cs xs

-- Whether `strings.Index` finds the text.
abbrev pub has_text : Text → Text → Bool
has_text t [] = starts_with t []
has_text t (x ∷ xs) = starts_with t (x ∷ xs) || has_text t xs

-- `fmt.Sscanf` knows no verb `%[`: both its calls of the first round store nothing and return 0, and the loop ends there.
unfoldable pub parse_authorization_header : Text → Option AuthorizationHeader
parse_authorization_header buf =
    if is_empty buf
    then none
    else if has_text (codes "Authorization: Digest ") buf
    then some (record { uri = []; realm = []; nonce = []; username = []; response = [] })
    else none
