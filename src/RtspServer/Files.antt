-- ===== src/RtspServer/Files.antt =====
-- The table of media sessions against the files that are there.
use dorsvr.Common.{
  ℕ, ◌≡◌, refl, ap, subst, ◌∙◌, Bool, true, false, Bool-cases, inl, inr, Option, none, some, arith,
}
use dorsvr.Common.Text.{Text, put, put_self}
use dorsvr.RtspServer.{MediaSession, Server, World, Result, ok}
use dorsvr.RtspServer.Media.{
  sms_of_extension, create_new_sms, add_server_media_session, remove_server_media_session,
  add_created, lookup_entry, lookup_server_media_session,
}
use dorsvr.RtspServer.Answers.{Allows}

abbrev pub is_some : Option ℕ → Bool
is_some none = false
is_some (some m) = true

-- The table has what was found, and something was found if the file is there.
abbrev pub Looked : World → Text → Server × Option ℕ → Type 0
Looked w name (t, o) = (t.server_media_sessions name ≡ o) × (w.file_exists name ≡ is_some o)

sms_of_extension-stream_name :
    (name : Text) (extension : Option Text) (sms : MediaSession)
    → sms_of_extension name extension ≡ some sms
    → sms.stream_name ≡ name
unfolding sms_of_extension
sms_of_extension-stream_name name none sms e = cc
sms_of_extension-stream_name name (some extension) sms e = ground arith

add_created-Looked :
    (w : World) (s : Server) (name : Text) (o : Option MediaSession)
    → w.file_exists name ≡ true
    → create_new_sms name ≡ o
    → Allows (Looked w name) (add_created s o)
unfolding add_created add_server_media_session create_new_sms
add_created-Looked w s name none there e = tt
add_created-Looked w s name (some sms) there e = (
  ap (λ k. put s.server_media_sessions k (some s.next_media) name)
        (sms_of_extension-stream_name name _ sms e)
      ∙ put_self s.server_media_sessions name (some s.next_media),
  there,
)

lookup_entry-Looked :
    (w : World) (s : Server) (name : Text) (o : Option ℕ)
    → s.server_media_sessions name ≡ o
    → Allows (Looked w name) (lookup_entry w s name o)
unfolding lookup_entry remove_server_media_session
lookup_entry-Looked w s name (some m) e = elim (Bool-cases (w.file_exists name)) [
  | inl there ↦ rw there (e, there)
  | inr gone ↦ rw gone (put_self s.server_media_sessions name none, gone)
]
lookup_entry-Looked w s name none e = elim (Bool-cases (w.file_exists name)) [
  | inl there ↦ rw there (add_created-Looked w s name _ there refl)
  | inr gone ↦ rw gone (e, gone)
]

as_found :
    (w : World) (name : Text) (m : Result (Server × Option ℕ)) {t : Server} {o : Option ℕ}
    → Allows (Looked w name) m
    → m ≡ ok (t, o)
    → Looked w name (t, o)
as_found w name m h e = subst (Allows (Looked w name)) e h

-- A lookup that comes back has found a media session exactly when the file is there, and then the table has it under the
-- name that was asked for; when the file is gone, the table has none.
pub lookup_server_media_session-table :
    (w : World) (s t : Server) (name : Text) (found : Option ℕ)
    → lookup_server_media_session w s name ≡ ok (t, found)
    → (t.server_media_sessions name ≡ found) × (w.file_exists name ≡ is_some found)
unfolding lookup_server_media_session
lookup_server_media_session-table w s t name found e =
    as_found w name (lookup_entry w s name (s.server_media_sessions name))
      (lookup_entry-Looked w s name _ refl) e
