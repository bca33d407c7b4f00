-- ===== src/HttpApi/Sessions/Accepted.antt =====
-- internal/httpapi/auth.go: which tokens are accepted.
use gomeshcom_client.Prelude.{
  ℕ, List, ◌≤◌, ◌≡◌, refl, subst, sym, true, [], ◌∷◌, Option, none, some, arith, if◌then◌else◌, ltb,
  Bool-cases, Option-cases, inl, inr,
}
use gomeshcom_client.Text.{Text, text_eq}
use gomeshcom_client.Text.Search.{text_eq_refl, text_eq_iff}
use gomeshcom_client.Map.{Map, lookup, insert, lookup-insert, IsUnique, insert-IsUnique}
use gomeshcom_client.HttpApi.Sessions.{
  SessionStore, Moment, AuthConfig, with_cookie, credentials, Scan, scanned, load_scans,
  load_sqlite, new_sqlite_session_store, persist, create, expire, valid, log_in, create_session,
}

-- What is found in rows that are loaded at a moment.
abbrev still : ℕ → Option ℕ → Option ℕ
still now none = none
still now (some expires_at) = if ltb now expires_at then some expires_at else none

abbrev or_else : Option ℕ → Option ℕ → Option ℕ
or_else none b = b
or_else (some a) b = some a

-- What the query gives where every row is read.
abbrev pub scans_of : Map ℕ → List Scan
scans_of [] = []
scans_of ((hash, expires_at) ∷ rows) = scanned hash expires_at ∷ scans_of rows

-- A server that is started on a table, where every row is read.
abbrev pub restarted : ℕ → Map ℕ → SessionStore
restarted start rows = new_sqlite_session_store start (some (scans_of rows)) rows

load_scans-lookup :
    (now : ℕ) (rows m : Map ℕ) (k : Text)
    → IsUnique rows
    → lookup k (load_scans now (scans_of rows) m) ≡ or_else (still now (lookup k rows)) (lookup k m)
unfolding load_scans lookup
load_scans-lookup now [] m k u = refl
load_scans-lookup now ((j, e) ∷ rows) m k (a, u) = ground (
  arith,
  load_scans-lookup now rows (if ltb now e then insert j e m else m) k u,
  lookup-insert j k e m,
  text_eq_iff j k,
)

module _ (hash_token : Text → Text) where
  valid-at :
      (later : Moment) (c : ℕ) (token : Text) (e : ℕ) (s : SessionStore)
      → lookup (hash_token (c ∷ token)) s.sessions ≡ some e
      → (valid hash_token later (c ∷ token) s).1 ≡ ltb later.now e
  unfolding valid expire text_eq
  valid-at later c token e s h = ground (arith, h)

  unaccepted :
      (later : Moment) (c : ℕ) (token : Text) (s : SessionStore) (e : ℕ)
      → lookup (hash_token (c ∷ token)) s.sessions ≡ none
      → e ≤ later.now
      → (valid hash_token later (c ∷ token) s).1 ≡ ltb later.now e
  unfolding valid text_eq
  unaccepted later c token s e h l = ground (arith, h)

  -- A token that createSession has handed out is accepted until its time has come and no longer,
  -- where no other request has come in between.
  pub create-valid :
      (at later : Moment) (ttl : ℕ) (raw : Option Text) (s : SessionStore) (c : ℕ) (token : Text)
      (e : ℕ)
      → (create hash_token at ttl raw s).1 ≡ some (c ∷ token, e)
      → (valid hash_token later (c ∷ token) (create hash_token at ttl raw s).0).1 ≡ ltb later.now e
  unfolding create persist
  create-valid at later ttl raw s c token e h =
      valid-at later c token e (create hash_token at ttl raw s).0 (
        ground (
          arith,
          lookup-insert (hash_token (c ∷ token)) (hash_token (c ∷ token)) e s.sessions,
          text_eq_refl (hash_token (c ∷ token)),
          Option-cases raw,
          Option-cases s.table,
        ))

  -- It is accepted so by a server that is started on the table that createSession has left and that
  -- reads every row of it, too.
  pub create-restart :
      (at later : Moment) (start ttl : ℕ) (raw : Option Text) (s : SessionStore) (rows : Map ℕ)
      (c : ℕ) (token : Text) (e : ℕ)
      → IsUnique s.sessions
      → at.commits ≡ true
      → (create hash_token at ttl raw s).1 ≡ some (c ∷ token, e)
      → (create hash_token at ttl raw s).0.table ≡ some rows
      → start ≤ later.now
      → (valid hash_token later (c ∷ token) (restarted start rows)).1 ≡ ltb later.now e
  unfolding create persist new_sqlite_session_store load_sqlite
  create-restart at later start ttl raw s rows c token e u w h t l =
      let hash = hash_token (c ∷ token) in
      let stored : rows ≡ insert hash e s.sessions =
        ground (arith, Option-cases raw, Option-cases s.table) in
      let found : lookup hash rows ≡ some e =
        ground (arith, stored, lookup-insert hash hash e s.sessions, text_eq_refl hash) in
      let loaded =
        load_scans-lookup start rows [] hash
          (subst IsUnique (sym stored) (insert-IsUnique hash e s.sessions u)) in
      elim (Bool-cases (ltb start e)) [
        | inl b ↦ valid-at later c token e (restarted start rows) (ground (arith, loaded, found))
        | inr b ↦
            unaccepted later c token (restarted start rows) e
              (unfold lookup in ground (arith, loaded, found)) (ground arith)
      ]

  -- A session is created only for the user name and the password of the configuration.
  pub create_session-credentials :
      (config : AuthConfig) (at : Moment) (raw : Option Text) (username password token : Text)
      (e : ℕ) (s : SessionStore)
      → (create_session hash_token config at raw (credentials username password) s).1
        ≡ with_cookie token e
      → (username ≡ config.username) × (password ≡ config.password)
  unfolding create_session log_in
  create_session-credentials config at raw username password token e s h =
      ground (arith, text_eq_iff username config.username, text_eq_iff password config.password)
