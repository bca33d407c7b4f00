-- ===== src/HttpApi/Sessions.antt =====
-- internal/httpapi/auth.go: sessions. Times are nanoseconds.
pub mod Accepted
use gomeshcom_client.Prelude.{
  ℕ, ◌+◌, Bool, true, false, not, ◌&&◌, ◌||◌, List, [], ◌∷◌, Option, none, some, if◌then◌else◌, ltb,
}
use gomeshcom_client.Text.{Text, text_eq}
use gomeshcom_client.Map.{Map, lookup, insert, delete}
use gomeshcom_client.Netconsole.Auth.{hex_encode}

-- `table` is http_sessions; `none` is a store without a database.
pub record SessionStore : Type 0 where
  pub sessions : Map ℕ
  pub table : Option (Map ℕ)

-- A moment: what the clock says, and whether a transaction that is tried then commits.
pub record Moment : Type 0 where
  pub now : ℕ
  pub commits : Bool

-- What a turn of the loop of `loadSQLite` reads: the hash and the time, a time that cannot be parsed, or
-- an error of the scan.
pub data Scan : Type 0 where
  scanned : Text → ℕ → Scan
  unparsable failed : Scan

-- The loop of `loadSQLite`.
unfoldable pub load_scans : ℕ → List Scan → Map ℕ → Map ℕ
load_scans now [] m = m
load_scans now (scanned hash expires_at ∷ scans) m =
    load_scans now scans (if ltb now expires_at then insert hash expires_at m else m)
load_scans now (unparsable ∷ scans) m = load_scans now scans m
load_scans now (failed ∷ scans) m = m

-- `loadSQLite` on a new store; `none` is an error of the query.
unfoldable pub load_sqlite : ℕ → Option (List Scan) → Map ℕ
load_sqlite now none = []
load_sqlite now (some scans) = load_scans now scans []

-- `newSQLiteSessionStore` on a table and what its query gives.
unfoldable pub new_sqlite_session_store : ℕ → Option (List Scan) → Map ℕ → SessionStore
new_sqlite_session_store now query rows = record {
  sessions = load_sqlite now query;
  table = some rows;
}

-- `persistLocked`: the store and whether there is no error.
unfoldable pub persist : Moment → SessionStore → SessionStore × Bool
persist at s = elim (s.table) [
  | none ↦ (s, true)
  | some rows ↦ if at.commits then (record s { table = some s.sessions }, true) else (s, false)
]

-- The configuration of authentication.
pub record AuthConfig : Type 0 where
  pub username : Text
  pub password : Text
  pub session_ttl : ℕ

unfoldable pub auth_enabled : AuthConfig → Bool
auth_enabled c = not (text_eq c.username []) && not (text_eq c.password [])

-- What `createSession` answers.
pub data Answer : Type 0 where
  no_content bad_request unauthorized internal_error : Answer
  with_cookie : Text → ℕ → Answer

-- A request that can be read as credentials, or not.
pub data Credentials : Type 0 where
  credentials : Text → Text → Credentials
  unreadable : Credentials

-- `hash_token` is SHA-256 in hexadecimal digits.
module _ (hash_token : Text → Text) where
  -- `create`, where `raw` is what `rand.Read` returns: the token and its end.
  unfoldable pub create : Moment → ℕ → Option Text → SessionStore → SessionStore × Option (Text × ℕ)
  create at ttl none s = (s, none)
  create at ttl (some raw) s =
      let token = hex_encode raw in
      let hash = hash_token token in
      let (stored, written) =
        persist at (record s { sessions = insert hash (at.now + ttl) s.sessions }) in
      if written
      then (stored, some (token, at.now + ttl))
      else (record stored { sessions = delete hash stored.sessions }, none)

  unfoldable pub expire : Moment → Text → ℕ → SessionStore → SessionStore × Bool
  expire at hash expires_at s =
      if ltb at.now expires_at
      then (s, true)
      else ((persist at (record s { sessions = delete hash s.sessions })).0, false)

  unfoldable pub valid : Moment → Text → SessionStore → SessionStore × Bool
  valid at token s =
      if text_eq token [] then (s, false) else elim (lookup (hash_token token) s.sessions) [
        | none ↦ (s, false)
        | some expires_at ↦ expire at (hash_token token) expires_at s
      ]

  -- `delete`: the store and whether there is no error.
  unfoldable pub remove : Moment → Text → SessionStore → SessionStore × Bool
  remove at token s =
      if text_eq token [] then (s, true) else elim (lookup (hash_token token) s.sessions) [
        | none ↦ (s, true)
        | some expires_at ↦
            let hash = hash_token token in
            let (stored, written) = persist at (record s { sessions = delete hash s.sessions }) in
            if written
            then (stored, true)
            else (record stored { sessions = insert hash expires_at stored.sessions }, false)
      ]

  -- `authenticated`; the second argument is the cookie of the request.
  unfoldable pub authenticated :
      AuthConfig → Option Text → Moment → SessionStore → SessionStore × Bool
  authenticated c cookie at s =
      if not (auth_enabled c)
      then (s, true)
      else elim cookie [ none ↦ (s, false) | some token ↦ valid at token s ]

  -- `createSession` on the credentials of a request.
  unfoldable pub log_in :
      AuthConfig → Moment → Option Text → Text → Text → SessionStore → SessionStore × Answer
  log_in c at raw username password s =
      if not (text_eq username c.username) || not (text_eq password c.password)
      then (s, unauthorized)
      else let (s', created) = create at c.session_ttl raw s in
        elim created [
          | none ↦ (s', internal_error)
          | some (token, expires_at) ↦ (s', with_cookie token expires_at)
        ]

  unfoldable pub create_session :
      AuthConfig → Moment → Option Text → Credentials → SessionStore → SessionStore × Answer
  create_session c at raw unreadable s =
      if not (auth_enabled c) then (s, no_content) else (s, bad_request)
  create_session c at raw (credentials username password) s =
      if not (auth_enabled c) then (s, no_content) else log_in c at raw username password s

  -- `deleteSession`
  unfoldable pub delete_session :
      AuthConfig → Option Text → Moment → SessionStore → SessionStore × Answer
  delete_session c cookie at s = if not (auth_enabled c) then (s, no_content) else elim cookie [
    | none ↦ (s, no_content)
    | some token ↦
        let (s', done) = remove at token s in
        if done then (s', no_content) else (s', internal_error)
  ]

-- The loop of `evictExpired`.
unfoldable pub unexpired : ℕ → Map ℕ → Map ℕ
unexpired now [] = []
unexpired now ((hash, expires_at) ∷ m) =
    let rest = unexpired now m in if ltb now expires_at then (hash, expires_at) ∷ rest else rest

unfoldable pub any_expired : ℕ → Map ℕ → Bool
any_expired now [] = false
any_expired now ((hash, expires_at) ∷ m) =
    let rest = any_expired now m in if ltb now expires_at then rest else true

unfoldable pub evict_expired : Moment → SessionStore → SessionStore
evict_expired at s =
    let kept = record s { sessions = unexpired at.now s.sessions } in
    if any_expired at.now s.sessions then (persist at kept).0 else kept
