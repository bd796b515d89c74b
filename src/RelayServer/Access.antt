-- ===== src/RelayServer/Access.antt =====
-- cloud/relay/app/core/security.py, and the token check of cloud/relay/app/api/relay.py. The relay's
-- settings are those of the signaling server, so that `Security` is the same.
use lem.Base.{
  ℕ, ◌+◌, ◌*◌, ◌<◌, ◌≡◌, refl, ◌∙◌, ap, sym, Bool, true, false, Bool-cases, Option, none, some, [],
  ◌∷◌, ◌++◌, inl, inr, length, ◌==◌, seq_eq, nat_eq, Result, ok, err, Exn, arith,
}
use lem.Base.Dict.{Dict, lookup, put, put_self}
use lem.Text.{Text}
use lem.Text.Methods.{lit}
use lem.Signaling.Accounts.{Security, Database, given, UserCreate, login}
use lem.Signaling.Accounts.Login.{login-given, create_access_token-lasts}
use lem.RelayServer.Manager.{Manager, waiting, join}
use lem.RelayServer.Manager.Admitting.{join-new}

join-refused :
    (websocket : ℕ) (id : Text) (m : Manager)
    → join websocket id false m ≡ record m { refused = m.refused ++ websocket ∷ [] }
unfolding join
join-refused websocket id m = refl

module _ (sec : Security) where
  reads : Result (Option ℕ) → Bool
  reads (ok payload) = true
  reads (err e) = false

  -- `validate_token`
  unfoldable pub validate_token : ℕ → Text → Bool
  unfolding reads
  validate_token now token = reads (sec.decode_access_token now token)

  -- `token is None or not validate_token(token)`
  unfoldable pub is_admitted : ℕ → Option Text → Bool
  is_admitted now none = false
  is_admitted now (some token) = validate_token now token

  -- `relay_websocket`, up to its first `await`
  unfoldable pub relay_websocket : ℕ → ℕ → Text → Option Text → Manager → Manager
  unfolding is_admitted
  relay_websocket now websocket session_id token m =
      join websocket session_id (is_admitted now token) m

-- `get_session_count`
unfoldable pub get_session_count : Manager → ℕ
get_session_count m = length m.sessions

-- `health_check`
unfoldable pub health_check : Manager → Text × Text × ℕ
unfolding get_session_count
health_check m = (lit "healthy", lit "relay", get_session_count m)

length-put :
    (id : Text) (ref : ℕ) (d : Dict Text ℕ)
    → lookup id d ≡ none
    → length (put id ref d) ≡ length d + 1
unfolding lookup put
length-put id ref [] h = omega arith
length-put id ref ((j, r) ∷ d) h = elim (Bool-cases (j == id)) [
  | inl same ↦ ground (arith, h, same)
  | inr other ↦ ground (arith, other, h, length-put id ref d)
]

module _ (sec : Security) (minutes : ℕ) where
  -- Where nothing is known of a session identifier: the token that a login at the signaling server
  -- gave opens a session for it at the relay, as long as the token lasts, whoever logged in and
  -- whatever the identifier, and the socket gets a handler. Without a token, or with one that does
  -- not decode, the socket is closed and nothing else changes.
  pub login-opens :
      (valid_email : Text → Bool) (now later websocket : ℕ) (id : Text) (credentials : UserCreate)
      (db : Database) (token bad : Text) (e : Exn) (m : Manager)
      → login sec minutes valid_email now credentials db ≡ given token
      → later < now + minutes * 60
      → sec.decode_access_token later bad ≡ err e
      → lookup id m.sessions ≡ none
      → (get_session_count (relay_websocket sec later websocket id (some token) m)
          ≡ get_session_count m + 1)
        × (lookup websocket (relay_websocket sec later websocket id (some token) m).handlers
            ≡ some (record { session_id = id; session = m.next_ref; phase = waiting false }))
        × (relay_websocket sec later websocket id (some bad) m
            ≡ record m { refused = m.refused ++ websocket ∷ [] })
        × (relay_websocket sec later websocket id none m
            ≡ record m { refused = m.refused ++ websocket ∷ [] })
  unfolding relay_websocket validate_token get_session_count
  login-opens valid_email now later websocket id credentials db token bad e m logged lasts broken
        free =
      let (user, made) = login-given sec minutes valid_email now credentials db token logged in
      let valid : reads sec (sec.decode_access_token later token) ≡ true = ap (reads sec) (
        ap (sec.decode_access_token later) (sym made)
        ∙ create_access_token-lasts sec minutes now later user.email user.id lasts) in
      let opened = ap (λ v. join websocket id v m) valid ∙ join-new websocket id m free in
      (
        ap (λ (x : Manager). length x.sessions) opened ∙ length-put id m.next_ref m.sessions free,
        ap (λ (x : Manager). lookup websocket x.handlers) opened ∙ put_self websocket _ m.handlers,
        ap (λ v. join websocket id v m) (ap (reads sec) broken) ∙ join-refused websocket id m,
        join-refused websocket id m,
      )
