-- ===== src/Tests/Accounts.antt =====
-- Users and devices on a concrete database, with tokens and hashes that hide nothing.
use lem.Base.{
  ◌↔◌, ℕ, ◌+◌, ◌<◌, ◌≡◌, refl, Bool, true, false, Option, none, some, [], ◌∷◌, ◌++◌, nat_eq, ltb,
  lt→ltb, seq_beq, seq_beq_refl, seq_eq, if◌then◌else◌, Result, ok, err, json_error, arith,
}
use lem.Base.Dict.{lookup, contains}
use lem.Text.{Text}
use lem.Text.Methods.{lit}
use lem.Signaling.Endpoint.{verify_token_and_device}
use lem.Signaling.Accounts.{
  get_current_user_id, Security, Device, Database, new_database, refused, given, incorrect_password,
  UserCreate, register, login, register_device, create_access_token,
}
use lem.RelayServer.Manager.{waiting, start}
use lem.RelayServer.Access.{get_session_count, relay_websocket, login-opens}
use lem.Signaling.Accounts.Login.{register-login}
use lem.Signaling.Accounts.Ownership.{
  owner, registers, registers_device, run, alone, auth_of, run-keeps_owner, register_device-races,
  register_device-verifies,
}

abbrev read_token : ℕ → Text → Result (Option ℕ)
read_token now [] = err json_error
read_token now (user_id ∷ []) = err json_error
read_token now (user_id ∷ expire ∷ email) =
    if ltb now expire then ok (some user_id) else err json_error

abbrev same_password : Text → Text → Bool
same_password password [] = false
same_password password (salt ∷ hashed) = seq_beq password hashed

token-reads :
    (email : Text) (user_id expire now : ℕ)
    → now < expire
    → read_token now (user_id ∷ expire ∷ email) ≡ ok (some user_id)
token-reads email user_id expire now h = rw (lt→ltb now expire h)

abbrev plain : Security
plain = record {
  get_password_hash = λ salt password. salt ∷ password;
  verify_password = same_password;
  encode = λ email user_id expire. user_id ∷ expire ∷ email;
  decode_access_token = read_token;
  verify_password-hash = λ salt password. seq_beq_refl password;
  decode-encode = token-reads;
}

abbrev alice : UserCreate
alice = record { email = lit "a@lem.gg"; password = lit "password" }

abbrev after : Database
after = (register plain 30 (λ e. true) 100 7 (λ db. db) alice new_database).1

register-login_example :
    (token : Text) × (token' : Text) × ((register plain 30
        (λ e. true)
        100
        7
        (λ db. db)
        alice
        new_database).0
      ≡ given token)
    × (read_token 100 token ≡ ok (some 1))
    × (login plain 30 (λ e. true) 200 alice after ≡ given token')
    × (read_token 200 token' ≡ ok (some 1))
    × (login plain 30 (λ e. true) 200 (record alice { password = lit "other" }) after
        ≡ refused incorrect_password)
register-login_example =
    register-login plain 30 (omega arith) (λ e. true) 100 7 (λ db. db) alice new_database 200
      (λ db. db) (lit "other") refl (unfold contains lookup in refl)
      (unfold contains lookup in refl) refl refl

-- Device `d` of user 1.
abbrev owned : Database
owned = record {
  users = [];
  devices = (lit "d", record { user_id = 1; pubkey = lit "k"; created_at = 5; last_seen = 5 }) ∷ [];
  next_id = 3;
}

run-keeps_owner_example :
    owner (lit "d") (
      run plain 30
        (registers (λ e. true) 100 7 (λ db. db) alice
          ∷ registers_device 101 (λ db. db) (λ db. db) 2 (lit "d") (lit "k2")
          ∷ [])
        owned)
    ≡ some 1
run-keeps_owner_example =
    run-keeps_owner plain 30
      (registers (λ e. true) 100 7 (λ db. db) alice
        ∷ registers_device 101 (λ db. db) (λ db. db) 2 (lit "d") (lit "k2")
        ∷ [])
      owned (lit "d") 1 ((λ db id u h. h), (((λ db id u h. h), (λ db id u h. h)), tt))
      (unfold lookup in refl)

register_device-races_example :
    (device : Device) × ((register_device 9
        (λ s. (alone 9 2 (lit "d") (lit "k2") s).1)
        (λ s. s)
        1
        (lit "d")
        (lit "k1")
        new_database).0
      ≡ given device)
    × (lookup
          (lit "d")
          (register_device 9
            (λ s. (alone 9 2 (lit "d") (lit "k2") s).1)
            (λ s. s)
            1
            (lit "d")
            (lit "k1")
            new_database).1.devices
        ≡ some device)
    × (device.user_id ≡ 2)
    × (device.pubkey ≡ lit "k1")
register_device-races_example =
    register_device-races 9 1 2 (lit "d") (lit "k1") (lit "k2") new_database (unfold lookup in refl)

register_device-verifies_example :
    (verify_token_and_device
        (auth_of plain 9 (alone 9 1 (lit "d") (lit "k1") owned).1)
        (2 ∷ 50 ∷ lit "b@lem.gg")
        (lit "d")
      ≡ true)
    ↔ (get_current_user_id plain 9 (2 ∷ 50 ∷ lit "b@lem.gg")
        ≡ get_current_user_id plain 9 (1 ∷ 50 ∷ lit "a@lem.gg"))
register_device-verifies_example =
    register_device-verifies plain 9 (lit "d") (lit "k1") (1 ∷ 50 ∷ lit "a@lem.gg")
      (2 ∷ 50 ∷ lit "b@lem.gg") 1 owned (unfold get_current_user_id in refl) (unfold lookup in refl)

-- Alice is registered, and logs in at second 100.
abbrev registered : Database
registered = record {
  users =
      (
        lit "a@lem.gg",
        record { id = 1; email = lit "a@lem.gg"; hashed_password = 7 ∷ lit "password" },
      )
      ∷ [];
  devices = [];
  next_id = 2;
}

abbrev token : Text
token = 1 ∷ 1900 ∷ lit "a@lem.gg"

logged_in : login plain 30 (λ e. true) 100 alice registered ≡ given token
unfolding login create_access_token lookup
logged_in = refl

login-opens_example :
    (get_session_count (relay_websocket plain 200 5 (lit "d") (some token) start)
      ≡ get_session_count start + 1)
    × (lookup 5 (relay_websocket plain 200 5 (lit "d") (some token) start).handlers
        ≡ some (record { session_id = lit "d"; session = start.next_ref; phase = waiting false }))
    × (relay_websocket plain 200 5 (lit "d") (some []) start
        ≡ record start { refused = start.refused ++ 5 ∷ [] })
    × (relay_websocket plain 200 5 (lit "d") none start
        ≡ record start { refused = start.refused ++ 5 ∷ [] })
unfolding start lookup
login-opens_example =
    login-opens plain 30 (λ e. true) 100 200 5 (lit "d") alice registered token [] json_error start
      logged_in (omega arith) refl refl
