-- ===== src/Server/Login.antt =====
-- server/app/api/v1/auth.py: registration, login and logout of the server, which hand the password on
-- to the signaling server and keep its token. The signaling server is an argument, and so is what
-- other requests do to the server while an answer is waited for. A statement of SQLite is taken to
-- succeed, but for those of `register_device`.
pub mod Kept
pub mod Stored
use lem.Base.{
  ℕ, Bool, true, false, ◌||◌, Option, none, some, List, [], ◌∷◌, ◌++◌, if◌then◌else◌, nat_beq, take,
  Result, ok, err, Exn, client_error, key_error,
}
use lem.Text.{Text}
use lem.Text.Methods.{lit, rstrip}
use lem.Server.Database.{
  AuthState, Device, Database, AuthJson, get_device, register_device, get_auth_state,
  set_auth_state, delete_auth_state,
}
use lem.Tunnel.Manager
use lem.Tunnel.Manager.{TunnelManager, TunnelAgent}

-- The database, and the tunnel's manager once `set_tunnel_manager` was called.
pub record Server : Type 0 where
  pub db : Database
  pub tunnel_manager : Option TunnelManager

unfoldable pub set_tunnel_manager : TunnelManager → Server → Server
set_tunnel_manager m s = record s { tunnel_manager = some m }

pub record LoginRequest : Type 0 where
  pub email : Text
  pub password : Text
  pub signaling_url : Text

-- An answer of the signaling server: its status, its text, and what `get` finds in its JSON.
pub record Response : Type 0 where
  pub status : ℕ
  pub text : Result Text
  pub field : Text → Result (Option Text)

-- What the endpoint refuses with: an HTTPException, or an exception that becomes a 500.
pub data Refusal : Type 0 where
  bad_request unavailable : Text → Refusal
  unauthorized : Refusal
  internal : Exn → Refusal

pub data Reply (A : Type 0) : Type 0 where
  refused : Refusal → Reply A
  given : A → Reply A

pub record AuthResponse : Type 0 where
  pub device_id : Text
  pub tunnel_status : Text

-- One request to the signaling server: how `post` ends, and what happens meanwhile.
pub record Exchange : Type 0 where
  pub answer : Result Response
  pub meanwhile : Server → Server

-- `except aiohttp.ClientError`
abbrev pub caught : Text → Exn → Refusal
caught url (client_error n) = unavailable (lit "Cannot connect to signaling server at " ++ url)
caught url e = internal e

-- A step that may raise, and the rest.
abbrev pub awaits : {A B : Type 0} → Text → Result A → (A → Reply B) → Reply B
awaits url (err e) next = refused (caught url e)
awaits url (ok a) next = next a

-- `auth_data["access_token"]`
token_of : Option Text → Reply Text
token_of none = refused (internal key_error)
token_of (some t) = given t

abbrev token_in : Text → Response → Reply Text
unfolding token_of
token_in url r = awaits url (r.field (lit "access_token")) token_of

abbrev detail_of : Option Text → Text
detail_of none = lit "Email already registered"
detail_of (some t) = t

refuses_with : {A : Type 0} → Text → Text → Response → Reply A
refuses_with what url r = awaits url r.text (λ t. refused (unavailable (what ++ t)))

-- Behind the answer to the registration, and to the login.
unfoldable pub registration : Text → Response → Reply Text
unfolding token_in refuses_with
registration url r =
    if nat_beq r.status 400
    then awaits url (r.field (lit "detail")) (λ t. refused (bad_request (detail_of t)))
    else if nat_beq r.status 200 || nat_beq r.status 201
    then token_in url r
    else refuses_with (lit "Signaling server error: ") url r

unfoldable pub authentication : Text → Response → Reply Text
unfolding token_in refuses_with
authentication url r =
    if nat_beq r.status 401
    then refused unauthorized
    else if nat_beq r.status 200
    then token_in url r
    else refuses_with (lit "Signaling server error: ") url r

-- What is returned of a registration at the signaling server.
unfoldable pub accepted : Text → Response → Reply (Unit {0})
unfolding refuses_with
accepted url r =
    if nat_beq r.status 200 || nat_beq r.status 201
    then given tt
    else refuses_with (lit "Device registration failed: ") url r

-- The identifier of this server: the stored one, or a new one that is stored.
abbrev identified : Result Device × Database → Result Text × Database
identified (err e, db) = (err e, db)
identified (ok d, db) = (ok d.id, db)

unfoldable new_device :
    Result (Unit {0}) → ℕ → Text → Option Device → Database → Result Text × Database
new_device written now hex (some d) db = (ok d.id, db)
new_device written now hex none db =
    identified (
      register_device written now (lit "local-server-" ++ take 8 hex) (lit "placeholder-pubkey") db)

unfoldable pub own_device_id : Result (Unit {0}) → ℕ → Text → Database → Result Text × Database
unfolding new_device
own_device_id written now hex db = new_device written now hex (get_device db) db

-- The login as the tunnel's manager reads it.
abbrev pub seen : AuthState → Manager.AuthState
seen a = record {
  jwt_token = a.jwt_token;
  device_id = a.device_id;
  signaling_url = a.signaling_url;
}

abbrev pub seen_by : Result (Option AuthState) → Option Manager.AuthState
seen_by (ok (some a)) = some (seen a)
seen_by r = none

-- What a request meets: the two exchanges with the signaling server, how SQLite's statements end, the
-- clock, the random digits, what becomes of a new tunnel agent, and what other requests do while
-- the manager's lock is waited for (`locking`) and while the agent connects (`joining`).
pub record World : Type 0 where
  pub first : Exchange
  pub second : Exchange
  pub written : Result (Unit {0})
  pub now : ℕ
  pub hex : Text
  pub connect : Text → Text → Text → TunnelAgent × Result (Unit {0})
  pub locking : Server → Server
  pub joining : Server → Server

module _ (json : AuthJson) where
  abbrev outcome_of : Result (Unit {0}) → Text
  outcome_of (ok u) = lit "connecting"
  outcome_of (err e) = lit "failed"

  -- `start` with the lock held
  unfoldable begin : World → Option TunnelManager → Server → Text × Server
  begin world none s = (lit "offline", s)
  begin world (some m) s =
      let read = get_auth_state json s.db in
      let started = Manager.start world.connect (seen_by read.0) m in
      (
        outcome_of started.0,
        world.joining (record s { db = read.1; tunnel_manager = some started.1 }),
      )

  -- `await _tunnel_manager.start()`
  unfoldable start_tunnel : World → Option TunnelManager → Server → Text × Server
  unfolding begin
  start_tunnel world none s = (lit "offline", s)
  start_tunnel world (some m) s = let s' = world.locking s in begin world s'.tunnel_manager s'

  -- Steps 4 and 5: the login is stored, and the tunnel is started.
  unfoldable pub enter : World → LoginRequest → Text → Text → Server → Reply AuthResponse × Server
  unfolding start_tunnel
  enter world r token device_id s =
      let auth : AuthState = record {
        email = r.email;
        jwt_token = token;
        device_id = device_id;
        signaling_url = rstrip b'/' r.signaling_url;
      } in
      let begun =
        start_tunnel world s.tunnel_manager (record s { db = set_auth_state json auth s.db }) in
      (given (record { device_id = device_id; tunnel_status = begun.0 }), begun.1)

  unfoldable entered :
      World → LoginRequest → Text → Text → Reply (Unit {0}) → Server → Reply AuthResponse × Server
  entered world r token device_id (refused f) s = (refused f, s)
  entered world r token device_id (given u) s = enter world r token device_id s

  -- Step 3: this server is registered as a device.
  unfoldable registers_device :
      World → LoginRequest → Text → Result Text → Server → Reply AuthResponse × Server
  unfolding entered
  registers_device world r token (err e) s = (refused (caught (rstrip b'/' r.signaling_url) e), s)
  registers_device world r token (ok device_id) s =
      let url = rstrip b'/' r.signaling_url in
      entered world r token device_id (awaits url world.second.answer (accepted url))
        (world.second.meanwhile s)

  -- Step 2: this server's identifier.
  unfoldable with_token : World → LoginRequest → Reply Text → Server → Reply AuthResponse × Server
  unfolding registers_device
  with_token world r (refused f) s = (refused f, s)
  with_token world r (given token) s =
      let own = own_device_id world.written world.now world.hex s.db in
      registers_device world r token own.0 (record s { db = own.1 })

  unfoldable pub proceed :
      (Text → Response → Reply Text) → World → LoginRequest → Server → Reply AuthResponse × Server
  unfolding with_token
  proceed check world r s =
      let url = rstrip b'/' r.signaling_url in
      with_token world r (awaits url world.first.answer (check url)) (world.first.meanwhile s)

  unfoldable pub register : World → LoginRequest → Server → Reply AuthResponse × Server
  register = proceed registration

  unfoldable pub login : World → LoginRequest → Server → Reply AuthResponse × Server
  login = proceed authentication

  unfoldable stopped : Option TunnelManager → Option TunnelManager
  stopped none = none
  stopped (some m) = some (Manager.stop m)

  -- `logout`: an error of the manager is caught.
  unfoldable pub logout : Server → Text × Server
  unfolding stopped
  logout s = (
    lit "offline",
    record s { db = delete_auth_state s.db; tunnel_manager = stopped s.tunnel_manager },
  )

  -- `AuthStatusResponse`, without a login and with one.
  pub data Status : Type 0 where
    unknown : Status
    known : Text → Text → Text → Status

  abbrev pub tunnel_mode : Manager.Status → Text
  tunnel_mode Manager.logged_out = lit "offline"
  tunnel_mode (Manager.idle d) = lit "offline"
  tunnel_mode (Manager.active mode d state channel m) = mode

  unfoldable status_of : AuthState → Option TunnelManager → Status
  status_of a none = known a.email a.device_id (lit "offline")
  status_of a (some m) =
      known a.email a.device_id (tunnel_mode (Manager.get_status (some (seen a)) m))

  unfoldable status_from : Result (Option AuthState) → Option TunnelManager → Result Status
  unfolding status_of
  status_from (err e) m = err e
  status_from (ok none) m = ok unknown
  status_from (ok (some a)) m = ok (status_of a m)

  unfoldable pub get_status : Server → Result Status × Server
  unfolding status_from
  get_status s =
      let read = get_auth_state json s.db in
      (status_from read.0 s.tunnel_manager, record s { db = read.1 })
