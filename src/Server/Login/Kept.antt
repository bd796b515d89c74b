-- ===== src/Server/Login/Kept.antt =====
-- What registrations, logins and logouts keep, and what they store.
use lem.Base.{
  ℕ, ◌≡◌, refl, sym, ap, subst, ◌∙◌, Option, none, some, List, [], ◌∷◌, All, Result, ok, err,
  ok-injective,
}
use lem.Text.{Text}
use lem.Text.Methods.{rstrip}
use lem.Server.Database.{
  AuthState, Device, Database, AuthJson, first, get_device, set_auth_state, delete_auth_state,
}
use lem.Server.Database.Refinement.{get_auth_state-device}
use lem.Tunnel.Manager.{TunnelManager}
use lem.Server.Login.{
  Server, LoginRequest, Response, World, Refusal, Reply, refused, given, AuthResponse, awaits,
  own_device_id, new_device, begin, start_tunnel, enter, entered, registers_device, with_token,
  proceed, register, login, logout, get_status, registration, authentication,
}

module _ (json : AuthJson) where
  -- A property of the outcome follows from one of the states in between, `I`, and one of the device
  -- identifiers, `Q`.
  pub proceed-elim :
      (I : Server → Type 0) (Q : Text → Type 0) (P : Reply AuthResponse × Server → Type 0)
      (check : Text → Response → Reply Text) (world : World) (r : LoginRequest) (s : Server)
      → ((t : Server) → I t → I (world.first.meanwhile t))
      → ((t : Server) → I t → I (world.second.meanwhile t))
      → ((t : Server)
          → I t
          → I (record t { db = (own_device_id world.written world.now world.hex t.db).1 }))
      → ((t : Server) (id : Text)
          → I t
          → (own_device_id world.written world.now world.hex t.db).0 ≡ ok id
          → Q id)
      → ((f : Refusal) (t : Server) → I t → P (refused f, t))
      → ((token id : Text) (t : Server) → Q id → I t → P (enter json world r token id t))
      → I s
      → P (proceed json check world r s)
  unfolding proceed with_token registers_device entered
  proceed-elim I Q P check world r s first second owns names refuses enters i =
      with_token-elim (awaits url world.first.answer (check url)) (world.first.meanwhile s)
        (first s i)
    where
      url : Text
      url = rstrip b'/' r.signaling_url

      entered-elim :
          (token id : Text) (done : Reply (Unit {0})) (t : Server)
          → Q id
          → I t
          → P (entered json world r token id done t)
      entered-elim token id (refused f) t q j = refuses f t j
      entered-elim token id (given u) t q j = enters token id t q j

      registers_device-elim :
          (token : Text) (own : Result Text) (t : Server)
          → ((id : Text) → own ≡ ok id → Q id)
          → I t
          → P (registers_device json world r token own t)
      registers_device-elim token (err e) t q j = refuses _ t j
      registers_device-elim token (ok id) t q j =
          entered-elim token id _ (world.second.meanwhile t) (q id refl) (second t j)

      with_token-elim : (m : Reply Text) (t : Server) → I t → P (with_token json world r m t)
      with_token-elim (refused f) t j = refuses f t j
      with_token-elim (given token) t j =
          let own = own_device_id world.written world.now world.hex t.db in
          registers_device-elim token own.0 (record t { db = own.1 }) (λ id. names t id j)
            (owns t j)

  -- The identifier of this server, once it has one, whatever other requests do, as long as they keep
  -- it too.
  abbrev pub HasDevice : Device → Server → Type 0
  HasDevice d s = get_device s.db ≡ some d

  own_device_id-same :
      (written : Result (Unit {0})) (now : ℕ) (hex : Text) (d : Device) (db : Database)
      → get_device db ≡ some d
      → own_device_id written now hex db ≡ (ok d.id, db)
  unfolding own_device_id new_device
  own_device_id-same written now hex d db h = ap (λ o. new_device written now hex o db) h

  -- What a request of a user does to the server.
  pub data Request : Type 0 where
    registers logs_in : World → LoginRequest → Request
    logs_out asks : Request

  unfoldable pub serve : Request → Server → Server
  serve (registers world r) s = (register json world r s).1
  serve (logs_in world r) s = (login json world r s).1
  serve logs_out s = (logout json s).1
  serve asks s = (get_status json s).1

  unfoldable pub serves : List Request → Server → Server
  serves [] s = s
  serves (q ∷ qs) s = serves qs (serve q s)

  -- What happens during the two exchanges, and while the tunnel starts, keeps the device.
  abbrev LeavesDevice : Device → World → Type 0
  LeavesDevice d world =
      ((t : Server) → HasDevice d t → HasDevice d (world.first.meanwhile t))
      × ((t : Server) → HasDevice d t → HasDevice d (world.second.meanwhile t))
      × ((t : Server) → HasDevice d t → HasDevice d (world.locking t))
      × ((t : Server) → HasDevice d t → HasDevice d (world.joining t))

  abbrev pub IsTame : Device → Request → Type 0
  IsTame d (registers world r) = LeavesDevice d world
  IsTame d (logs_in world r) = LeavesDevice d world
  IsTame d q = Unit

  -- The login that is stored.
  abbrev pub stored : LoginRequest → Text → Text → AuthState
  stored r token id = record {
    email = r.email;
    jwt_token = token;
    device_id = id;
    signaling_url = rstrip b'/' r.signaling_url;
  }

  begin-device :
      (d : Device) (world : World) (m : Option TunnelManager) (s : Server)
      → LeavesDevice d world
      → HasDevice d s
      → HasDevice d (begin json world m s).1
  unfolding begin get_device
  begin-device d world none s k h = h
  begin-device d world (some m) s k h = k.3 _ (ap first (get_auth_state-device json s.db) ∙ h)

  start_tunnel-device :
      (d : Device) (world : World) (m : Option TunnelManager) (s : Server)
      → LeavesDevice d world
      → HasDevice d s
      → HasDevice d (start_tunnel json world m s).1
  unfolding start_tunnel
  start_tunnel-device d world none s k h = h
  start_tunnel-device d world (some m) s k h =
      begin-device d world (world.locking s).tunnel_manager (world.locking s) k (k.2 s h)

  enter-device :
      (d : Device) (world : World) (r : LoginRequest) (token id : Text) (s : Server)
      → LeavesDevice d world
      → HasDevice d s
      → HasDevice d (enter json world r token id s).1
  unfolding enter set_auth_state get_device
  enter-device d world r token id s k h =
      start_tunnel-device d world s.tunnel_manager
        (record s { db = set_auth_state json (stored r token id) s.db }) k h

  proceed-device :
      (d : Device) (check : Text → Response → Reply Text) (world : World) (r : LoginRequest)
      (s : Server)
      → LeavesDevice d world
      → HasDevice d s
      → HasDevice d (proceed json check world r s).1
  proceed-device d check world r s k h =
      proceed-elim (HasDevice d) (λ id. Unit) (λ out. HasDevice d out.1) check world r s k.0 k.1
        (λ t j.
          subst (λ o. HasDevice d (record t { db = o.1 }))
            (sym (own_device_id-same world.written world.now world.hex d t.db j)) j)
        (λ t id j e. tt) (λ f t j. j) (λ token id t q j. enter-device d world r token id t k j) h

  serve-device :
      (d : Device) (q : Request) (s : Server) → IsTame d q → HasDevice d s → HasDevice d (serve q s)
  unfolding serve register login logout get_status delete_auth_state get_device
  serve-device d (registers world r) s k h = proceed-device d registration world r s k h
  serve-device d (logs_in world r) s k h = proceed-device d authentication world r s k h
  serve-device d logs_out s k h = h
  serve-device d asks s k h = ap first (get_auth_state-device json s.db) ∙ h

  serves-device :
      (d : Device) (qs : List Request) (s : Server)
      → All (IsTame d) qs
      → HasDevice d s
      → HasDevice d (serves qs s)
  unfolding serves
  serves-device d [] s k h = h
  serves-device d (q ∷ qs) s (k, ks) h = serves-device d qs (serve q s) ks (serve-device d q s k h)

  -- Whether a reply names the device, if it names one.
  abbrev pub Names : Text → Reply AuthResponse → Type 0
  Names id (refused f) = Unit
  Names id (given a) = a.device_id ≡ id

  enter-Names :
      (world : World) (r : LoginRequest) (token id : Text) (s : Server)
      → Names id (enter json world r token id s).0
  unfolding enter
  enter-Names world r token id s = refl

  -- Once the server has a device identifier, it keeps it through all registrations, logins, logouts
  -- and status requests, of whatever users and with whatever outcomes; and the next login that
  -- succeeds returns this identifier. Other requests that run during an exchange with the signaling
  -- server, or while the tunnel starts, are to keep it too.
  pub serves-keeps_device :
      (d : Device) (qs : List Request) (world : World) (r : LoginRequest) (s : Server)
      → All (IsTame d) qs
      → LeavesDevice d world
      → HasDevice d s
      → HasDevice d (serves qs s) × Names d.id (login json world r (serves qs s)).0
  unfolding login
  serves-keeps_device d qs world r s ks k h =
      let kept = serves-device d qs s ks h in
      (
        kept,
        proceed-elim (HasDevice d) (λ id. id ≡ d.id) (λ out. Names d.id out.0) authentication world
            r (serves qs s) k.0 k.1
            (λ t j.
              subst (λ o. HasDevice d (record t { db = o.1 }))
                (sym (own_device_id-same world.written world.now world.hex d t.db j)) j)
            (λ t id j e. ok-injective (
              sym e
              ∙ ap (λ o. o.0) (own_device_id-same world.written world.now world.hex d t.db j)))
            (λ f t j. tt)
            (λ token id t q j.
              subst (λ x. Names x (enter json world r token id t).0) q
                (enter-Names world r token id t))
            kept,
      )
