-- ===== src/Server/Login/Stored.antt =====
-- All or nothing: what a login stores, what a failed one leaves, and which agent runs afterwards.
use lem.Base.{ℕ, ◌≡◌, refl, sym, ap, subst, ◌∙◌, true, Option, none, some, Result, ok, arith}
use lem.Text.{Text}
use lem.Text.Methods.{lit}
use lem.Server.Database.{
  AuthState, Database, AuthJson, register_device, get_auth_state, set_auth_state, to_json,
}
use lem.Server.Database.Refinement.{get_auth_state-row, get_auth_state-delete}
use lem.Tunnel.Manager
use lem.Tunnel.Manager.{TunnelManager, TunnelAgent, is_running}
use lem.Server.Login.{
  Server, LoginRequest, World, Reply, refused, given, AuthResponse, own_device_id, new_device,
  begin, start_tunnel, enter, login, logout, get_status, authentication, unknown, known,
  status_from, status_of, seen_by, outcome_of,
}
use lem.Server.Login.Kept.{proceed-elim, stored}

-- Other requests, during a wait, leave the stored login and the tunnel.
abbrev pub Leaves : (Server → Server) → Type 0
Leaves f = (t : Server) → ((f t).db.auth ≡ t.db.auth) × ((f t).tunnel_manager ≡ t.tunnel_manager)

abbrev Same : Server → Server → Type 0
Same s t = (t.db.auth ≡ s.db.auth) × (t.tunnel_manager ≡ s.tunnel_manager)

own_device_id-auth :
    (written : Result (Unit {0})) (now : ℕ) (hex : Text) (db : Database)
    → (own_device_id written now hex db).1.auth ≡ db.auth
unfolding own_device_id new_device register_device
own_device_id-auth written now hex db = ground arith

module _ (json : AuthJson) where
  -- A server that shows a user as logged in.
  abbrev pub Shows : Text → Text → Server → Type 0
  Shows email device_id t =
      (mode : Text) × ((get_status json t).0 ≡ ok (known email device_id mode))

  -- A refused login changes neither the stored login nor the tunnel; after one that succeeds, the
  -- server shows the user as logged in, with the device that the reply names, until the next logout.
  abbrev pub Settled : Server → Text → Reply AuthResponse → Server → Type 0
  Settled s email (refused f) t = Same s t
  Settled s email (given a) t =
      Shows email a.device_id t × ((get_status json (logout json t).1).0 ≡ ok unknown)

  get_status-unknown : (t : Server) → (get_status json (logout json t).1).0 ≡ ok unknown
  unfolding get_status logout status_from
  get_status-unknown t =
      ap (λ r. status_from json r.0 (logout json t).1.tunnel_manager)
        (get_auth_state-delete json t.db)

  -- The stored login is this one.
  abbrev pub Holds : AuthState → Server → Type 0
  Holds a t = t.db.auth ≡ some (to_json json a)

  pub Holds-read :
      (a : AuthState) (t : Server) → Holds a t → get_auth_state json t.db ≡ (ok (some a), t.db)
  Holds-read a t h = get_auth_state-row json (some a) t.db h

  begin-Holds :
      (world : World) (a : AuthState) (m : Option TunnelManager) (s : Server)
      → Leaves world.joining
      → Holds a s
      → Holds a (begin json world m s).1
  unfolding begin
  begin-Holds world a none s quiet h = h
  begin-Holds world a (some m) s quiet h = (quiet _).0 ∙ ap (λ x. x.1.auth) (Holds-read a s h) ∙ h

  start_tunnel-Holds :
      (world : World) (a : AuthState) (m : Option TunnelManager) (s : Server)
      → Leaves world.locking
      → Leaves world.joining
      → Holds a s
      → Holds a (start_tunnel json world m s).1
  unfolding start_tunnel
  start_tunnel-Holds world a none s quiet quiet' h = h
  start_tunnel-Holds world a (some m) s quiet quiet' h =
      begin-Holds world a (world.locking s).tunnel_manager (world.locking s) quiet'
        ((quiet s).0 ∙ h)

  shown :
      (a : AuthState) (m : Option TunnelManager)
      → (mode : Text) × (status_of json a m ≡ known a.email a.device_id mode)
  unfolding status_of
  shown a none = (_, refl)
  shown a (some m) = (_, refl)

  pub get_status-Shows :
      (t : Server) (a : AuthState) (db : Database)
      → get_auth_state json t.db ≡ (ok (some a), db)
      → Shows a.email a.device_id t
  unfolding get_status status_from
  get_status-Shows t a db e =
      let (mode, shows) = shown a t.tunnel_manager in
      (mode, ap (λ r. status_from json r.0 t.tunnel_manager) e ∙ ap ok shows)

  pub enter-Holds :
      (world : World) (r : LoginRequest) (token id : Text) (s : Server)
      → Leaves world.locking
      → Leaves world.joining
      → Holds (stored json r token id) (enter json world r token id s).1
  unfolding enter set_auth_state
  enter-Holds world r token id s quiet quiet' =
      start_tunnel-Holds world (stored json r token id) s.tunnel_manager
        (record s { db = set_auth_state json (stored json r token id) s.db }) quiet quiet' refl

  enter-Shows :
      (world : World) (r : LoginRequest) (token id : Text) (s : Server)
      → Leaves world.locking
      → Leaves world.joining
      → Shows r.email id (enter json world r token id s).1
  enter-Shows world r token id s quiet quiet' =
      let t = (enter json world r token id s).1 in
      get_status-Shows t (stored json r token id) t.db
        (Holds-read (stored json r token id) t (enter-Holds world r token id s quiet quiet'))

  enter-settles :
      (s : Server) (world : World) (r : LoginRequest) (token id : Text) (t : Server)
      → Leaves world.locking
      → Leaves world.joining
      → Settled s r.email (enter json world r token id t).0 (enter json world r token id t).1
  unfolding enter
  enter-settles s world r token id t quiet quiet' =
      (enter-Shows world r token id t quiet quiet', get_status-unknown _)

  -- A login during which other requests leave the stored login and the tunnel as they are, while an
  -- answer, the manager's lock or the new agent's connection is waited for: if it is refused, for whatever reason, both are as before. If it succeeds, the server shows the user
  -- as logged in with the device that the reply names, and no longer after a logout.
  pub login-settles :
      (world : World) (r : LoginRequest) (s : Server)
      → Leaves world.first.meanwhile
      → Leaves world.second.meanwhile
      → Leaves world.locking
      → Leaves world.joining
      → Settled s r.email (login json world r s).0 (login json world r s).1
  unfolding login
  login-settles world r s first second third fourth =
      proceed-elim json (Same s) (λ id. Unit) (λ out. Settled s r.email out.0 out.1) authentication
        world r s (λ t i. (((first t).0 ∙ i.0), ((first t).1 ∙ i.1)))
        (λ t i. (((second t).0 ∙ i.0), ((second t).1 ∙ i.1)))
        (λ t i. ((own_device_id-auth world.written world.now world.hex t.db ∙ i.0), i.1))
        (λ t id i e. tt) (λ f t i. i)
        (λ token id t q i. enter-settles s world r token id t third fourth) (refl, refl)

  -- The reply to a login while an agent runs, and the tunnel behind it.
  abbrev pub Unmoved : TunnelManager → Reply AuthResponse → Server → Type 0
  Unmoved m (refused f) t = t.tunnel_manager ≡ some m
  Unmoved m (given a) t = (a.tunnel_status ≡ lit "connecting") × (t.tunnel_manager ≡ some m)

  start-running :
      (connect : Text → Text → Text → TunnelAgent × Result (Unit {0}))
      (auth : Option Manager.AuthState) (m : TunnelManager)
      → is_running m.agent ≡ true
      → Manager.start connect auth m ≡ (ok tt, m)
  unfolding Manager.start
  start-running connect auth m h = rw h

  abbrev IsUnmoved : TunnelManager → Text × Server → Type 0
  IsUnmoved m out = (out.0 ≡ lit "connecting") × (out.1.tunnel_manager ≡ some m)

  begin-IsUnmoved :
      (world : World) (m : TunnelManager) (t : Server)
      → Leaves world.joining
      → is_running m.agent ≡ true
      → IsUnmoved m (begin json world (some m) t)
  unfolding begin
  begin-IsUnmoved world m t quiet h =
      let same = start-running world.connect (seen_by (get_auth_state json t.db).0) m h in
      (ap (λ x. outcome_of json x.0) same, (quiet _).1 ∙ ap (λ x. some x.1) same)

  start_tunnel-IsUnmoved :
      (world : World) (m : TunnelManager) (t : Server)
      → Leaves world.locking
      → Leaves world.joining
      → is_running m.agent ≡ true
      → t.tunnel_manager ≡ some m
      → IsUnmoved m (start_tunnel json world (some m) t)
  unfolding start_tunnel
  start_tunnel-IsUnmoved world m t quiet quiet' h e =
      subst (λ o. IsUnmoved m (begin json world o (world.locking t))) (sym ((quiet t).1 ∙ e))
        (begin-IsUnmoved world m (world.locking t) quiet' h)

  enter-Unmoved :
      (world : World) (r : LoginRequest) (token id : Text) (m : TunnelManager) (t : Server)
      → Leaves world.locking
      → Leaves world.joining
      → is_running m.agent ≡ true
      → t.tunnel_manager ≡ some m
      → Unmoved m (enter json world r token id t).0 (enter json world r token id t).1
  unfolding enter
  enter-Unmoved world r token id m t quiet quiet' h e =
      let s' = record t { db = set_auth_state json (stored json r token id) t.db } in
      subst (λ o. IsUnmoved m (start_tunnel json world o s')) (sym e)
        (start_tunnel-IsUnmoved world m s' quiet quiet' h e)

  -- While the manager has an agent that runs, whoever logs in, and at whatever signaling server, with
  -- other requests that leave the stored login and the tunnel as they are while it waits: the agent
  -- stays the one from before, with the URL that it was told, also when the login succeeds and its
  -- reply says that the tunnel is connecting.
  pub login-keeps_agent :
      (world : World) (r : LoginRequest) (m : TunnelManager) (s : Server)
      → Leaves world.first.meanwhile
      → Leaves world.second.meanwhile
      → Leaves world.locking
      → Leaves world.joining
      → is_running m.agent ≡ true
      → s.tunnel_manager ≡ some m
      → Unmoved m (login json world r s).0 (login json world r s).1
  unfolding login
  login-keeps_agent world r m s first second third fourth h e =
      proceed-elim json (λ t. t.tunnel_manager ≡ some m) (λ id. Unit) (λ out. Unmoved m out.0 out.1)
        authentication world r s (λ t i. (first t).1 ∙ i) (λ t i. (second t).1 ∙ i) (λ t i. i)
        (λ t id i e. tt) (λ f t i. i)
        (λ token id t q i. enter-Unmoved world r token id m t third fourth h i) e
