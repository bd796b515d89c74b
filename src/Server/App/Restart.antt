-- ===== src/Server/App/Restart.antt =====
-- A login outlives the server's process.
use lem.Base.{◌≡◌, refl, ap, ◌∙◌, true, some, ok}
use lem.Text.{Text}
use lem.Text.Methods.{rstrip}
use lem.Server.Database.{Database, AuthJson, init_db, get_auth_state}
use lem.Server.Login.{
  Server, LoginRequest, World, Reply, refused, given, AuthResponse, enter, login,
  set_tunnel_manager, authentication,
}
use lem.Server.Login.Kept.{proceed-elim, stored}
use lem.Server.Login.Stored.{Shows, Leaves, Holds-read, enter-Holds, get_status-Shows}
use lem.Server.App.{Connect, startup, shutdown}
use lem.Tunnel.Manager
use lem.Tunnel.Manager.{TunnelManager, TunnelAgent, signal_url_of, initial}

module _ (json : AuthJson) (connect : Connect) where
  -- The agent that a new process connects to the stored address, as the stored device.
  abbrev pub joined : LoginRequest → Text → Text → TunnelAgent
  joined r device_id token =
      (connect (signal_url_of (rstrip b'/' r.signaling_url)) device_id token).0

  -- Connecting to that address succeeds.
  abbrev pub Joins : LoginRequest → Type 0
  Joins r =
      (device_id token : Text)
      → (connect (signal_url_of (rstrip b'/' r.signaling_url)) device_id token).1 ≡ ok tt

  abbrev pub Restarted : LoginRequest → Text → Server → Type 0
  Restarted r device_id t =
      Shows json r.email device_id t
      × ((token : Text) × (t.tunnel_manager
            ≡ some (record { agent = some (joined r device_id token); is_enabled = true })))

  abbrev pub Outlives : LoginRequest → Reply AuthResponse → Server → Type 0
  Outlives r (refused f) t = Unit
  Outlives r (given a) t = Restarted r a.device_id (startup json connect (some (shutdown json t)))

  startup-Restarted :
      (r : LoginRequest) (token id : Text) (db db' : Database)
      → Joins r
      → get_auth_state json db ≡ (ok (some (stored json r token id)), db')
      → get_auth_state json db' ≡ (ok (some (stored json r token id)), db')
      → Restarted r id (startup json connect (some db))
  unfolding startup init_db set_tunnel_manager Manager.start
  startup-Restarted r token id db db' c e e' = (
    get_status-Shows json _ (stored json r token id) db' (ap (λ x. get_auth_state json x.1) e ∙ e'),
    (token, rw (e, c id token) refl),
  )

  enter-Outlives :
      (world : World) (r : LoginRequest) (token id : Text) (t : Server)
      → Joins r
      → Leaves world.locking
      → Leaves world.joining
      → Outlives r (enter json world r token id t).0 (enter json world r token id t).1
  unfolding enter shutdown
  enter-Outlives world r token id t c quiet quiet' =
      let t' = (enter json world r token id t).1 in
      let read =
        Holds-read json (stored json r token id) t'
          (enter-Holds json world r token id t quiet quiet') in
      startup-Restarted r token id t'.db t'.db c read read

  -- If a login succeeds, with other requests that leave the stored login and the tunnel as they are
  -- while the tunnel starts, and the server is shut down and started again, over the same file, then it
  -- shows the same user and the same device without another login, and its tunnel has an agent for
  -- the signaling server that was given at the login, for that device, if
  -- connecting to that succeeds.
  pub login-survives :
      (world : World) (r : LoginRequest) (s : Server)
      → Joins r
      → Leaves world.locking
      → Leaves world.joining
      → Outlives r (login json world r s).0 (login json world r s).1
  unfolding login
  login-survives world r s c quiet quiet' =
      proceed-elim json (λ t. Unit) (λ id. Unit) (λ out. Outlives r out.0 out.1) authentication
        world r s (λ t i. tt) (λ t i. tt) (λ t i. tt) (λ t id i e. tt) (λ f t i. tt)
        (λ token id t q i. enter-Outlives world r token id t c quiet quiet') tt
