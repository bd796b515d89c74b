-- ===== src/RelayServer/Manager/Stale.antt =====
-- cloud/relay: the end of an old handler, and a session that was created again in the meantime.
use lem.Base.{ℕ, ◌≡◌, refl, true, none, some, nat_eq, seq_eq}
use lem.Base.Dict.{lookup, put, remove, lookup-put, lookup-remove, beq_refl}
use lem.Text.{Text}
use lem.RelayServer.Session.{RelaySession, close}
use lem.RelayServer.Manager.{
  watching, Handler, Manager, update, close_and_drop, remove_session, leave, in_phase, resume,
}

pub remove_session-found :
    (id : Text) (ref : ℕ) (s : RelaySession) (m : Manager)
    → lookup id m.sessions ≡ some ref
    → lookup ref m.objects ≡ some s
    → remove_session id m
      ≡ record m { objects = put ref (close s) m.objects; sessions = remove id m.sessions }
unfolding remove_session
remove_session-found id ref s m e o = rw (e, close_and_drop) (rw (o, update) refl)

pub resume-leaves :
    (websocket : ℕ) (h : Handler) (s : RelaySession) (m : Manager)
    → lookup websocket m.handlers ≡ some h
    → h.phase ≡ watching
    → lookup h.session m.objects ≡ some s
    → s.closed ≡ true
    → resume websocket m
      ≡ remove_session h.session_id (record m { handlers = remove websocket m.handlers })
unfolding resume
resume-leaves websocket h s m has phase object gone =
    rw (has, resume) (rw (phase, in_phase) (rw (object, leave) (rw gone)))

-- A handler that watched a closed session ends by removing whatever session its identifier stands
-- for by then. If another session was created under it, that one is closed and dropped, although
-- both its sockets may be open.
pub stale_handler_closes :
    (websocket : ℕ) (h : Handler) (old young : RelaySession) (ref : ℕ) (m : Manager)
    → lookup websocket m.handlers ≡ some h
    → h.phase ≡ watching
    → lookup h.session m.objects ≡ some old
    → old.closed ≡ true
    → lookup h.session_id m.sessions ≡ some ref
    → lookup ref m.objects ≡ some young
    → (lookup h.session_id (resume websocket m).sessions ≡ none)
      × (lookup ref (resume websocket m).objects ≡ some (close young))
stale_handler_closes websocket h old young ref m has phase object gone stands other =
    rw (resume-leaves websocket h old m has phase object gone) (
      rw
        (remove_session-found h.session_id ref young
          (record m { handlers = remove websocket m.handlers }) stands other)
        (rw lookup-remove (rw beq_refl), rw lookup-put (rw beq_refl)))
