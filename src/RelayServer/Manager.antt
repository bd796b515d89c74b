-- ===== src/RelayServer/Manager.antt =====
-- cloud/relay/app/core/session_manager.py: `class SessionManager`, and
-- cloud/relay/app/api/relay.py: the endpoint, one handler for each WebSocket. A session is an
-- object that the manager and the handlers share: both hold its reference in a store. A handler
-- runs from one `await` to the next in one step; which handler runs next is the schedule's choice.
pub mod Stale
pub mod Sides
pub mod Joining
pub mod Isolation
pub mod Admitting
pub mod Serving
pub mod Stages
pub mod Life
use lem.Base.{
  ℕ, suc, Bool, true, false, Option, none, some, List, [], ◌∷◌, ◌++◌, if◌then◌else◌, nat_eq, seq_eq,
}
use lem.Base.Dict.{Dict, lookup, put, remove}
use lem.Text.{Text}
use lem.RelayServer.Session.{RelaySession, Event, init, add_connection, is_ready, close, on_event}

-- Where a handler stands in `start_forwarding`: in a loop that sleeps until both sides are there,
-- waiting for its two forwarding tasks, or in the loop that sleeps until the session is closed.
-- `second` is the argument `is_second_connection`.
pub data Phase : Type 0 where
  waiting : Bool → Phase
  forwarding : Phase
  watching : Phase

pub record Handler : Type 0 where
  pub session_id : Text
  pub session : ℕ
  pub phase : Phase

-- `sessions` is `self._sessions`; `refused` are the sockets closed for an invalid token.
pub record Manager : Type 0 where
  pub sessions : Dict Text ℕ
  pub objects : Dict ℕ RelaySession
  pub next_ref : ℕ
  pub handlers : Dict ℕ Handler
  pub refused : List ℕ

unfoldable pub start : Manager
start = record { sessions = []; objects = []; next_ref = 0; handlers = []; refused = [] }

-- `get_or_create_session`, on what the table holds
found_or_new : Text → Option ℕ → Manager → ℕ × Manager
found_or_new session_id (some ref) m = (ref, m)
found_or_new session_id none m = (
  m.next_ref,
  record m {
    sessions = put session_id m.next_ref m.sessions;
    objects = put m.next_ref (init session_id) m.objects;
    next_ref = suc m.next_ref;
  },
)

unfoldable pub get_or_create_session : Text → Manager → ℕ × Manager
unfolding found_or_new
get_or_create_session session_id m = found_or_new session_id (lookup session_id m.sessions) m

-- A method call on the object behind a reference.
unfoldable pub update : ℕ → (RelaySession → RelaySession) → Manager → Manager
update ref f m = elim (lookup ref m.objects) [
  | none ↦ m
  | some s ↦ record m { objects = put ref (f s) m.objects }
]

close_and_drop : Text → Option ℕ → Manager → Manager
unfolding update
close_and_drop session_id none m = m
close_and_drop session_id (some ref) m =
    let closed = update ref close m in
    record closed { sessions = remove session_id closed.sessions }

-- `remove_session`: the session that the identifier stands for now is closed and dropped.
unfoldable pub remove_session : Text → Manager → Manager
unfolding close_and_drop
remove_session session_id m = close_and_drop session_id (lookup session_id m.sessions) m

added : ℕ → Text → ℕ → Option RelaySession → Manager → Manager
added websocket session_id ref none m = m
added websocket session_id ref (some s) m =
    let (s', second) = add_connection websocket s in
    record m {
      objects = put ref s' m.objects;
      handlers =
          put websocket (record { session_id = session_id; session = ref; phase = waiting second })
            m.handlers;
    }

-- `relay_websocket` with a valid token, up to the call of `start_forwarding`.
unfoldable pub admit : ℕ → Text → Manager → Manager
unfolding added
admit websocket session_id m =
    let (ref, m') = get_or_create_session session_id m in
    added websocket session_id ref (lookup ref m'.objects) m'

set_phase : ℕ → Phase → Handler → Manager → Manager
set_phase websocket phase h m = record m {
  handlers = put websocket (record h { phase = phase }) m.handlers;
}

-- Behind `while not self.is_ready()`: the first handler to get here starts the forwarding, the
-- others watch.
begin_forwarding : ℕ → Handler → Option RelaySession → Manager → Manager
unfolding set_phase
begin_forwarding websocket h none m = m
begin_forwarding websocket h (some s) m =
    let started =
      set_phase websocket forwarding h
        (record m { objects = put h.session (record s { forwarding_started = true }) m.objects }) in
    let watches = set_phase websocket watching h m in
    if is_ready s then (if s.forwarding_started then watches else started) else m

leave : ℕ → Handler → Option RelaySession → Manager → Manager
leave websocket h none m = m
leave websocket h (some s) m =
    let left = remove_session h.session_id (record m { handlers = remove websocket m.handlers }) in
    if s.closed then left else m

-- The next part of a handler: behind its sleep, or, once its session is closed, its `finally`.
in_phase : ℕ → Handler → Phase → Manager → Manager
unfolding begin_forwarding leave
in_phase websocket h (waiting second) m =
    begin_forwarding websocket h (lookup h.session m.objects) m
in_phase websocket h forwarding m = leave websocket h (lookup h.session m.objects) m
in_phase websocket h watching m = leave websocket h (lookup h.session m.objects) m

unfoldable pub resume : ℕ → Manager → Manager
unfolding in_phase
resume websocket m = elim (lookup websocket m.handlers) [
  | none ↦ m
  | some h ↦ in_phase websocket h h.phase m
]

-- `relay_websocket`, up to its first `await`: the handler of the second socket starts the forwarding
-- at once. `valid` is `validate_token(token)`, false without one.
unfoldable pub join : ℕ → Text → Bool → Manager → Manager
join websocket session_id valid m =
    if valid
    then resume websocket (admit websocket session_id m)
    else record m { refused = m.refused ++ websocket ∷ [] }

-- A forwarding task of an open session, one frame further.
abbrev forwards : Event → RelaySession → RelaySession
forwards e s = if s.forwarding_started then (if s.closed then s else on_event e s) else s

-- What happens next: a WebSocket connects, a handler's sleep is over, or a forwarding task of the
-- session behind a reference meets an event.
pub data Step : Type 0 where
  joins : ℕ → Text → Bool → Step
  resumes : ℕ → Step
  meets : ℕ → Event → Step

unfoldable pub step : Step → Manager → Manager
unfolding join resume update
step (joins websocket session_id valid) m = join websocket session_id valid m
step (resumes websocket) m = resume websocket m
step (meets ref e) m = update ref (forwards e) m

unfoldable pub run : List Step → Manager → Manager
run [] m = m
run (s ∷ ss) m = run ss (step s m)
