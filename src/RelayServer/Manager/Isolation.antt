-- ===== src/RelayServer/Manager/Isolation.antt =====
-- cloud/relay: whatever the schedule, a socket serves one session, and an open session has two sides
-- of its own.
use lem.Base.{
  ℕ, ◌≡◌, refl, ap, ◌∙◌, Bool, true, false, Option, none, some, List, [], ◌∷◌, inl, inr, if-both,
  Bool-cases, Option-cases, nat_eq, seq_eq, arith,
}
use lem.Base.Dict.{lookup, put_self}
use lem.Text.{Text}
use lem.RelayServer.Session.{RelaySession, Event, init, close, is_ready, on_event}
use lem.RelayServer.Manager.{
  Phase, waiting, forwarding, watching, Handler, Manager, start, found_or_new,
  get_or_create_session, update, close_and_drop, remove_session, added, admit, join, set_phase,
  begin_forwarding, leave, in_phase, resume, forwards, Step, joins, resumes, meets, step, run,
}
use lem.RelayServer.Manager.Joining.{joined-IsIsolated}
use lem.RelayServer.Manager.Sides.{
  IsIsolated, Keeps, objects-IsIsolated, created-IsIsolated, phase-IsIsolated, dropped-IsIsolated,
  left-IsIsolated,
}

start-IsIsolated : IsIsolated start
unfolding start lookup
start-IsIsolated = record {
  listed = λ id r e. cc;
  served = λ ws h e. cc;
  held = λ r ws s o c side. cc;
  apart = λ r a b s o c x y. cc;
  known = λ r s o. cc;
}

Keeps-refl : (s : RelaySession) → Keeps s s
Keeps-refl s = record { id = refl; client = refl; server = refl; open_ = λ c. c }

close-Keeps : (s : RelaySession) → Keeps s (close s)
unfolding close
close-Keeps s = record {
  id = ground arith;
  client = ground arith;
  server = ground arith;
  open_ = λ c. ground arith;
}

on_event-Keeps : (e : Event) (s : RelaySession) → Keeps s (on_event e s)
unfolding on_event close
on_event-Keeps e s = record {
  id = ground arith;
  client = ground arith;
  server = ground arith;
  open_ = λ c. ground arith;
}

forwards-Keeps : (e : Event) (s : RelaySession) → Keeps s (forwards e s)
forwards-Keeps e s =
    if-both (Keeps s) s.forwarding_started
      (if-both (Keeps s) s.closed (Keeps-refl s) (on_event-Keeps e s)) (Keeps-refl s)

started-Keeps : (s : RelaySession) → Keeps s (record s { forwarding_started = true })
started-Keeps s = record { id = refl; client = refl; server = refl; open_ = λ c. c }

update-IsIsolated :
    (ref : ℕ) (f : RelaySession → RelaySession) (m : Manager)
    → ((s : RelaySession) → Keeps s (f s))
    → IsIsolated m
    → IsIsolated (update ref f m)
unfolding update
update-IsIsolated ref f m k ok = elim (Option-cases (lookup ref m.objects)) [
  | inl e ↦ rw (e, update) ok
  | inr (s, e) ↦ rw (e, update) (objects-IsIsolated m ok ref s (f s) e (k s))
]

remove_session-IsIsolated :
    (id : Text) (m : Manager) → IsIsolated m → IsIsolated (remove_session id m)
unfolding remove_session
remove_session-IsIsolated id m ok = elim (Option-cases (lookup id m.sessions)) [
  | inl e ↦ rw (e, close_and_drop) ok
  | inr (ref, e) ↦
      rw (e, close_and_drop)
        (dropped-IsIsolated (update ref close m) (update-IsIsolated ref close m close-Keeps ok) id)
]

-- What the table holds, or the new session, is an open object of its own identifier.
found_or_new-IsIsolated :
    (id : Text) (o : Option ℕ) (m : Manager)
    → lookup id m.sessions ≡ o
    → IsIsolated m
    → IsIsolated (found_or_new id o m).1
      × ((s : RelaySession) × (lookup (found_or_new id o m).0 (found_or_new id o m).1.objects
            ≡ some s)
          × (s.session_id ≡ id))
      × ((found_or_new id o m).1.handlers ≡ m.handlers)
unfolding found_or_new init
found_or_new-IsIsolated id none m e ok =
    (created-IsIsolated m ok id, (init id, put_self m.next_ref (init id) m.objects, refl), refl)
found_or_new-IsIsolated id (some ref) m e ok = (ok, IsIsolated.listed ok id ref e, refl)

admit-IsIsolated :
    (w : ℕ) (id : Text) (m : Manager)
    → lookup w m.handlers ≡ none
    → IsIsolated m
    → IsIsolated (admit w id m)
unfolding admit get_or_create_session
admit-IsIsolated w id m free ok =
    let got = found_or_new id (lookup id m.sessions) m in
    let (ok', (s, has, own), same) = found_or_new-IsIsolated id (lookup id m.sessions) m refl ok in
    rw (has, added)
      (joined-IsIsolated got.1 ok' w got.0 s _ has (ap (lookup w) same ∙ free) refl own)

set_phase-IsIsolated :
    (w : ℕ) (p : Phase) (h : Handler) (m : Manager)
    → lookup w m.handlers ≡ some h
    → IsIsolated m
    → IsIsolated (set_phase w p h m)
unfolding set_phase
set_phase-IsIsolated w p h m has ok =
    phase-IsIsolated m ok w h (record h { phase = p }) has refl refl

begin_forwarding-IsIsolated :
    (w : ℕ) (h : Handler) (o : Option RelaySession) (m : Manager)
    → lookup w m.handlers ≡ some h
    → lookup h.session m.objects ≡ o
    → IsIsolated m
    → IsIsolated (begin_forwarding w h o m)
unfolding begin_forwarding
begin_forwarding-IsIsolated w h none m has e ok = ok
begin_forwarding-IsIsolated w h (some s) m has e ok =
    if-both IsIsolated (is_ready s)
      (if-both IsIsolated s.forwarding_started (set_phase-IsIsolated w watching h m has ok) (
        set_phase-IsIsolated w forwarding h _ has (
          objects-IsIsolated m ok h.session s (record s { forwarding_started = true }) e
            (started-Keeps s))))
      ok

leave-IsIsolated :
    (w : ℕ) (h : Handler) (o : Option RelaySession) (m : Manager)
    → lookup w m.handlers ≡ some h
    → lookup h.session m.objects ≡ o
    → IsIsolated m
    → IsIsolated (leave w h o m)
unfolding leave
leave-IsIsolated w h none m has e ok = ok
leave-IsIsolated w h (some s) m has e ok = elim (Bool-cases s.closed) [
  | inl gone ↦
      rw gone (remove_session-IsIsolated h.session_id _ (left-IsIsolated m ok w h s has e gone))
  | inr open_ ↦ rw open_ ok
]

in_phase-IsIsolated :
    (w : ℕ) (h : Handler) (p : Phase) (m : Manager)
    → lookup w m.handlers ≡ some h
    → IsIsolated m
    → IsIsolated (in_phase w h p m)
unfolding in_phase
in_phase-IsIsolated w h (waiting second) m has ok =
    begin_forwarding-IsIsolated w h (lookup h.session m.objects) m has refl ok
in_phase-IsIsolated w h forwarding m has ok =
    leave-IsIsolated w h (lookup h.session m.objects) m has refl ok
in_phase-IsIsolated w h watching m has ok =
    leave-IsIsolated w h (lookup h.session m.objects) m has refl ok

resume-IsIsolated : (w : ℕ) (m : Manager) → IsIsolated m → IsIsolated (resume w m)
unfolding resume
resume-IsIsolated w m ok = elim (Option-cases (lookup w m.handlers)) [
  | inl e ↦ rw (e, resume) ok
  | inr (h, e) ↦ rw (e, resume) (in_phase-IsIsolated w h h.phase m e ok)
]

join-IsIsolated :
    (w : ℕ) (id : Text) (valid : Bool) (m : Manager)
    → lookup w m.handlers ≡ none
    → IsIsolated m
    → IsIsolated (join w id valid m)
unfolding join
join-IsIsolated w id false m free ok = record {
  listed = ok.listed;
  served = ok.served;
  held = ok.held;
  apart = ok.apart;
  known = ok.known;
}
join-IsIsolated w id true m free ok =
    resume-IsIsolated w (admit w id m) (admit-IsIsolated w id m free ok)

-- A socket that joins has no handler at that time.
abbrev pub IsNew : Step → Manager → Type 0
IsNew (joins w id valid) m = lookup w m.handlers ≡ none
IsNew s m = Unit

abbrev pub AllNew : List Step → Manager → Type 0
AllNew [] m = Unit
AllNew (s ∷ steps) m = IsNew s m × AllNew steps (step s m)

step-IsIsolated : (s : Step) (m : Manager) → IsNew s m → IsIsolated m → IsIsolated (step s m)
unfolding step
step-IsIsolated (joins w id valid) m free ok = join-IsIsolated w id valid m free ok
step-IsIsolated (resumes w) m free ok = resume-IsIsolated w m ok
step-IsIsolated (meets ref e) m free ok = update-IsIsolated ref (forwards e) m (forwards-Keeps e) ok

kept : (steps : List Step) (m : Manager) → AllNew steps m → IsIsolated m → IsIsolated (run steps m)
unfolding run
kept [] m free ok = ok
kept (s ∷ steps) m (free, rest) ok = kept steps (step s m) rest (step-IsIsolated s m free ok)

-- Whatever the schedule of the relay is, from its start on, if no socket joins that has a handler:
-- the table and the handlers refer to sessions of their own identifier; a socket that is a side of an
-- open session has a handler, and that one serves this session and no other; and the two sides of an
-- open session are two sockets.
pub run-IsIsolated : (steps : List Step) → AllNew steps start → IsIsolated (run steps start)
run-IsIsolated steps free = kept steps start free start-IsIsolated
