-- ===== src/RelayServer/Manager/Serving.antt =====
-- cloud/relay: what the handlers and the forwarding tasks of one session do, step by step.
use lem.Base.{
  ℕ, ◌≡◌, Bool, refl, sym, ap, ◌∙◌, true, false, none, some, List, [], ◌∷◌, ◌++◌, map, Bool-cases,
  inl, inr, nat_eq, seq_eq, arith,
}
use lem.Base.Dict.{lookup, put, remove, put_self, put-put, put_same}
use lem.Text.{Text}
use lem.RelayServer.Session.{RelaySession, Event, is_ready, close, on_event, exchange}
use lem.RelayServer.Exchange.{exchange-closed}
use lem.RelayServer.Manager.{
  Phase, waiting, forwarding, watching, Handler, Manager, update, close_and_drop, remove_session,
  leave, begin_forwarding, set_phase, in_phase, resume, forwards, Step, meets, step, run,
}

-- One session is carried on from a manager's state: its object, and its handlers.
unfoldable pub with_object : ℕ → RelaySession → Manager → Manager
with_object ref s m = record m { objects = put ref s m.objects }

on_event-started :
    (e : Event) (s : RelaySession) → (on_event e s).forwarding_started ≡ s.forwarding_started
unfolding on_event close
on_event-started e s = ground arith

forwards-open :
    (e : Event) (s : RelaySession)
    → s.forwarding_started ≡ true
    → s.closed ≡ false
    → forwards e s ≡ on_event e s
forwards-open e s started open_ = ground (arith, started, open_)

forwards-closed : (e : Event) (s : RelaySession) → s.closed ≡ true → forwards e s ≡ s
forwards-closed e s gone = ground (arith, gone)

exchange-open :
    (e : Event) (es : List Event) (s : RelaySession)
    → s.closed ≡ false
    → exchange (e ∷ es) s ≡ exchange es (on_event e s)
unfolding exchange
exchange-open e es s open_ = ground (arith, open_)

exchange-step :
    (e : Event) (es : List Event) (s : RelaySession)
    → s.forwarding_started ≡ true
    → exchange es (forwards e s) ≡ exchange (e ∷ es) s
exchange-step e es s started = elim (Bool-cases s.closed) [
  | inl gone ↦
      ap (exchange es) (forwards-closed e s gone)
      ∙ exchange-closed es s gone
      ∙ sym (exchange-closed (e ∷ es) s gone)
  | inr open_ ↦
      ap (exchange es) (forwards-open e s started open_) ∙ sym (exchange-open e es s open_)
]

forwards-started :
    (e : Event) (s : RelaySession)
    → s.forwarding_started ≡ true
    → (forwards e s).forwarding_started ≡ true
forwards-started e s started = ground (arith, started, on_event-started e s)

-- What the forwarding tasks of a session meet, one after the other.
pub run-meets :
    (ref : ℕ) (es : List Event) (rest : List Step) (s : RelaySession) (m : Manager)
    → lookup ref m.objects ≡ some s
    → s.forwarding_started ≡ true
    → run (map (meets ref) es ++ rest) m ≡ run rest (with_object ref (exchange es s) m)
unfolding run step with_object exchange
run-meets ref [] rest s m there started =
    ap (λ o. run rest (record m { objects = o })) (sym (put_same ref s m.objects there))
run-meets ref (e ∷ es) rest s m there started =
    let met : update ref (forwards e) m ≡ with_object ref (forwards e s) m =
      rw (there, update) refl in
    ap (run (map (meets ref) es ++ rest)) met
    ∙ run-meets ref es rest (forwards e s) (with_object ref (forwards e s) m)
        (put_self ref (forwards e s) m.objects) (forwards-started e s started)
    ∙ ap (λ o. run rest (record m { objects = o }))
        (put-put ref (exchange es (forwards e s)) (forwards e s) m.objects
          ∙ ap (λ x. put ref x m.objects) (exchange-step e es s started))

pub close-closed : (s : RelaySession) → s.closed ≡ true → close s ≡ s
unfolding close
close-closed s gone = ground (arith, gone)

pub resume-begins :
    (w : ℕ) (second : Bool) (h : Handler) (s : RelaySession) (m : Manager)
    → lookup w m.handlers ≡ some h
    → h.phase ≡ waiting second
    → lookup h.session m.objects ≡ some s
    → is_ready s ≡ true
    → s.forwarding_started ≡ false
    → resume w m ≡ record m {
      objects = put h.session (record s { forwarding_started = true }) m.objects;
      handlers = put w (record h { phase = forwarding }) m.handlers;
    }
unfolding resume set_phase
resume-begins w second h s m has phase there ready fresh =
    rw (has, resume)
      (rw (phase, in_phase) (rw (there, begin_forwarding) (ground (arith, ready, fresh))))

pub resume-watches :
    (w : ℕ) (second : Bool) (h : Handler) (s : RelaySession) (m : Manager)
    → lookup w m.handlers ≡ some h
    → h.phase ≡ waiting second
    → lookup h.session m.objects ≡ some s
    → is_ready s ≡ true
    → s.forwarding_started ≡ true
    → resume w m ≡ record m { handlers = put w (record h { phase = watching }) m.handlers }
unfolding resume set_phase
resume-watches w second h s m has phase there ready started =
    rw (has, resume)
      (rw (phase, in_phase) (rw (there, begin_forwarding) (ground (arith, ready, started))))

-- Behind its sleep or its forwarding tasks, once the session is closed.
abbrev pub IsServing : Phase → Type 0
IsServing (waiting second) = ⊥
IsServing forwarding = Unit
IsServing watching = Unit

in_phase-ends :
    (w : ℕ) (p : Phase) (h : Handler) (s : RelaySession) (m : Manager)
    → IsServing p
    → lookup h.session m.objects ≡ some s
    → s.closed ≡ true
    → in_phase w h p m ≡ remove_session h.session_id (record m { handlers = remove w m.handlers })
unfolding in_phase
in_phase-ends w (waiting second) h s m serving there gone = absurd serving
in_phase-ends w forwarding h s m serving there gone = rw (there, leave) (rw gone)
in_phase-ends w watching h s m serving there gone = rw (there, leave) (rw gone)

pub resume-ends :
    (w : ℕ) (h : Handler) (s : RelaySession) (m : Manager)
    → lookup w m.handlers ≡ some h
    → IsServing h.phase
    → lookup h.session m.objects ≡ some s
    → s.closed ≡ true
    → resume w m ≡ remove_session h.session_id (record m { handlers = remove w m.handlers })
unfolding resume
resume-ends w h s m has serves there gone =
    rw (has, resume) (in_phase-ends w h.phase h s m serves there gone)

pub remove_session-none :
    (id : Text) (m : Manager) → lookup id m.sessions ≡ none → remove_session id m ≡ m
unfolding remove_session
remove_session-none id m e = rw (e, close_and_drop) refl

pub ready_same :
    (s : RelaySession)
    → is_ready s ≡ true
    → is_ready (record s { forwarding_started = true }) ≡ true
unfolding is_ready
ready_same s h = h
