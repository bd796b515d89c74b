-- ===== src/RelayServer/Manager/Admitting.antt =====
-- cloud/relay: what a socket that joins finds, and how its handler goes on.
use lem.Base.{ℕ, suc, ◌≡◌, refl, ap, ◌∙◌, true, false, none, some, nat_eq, seq_eq}
use lem.Base.Dict.{lookup, put, put_self}
use lem.Text.{Text}
use lem.RelayServer.Session.{RelaySession, init, add_connection, is_ready}
use lem.RelayServer.Manager.{
  waiting, Handler, Manager, found_or_new, get_or_create_session, added, admit, join,
  begin_forwarding, in_phase, resume,
}

pub admit-found :
    (w : ℕ) (id : Text) (ref : ℕ) (s : RelaySession) (m : Manager)
    → lookup id m.sessions ≡ some ref
    → lookup ref m.objects ≡ some s
    → admit w id m ≡ record m {
      objects = put ref (add_connection w s).0 m.objects;
      handlers =
          put w
            (record { session_id = id; session = ref; phase = waiting (add_connection w s).1 })
            m.handlers;
    }
unfolding admit get_or_create_session
admit-found w id ref s m listed there = rw (listed, found_or_new) (rw (there, added) refl)

admit-new :
    (w : ℕ) (id : Text) (m : Manager)
    → lookup id m.sessions ≡ none
    → admit w id m ≡ record m {
      sessions = put id m.next_ref m.sessions;
      objects =
          put m.next_ref
            (record (init id) { client_ws = some w })
            (put m.next_ref (init id) m.objects);
      next_ref = suc m.next_ref;
      handlers =
          put w
            (record { session_id = id; session = m.next_ref; phase = waiting false })
            m.handlers;
    }
unfolding admit get_or_create_session init add_connection
admit-new w id m free =
    rw (free, found_or_new) (rw (put_self m.next_ref (init id) m.objects, added) refl)

-- The handler of the only side goes on sleeping.
resume-waits :
    (w : ℕ) (h : Handler) (s : RelaySession) (m : Manager)
    → lookup w m.handlers ≡ some h
    → h.phase ≡ waiting false
    → lookup h.session m.objects ≡ some s
    → is_ready s ≡ false
    → resume w m ≡ m
unfolding resume
resume-waits w h s m has phase there alone =
    rw (has, resume) (rw (phase, in_phase) (rw (there, begin_forwarding) (rw alone)))

abbrev opened : ℕ → Text → Manager → Manager
opened w id m = record m {
  sessions = put id m.next_ref m.sessions;
  objects =
      put m.next_ref (record (init id) { client_ws = some w }) (put m.next_ref (init id) m.objects);
  next_ref = suc m.next_ref;
  handlers =
      put w (record { session_id = id; session = m.next_ref; phase = waiting false }) m.handlers;
}

pub join-new :
    (w : ℕ) (id : Text) (m : Manager)
    → lookup id m.sessions ≡ none
    → join w id true m ≡ record m {
      sessions = put id m.next_ref m.sessions;
      objects =
          put m.next_ref
            (record (init id) { client_ws = some w })
            (put m.next_ref (init id) m.objects);
      next_ref = suc m.next_ref;
      handlers =
          put w
            (record { session_id = id; session = m.next_ref; phase = waiting false })
            m.handlers;
    }
unfolding join is_ready init
join-new w id m free =
    ap (resume w) (admit-new w id m free)
    ∙ resume-waits w (record { session_id = id; session = m.next_ref; phase = waiting false })
        (record (init id) { client_ws = some w }) (opened w id m) (put_self w _ m.handlers) refl
        (put_self m.next_ref _ _) refl
