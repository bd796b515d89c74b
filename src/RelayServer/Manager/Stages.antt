-- ===== src/RelayServer/Manager/Stages.antt =====
-- cloud/relay: the stages of one session, from two joined sockets to the end of both handlers.
use lem.Base.{
  ℕ, ◌≡◌, ◌≢◌, Bool, refl, sym, ap, subst, ◌∙◌, true, false, none, some, List, [], ◌∷◌, ◌++◌, map,
  nat_eq, seq_eq,
}
use lem.Base.Dict.{lookup, remove, put_self, put_other, remove_other, lookup-remove, beq_refl}
use lem.Text.{Text}
use lem.RelayServer.Session.{RelaySession, Event, is_ready, close, exchange}
use lem.RelayServer.Manager.{
  Phase, waiting, forwarding, watching, Handler, Manager, resume, resumes, meets, step, run,
}
use lem.RelayServer.Manager.Stale.{remove_session-found}
use lem.RelayServer.Manager.Serving.{
  with_object, run-meets, close-closed, resume-begins, resume-watches, resume-ends,
  remove_session-none, ready_same, IsServing,
}

-- What the life of one session is followed by: its object, its entry in the table, and its handlers.
module _ (first second ref : ℕ) (id : Text) (apart : first ≢ second) where
  abbrev pub serves : Phase → Handler
  serves p = record { session_id = id; session = ref; phase = p }

  pub record Stage (s : RelaySession) (p q : Phase) (m : Manager) : Type 0 where
    pub listed : lookup id m.sessions ≡ some ref
    pub object : lookup ref m.objects ≡ some s
    pub one : lookup first m.handlers ≡ some (serves p)
    pub other : lookup second m.handlers ≡ some (serves q)

  pub record Over (s : RelaySession) (m : Manager) : Type 0 where
    pub listed : lookup id m.sessions ≡ none
    pub object : lookup ref m.objects ≡ some s
    pub one : lookup first m.handlers ≡ none
    pub other : lookup second m.handlers ≡ none

  begins_there :
      (a b : Bool) (s : RelaySession) (m : Manager)
      → is_ready s ≡ true
      → s.forwarding_started ≡ false
      → Stage s (waiting a) (waiting b) m
      → Stage (record s { forwarding_started = true }) forwarding (waiting b) (resume first m)
  begins_there a b s m ready fresh g =
      subst (Stage (record s { forwarding_started = true }) forwarding (waiting b))
        (sym (resume-begins first a (serves (waiting a)) s m g.one refl g.object ready fresh))
        (record {
          listed = g.listed;
          object = put_self ref _ m.objects;
          one = put_self first (serves forwarding) m.handlers;
          other = put_other first second (serves forwarding) m.handlers apart ∙ g.other;
        })

  watches_there :
      (b : Bool) (p : Phase) (s : RelaySession) (m : Manager)
      → is_ready s ≡ true
      → s.forwarding_started ≡ true
      → Stage s p (waiting b) m
      → Stage s p watching (resume second m)
  watches_there b p s m ready started g =
      subst (Stage s p watching)
        (sym (resume-watches second b (serves (waiting b)) s m g.other refl g.object ready started))
        (record {
          listed = g.listed;
          object = g.object;
          one = put_other second first (serves watching) m.handlers (λ e. apart (sym e)) ∙ g.one;
          other = put_self second (serves watching) m.handlers;
        })

  met_there :
      (s s' : RelaySession) (p q : Phase) (m : Manager)
      → Stage s p q m
      → Stage s' p q (with_object ref s' m)
  unfolding with_object
  met_there s s' p q m g = record {
    listed = g.listed;
    object = put_self ref s' m.objects;
    one = g.one;
    other = g.other;
  }

  first_leaves :
      (s : RelaySession) (p q : Phase) (m : Manager)
      → IsServing p
      → s.closed ≡ true
      → Stage s p q m
      → (lookup id (resume first m).sessions ≡ none)
        × (lookup ref (resume first m).objects ≡ some s)
        × (lookup first (resume first m).handlers ≡ none)
        × (lookup second (resume first m).handlers ≡ some (serves q))
  first_leaves s p q m serving gone g =
      rw
        (resume-ends first (serves p) s m g.one serving g.object gone
          ∙ remove_session-found id ref s (record m { handlers = remove first m.handlers }) g.listed
              g.object)
        (
          rw lookup-remove (rw beq_refl),
          put_self ref (close s) m.objects ∙ ap some (close-closed s gone),
          rw lookup-remove (rw beq_refl),
          remove_other first second m.handlers apart ∙ g.other,
        )

  second_leaves :
      (s : RelaySession) (q : Phase) (m : Manager)
      → IsServing q
      → s.closed ≡ true
      → lookup id m.sessions ≡ none
      → lookup ref m.objects ≡ some s
      → lookup first m.handlers ≡ none
      → lookup second m.handlers ≡ some (serves q)
      → Over s (resume second m)
  second_leaves s q m serving gone listed object one other =
      let left : Manager = record m { handlers = remove second m.handlers } in
      subst (Over s)
        (sym (
          resume-ends second (serves q) s m other serving object gone
          ∙ remove_session-none id left listed))
        (record {
          listed = listed;
          object = object;
          one = remove_other second first m.handlers (λ e. apart (sym e)) ∙ one;
          other = rw lookup-remove (rw beq_refl);
        })

  -- From two joined sockets on, with the last event ending the session.
  pub serves_all :
      (a b : Bool) (es : List Event) (s : RelaySession) (m : Manager)
      → is_ready s ≡ true
      → s.forwarding_started ≡ false
      → (exchange es (record s { forwarding_started = true })).closed ≡ true
      → Stage s (waiting a) (waiting b) m
      → Over (exchange es (record s { forwarding_started = true })) (
          run
            (resumes first
              ∷ resumes second
              ∷ (map (meets ref) es ++ (resumes first ∷ resumes second ∷ [])))
            m)
  unfolding run step
  serves_all a b es s m ready fresh gone g =
      let s' : RelaySession = record s { forwarding_started = true } in
      let t = exchange es s' in
      let forwards_first = begins_there a b s m ready fresh g in
      let both =
        watches_there b forwarding s' (resume first m) (ready_same s ready) refl forwards_first in
      let met = met_there s' t forwarding watching (resume second (resume first m)) both in
      let m' = with_object ref t (resume second (resume first m)) in
      let (listed, object, one, other) = first_leaves t forwarding watching m' tt gone met in
      subst (Over t)
        (sym (
          run-meets ref es (resumes first ∷ resumes second ∷ []) s' (resume second (resume first m))
            both.object refl))
        (second_leaves t watching (resume first m') tt gone listed object one other)
