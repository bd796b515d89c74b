-- ===== src/RelayServer/Manager/Life.antt =====
-- cloud/relay: the life of a session, from its first socket to the end of both handlers.
use lem.Base.{
  ℕ, ◌+◌, ◌≡◌, ◌≢◌, refl, sym, ap, subst, ◌∙◌, true, false, none, some, List, [], ◌∷◌, ◌++◌, map,
  nat_eq, seq_eq, arith,
}
use lem.Base.Dict.{lookup, put, put_self, put_other}
use lem.Text.{Text, Bytes}
use lem.RelayServer.Session.{
  RelaySession, Direction, client_to_server, server_to_client, Event, ends, init, add_connection,
  is_ready, exchange,
}
use lem.RelayServer.Exchange.{frames, total, all_pass, exchange-ends}
use lem.RelayServer.Manager.{waiting, Manager, joins, resumes, meets, admit, join, step, run}
use lem.RelayServer.Manager.Admitting.{join-new, admit-found}
use lem.RelayServer.Manager.Stages.{Stage, serves_all}

module _ (first second : ℕ) (id : Text) (m : Manager) (apart : first ≢ second)
    (free : lookup id m.sessions ≡ none) where
  abbrev half : RelaySession
  half = record (init id) { client_ws = some first }

  abbrev full : RelaySession
  full = record (init id) { client_ws = some first; server_ws = some second }

  -- Both handlers at the call of `start_forwarding`; that of the second goes on first.
  abbrev both_entered : Manager
  both_entered = admit second id (join first id true m)

  entered_there :
      Stage second first m.next_ref id
        (λ e. apart (sym e))
        full
        (waiting true)
        (waiting false)
        both_entered
  unfolding add_connection init
  entered_there =
      let at =
        Stage second first m.next_ref id (λ e. apart (sym e)) full (waiting true) (waiting false) in
      subst (λ n. at (admit second id n)) (sym (join-new first id m free))
        (subst at
          (sym (
            admit-found second id m.next_ref half _ (put_self id m.next_ref m.sessions)
              (put_self m.next_ref half (put m.next_ref (init id) m.objects))))
          (record {
            listed = put_self id m.next_ref m.sessions;
            object = put_self m.next_ref full _;
            one = put_self second _ _;
            other = put_other second first _ _ (λ e. apart (sym e)) ∙ put_self first _ m.handlers;
          }))

  -- The session behind the frames `fs`, when a side has ended it.
  abbrev pub served_session : List (Direction × Bytes) → RelaySession
  served_session fs = record full {
    forwarding_started = true;
    to_server = frames client_to_server fs;
    to_client = frames server_to_client fs;
    bytes_client_to_server = total (frames client_to_server fs);
    bytes_server_to_client = total (frames server_to_client fs);
    closed = true;
    closes = first ∷ second ∷ [];
  }

  served_there :
      (fs : List (Direction × Bytes)) (d : Direction)
      → exchange (all_pass fs ++ ends d ∷ []) (record full { forwarding_started = true })
        ≡ served_session fs
  unfolding init
  served_there fs d =
      let none_before : (k : ℕ) → 0 + k ≡ k = λ k. omega arith in
      exchange-ends fs d [] (record full { forwarding_started = true }) first second refl refl refl
      ∙ ap
          (λ k. record (served_session fs) {
            bytes_client_to_server = k;
            bytes_server_to_client = 0 + total (frames server_to_client fs);
          })
          (none_before (total (frames client_to_server fs)))
      ∙ ap (λ k. record (served_session fs) { bytes_server_to_client = k })
          (none_before (total (frames server_to_client fs)))

  -- Under an identifier with no session, two different sockets join, the second one's handler
  -- forwards and the first one's wakes up and watches, the two tasks forward whatever frames the
  -- sides send, in any interleaving, until a side ends, and the handlers end in turn. Then nothing
  -- stands under the identifier, neither socket has a handler, and the session's object tells what
  -- was done: each side got the other's frames, unchanged and in order, the counters have their
  -- lengths, and both sockets were closed, once each.
  pub run-serves :
      (fs : List (Direction × Bytes)) (d : Direction)
      → let after =
          run
            (joins first id true
              ∷ joins second id true
              ∷ resumes first
              ∷ (map (meets m.next_ref) (all_pass fs ++ ends d ∷ [])
                  ++ (resumes second ∷ resumes first ∷ [])))
            m in
        (lookup id after.sessions ≡ none)
        × (lookup first after.handlers ≡ none)
        × (lookup second after.handlers ≡ none)
        × (lookup m.next_ref after.objects ≡ some (served_session fs))
  unfolding run step join is_ready init
  run-serves fs d =
      let es : List Event = all_pass fs ++ ends d ∷ [] in
      let done = served_there fs d in
      let over =
        serves_all second first m.next_ref id (λ e. apart (sym e)) true false es full both_entered
          refl refl (ap RelaySession.closed done) entered_there in
      (over.listed, over.other, over.one, over.object ∙ ap some done)
