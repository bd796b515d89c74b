-- ===== src/RelayServer/Exchange.antt =====
-- cloud/relay/app/core/session_manager.py: what one session forwards, counts and closes.
use lem.Base.{
  ℕ, ◌+◌, ◌≡◌, refl, ◌∙◌, ap, true, false, none, some, List, [], ◌∷◌, ◌++◌, length, arith,
  append_assoc, append-nil,
}
use lem.Text.{Bytes}
use lem.RelayServer.Session.{
  RelaySession, Direction, client_to_server, server_to_client, Event, passes, ends, add_connection,
  is_ready, on_event, exchange,
}

-- The frames of one direction among those that are forwarded.
unfoldable pub frames : Direction → List (Direction × Bytes) → List Bytes
frames d [] = []
frames client_to_server ((client_to_server, f) ∷ fs) = f ∷ frames client_to_server fs
frames client_to_server ((server_to_client, f) ∷ fs) = frames client_to_server fs
frames server_to_client ((client_to_server, f) ∷ fs) = frames server_to_client fs
frames server_to_client ((server_to_client, f) ∷ fs) = f ∷ frames server_to_client fs

unfoldable pub total : List Bytes → ℕ
total [] = 0
total (f ∷ fs) = length f + total fs

abbrev pub all_pass : List (Direction × Bytes) → List Event
all_pass [] = []
all_pass ((d, f) ∷ fs) = passes d f ∷ all_pass fs

-- In an open session each side gets the frames that the other side sent, all of them, unchanged
-- and in their order, however the two directions interleave; the two counters are raised by the
-- lengths of those frames, and nothing else changes.
pub exchange-forwards :
    (fs : List (Direction × Bytes)) (s : RelaySession)
    → s.closed ≡ false
    → exchange (all_pass fs) s ≡ record s {
      to_server = s.to_server ++ frames client_to_server fs;
      to_client = s.to_client ++ frames server_to_client fs;
      bytes_client_to_server = s.bytes_client_to_server + total (frames client_to_server fs);
      bytes_server_to_client = s.bytes_server_to_client + total (frames server_to_client fs);
    }
unfolding exchange on_event frames total
exchange-forwards [] s open_ = ground (arith, append-nil s.to_server, append-nil s.to_client)
exchange-forwards ((client_to_server, f) ∷ fs) s open_ = ground (
  arith,
  exchange-forwards fs (on_event (passes client_to_server f) s) open_,
  append_assoc s.to_server (f ∷ []) (frames client_to_server fs),
)
exchange-forwards ((server_to_client, f) ∷ fs) s open_ = ground (
  arith,
  exchange-forwards fs (on_event (passes server_to_client f) s) open_,
  append_assoc s.to_client (f ∷ []) (frames server_to_client fs),
)

all_pass-then :
    (fs : List (Direction × Bytes)) (es : List Event) (s : RelaySession)
    → s.closed ≡ false
    → exchange (all_pass fs ++ es) s ≡ exchange es (exchange (all_pass fs) s)
unfolding exchange on_event
all_pass-then [] es s open_ = refl
all_pass-then ((client_to_server, f) ∷ fs) es s open_ =
    ground (arith, all_pass-then fs es (on_event (passes client_to_server f) s) open_)
all_pass-then ((server_to_client, f) ∷ fs) es s open_ =
    ground (arith, all_pass-then fs es (on_event (passes server_to_client f) s) open_)

pub exchange-closed : (es : List Event) (s : RelaySession) → s.closed ≡ true → exchange es s ≡ s
unfolding exchange
exchange-closed [] s c = refl
exchange-closed (e ∷ es) s c = rw c

exchange-ended :
    (d : Direction) (es : List Event) (t : RelaySession) (client server : ℕ)
    → t.closed ≡ false
    → t.client_ws ≡ some client
    → t.server_ws ≡ some server
    → exchange (ends d ∷ es) t
      ≡ record t { closed = true; closes = t.closes ++ (client ∷ server ∷ []) }
unfolding exchange on_event
exchange-ended d es t client server o c v = ground (
  arith,
  exchange-closed es (record t { closed = true; closes = t.closes ++ (client ∷ server ∷ []) }) refl,
)

-- The first side that ends closes the session: both sockets are closed, once each, and whatever
-- the tasks would have met later is neither forwarded nor counted.
pub exchange-ends :
    (fs : List (Direction × Bytes)) (d : Direction) (es : List Event) (s : RelaySession)
    (client server : ℕ)
    → s.closed ≡ false
    → s.client_ws ≡ some client
    → s.server_ws ≡ some server
    → exchange (all_pass fs ++ (ends d ∷ es)) s ≡ record s {
      to_server = s.to_server ++ frames client_to_server fs;
      to_client = s.to_client ++ frames server_to_client fs;
      bytes_client_to_server = s.bytes_client_to_server + total (frames client_to_server fs);
      bytes_server_to_client = s.bytes_server_to_client + total (frames server_to_client fs);
      closed = true;
      closes = s.closes ++ (client ∷ server ∷ []);
    }
exchange-ends fs d es s client server open_ hc hs =
    all_pass-then fs (ends d ∷ es) s open_
    ∙ ap (exchange (ends d ∷ es)) (exchange-forwards fs s open_)
    ∙ exchange-ended d es _ client server open_ hc hs

-- Joining the sockets of a list one after the other.
pub join_all : List ℕ → RelaySession → RelaySession
join_all [] s = s
join_all (ws ∷ rest) s = join_all rest (add_connection ws s).0

join_all-ready : (rest : List ℕ) (s : RelaySession) → is_ready s ≡ true → join_all rest s ≡ s
unfolding join_all add_connection is_ready
join_all-ready [] s r = refl
join_all-ready (ws ∷ rest) s r = ground (arith, join_all-ready rest s r)

-- In a session the first socket to join is the client's side and the second the server's; the
-- second one's join, and no other, reports that both are there; later ones change nothing.
pub join_all-sides :
    (first second third : ℕ) (rest : List ℕ) (s : RelaySession)
    → s.client_ws ≡ none
    → s.server_ws ≡ none
    → (join_all (first ∷ second ∷ rest) s
        ≡ record s { client_ws = some first; server_ws = some second })
      × ((add_connection first s).1 ≡ false)
      × ((add_connection second (add_connection first s).0).1 ≡ true)
      × (add_connection third (join_all (first ∷ second ∷ rest) s)
          ≡ (join_all (first ∷ second ∷ rest) s, false))
unfolding join_all add_connection is_ready
join_all-sides first second third rest s hc hs =
    let ready =
      join_all-ready rest (record s { client_ws = some first; server_ws = some second }) refl in
    (ground (arith, ready), ground arith, ground arith, ground (arith, ready))
