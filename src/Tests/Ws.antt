-- ===== src/Tests/Ws.antt =====
-- The WebSocket proxy and the dispatcher on concrete frames.
use lem.Base.{◌≡◌, refl, none, some, List, [], ◌∷◌, ◌++◌, nat_beq, nat_eq, if◌then◌else◌, ok}
use lem.Base.Dict.{lookup, contains}
use lem.Text.{encode, encode_char}
use lem.Text.Methods.{lit}
use lem.Tunnel.Router.{route}
use lem.Tunnel.HttpProxy.{Session}
use lem.Tunnel.WsFrame.{WsDataFrame}
use lem.Tunnel.WsProxy.State.{WsProxyHandler, World, init, send_str}
use lem.Tunnel.WsProxy.Connect.{handle_data, handle_close, dial}
use lem.Tunnel.WsProxy.Connect.Effects.{handle_data-forwards, handle_close-closes, left}
use lem.Tunnel.WsProxy.Relay.{Event, text, binary}
use lem.Tunnel.WsProxy.Relay.Fidelity.{data_frame}
use lem.Tunnel.WsProxy.Paired.{IsPaired}
use lem.Tunnel.WsProxy.Runs.{starts, connects, datas, relays, stops, run, run-IsPaired}
use lem.Tunnel.WsProxy.Reuse.{reconnected, reused_id_orphans}
use lem.Tunnel.Dispatcher.{dispatch}
use lem.Tunnel.Frame.{Frame}
use lem.Tunnel.Dispatcher.Routes.{dispatch-written}
use lem.Tests.Fixtures.{Headers, headers_json, plain_urls}
use lem.Tests.Frames
use lem.Tests.Http.{router, proxy, world}

-- An upstream that accepts every connection as socket 9 and every call, and a channel that takes
-- every frame.
abbrev pub upstream : World Headers
upstream = record {
  ws_connect = λ url headers. ok 9;
  send_frame = λ bytes. ok tt;
  call = λ ws c. ok tt;
  message_of = λ e. lit "?";
  meanwhile = λ h. h;
}

-- Connection 3 on socket 8, with task 0.
abbrev pub stored : WsProxyHandler
stored = record {
  router = router;
  connections = (3, 8) ∷ [];
  relay_tasks = (3, 0) ∷ [];
  session = Session.opened;
  next_task = 1;
  sent = [];
  upstream = [];
  cancelled = [];
}

found : lookup 3 stored.connections ≡ some 8
unfolding lookup
found = refl

run-IsPaired_example : IsPaired (
    run headers_json plain_urls
      (starts
        ∷ connects upstream Frames.connect_bytes
        ∷ datas upstream Frames.data_frame_bytes
        ∷ relays upstream 3 (text (lit "hi") ∷ [])
        ∷ stops upstream
        ∷ [])
      (init router))
run-IsPaired_example =
    run-IsPaired headers_json plain_urls router
      (starts
        ∷ connects upstream Frames.connect_bytes
        ∷ datas upstream Frames.data_frame_bytes
        ∷ relays upstream 3 (text (lit "hi") ∷ [])
        ∷ stops upstream
        ∷ [])
      (tt, ((λ h p. p), (tt, ((tt, tt), ((λ h p. p), tt)))))

abbrev messages : List Event
messages = text (lit "hi") ∷ binary (0 ∷ 255 ∷ []) ∷ []

abbrev carried : List WsDataFrame
carried = data_frame 3 1 (lit "hi") ∷ data_frame 3 2 (0 ∷ 255 ∷ []) ∷ []

handle_data-forwards_test :
    handle_data headers_json plain_urls upstream (Frames.data_frame_bytes ++ []) stored
    ≡ record stored { upstream = [] ++ (8, send_str (lit "hi")) ∷ [] }
handle_data-forwards_test =
    handle_data-forwards headers_json plain_urls upstream Frames.data_frame (send_str (lit "hi"))
      Frames.data_frame_bytes [] 8 stored Frames.data_frame-written
      (refl, (unfold encode encode_char in refl)) found refl

abbrev after_close : WsProxyHandler
after_close = handle_close headers_json plain_urls upstream (Frames.close_frame_bytes ++ []) stored

abbrev during_close : WsProxyHandler
during_close = left headers_json plain_urls upstream Frames.close_frame (lit "bye") 8 stored

handle_close-closes_test :
    (lookup 3 after_close.connections
      ≡ (if nat_beq 3 3 then none else lookup 3 during_close.connections))
    × (lookup 3 after_close.relay_tasks
        ≡ (if nat_beq 3 3 then none else lookup 3 during_close.relay_tasks))
handle_close-closes_test =
    handle_close-closes headers_json plain_urls upstream Frames.close_frame (lit "bye")
      Frames.close_frame_bytes [] 8 stored Frames.close_frame-written
      (unfold encode encode_char in refl) found refl (unfold contains lookup in refl) 3

dialled : dial headers_json plain_urls upstream stored Frames.connect ≡ ok 9
unfolding dial route lookup
dialled = refl

abbrev again : WsProxyHandler
again =
    reconnected headers_json plain_urls upstream upstream stored Frames.connect Frames.connect_bytes

reused_id_orphans_example :
    (lookup 3 again.connections ≡ none)
    × (lookup 3 again.relay_tasks ≡ none)
    × (again.upstream ≡ stored.upstream)
    × (handle_data headers_json plain_urls upstream Frames.data_frame_bytes again ≡ again)
reused_id_orphans_example =
    reused_id_orphans headers_json plain_urls upstream upstream stored Frames.connect
      Frames.connect_bytes 8 9 Frames.data_frame Frames.data_frame_bytes refl found
      Frames.connect-written dialled Frames.data_frame-written refl

dispatch-written_example :
    dispatch headers_json plain_urls world upstream proxy (Frames.data_frame_bytes ++ []) stored
    ≡ (ok none, handle_data headers_json plain_urls upstream (Frames.data_frame_bytes ++ []) stored)
dispatch-written_example =
    dispatch-written headers_json plain_urls world upstream proxy stored Frames.data_frame_bytes []
      (Frame.ws_data Frames.data_frame) Frames.data_frame-written
