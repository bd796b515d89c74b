-- ===== src/Tunnel/RelayClient/Reconnect.antt =====
-- server/app/tunnel/relay_client.py: how long reconnection waits, and what ends it.
use lem.Base.{
  ℕ, suc, ◌*◌, ◌^◌, ◌≡◌, sym, ◌∙◌, ap, subst, min, true, false, List, [], ◌∷◌, ◌++◌, append_assoc,
  arith, if◌then◌else◌, Result, ok, err, Exn, not_connected,
}
use mathlib.Core.Path.{ap₂}
use lem.Text.{Bytes}
use lem.Tunnel.HttpProxy.{opened}
use lem.Tunnel.WsProxy.State
use lem.Tunnel.RelayClient.{
  RelayClient, connected, failed, Socket, no_socket, open_socket, shut_socket, Attempt, set_state,
  is_connected, has_parameters, connect_relay, opened_socket, disconnect, send, send_on,
  reconnect_full, wait, handle_reconnect, reset, after_attempt, drop_socket,
}

-- Attempts whose sleeps nothing interrupts, and which fail.
abbrev pub failing : List Exn → List Attempt
failing [] = []
failing (e ∷ es) = record { meanwhile = λ c. c; answer = err e } ∷ failing es

abbrev pub succeeds : ℕ → Attempt
succeeds n = record { meanwhile = λ c. c; answer = ok n }

-- The delays `min (d * 2 ^ i) top`, from `i` on, one more than there are failures.
unfoldable pub backoff : ℕ → ℕ → ℕ → List Exn → List ℕ
backoff d top i [] = min (d * 2 ^ i) top ∷ []
backoff d top i (e ∷ es) = min (d * 2 ^ i) top ∷ backoff d top (suc i) es

doubled : (d top i : ℕ) → min (min (d * 2 ^ i) top * 2) top ≡ min (d * 2 ^ suc i) top
doubled d top i = grind arith

-- The state behind one attempt that failed.
abbrev failed_once : RelayClient → RelayClient
failed_once c =
    (set_state failed (record c {
      ws = drop_socket c.ws;
      ws_session = opened;
      slept = c.slept ++ c.reconnect_delay ∷ [];
      reconnect_delay = min (c.reconnect_delay * 2) c.max_reconnect_delay;
    }))

failed_once-keeps :
    (c : RelayClient)
    → ((failed_once c).should_reconnect ≡ c.should_reconnect)
      × (has_parameters (failed_once c) ≡ has_parameters c)
      × ((failed_once c).slept ≡ c.slept ++ c.reconnect_delay ∷ [])
      × ((failed_once c).reconnect_delay ≡ min (c.reconnect_delay * 2) c.max_reconnect_delay)
      × ((failed_once c).max_reconnect_delay ≡ c.max_reconnect_delay)
unfolding set_state
failed_once-keeps c = ground arith

reconnect_full-attempts :
    (answer : Result ℕ) (c : RelayClient)
    → has_parameters c ≡ true
    → reconnect_full answer c
      ≡ opened_socket answer (record c { ws = drop_socket c.ws; ws_session = opened })
unfolding reconnect_full connect_relay
reconnect_full-attempts answer c has = rw has

tried_once :
    (a : Attempt) (attempts : List Attempt) (c : RelayClient) (r : Result (Unit {0}) × RelayClient)
    → c.should_reconnect ≡ true
    → reconnect_full a.answer (wait a.meanwhile c) ≡ r
    → handle_reconnect (a ∷ attempts) c ≡ after_attempt r.0 (handle_reconnect attempts r.1) r.1
unfolding handle_reconnect
tried_once a attempts c r on e =
    let tried = reconnect_full a.answer (wait a.meanwhile c) in
    ap (λ b. if b then after_attempt tried.0 (handle_reconnect attempts tried.1) tried.1 else c) on
    ∙ ap (λ t. after_attempt t.0 (handle_reconnect attempts t.1) t.1) e

fails_once :
    (e : Exn) (attempts : List Attempt) (c : RelayClient)
    → c.should_reconnect ≡ true
    → has_parameters c ≡ true
    → handle_reconnect (record { meanwhile = λ s. s; answer = err e } ∷ attempts) c
      ≡ handle_reconnect attempts (failed_once c)
unfolding wait opened_socket
fails_once e attempts c on has =
    tried_once (record { meanwhile = λ s. s; answer = err e }) attempts c (err e, failed_once c) on
      (reconnect_full-attempts (err e) (wait (λ s. s) c) has)

-- The state behind one attempt that succeeded.
abbrev recovered_once : ℕ → RelayClient → RelayClient
recovered_once n c =
    let joined = set_state connected (record c {
      ws = open_socket n;
      ws_session = opened;
      slept = c.slept ++ c.reconnect_delay ∷ [];
      reconnect_delay = min (c.reconnect_delay * 2) c.max_reconnect_delay;
    }) in
    record joined { tasks = joined.tasks ++ n ∷ [] }

recovers_once :
    (n : ℕ) (later : List Attempt) (c : RelayClient)
    → c.should_reconnect ≡ true
    → has_parameters c ≡ true
    → handle_reconnect (succeeds n ∷ later) c ≡ reset (recovered_once n c)
unfolding wait opened_socket
recovers_once n later c on has =
    tried_once (succeeds n) later c (ok tt, recovered_once n c) on
      (reconnect_full-attempts (ok n) (wait (λ s. s) c) has)

-- What holds once a reconnection has succeeded with socket `n` after the sleeps `delays`.
pub record Recovered (n : ℕ) (delays : List ℕ) (c : RelayClient) : Type 0 where
  pub is_open : c.ws ≡ open_socket n
  pub is_up : is_connected c ≡ true
  pub is_reset : c.reconnect_delay ≡ 2
  pub waited : c.slept ≡ delays

recovered :
    (n : ℕ) (c : RelayClient)
    → Recovered n (c.slept ++ c.reconnect_delay ∷ []) (reset (recovered_once n c))
unfolding set_state is_connected
recovered n c = record {
  is_open = ground arith;
  is_up = ground arith;
  is_reset = ground arith;
  waited = ground arith;
}

recovers :
    (es : List Exn) (n i d top : ℕ) (later : List Attempt) (c : RelayClient)
    → c.should_reconnect ≡ true
    → has_parameters c ≡ true
    → c.max_reconnect_delay ≡ top
    → c.reconnect_delay ≡ min (d * 2 ^ i) top
    → Recovered n
        (c.slept ++ backoff d top i es)
        (handle_reconnect (failing es ++ succeeds n ∷ later) c)
unfolding backoff
recovers [] n i d top later c on has capped now =
    subst (λ x. Recovered n (c.slept ++ x ∷ []) (handle_reconnect (succeeds n ∷ later) c)) now
      (subst (Recovered n (c.slept ++ c.reconnect_delay ∷ []))
        (sym (recovers_once n later c on has)) (recovered n c))
recovers (e ∷ es) n i d top later c on has capped now =
    let (on', has', slept', delay', top') = failed_once-keeps c in
    let doubled_delay : (failed_once c).reconnect_delay ≡ min (d * 2 ^ suc i) top =
      delay' ∙ ap₂ (λ x m. min (x * 2) m) now capped ∙ doubled d top i in
    let rest =
      recovers es n (suc i) d top later (failed_once c) (on' ∙ on) (has' ∙ has) (top' ∙ capped)
        doubled_delay in
    let delays : (failed_once c).slept ++ backoff d top (suc i) es
        ≡ c.slept ++ min (d * 2 ^ i) top ∷ backoff d top (suc i) es =
      ap (λ l. l ++ backoff d top (suc i) es) (slept' ∙ ap (λ x. c.slept ++ x ∷ []) now)
      ∙ append_assoc c.slept (min (d * 2 ^ i) top ∷ []) (backoff d top (suc i) es) in
    subst (λ l. Recovered n l (handle_reconnect (failing (e ∷ es) ++ succeeds n ∷ later) c)) delays
      (subst (Recovered n _) (sym (fails_once e (failing es ++ succeeds n ∷ later) c on has)) rest)

-- A client with parameters that is to reconnect, after any number of failed attempts and one that
-- gets socket `n`: the client is connected over `n`, its delay is the first one again, and it has
-- slept before the attempts for 2, 4, 8, 16, 32 and from then on 60 seconds.
pub handle_reconnect-recovers :
    (es : List Exn) (n : ℕ) (later : List Attempt) (c : RelayClient)
    → c.should_reconnect ≡ true
    → has_parameters c ≡ true
    → c.max_reconnect_delay ≡ 60
    → c.reconnect_delay ≡ 2
    → Recovered n
        (c.slept ++ backoff 2 60 0 es)
        (handle_reconnect (failing es ++ succeeds n ∷ later) c)
handle_reconnect-recovers es n later c on has top first =
    recovers es n 0 2 60 later c on has top (first ∙ omega arith)

send-closed :
    (takes : Bytes → Result (Unit {0})) (frame_bytes : Bytes) (s : Socket) (c : RelayClient)
    → c.ws ≡ drop_socket s
    → send takes frame_bytes c ≡ (err not_connected, c)
unfolding send
send-closed takes frame_bytes no_socket c e = ap (λ x. send_on takes frame_bytes x c) e
send-closed takes frame_bytes (open_socket n) c e = ap (λ x. send_on takes frame_bytes x c) e
send-closed takes frame_bytes (shut_socket n) c e = ap (λ x. send_on takes frame_bytes x c) e

handle_reconnect-off :
    (attempts : List Attempt) (c : RelayClient)
    → c.should_reconnect ≡ false
    → handle_reconnect attempts c ≡ c
unfolding handle_reconnect
handle_reconnect-off [] c off =
    ap (λ b. if b then record c { slept = c.slept ++ c.reconnect_delay ∷ [] } else c) off
handle_reconnect-off (a ∷ attempts) c off =
    let tried = reconnect_full a.answer (wait a.meanwhile c) in
    ap (λ b. if b then after_attempt tried.0 (handle_reconnect attempts tried.1) tried.1 else c) off

module _ {V : Type 0} (world : State.World V) where
  disconnect-fields :
      (c : RelayClient)
      → ((disconnect world c).should_reconnect ≡ false)
        × ((disconnect world c).ws ≡ drop_socket c.ws)
        × (has_parameters (disconnect world c) ≡ has_parameters c)
        × (is_connected (disconnect world c) ≡ false)
  unfolding disconnect is_connected set_state
  disconnect-fields c = ground arith

  -- After `disconnect` the client is not connected, refuses to send, and does not begin to
  -- reconnect.
  pub disconnect-stops :
      (c : RelayClient) (takes : Bytes → Result (Unit {0})) (frame_bytes : Bytes)
      (attempts : List Attempt)
      → (is_connected (disconnect world c) ≡ false)
        × (send takes frame_bytes (disconnect world c) ≡ (err not_connected, disconnect world c))
        × (handle_reconnect attempts (disconnect world c) ≡ disconnect world c)
  disconnect-stops c takes frame_bytes attempts =
      let (off, dropped, has, down) = disconnect-fields c in
      (
        down,
        send-closed takes frame_bytes c.ws (disconnect world c) dropped,
        handle_reconnect-off attempts (disconnect world c) off,
      )

  joined-fields :
      (n : ℕ) (c : RelayClient)
      → (is_connected (reset (opened_socket (ok n) c).1) ≡ true)
        × ((reset (opened_socket (ok n) c).1).ws ≡ open_socket n)
        × ((reset (opened_socket (ok n) c).1).should_reconnect ≡ c.should_reconnect)
  unfolding is_connected set_state opened_socket
  joined-fields n c = ground arith

  -- The reconnection, during whose sleep the client is disconnected, and which gets socket `n`.
  pub undone : ℕ → List Attempt → RelayClient → RelayClient
  undone n later = handle_reconnect (record { meanwhile = disconnect world; answer = ok n } ∷ later)

  -- A `disconnect` during the sleep of a reconnection does not end it: if the attempt gets a
  -- socket, the client is connected over it again, although it is not to reconnect any more.
  pub disconnect_is_undone :
      (n : ℕ) (later : List Attempt) (c : RelayClient)
      → c.should_reconnect ≡ true
      → has_parameters c ≡ true
      → (is_connected (undone n later c) ≡ true)
        × ((undone n later c).ws ≡ open_socket n)
        × ((undone n later c).should_reconnect ≡ false)
  unfolding undone wait opened_socket
  disconnect_is_undone n later c on has =
      let slept = record c { slept = c.slept ++ c.reconnect_delay ∷ [] } in
      let (off, dropped, kept, down) = disconnect-fields slept in
      let s = wait (disconnect world) c in
      let joined = record s { ws = drop_socket s.ws; ws_session = opened } in
      let e =
        tried_once (record { meanwhile = disconnect world; answer = ok n }) later c
          (opened_socket (ok n) joined) on (reconnect_full-attempts (ok n) s (kept ∙ has)) in
      let (up, at, flag) = joined-fields n joined in
      (ap is_connected e ∙ up, ap (λ t. t.ws) e ∙ at, ap (λ t. t.should_reconnect) e ∙ (flag ∙ off))
