-- ===== src/Server/Drivers/Services.antt =====
-- server/app/drivers/runners/ollama.py and server/app/drivers/clients/openwebui.py: the two services,
-- over the Harbor wrapper. Both files have the same functions, under the names `ollama` and `webui`.
use lem.Base.{ℕ, Bool, true, false, Option, none, some, if◌then◌else◌, nat_beq, ◌==◌, seq_eq}
use lem.Base.Dict.{lookup}
use lem.Text.{Text}
use lem.Text.Methods.{lit}
use lem.Server.Drivers.Harbor.{
  Shell, Outcome, returned, harbor_error, escaped, ExitCode, exit, signal, Completed, harbor_up,
  harbor_down, harbor_ps, Python, Service, Services,
}

-- The reply of an endpoint: its JSON, an HTTPException with the status 503 or 504, with Harbor's
-- `stderr` in a 503, or another exception, which the server answers with a 500.
pub data Reply : Type 0 where
  fine : Reply
  unavailable : Text → Reply
  gateway_timeout internal : Reply

abbrev is_124 : ExitCode → Bool
is_124 (exit n) = nat_beq n 124
is_124 (signal n) = false

-- The `except HarborError` of `install` and `start`, and that of `stop`.
up_reply : Outcome Completed → Reply
up_reply (returned c) = fine
up_reply (harbor_error e) = if is_124 e.exit_code then gateway_timeout else unavailable e.stderr
up_reply escaped = internal

down_reply : Outcome Completed → Reply
down_reply (returned c) = fine
down_reply (harbor_error e) = unavailable e.stderr
down_reply escaped = internal

unfoldable pub install_ollama : Shell → Reply
unfolding up_reply
install_ollama run = up_reply (harbor_up run (lit "ollama") 600 true)

unfoldable pub start_ollama : Shell → Reply
unfolding up_reply
start_ollama run = up_reply (harbor_up run (lit "ollama") 300 true)

unfoldable pub stop_ollama : Shell → Reply
unfolding down_reply
stop_ollama run = down_reply (harbor_down run (lit "ollama") 60)

unfoldable pub install_openwebui : Shell → Reply
unfolding up_reply
install_openwebui run = up_reply (harbor_up run (lit "webui") 600 true)

unfoldable pub start_openwebui : Shell → Reply
unfolding up_reply
start_openwebui run = up_reply (harbor_up run (lit "webui") 300 true)

unfoldable pub stop_openwebui : Shell → Reply
unfolding down_reply
stop_openwebui run = down_reply (harbor_down run (lit "webui") 60)

abbrev running_or_stopped : Option Service → Text
running_or_stopped none = lit "stopped"
running_or_stopped (some s) = if s.status == lit "running" then lit "running" else lit "stopped"

-- What the two `get_..._status` answer.
unfoldable pub status_of : Text → Outcome Services → Text
status_of service (returned services) = running_or_stopped (lookup service services)
status_of service (harbor_error e) = lit "error"
status_of service escaped = lit "error"

abbrev port_of : Option Service → Option ℕ
port_of none = none
port_of (some s) = s.host_port

-- A port that counts as true, or the default.
abbrev pub chosen : ℕ → Option ℕ → ℕ
chosen default none = default
chosen default (some n) = if nat_beq n 0 then default else n

unfoldable pub port_at : Text → ℕ → Outcome Services → ℕ
port_at service default (returned services) = chosen default (port_of (lookup service services))
port_at service default (harbor_error e) = default
port_at service default escaped = default

module _ (py : Python) (run : Shell) where
  unfoldable pub get_ollama_status : Text
  get_ollama_status = status_of (lit "ollama") (harbor_ps py run)

  unfoldable pub get_openwebui_status : Text
  get_openwebui_status = status_of (lit "webui") (harbor_ps py run)

  -- The port of the URL on 127.0.0.1 that `_get_ollama_api_base` and `get_openwebui_url` give.
  unfoldable pub ollama_port : ℕ
  ollama_port = port_at (lit "ollama") 11434 (harbor_ps py run)

  unfoldable pub openwebui_port : ℕ
  openwebui_port = port_at (lit "webui") 3000 (harbor_ps py run)
