-- ===== src/Server/Endpoints.antt =====
-- server/app/main.py: the endpoints for the runner, the client and the models, over the drivers. Each
-- call of a driver that asks Docker runs a command of its own, and so has its own shell.
pub mod Shown
use lem.Base.{ℕ, Option, none, some, List, [], ◌∷◌, Result, seq_eq}
use lem.Base.Dict.{Dict, lookup}
use lem.Text.{Text}
use lem.Text.Methods.{lit}
use lem.Server.Drivers.Harbor.{Shell, Python}
use lem.Server.Drivers.Services
use lem.Server.Drivers.Services.{
  install_ollama, start_ollama, stop_ollama, install_openwebui, start_openwebui, stop_openwebui,
  get_ollama_status, get_openwebui_status, ollama_port, openwebui_port,
}
use lem.Server.Drivers.Models
use lem.Server.Drivers.Models.{Ending, PullBody, list_ollama_models, pull_ollama_model}

-- The answer of `/v1/health`, which asks nothing.
pub record Health : Type 0 where
  pub status : Text
  pub docker : Text
  pub tunnel : Text

unfoldable pub health : Health
health = record { status = lit "ok"; docker = lit "ok"; tunnel = lit "offline" }

unfoldable pub root : Dict Text Text
root =
    (lit "message", lit "Lem Local Server v0.1.0")
    ∷ (lit "docs", lit "/docs")
    ∷ (lit "health", lit "/v1/health")
    ∷ []

-- An entry of the lists of runners and of clients: `port` is that of the URL on 127.0.0.1.
pub record Runner : Type 0 where
  pub id : Text
  pub status : Text
  pub capabilities : List Text
  pub port : ℕ
  pub harbor_service : Text

pub record Client : Type 0 where
  pub id : Text
  pub status : Text
  pub port : ℕ
  pub binds_to_runner : Text
  pub harbor_service : Text

unfoldable pub list_runners : Python → Shell → Shell → List Runner
list_runners py first second =
    record {
      id = lit "ollama";
      status = get_ollama_status py first;
      capabilities = lit "chat" ∷ lit "embeddings" ∷ [];
      port = ollama_port py second;
      harbor_service = lit "ollama";
    }
    ∷ []

unfoldable pub list_clients : Python → Shell → Shell → List Client
list_clients py first second =
    record {
      id = lit "openwebui";
      status = get_openwebui_status py first;
      port = openwebui_port py second;
      binds_to_runner = lit "ollama";
      harbor_service = lit "webui";
    }
    ∷ []

-- The services: each endpoint hands on what its driver replies.
unfoldable pub ollama_install : Shell → Services.Reply
ollama_install = install_ollama

unfoldable pub ollama_start : Shell → Services.Reply
ollama_start = start_ollama

unfoldable pub ollama_stop : Shell → Services.Reply
ollama_stop = stop_ollama

-- The answer of `get_ollama_health`, a placeholder.
unfoldable pub ollama_health : Text × ℕ
ollama_health = (lit "ok", 0)

unfoldable pub openwebui_install : Shell → Services.Reply
openwebui_install = install_openwebui

unfoldable pub openwebui_start : Shell → Services.Reply
openwebui_start = start_openwebui

unfoldable pub openwebui_stop : Shell → Services.Reply
openwebui_stop = stop_openwebui

-- `request.get("model_ref", "")`
model_ref : Option Text → Text
model_ref none = []
model_ref (some t) = t

module _ {V : Type 0} where
  unfoldable pub get_ollama_models : Ending (Result (Option (List V))) → Models.Reply (List V)
  get_ollama_models = list_ollama_models

  unfoldable pub pull_model :
      (Text → Text) → (Text → Result V) → Dict Text Text → Ending PullBody → Models.Reply (Option V)
  unfolding model_ref
  pull_model strip loads request ending =
      pull_ollama_model strip loads (model_ref (lookup (lit "model_ref") request)) ending
