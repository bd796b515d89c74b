-- ===== src/Tests/Drivers.antt =====
-- The services in containers, on a concrete list.
use lem.Base.{◌≡◌, refl, some, [], ◌∷◌, ◌==◌, seq_eq, if◌then◌else◌, Result, ok, err, json_error}
use lem.Text.{Text}
use lem.Text.Methods.{lit, replace, replace_from, starts_with}
use lem.Server.Drivers.Ports.{number_from, parse_host_port}
use lem.Server.Drivers.Mapped.{mapping, mapping_v6, parse_host_port-mapping}
use lem.Server.Drivers.Harbor.{
  Python, Container, Completed, finished, timed_out, exit, harbor_up, harbor_down, split,
  service_name,
}
use lem.Server.Drivers.Services.{
  get_ollama_status, internal, gateway_timeout, start_ollama, stop_ollama,
}
use lem.Server.Drivers.Listed.{get_ollama_status-first}
use lem.Server.Drivers.Services.{chosen}
use lem.Server.Endpoints.{list_runners}
use lem.Server.Endpoints.Shown.{list_runners-first}

-- `ollama` runs behind a container that prepared it and has exited.
abbrev prepared : Container
prepared = record {
  names = lit "harbor.ollama-init";
  ports = [];
  state = lit "exited";
  status = lit "Exited (0)";
}

abbrev runs : Container
runs = record {
  names = lit "harbor.ollama";
  ports = lit "0.0.0.0:33821->11434/tcp";
  state = lit "running";
  status = lit "Up (healthy)";
}

abbrev reads : Text → Result Container
reads t =
    if t == lit "init" then ok prepared else if t == lit "main" then ok runs else err json_error

abbrev python : Python
python = record { strip = λ t. t; lower = λ t. t; loads = reads }

abbrev listed : Completed
listed = record { returncode = exit 0; stdout = lit "init\nmain"; stderr = [] }

get_ollama_status-first_test :
    get_ollama_status python (λ args timeout. finished listed)
    ≡ (if lit "exited" == lit "running" then lit "running" else lit "stopped")
unfolding split service_name replace replace_from starts_with
get_ollama_status-first_test =
    get_ollama_status-first python listed (lit "init") (lit "main" ∷ []) prepared refl refl refl
      refl refl refl ((runs, refl), tt)

list_runners-first_example :
    list_runners python (λ args timeout. finished listed) (λ args timeout. finished listed)
    ≡ record {
      id = lit "ollama";
      status = if lit "exited" == lit "running" then lit "running" else lit "stopped";
      capabilities = lit "chat" ∷ lit "embeddings" ∷ [];
      port = chosen 11434 (parse_host_port [] (lit "11434"));
      harbor_service = lit "ollama";
    }
      ∷ []
unfolding split service_name replace replace_from starts_with
list_runners-first_example =
    list_runners-first python listed (lit "init") (lit "main" ∷ []) prepared refl refl refl refl
      refl refl ((runs, refl), tt)

parse_host_port-mapping_test :
    (parse_host_port (mapping (lit "33821") (lit "11434") []) (lit "11434")
      ≡ some (number_from 0 (lit "33821")))
    × (parse_host_port (mapping_v6 (lit "33821") (lit "11434") []) (lit "11434")
        ≡ some (number_from 0 (lit "33821")))
parse_host_port-mapping_test =
    parse_host_port-mapping (lit "33821") (lit "11434") []
      (refl, (refl, (refl, (refl, (refl, (refl, tt))))))

-- A command that takes too long: starting tells so, stopping fails.
timeouts_test :
    (start_ollama (λ args timeout. timed_out) ≡ gateway_timeout)
    × (stop_ollama (λ args timeout. timed_out) ≡ internal)
unfolding start_ollama stop_ollama harbor_up harbor_down
timeouts_test = (refl, refl)
