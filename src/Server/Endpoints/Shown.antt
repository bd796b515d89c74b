-- ===== src/Server/Endpoints/Shown.antt =====
-- What the list of runners shows of Ollama.
use lem.Base.{◌≡◌, refl, true, List, [], ◌∷◌, if◌then◌else◌, ok, ◌==◌, seq_eq}
use lem.Text.{Text}
use lem.Text.Methods.{lit, starts_with, truthy}
use lem.Server.Drivers.Harbor.{
  finished, Completed, is_zero, Python, Container, service_name, split, entry, harbor_ps,
}
use lem.Server.Drivers.Ports.{parse_host_port}
use lem.Server.Drivers.Services.{ollama_port, port_at, chosen}
use lem.Server.Drivers.Listed.{Lists, tracks-first, get_ollama_status-first}
use lem.Server.Endpoints.{list_runners}

-- `docker ps` gives the same both times that it is asked: it succeeds, and each line is a container's
-- JSON. If the first container listed belongs to `ollama`, be it `harbor.ollama` or
-- `harbor.ollama-init`, then its state and its ports alone decide what the list of runners shows, the
-- status and the port of the endpoint, which is 11434 where those ports have none; whatever containers
-- are listed behind it.
pub list_runners-first :
    (py : Python) (out : Completed) (line : Text) (lines : List Text) (c : Container)
    → is_zero out.returncode ≡ true
    → split b'\n' (py.strip out.stdout) ≡ line ∷ lines
    → truthy line ≡ true
    → py.loads line ≡ ok c
    → starts_with (lit "harbor.") c.names ≡ true
    → service_name c.names ≡ lit "ollama"
    → Lists py lines
    → list_runners py (λ args timeout. finished out) (λ args timeout. finished out)
      ≡ record {
        id = lit "ollama";
        status = if c.state == lit "running" then lit "running" else lit "stopped";
        capabilities = lit "chat" ∷ lit "embeddings" ∷ [];
        port = chosen 11434 (parse_host_port c.ports (lit "11434"));
        harbor_service = lit "ollama";
      }
        ∷ []
unfolding list_runners ollama_port harbor_ps port_at entry
list_runners-first py out line lines c z s t e h n ls =
    let (found, returns, kept) = tracks-first py (lit "ollama") line lines c t e h n ls in
    rw (get_ollama_status-first py out line lines c z s t e h n ls) (rw (z, s, returns, kept) refl)
