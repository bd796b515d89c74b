-- ===== src/Server/Drivers/Listed.antt =====
-- Which container stands for a service.
use lem.Base.{
  ◌≡◌, refl, true, some, List, [], ◌∷◌, if◌then◌else◌, arith, All, ok, ◌==◌, seq_eq, seq_beq_iff,
  seq_beq_refl, Bool-cases, inl, inr,
}
use lem.Base.Dict.{lookup, put, contains, lookup-put}
use lem.Text.{Text}
use lem.Text.Methods.{lit, starts_with, truthy}
use lem.Server.Drivers.Harbor.{
  finished, returned, Completed, is_zero, Python, Container, Service, Services, service_name, split,
  entry, track, step_line, tracks, harbor_ps,
}
use lem.Server.Drivers.Services.{get_ollama_status, status_of}

module _ (py : Python) where
  -- Each line is the JSON of some container.
  abbrev pub Lists : List Text → Type 0
  Lists = All (λ line. (c : Container) × (py.loads line ≡ ok c))

  track-found :
      (service : Text) (v : Service) (c : Container) (services : Services)
      → lookup service services ≡ some v
      → lookup service (track py c services) ≡ some v
  unfolding track contains
  track-found service v c services h = ground (
    arith,
    h,
    lookup-put (service_name c.names) service (entry py (service_name c.names) c) services,
    seq_beq_iff (service_name c.names) service,
  )

  tracks-found :
      (service : Text) (v : Service) (lines : List Text) (services : Services)
      → Lists lines
      → lookup service services ≡ some v
      → (found : Services) × (tracks py lines services ≡ returned found)
        × (lookup service found ≡ some v)
  unfolding tracks step_line
  tracks-found service v [] services ls h = (services, refl, h)
  tracks-found service v (line ∷ lines) services ((c, e), ls) h = elim (Bool-cases (truthy line)) [
    | inl t ↦
        rw (t, e)
          (tracks-found service v lines (track py c services) ls
            (track-found service v c services h))
    | inr t ↦ rw t (tracks-found service v lines services ls h)
  ]

  track-first :
      (service : Text) (c : Container)
      → starts_with (lit "harbor.") c.names ≡ true
      → service_name c.names ≡ service
      → lookup service (track py c []) ≡ some (entry py service c)
  unfolding track contains lookup put
  track-first service c h n = rw (h, n, seq_beq_refl service)

  -- The first container that is listed for a service is the one that stays.
  pub tracks-first :
      (service : Text) (line : Text) (lines : List Text) (c : Container)
      → truthy line ≡ true
      → py.loads line ≡ ok c
      → starts_with (lit "harbor.") c.names ≡ true
      → service_name c.names ≡ service
      → Lists lines
      → (found : Services) × (tracks py (line ∷ lines) [] ≡ returned found)
        × (lookup service found ≡ some (entry py service c))
  unfolding tracks step_line
  tracks-first service line lines c t e h n ls =
      rw (t, e)
        (tracks-found service (entry py service c) lines (track py c []) ls
          (track-first service c h n))

  -- `docker ps` succeeds, and each line is a container's JSON. If the first container listed belongs
  -- to `ollama`, be it `harbor.ollama` or `harbor.ollama-init`, then its state alone decides whether
  -- Ollama counts as running, whatever containers are listed behind it.
  pub get_ollama_status-first :
      (out : Completed) (line : Text) (lines : List Text) (c : Container)
      → is_zero out.returncode ≡ true
      → split b'\n' (py.strip out.stdout) ≡ line ∷ lines
      → truthy line ≡ true
      → py.loads line ≡ ok c
      → starts_with (lit "harbor.") c.names ≡ true
      → service_name c.names ≡ lit "ollama"
      → Lists lines
      → get_ollama_status py (λ args timeout. finished out)
        ≡ (if c.state == lit "running" then lit "running" else lit "stopped")
  unfolding get_ollama_status harbor_ps status_of entry
  get_ollama_status-first out line lines c z s t e h n ls =
      let (found, returns, kept) = tracks-first (lit "ollama") line lines c t e h n ls in
      rw (z, s, returns, kept) refl
