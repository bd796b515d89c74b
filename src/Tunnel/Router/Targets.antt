-- ===== src/Tunnel/Router/Targets.antt =====
-- server/app/tunnel/router.py: where a router that discovers clients sends a request.
use lem.Base.{
  ◌≡◌, ◌⊎◌, inl, inr, refl, true, false, none, some, List, [], ◌∷◌, ◌==◌, seq_eq, seq_beq_iff, ap,
  Bool-cases, Result, ok, err, arith,
}
use lem.Base.Dict.{lookup}
use lem.Text.{Text}
use lem.Text.Methods.{lit, rstrip, truthy}
use lem.Tunnel.Router.{
  Url, Urllib, init, or_empty, or_local, pick, route, discovered, discover,
  create_router_with_client_discovery,
}

-- The first value of the parameter `client` is `openwebui`.
abbrev pub Asks : List Text → Type 0
Asks ids = (rest : List Text) × (ids ≡ lit "openwebui" ∷ rest)

-- The discovery gave this URL, which is neither empty nor the one that stands for a failure.
abbrev pub IsFound : Result Text → Text → Type 0
IsFound openwebui url =
    (openwebui ≡ ok url) × (truthy url ≡ true) × ((url == lit "http://127.0.0.1:3000") ≡ false)

-- Open WebUI, where the request asks for it and it was found, and else the local server.
abbrev pub IsTarget : Text → Result Text → List Text → Text → Type 0
IsTarget local openwebui ids target =
    (Asks ids × IsFound openwebui target)
    ⊎ ((target ≡ local) × ¬ (Asks ids × ((url : Text) × IsFound openwebui url)))

discovered-cases :
    (openwebui : Result Text)
    → ((url : Text) × IsFound openwebui url × (discovered openwebui ≡ some url))
      ⊎ ((discovered openwebui ≡ none) × ¬ ((url : Text) × IsFound openwebui url))
unfolding discovered
discovered-cases (err x) = inr (refl, λ (u, f). cc)
discovered-cases (ok url) = elim (Bool-cases (truthy url)) [
  | inr empty ↦ inr (rw empty refl, λ (u, (e, t, _)). cc)
  | inl given_ ↦ elim (Bool-cases (url == lit "http://127.0.0.1:3000")) [
    | inl fallback ↦ inr (rw (given_, fallback) refl, λ (u, (e, t, f)). cc)
    | inr usable ↦ inl (url, (refl, given_, usable), rw (given_, usable) refl)
  ]
]

module _ (local_server_url : Text) where
  pick-IsTarget :
      (openwebui : Result Text) (ids : List Text)
      → IsTarget
          (rstrip b'/' local_server_url)
          openwebui
          ids
          (pick (create_router_with_client_discovery openwebui local_server_url) ids)
  unfolding pick create_router_with_client_discovery init discover or_local
  pick-IsTarget openwebui [] = inr (refl, λ ((rest, e), f). cc)
  pick-IsTarget openwebui (id ∷ ids) = elim (Bool-cases (id == lit "openwebui")) [
    | inr other ↦ rw other (inr (refl, λ ((rest, e), f). absurd (grind (arith, other, e))))
    | inl asked ↦ elim (discovered-cases openwebui) [
      | inl (url, found, e) ↦
          rw (asked, e)
            (rw found.1
              (inl ((ids, ap (λ i. i ∷ ids) ((seq_beq_iff id (lit "openwebui")).0 asked)), found)))
      | inr (e, none_) ↦ rw (asked, e) (inr (refl, λ (a, f). none_ f))
    ]
  ]

  -- A router with client discovery gives a base URL for every path that `urlparse` reads: the one
  -- that the discovery of Open WebUI gave, if the first value of the query's parameter `client` is
  -- `openwebui` and the discovery gave a URL that is neither empty nor the fallback; and in every
  -- other case that of the local server, without slashes at its end.
  pub route-targets :
      (openwebui : Result Text) (lib : Urllib) (path : Text) (parsed : Url)
      → lib.urlparse path ≡ ok parsed
      → (target : Text) × (route lib
            (create_router_with_client_discovery openwebui local_server_url)
            path
          ≡ ok target)
        × IsTarget
            (rstrip b'/' local_server_url)
            openwebui
            (or_empty (lookup (lit "client") (lib.parse_qs parsed.query)))
            target
  unfolding route
  route-targets openwebui lib path parsed e =
      let ids = or_empty (lookup (lit "client") (lib.parse_qs parsed.query)) in
      (_, rw e refl, pick-IsTarget openwebui ids)
