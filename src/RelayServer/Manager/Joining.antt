-- ===== src/RelayServer/Manager/Joining.antt =====
-- cloud/relay/app/core/session_manager.py: a socket joins a session, and shares it with one other.
use lem.Base.{
  ℕ, ◌≡◌, ◌≢◌, sym, ap, subst, ◌∙◌, false, none, some, ◌⊎◌, inl, inr, nat_eq, seq_eq, arith,
}
use lem.Base.Dict.{lookup, put, put_self, put_other, put_found, put_holds}
use lem.Text.{Text}
use lem.RelayServer.Session.{RelaySession, add_connection}
use lem.RelayServer.Manager.{Handler, Manager}
use lem.RelayServer.Manager.Sides.{HasSide, IsIsolated}

-- Who the sides are once a socket has joined.
add_connection-sides :
    (w ws : ℕ) (s : RelaySession) → HasSide ws (add_connection w s).0 → (ws ≡ w) ⊎ HasSide ws s
unfolding add_connection
add_connection-sides w ws s (inl x) = ground arith
add_connection-sides w ws s (inr x) = ground arith

add_connection-both :
    (w a b : ℕ) (s : RelaySession)
    → (add_connection w s).0.client_ws ≡ some a
    → (add_connection w s).0.server_ws ≡ some b
    → ((s.client_ws ≡ some a) × (s.server_ws ≡ some b))
      ⊎ (((a ≡ w) × (s.server_ws ≡ some b)) ⊎ ((b ≡ w) × (s.client_ws ≡ some a)))
unfolding add_connection
add_connection-both w a b s x y = ground arith

add_connection-same :
    (w : ℕ) (s : RelaySession)
    → ((add_connection w s).0.session_id ≡ s.session_id)
      × ((add_connection w s).0.closed ≡ s.closed)
unfolding add_connection
add_connection-same w s = ground arith

-- A socket without a handler joins a session, and gets a handler.
module _ (m : Manager) (ok : IsIsolated m) (w ref : ℕ) (s : RelaySession) (h : Handler)
    (has : lookup ref m.objects ≡ some s) (free : lookup w m.handlers ≡ none)
    (serves : h.session ≡ ref) (own : s.session_id ≡ h.session_id) where
  open ok use {listed, served, held, apart, known}

  abbrev s' : RelaySession
  s' = (add_connection w s).0

  object :
      (r : ℕ) (t : RelaySession) (id : Text)
      → lookup r m.objects ≡ some t
      → t.session_id ≡ id
      → (u : RelaySession) × (lookup r (put ref s' m.objects) ≡ some u) × (u.session_id ≡ id)
  object r t id o i =
      put_holds (λ (u : RelaySession). u.session_id ≡ id) ref r s s' t m.objects has
        (λ q. (add_connection-same w s).0 ∙ q) o i

  -- An older side of an open session is another socket.
  older :
      (r ws : ℕ) (t : RelaySession)
      → lookup r m.objects ≡ some t
      → t.closed ≡ false
      → HasSide ws t
      → w ≢ ws
  older r ws t o c side e =
      let (g, found, q) = held r ws t o c side in
      cc (subst (λ x. lookup x m.handlers ≡ none) e free)

  kept :
      (r ws : ℕ) (t : RelaySession)
      → lookup r m.objects ≡ some t
      → t.closed ≡ false
      → HasSide ws t
      → (g : Handler) × (lookup ws (put w h m.handlers) ≡ some g) × (g.session ≡ r)
  kept r ws t o c side =
      let (g, found, q) = held r ws t o c side in
      (g, put_other w ws h m.handlers (older r ws t o c side) ∙ found, q)

  was_open : (t : RelaySession) → s' ≡ t → t.closed ≡ false → s.closed ≡ false
  was_open t f c = sym (add_connection-same w s).1 ∙ ap RelaySession.closed f ∙ c

  pub joined-IsIsolated :
      IsIsolated (record m { objects = put ref s' m.objects; handlers = put w h m.handlers })
  joined-IsIsolated = record {
    listed = λ id r e. let (t, o, i) = listed id r e in object r t id o i;
    served = λ ws g e. elim (put_found w ws h g m.handlers e) [
      | inl (q, f) ↦
          object g.session s g.session_id
            (ap (λ x. lookup x m.objects) (sym (ap Handler.session f) ∙ serves) ∙ has)
            (own ∙ ap Handler.session_id f)
      | inr (n, e') ↦ let (t, o, i) = served ws g e' in object g.session t g.session_id o i
    ];
    held = λ r ws t o c side. elim (put_found ref r s' t m.objects o) [
      | inl (e, f) ↦ elim (add_connection-sides w ws s (subst (HasSide ws) (sym f) side)) [
        | inl q ↦
            (h, ap (λ x. lookup x (put w h m.handlers)) q ∙ put_self w h m.handlers, serves ∙ e)
        | inr q ↦ kept r ws s (subst (λ x. lookup x m.objects ≡ some s) e has) (was_open t f c) q
      ]
      | inr (n, o') ↦ kept r ws t o' c side
    ];
    apart = λ r a b t o c x y. elim (put_found ref r s' t m.objects o) [
      | inl (e, f) ↦
          elim (add_connection-both w a b s (ap RelaySession.client_ws f ∙ x)
            (ap RelaySession.server_ws f ∙ y)) [
              | inl (p, q) ↦ apart ref a b s has (was_open t f c) p q
              | inr (inl (p, q)) ↦ λ z. older ref b s has (was_open t f c) (inr q) (sym p ∙ z)
              | inr (inr (p, q)) ↦ λ z. older ref a s has (was_open t f c) (inl q) (sym p ∙ sym z)
            ]
      | inr (n, o') ↦ apart r a b t o' c x y
    ];
    known = λ r t o. elim (put_found ref r s' t m.objects o) [
      | inl (e, f) ↦ known r s (subst (λ x. lookup x m.objects ≡ some s) e has)
      | inr (n, o') ↦ known r t o'
    ];
  }
