-- ===== src/RelayServer/Manager/Sides.antt =====
-- cloud/relay/app/core/session_manager.py: which sockets share a session, and how single writes to
-- the manager's tables keep that.
use lem.Base.{
  ℕ, suc, ◌<◌, ◌≡◌, ◌≢◌, sym, ap, subst, ◌∙◌, true, false, some, ◌⊎◌, inl, inr, nat_eq, seq_eq,
  arith,
}
use lem.Base.Dict.{
  lookup, put, remove, put_self, put_other, put_found, put_holds, remove_found, remove_other,
}
use lem.Text.{Text}
use lem.RelayServer.Session.{RelaySession, init}
use lem.RelayServer.Manager.{Handler, Manager}

-- The socket is one of the session's two sides.
abbrev pub HasSide : ℕ → RelaySession → Type 0
HasSide ws s = (s.client_ws ≡ some ws) ⊎ (s.server_ws ≡ some ws)

-- The table and the handlers refer to objects with their own identifier; a socket that is a side of
-- an open session has a handler, which serves that very session; and the two sides of an open session
-- are two sockets.
pub record IsIsolated (m : Manager) : Type 0 where
  pub listed :
      (id : Text) (ref : ℕ)
      → lookup id m.sessions ≡ some ref
      → (s : RelaySession) × (lookup ref m.objects ≡ some s) × (s.session_id ≡ id)
  pub served :
      (ws : ℕ) (h : Handler)
      → lookup ws m.handlers ≡ some h
      → (s : RelaySession) × (lookup h.session m.objects ≡ some s) × (s.session_id ≡ h.session_id)
  pub held :
      (ref ws : ℕ) (s : RelaySession)
      → lookup ref m.objects ≡ some s
      → s.closed ≡ false
      → HasSide ws s
      → (h : Handler) × (lookup ws m.handlers ≡ some h) × (h.session ≡ ref)
  pub apart :
      (ref a b : ℕ) (s : RelaySession)
      → lookup ref m.objects ≡ some s
      → s.closed ≡ false
      → s.client_ws ≡ some a
      → s.server_ws ≡ some b
      → a ≢ b
  pub known : (ref : ℕ) (s : RelaySession) → lookup ref m.objects ≡ some s → ref < m.next_ref

-- The identifier and the sides stay, and what is closed stays closed.
pub record Keeps (s s' : RelaySession) : Type 0 where
  pub id : s'.session_id ≡ s.session_id
  pub client : s'.client_ws ≡ s.client_ws
  pub server : s'.server_ws ≡ s.server_ws
  pub open_ : s'.closed ≡ false → s.closed ≡ false

module _ (m : Manager) (ok : IsIsolated m) where
  open ok use {listed, served, held, apart, known}

  -- An object is replaced by one with the same sides.
  pub objects-IsIsolated :
      (ref : ℕ) (s s' : RelaySession)
      → lookup ref m.objects ≡ some s
      → Keeps s s'
      → IsIsolated (record m { objects = put ref s' m.objects })
  objects-IsIsolated ref s s' has k = record {
    listed = λ id r e. let (t, o, i) = listed id r e in object r t id o i;
    served = λ ws h e. let (t, o, i) = served ws h e in object h.session t h.session_id o i;
    held = λ r ws t o c side. elim (put_found ref r s' t m.objects o) [
      | inl (e, f) ↦
          held r ws s (subst (λ x. lookup x m.objects ≡ some s) e has)
            (k.open_ (ap RelaySession.closed f ∙ c))
            (elim side [
              | inl x ↦ inl (sym k.client ∙ ap RelaySession.client_ws f ∙ x)
              | inr x ↦ inr (sym k.server ∙ ap RelaySession.server_ws f ∙ x)
            ])
      | inr (n, o') ↦ held r ws t o' c side
    ];
    apart = λ r a b t o c x y. elim (put_found ref r s' t m.objects o) [
      | inl (e, f) ↦
          apart r a b s (subst (λ x. lookup x m.objects ≡ some s) e has)
            (k.open_ (ap RelaySession.closed f ∙ c))
            (sym k.client ∙ ap RelaySession.client_ws f ∙ x)
            (sym k.server ∙ ap RelaySession.server_ws f ∙ y)
      | inr (n, o') ↦ apart r a b t o' c x y
    ];
    known = λ r t o. elim (put_found ref r s' t m.objects o) [
      | inl (e, f) ↦ known r s (subst (λ x. lookup x m.objects ≡ some s) e has)
      | inr (n, o') ↦ known r t o'
    ];
  }
    where
      object :
          (r : ℕ) (t : RelaySession) (id : Text)
          → lookup r m.objects ≡ some t
          → t.session_id ≡ id
          → (u : RelaySession) × (lookup r (put ref s' m.objects) ≡ some u) × (u.session_id ≡ id)
      object r t id o i =
          put_holds (λ (u : RelaySession). u.session_id ≡ id) ref r s s' t m.objects has
            (λ q. k.id ∙ q) o i

  -- A new session stands under a new reference.
  pub created-IsIsolated :
      (id : Text)
      → IsIsolated (record m {
        sessions = put id m.next_ref m.sessions;
        objects = put m.next_ref (init id) m.objects;
        next_ref = suc m.next_ref;
      })
  unfolding init
  created-IsIsolated id = record {
    listed = λ id' r e. elim (put_found id id' m.next_ref r m.sessions e) [
      | inl (q, f) ↦ (
        init id,
        ap (λ x. lookup x (put m.next_ref (init id) m.objects)) (sym f)
            ∙ put_self m.next_ref (init id) m.objects,
        q,
      )
      | inr (n, e') ↦ let (t, o, i) = listed id' r e' in (t, old r t o, i)
    ];
    served = λ ws h e. let (t, o, i) = served ws h e in (t, old h.session t o, i);
    held = λ r ws t o c side. elim (put_found m.next_ref r (init id) t m.objects o) [
      | inl (e, f) ↦ elim side [ inl x ↦ cc | inr x ↦ cc ]
      | inr (n, o') ↦ held r ws t o' c side
    ];
    apart = λ r a b t o c x y. elim (put_found m.next_ref r (init id) t m.objects o) [
      | inl (e, f) ↦ cc
      | inr (n, o') ↦ apart r a b t o' c x y
    ];
    known = λ r t o. elim (put_found m.next_ref r (init id) t m.objects o) [
      | inl (e, f) ↦ omega (arith, e)
      | inr (n, o') ↦ omega (arith, known r t o')
    ];
  }
    where
      old :
          (r : ℕ) (t : RelaySession)
          → lookup r m.objects ≡ some t
          → lookup r (put m.next_ref (init id) m.objects) ≡ some t
      old r t o =
          put_other m.next_ref r (init id) m.objects (λ e. absurd (omega (arith, known r t o, e)))
          ∙ o

  -- A handler goes on in the same session.
  pub phase-IsIsolated :
      (w : ℕ) (h h' : Handler)
      → lookup w m.handlers ≡ some h
      → h'.session ≡ h.session
      → h'.session_id ≡ h.session_id
      → IsIsolated (record m { handlers = put w h' m.handlers })
  phase-IsIsolated w h h' has same same_id = record {
    listed = listed;
    served = λ ws g e. elim (put_found w ws h' g m.handlers e) [
      | inl (q, f) ↦
          let (t, o, i) = served w h has in
          (
            t,
            ap (λ x. lookup x m.objects) (sym (ap Handler.session f) ∙ same) ∙ o,
            i ∙ sym same_id ∙ ap Handler.session_id f,
          )
      | inr (n, e') ↦ served ws g e'
    ];
    held = λ r ws t o c side.
        let (g, e, q) = held r ws t o c side in
        put_holds (λ (x : Handler). x.session ≡ r) w ws h h' g m.handlers has (λ p. same ∙ p) e q;
    apart = apart;
    known = known;
  }

  -- An identifier is forgotten.
  pub dropped-IsIsolated : (id : Text) → IsIsolated (record m { sessions = remove id m.sessions })
  dropped-IsIsolated id = record {
    listed = λ id' r e. listed id' r (remove_found id id' r m.sessions e).1;
    served = served;
    held = held;
    apart = apart;
    known = known;
  }

  -- A handler of a closed session ends.
  pub left-IsIsolated :
      (w : ℕ) (h : Handler) (s : RelaySession)
      → lookup w m.handlers ≡ some h
      → lookup h.session m.objects ≡ some s
      → s.closed ≡ true
      → IsIsolated (record m { handlers = remove w m.handlers })
  left-IsIsolated w h s has object gone = record {
    listed = listed;
    served = λ ws g e. served ws g (remove_found w ws g m.handlers e).1;
    held = λ r ws t o c side.
        let (g, e, q) = held r ws t o c side in
        (g, remove_other w ws m.handlers (λ p. other ws g r t e q o c p) ∙ e, q);
    apart = apart;
    known = known;
  }
    where
      other :
          (ws : ℕ) (g : Handler) (r : ℕ) (t : RelaySession)
          → lookup ws m.handlers ≡ some g
          → g.session ≡ r
          → lookup r m.objects ≡ some t
          → t.closed ≡ false
          → w ≡ ws
          → ⊥
      other ws g r t e q o c p = cc
