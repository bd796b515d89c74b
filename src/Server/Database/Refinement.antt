-- ===== src/Server/Database/Refinement.antt =====
-- What the database promises: a map of settings, at most one device, and at most one login.
use lem.Base.{
  ℕ, ◌≡◌, refl, sym, subst, ap, ◌∙◌, Option, none, some, List, [], ◌∷◌, if◌then◌else◌, ◌==◌, seq_eq,
  Result, ok, err, arith,
}
use lem.Base.Dict.{lookup, lookup-put, lookup-remove}
use lem.Text.{Text}
use lem.Server.Database.{
  Device, AuthState, Database, AuthJson, empty_db, get_setting, set_setting, delete_setting,
  get_device, register_device, delete_device, to_dict, to_json, from_json, get_auth_state,
  set_auth_state, delete_auth_state, first, read_auth, read_row,
}

-- A call of the module.
pub data Op : Type 0 where
  gets : Text → Op
  sets : Text → Text → Op
  deletes : Text → Op
  registers : Result (Unit {0}) → ℕ → Text → Text → Op
  logs_in : AuthState → Op
  logs_out unregisters gets_device gets_login : Op

-- What a call gives back.
pub data Reply : Type 0 where
  done failed : Reply
  setting : Option Text → Reply
  device : Option Device → Reply
  login : Option AuthState → Reply

-- The map, the device and the login.
pub record View : Type 0 where
  pub settings : Text → Option Text
  pub device : Option Device
  pub login : Option AuthState

abbrev pub blank : View
blank = record { settings = λ key. none; device = none; login = none }

abbrev pub promise : Op → View → Reply × View
promise (gets key) v = (setting (v.settings key), v)
promise (sets key value) v =
    (done, record v { settings = λ k. if key == k then some value else v.settings k })
promise (deletes key) v =
    (done, record v { settings = λ k. if key == k then none else v.settings k })
promise (registers (ok u) now id pubkey) v = (
  device (some (record { id = id; pubkey = pubkey; created_at = now })),
  record v { device = some (record { id = id; pubkey = pubkey; created_at = now }) },
)
promise (registers (err e) now id pubkey) v = (failed, v)
promise (logs_in a) v = (done, record v { login = some a })
promise logs_out v = (done, record v { login = none })
promise unregisters v = (done, record v { device = none })
promise gets_device v = (device v.device, v)
promise gets_login v = (login v.login, v)

unfoldable pub promises : List Op → View → List Reply
promises [] v = []
promises (op ∷ ops) v = (promise op v).0 ∷ promises ops (promise op v).1

abbrev pub registered : Result Device → Reply
registered (ok d) = device (some d)
registered (err e) = failed

abbrev pub logged : Result (Option AuthState) → Reply
logged (ok a) = login a
logged (err e) = failed

module _ (json : AuthJson) where
  unfoldable pub perform : Op → Database → Reply × Database
  perform (gets key) db = (setting (get_setting key db), db)
  perform (sets key value) db = (done, set_setting key value db)
  perform (deletes key) db = (done, delete_setting key db)
  perform (registers written now id pubkey) db =
      let r = register_device written now id pubkey db in (registered r.0, r.1)
  perform (logs_in a) db = (done, set_auth_state json a db)
  perform logs_out db = (done, delete_auth_state db)
  perform unregisters db = (done, delete_device db)
  perform gets_device db = (device (get_device db), db)
  perform gets_login db = let r = get_auth_state json db in (logged r.0, r.1)

  -- What a sequence of calls gives back.
  unfoldable pub performs : List Op → Database → List Reply
  performs [] db = []
  performs (op ∷ ops) db = (perform op db).0 ∷ performs ops (perform op db).1

  pub from_json-to_json : (a : AuthState) → from_json json (to_json json a) ≡ ok a
  unfolding from_json to_json to_dict lookup
  from_json-to_json a = rw (json.loads-dumps a)

  abbrev rows : Option Device → List Device
  rows none = []
  rows (some d) = d ∷ []

  abbrev row : Option AuthState → Option Text
  row none = none
  row (some a) = some (to_json json a)

  record Represents (db : Database) (v : View) : Type 0 where
    pub settings : (key : Text) → lookup key db.settings ≡ v.settings key
    pub device : db.device ≡ rows v.device
    pub login : db.auth ≡ row v.login

  first-rows : (d : Option Device) → first (rows d) ≡ d
  first-rows none = refl
  first-rows (some d) = refl

  pub get_auth_state-row :
      (login : Option AuthState) (db : Database)
      → db.auth ≡ row login
      → get_auth_state json db ≡ (ok login, db)
  unfolding get_auth_state
  get_auth_state-row none db h = ap (λ t. read_auth json t db) h
  get_auth_state-row (some a) db h =
      ap (λ t. read_auth json t db) h ∙ ap (λ r. read_row json r db) (from_json-to_json a)

  perform-keeps :
      (op : Op) (db : Database) (v : View)
      → Represents db v
      → ((perform op db).0 ≡ (promise op v).0) × Represents (perform op db).1 (promise op v).1
  unfolding perform get_setting set_setting delete_setting get_device register_device delete_device
      set_auth_state delete_auth_state
  perform-keeps (gets key) db v r = (ap setting (r.settings key), r)
  perform-keeps (sets key value) db v r = (
    refl,
    record {
      settings = λ k. ground (arith, lookup-put key k value db.settings, r.settings k);
      device = r.device;
      login = r.login;
    },
  )
  perform-keeps (deletes key) db v r = (
    refl,
    record {
      settings = λ k. ground (arith, lookup-remove key k db.settings, r.settings k);
      device = r.device;
      login = r.login;
    },
  )
  perform-keeps (registers (ok u) now id pubkey) db v r =
      (refl, record { settings = r.settings; device = refl; login = r.login })
  perform-keeps (registers (err e) now id pubkey) db v r = (refl, r)
  perform-keeps (logs_in a) db v r =
      (refl, record { settings = r.settings; device = r.device; login = refl })
  perform-keeps logs_out db v r =
      (refl, record { settings = r.settings; device = r.device; login = refl })
  perform-keeps unregisters db v r =
      (refl, record { settings = r.settings; device = refl; login = r.login })
  perform-keeps gets_device db v r =
      (ap (λ ds. device (first ds)) r.device ∙ ap device (first-rows v.device), r)
  perform-keeps gets_login db v r =
      let read = get_auth_state-row v.login db r.login in
      (ap (λ t. logged t.0) read, subst (λ d. Represents d v) (sym (ap (λ t. t.1) read)) r)

  performs-kept :
      (ops : List Op) (db : Database) (v : View)
      → Represents db v
      → performs ops db ≡ promises ops v
  unfolding performs promises
  performs-kept [] db v r = refl
  performs-kept (op ∷ ops) db v r =
      let kept = perform-keeps op db v r in
      cc (kept.0, performs-kept ops (perform op db).1 (promise op v).1 kept.1)

  -- Whatever calls are made of a new database, in whatever order, they give back what a map of
  -- settings, one optional device and one optional login give back. A registration that fails
  -- changes nothing, and a login is read as it was written.
  pub performs-refines : (ops : List Op) → performs ops empty_db ≡ promises ops blank
  unfolding lookup
  performs-refines ops =
      performs-kept ops empty_db blank
        (record { settings = λ key. refl; device = refl; login = refl })

  pub get_auth_state-set :
      (a : AuthState) (db : Database)
      → get_auth_state json (set_auth_state json a db) ≡ (ok (some a), set_auth_state json a db)
  unfolding set_auth_state
  get_auth_state-set a db = get_auth_state-row (some a) (set_auth_state json a db) refl

  pub get_auth_state-delete :
      (db : Database) → get_auth_state json (delete_auth_state db) ≡ (ok none, delete_auth_state db)
  unfolding delete_auth_state
  get_auth_state-delete db = get_auth_state-row none (delete_auth_state db) refl

  -- Reading the login, and deleting an invalid one, leaves the device.
  pub get_auth_state-device : (db : Database) → (get_auth_state json db).1.device ≡ db.device
  unfolding get_auth_state read_row delete_auth_state
  get_auth_state-device db = ground arith
