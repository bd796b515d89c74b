-- ===== src/Server/Database.antt =====
-- server/app/db.py: the settings, the device and the login that the server keeps in SQLite. A
-- statement is taken to succeed, but for those of `register_device`; what is not committed is undone.
pub mod Refinement
use lem.Base.{
  ℕ, Option, none, some, List, [], ◌∷◌, Result, ok, err, Exn, json_error, key_error, database_error,
  ◌≡◌, ◌>>=◌, seq_eq,
}
use lem.Base.Dict.{Dict, lookup, put, remove}
use lem.Text.{Text}
use lem.Text.Methods.{lit}

-- Times are numbers.
pub record Device : Type 0 where
  pub id : Text
  pub pubkey : Text
  pub created_at : ℕ

pub record AuthState : Type 0 where
  pub email : Text
  pub jwt_token : Text
  pub device_id : Text
  pub signaling_url : Text

-- The three tables: rows of `settings` by their key, rows of `device`, and the row of `auth` whose
-- `id` is 1, the only one that the table takes.
pub record Database : Type 0 where
  pub settings : Dict Text Text
  pub device : List Device
  pub auth : Option Text

-- The tables that `init_db` makes, if there are none.
abbrev pub empty_db : Database
empty_db = record { settings = []; device = []; auth = none }

unfoldable pub init_db : Option Database → Database
init_db none = empty_db
init_db (some db) = db

unfoldable pub get_setting : Text → Database → Option Text
get_setting key db = lookup key db.settings

unfoldable pub set_setting : Text → Text → Database → Database
set_setting key value db = record db { settings = put key value db.settings }

unfoldable pub delete_setting : Text → Database → Database
delete_setting key db = record db { settings = remove key db.settings }

abbrev pub first : List Device → Option Device
first [] = none
first (d ∷ ds) = some d

-- `SELECT ... LIMIT 1`
unfoldable pub get_device : Database → Option Device
get_device db = first db.device

-- `written` is how the two statements end, `now` what the clock says.
unfoldable pub register_device :
    Result (Unit {0}) → ℕ → Text → Text → Database → Result Device × Database
register_device (err e) now device_id pubkey db = (err database_error, db)
register_device (ok u) now device_id pubkey db =
    let d : Device = record { id = device_id; pubkey = pubkey; created_at = now } in
    (ok d, record db { device = d ∷ [] })

unfoldable pub delete_device : Database → Database
delete_device db = record db { device = [] }

unfoldable pub to_dict : AuthState → Dict Text Text
to_dict a =
    (lit "email", a.email)
    ∷ (lit "jwt_token", a.jwt_token)
    ∷ (lit "device_id", a.device_id)
    ∷ (lit "signaling_url", a.signaling_url)
    ∷ []

-- `json.dumps` and `json.loads`, on objects of texts. `loads-dumps`: what was written is read.
pub record AuthJson : Type 0 where
  pub dumps : Dict Text Text → Text
  pub loads : Text → Result (Dict Text Text)
  pub loads-dumps : (a : AuthState) → loads (dumps (to_dict a)) ≡ ok (to_dict a)

-- `data[key]`
abbrev item : Text → Dict Text Text → Result Text
item key data_ = elim (lookup key data_) [ none ↦ err key_error | some t ↦ ok t ]

unfoldable pub delete_auth_state : Database → Database
delete_auth_state db = record db { auth = none }

module _ (json : AuthJson) where
  open json use {dumps, loads, loads-dumps}

  unfoldable pub to_json : AuthState → Text
  to_json a = dumps (to_dict a)

  unfoldable pub from_json : Text → Result AuthState
  from_json t = do
    data_ ← loads t
    email ← item (lit "email") data_
    jwt_token ← item (lit "jwt_token") data_
    device_id ← item (lit "device_id") data_
    signaling_url ← item (lit "signaling_url") data_
    ok (record {
      email = email;
      jwt_token = jwt_token;
      device_id = device_id;
      signaling_url = signaling_url;
    })

  unfoldable pub set_auth_state : AuthState → Database → Database
  unfolding to_json
  set_auth_state a db = record db { auth = some (to_json a) }

  -- What `json.JSONDecodeError` and `KeyError` are caught from; the row is deleted then.
  unfoldable read_row : Result AuthState → Database → Result (Option AuthState) × Database
  unfolding delete_auth_state
  read_row (ok a) db = (ok (some a), db)
  read_row (err json_error) db = (ok none, delete_auth_state db)
  read_row (err key_error) db = (ok none, delete_auth_state db)
  read_row (err e) db = (err e, db)

  unfoldable read_auth : Option Text → Database → Result (Option AuthState) × Database
  unfolding read_row
  read_auth none db = (ok none, db)
  read_auth (some t) db = read_row (from_json t) db

  unfoldable pub get_auth_state : Database → Result (Option AuthState) × Database
  unfolding read_auth
  get_auth_state db = read_auth db.auth db
