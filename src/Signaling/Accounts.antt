-- ===== src/Signaling/Accounts.antt =====
-- cloud/signaling/app/api/auth.py and devices.py, over the two tables of
-- cloud/signaling/app/db/database.py in SQLite. Tables are dictionaries by their unique column.
-- A request waits for each statement; what other requests do to the tables between two of its
-- statements is an argument.
pub mod Login
pub mod Ownership
use lem.Base.{
  ℕ, suc, ◌+◌, ◌*◌, ◌<◌, ◌≡◌, Bool, true, false, not, ◌&&◌, Option, none, some, List, [], ◌∷◌, leb,
  length, nat_beq, seq_eq, if◌then◌else◌, Result, ok, err, ◌>>=◌,
}
use lem.Base.Dict.{Dict, lookup, put, contains}
use lem.Text.{Text}

-- What jose and passlib do: a password's hash depends on a random salt; a token carries the subject,
-- the user and the time at which it expires, and reads back until then. `decode_access_token` gives
-- what `payload.get("user_id")` finds.
pub record Security : Type 0 where
  pub get_password_hash : ℕ → Text → Text
  pub verify_password : Text → Text → Bool
  pub encode : Text → ℕ → ℕ → Text
  pub decode_access_token : ℕ → Text → Result (Option ℕ)
  pub verify_password-hash :
      (salt : ℕ) (password : Text)
      → verify_password password (get_password_hash salt password) ≡ true
  pub decode-encode :
      (email : Text) (user_id expire now : ℕ)
      → now < expire
      → decode_access_token now (encode email user_id expire) ≡ ok (some user_id)

pub record User : Type 0 where
  pub id : ℕ
  pub email : Text
  pub hashed_password : Text

pub record Device : Type 0 where
  pub user_id : ℕ
  pub pubkey : Text
  pub created_at : ℕ
  pub last_seen : ℕ

-- `users` by e-mail address and `devices` by identifier; `next_id` is AUTOINCREMENT's.
pub record Database : Type 0 where
  pub users : Dict Text User
  pub devices : Dict Text Device
  pub next_id : ℕ

-- `_init_sqlite` on a new file
abbrev pub new_database : Database
new_database = record { users = []; devices = []; next_id = 1 }

-- How a request is refused: by the schema, or with the status and the reason of the endpoint; an
-- IntegrityError is not caught.
pub data Refusal : Type 0 where
  invalid_request : Refusal
  email_registered incorrect_password invalid_credentials owned_by_another : Refusal
  integrity_error device_missing : Refusal

pub data Reply {ℓ} (A : Type ℓ) : Type ℓ where
  refused : Refusal → Reply A
  given : A → Reply A

-- `UserCreate` and `UserLogin`; `valid_email` is whether pydantic takes the address.
pub record UserCreate : Type 0 where
  pub email : Text
  pub password : Text

abbrev pub is_valid : (Text → Bool) → UserCreate → Bool
is_valid valid_email user_data = valid_email user_data.email && leb 8 (length user_data.password)

module _ (sec : Security) (expire_minutes : ℕ) where
  -- `create_access_token`, without an `expires_delta`
  unfoldable pub create_access_token : ℕ → Text → ℕ → Text
  create_access_token now email user_id = sec.encode email user_id (now + expire_minutes * 60)

  -- The row is inserted unless the address is taken by now.
  inserted : ℕ → Text → UserCreate → Database → Reply Text × Database
  unfolding create_access_token
  inserted now hash user_data db =
      if contains user_data.email db.users then (refused integrity_error, db) else (
        given (create_access_token now user_data.email db.next_id),
        record db {
          users =
              put user_data.email
                (record { id = db.next_id; email = user_data.email; hashed_password = hash })
                db.users;
          next_id = suc db.next_id;
        },
      )

  -- `register`
  unfoldable pub register :
      (Text → Bool) → ℕ → ℕ → (Database → Database) → UserCreate → Database → Reply Text × Database
  unfolding inserted
  register valid_email now salt meanwhile user_data db =
      if is_valid valid_email user_data
      then (if contains user_data.email db.users
          then (refused email_registered, db)
          else inserted now (sec.get_password_hash salt user_data.password) user_data
              (meanwhile db))
      else (refused invalid_request, db)

  checked : ℕ → Text → Option User → Reply Text
  unfolding create_access_token
  checked now password none = refused incorrect_password
  checked now password (some user) =
      if sec.verify_password password user.hashed_password
      then given (create_access_token now user.email user.id)
      else refused incorrect_password

  -- `login`: `UserLogin` checks the address alone.
  unfoldable pub login : (Text → Bool) → ℕ → UserCreate → Database → Reply Text
  unfolding checked
  login valid_email now credentials db =
      if valid_email credentials.email
      then checked now credentials.password (lookup credentials.email db.users)
      else refused invalid_request

pub bearer : Result (Option ℕ) → Reply ℕ
bearer (ok (some user_id)) = given user_id
bearer (ok none) = refused invalid_credentials
bearer (err e) = refused invalid_credentials

-- `get_current_user_id`
unfoldable pub get_current_user_id : Security → ℕ → Text → Reply ℕ
unfolding bearer
get_current_user_id sec now token = bearer (sec.decode_access_token now token)

-- Whether the row found is another user's.
abbrev pub is_foreign : ℕ → Option Device → Bool
is_foreign user_id none = false
is_foreign user_id (some device) = not (nat_beq device.user_id user_id)

-- What `INSERT ... ON CONFLICT(id) DO UPDATE SET pubkey, last_seen` stores.
abbrev pub upserted : ℕ → ℕ → Text → Option Device → Device
upserted now user_id pubkey none = record {
  user_id = user_id;
  pubkey = pubkey;
  created_at = now;
  last_seen = now;
}
upserted now user_id pubkey (some device) = record device { pubkey = pubkey; last_seen = now }

unfoldable pub upsert : ℕ → ℕ → Text → Text → Database → Database
upsert now user_id device_id pubkey db = record db {
  devices = put device_id (upserted now user_id pubkey (lookup device_id db.devices)) db.devices;
}

fetched : Option Device → Reply Device
fetched none = refused device_missing
fetched (some device) = given device

-- `register_device` of a user whose token was accepted: the check, the upsert and the fetch.
unfoldable pub register_device :
    ℕ
    → (Database → Database)
    → (Database → Database)
    → ℕ
    → Text
    → Text
    → Database
    → Reply Device × Database
unfolding fetched
register_device now meanwhile later user_id device_id pubkey db =
    let stored = later (upsert now user_id device_id pubkey (meanwhile db)) in
    if is_foreign user_id (lookup device_id db.devices)
    then (refused owned_by_another, db)
    else (fetched (lookup device_id stored.devices), stored)

-- `list_devices`
unfoldable pub list_devices : ℕ → Dict Text Device → Dict Text Device
list_devices user_id [] = []
list_devices user_id ((id, device) ∷ rows) =
    if nat_beq device.user_id user_id
    then (id, device) ∷ list_devices user_id rows
    else list_devices user_id rows
