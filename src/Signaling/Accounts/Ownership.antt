-- ===== src/Signaling/Accounts/Ownership.antt =====
-- cloud/signaling/app/api/devices.py: whose a device is.
use lem.Base.{
  Result, true, err, ◌↔◌, ℕ, ◌≡◌, ◌∙◌, refl, sym, ap, subst, Bool, false, Option, none, some, List,
  [], ◌∷◌, nat_beq, ◌==◌, seq_eq, if◌then◌else◌, All, arith, ok, Bool-cases, inl, inr,
  seq_beq_sound, seq_beq_refl, if-both,
}
use lem.Base.Dict.{lookup, contains, lookup-put, beq_refl}
use lem.Text.{Text}
use lem.Signaling.Accounts.{
  bearer, get_current_user_id, Security, Device, Database, Reply, refused, given, owned_by_another,
  UserCreate, is_valid, register, inserted, is_foreign, upserted, upsert, register_device,
}
use lem.Signaling.Endpoint.{Auth, verify_token_and_device}
use lem.Signaling.Endpoint.Verify.{verify-accepts}

-- The user that a row belongs to.
abbrev pub user_of_row : Option Device → Option ℕ
user_of_row none = none
user_of_row (some device) = some device.user_id

abbrev pub owner : Text → Database → Option ℕ
owner device_id db = user_of_row (lookup device_id db.devices)

-- Whatever device has an owner keeps it.
abbrev pub KeepsOwners : (Database → Database) → Type 0
KeepsOwners f =
    (db : Database) (device_id : Text) (user_id : ℕ)
    → owner device_id db ≡ some user_id
    → owner device_id (f db) ≡ some user_id

upserted-user :
    (now user_id : ℕ) (pubkey : Text) (found : Option Device) (u : ℕ)
    → user_of_row found ≡ some u
    → (upserted now user_id pubkey found).user_id ≡ u
upserted-user now user_id pubkey none u e = cc
upserted-user now user_id pubkey (some device) u e = cc

upsert-owner :
    (now user_id : ℕ) (device_id pubkey : Text) → KeepsOwners (upsert now user_id device_id pubkey)
unfolding upsert
upsert-owner now user_id device_id pubkey db id u has =
    rw lookup-put (elim (Bool-cases (device_id == id)) [
      | inl same ↦ rw same (
          ap some (
            upserted-user now user_id pubkey (lookup device_id db.devices) u
              (subst (λ x. owner x db ≡ some u) (sym (seq_beq_sound device_id id same)) has)))
      | inr other ↦ rw other has
    ])

register_device-KeepsOwners :
    (now : ℕ) (meanwhile later : Database → Database) (user_id : ℕ) (device_id pubkey : Text)
    → KeepsOwners meanwhile
    → KeepsOwners later
    → KeepsOwners (λ db. (register_device now meanwhile later user_id device_id pubkey db).1)
unfolding register_device
register_device-KeepsOwners now meanwhile later user_id device_id pubkey km kl db id u has =
    if-both (λ (r : Reply Device × Database). owner id r.1 ≡ some u)
      (is_foreign user_id (lookup device_id db.devices)) has
      (kl (upsert now user_id device_id pubkey (meanwhile db)) id u
        (upsert-owner now user_id device_id pubkey (meanwhile db) id u (km db id u has)))

inserted-devices :
    (sec : Security) (minutes now : ℕ) (hash : Text) (user_data : UserCreate) (db : Database)
    → (inserted sec minutes now hash user_data db).1.devices ≡ db.devices
unfolding inserted
inserted-devices sec minutes now hash user_data db =
    if-both (λ (r : Reply Text × Database). r.1.devices ≡ db.devices)
      (contains user_data.email db.users) refl refl

register-KeepsOwners :
    (sec : Security) (minutes : ℕ) (valid_email : Text → Bool) (now salt : ℕ)
    (meanwhile : Database → Database) (user_data : UserCreate)
    → KeepsOwners meanwhile
    → KeepsOwners (λ db. (register sec minutes valid_email now salt meanwhile user_data db).1)
unfolding register
register-KeepsOwners sec minutes valid_email now salt meanwhile user_data km db id u has =
    let hash = sec.get_password_hash salt user_data.password in
    if-both (λ (r : Reply Text × Database). owner id r.1 ≡ some u) (is_valid valid_email user_data)
      (if-both (λ (r : Reply Text × Database). owner id r.1 ≡ some u)
        (contains user_data.email db.users) has
        (ap (λ d. user_of_row (lookup id d))
            (inserted-devices sec minutes now hash user_data (meanwhile db))
          ∙ km db id u has))
      has

-- A request that changes the tables, with what others do during its waits.
pub data Op : Type 0 where
  registers : (Text → Bool) → ℕ → ℕ → (Database → Database) → UserCreate → Op
  registers_device : ℕ → (Database → Database) → (Database → Database) → ℕ → Text → Text → Op

module _ (sec : Security) (minutes : ℕ) where
  unfoldable pub step : Op → Database → Database
  step (registers valid_email now salt meanwhile user_data) db =
      (register sec minutes valid_email now salt meanwhile user_data db).1
  step (registers_device now meanwhile later user_id device_id pubkey) db =
      (register_device now meanwhile later user_id device_id pubkey db).1

  unfoldable pub run : List Op → Database → Database
  run [] db = db
  run (op ∷ ops) db = run ops (step op db)

  -- Those others are requests of the same kinds, or change no owner.
  abbrev pub OpKeeps : Op → Type 0
  OpKeeps (registers valid_email now salt meanwhile user_data) = KeepsOwners meanwhile
  OpKeeps (registers_device now meanwhile later user_id device_id pubkey) =
      KeepsOwners meanwhile × KeepsOwners later

  -- Through any sequence of registrations of users and devices, each with requests of others
  -- during its waits that change no owner themselves, a device stays with its first user.
  pub run-keeps_owner :
      (ops : List Op) (db : Database) (device_id : Text) (user_id : ℕ)
      → All OpKeeps ops
      → owner device_id db ≡ some user_id
      → owner device_id (run ops db) ≡ some user_id
  unfolding run step
  run-keeps_owner [] db id u k has = has
  run-keeps_owner (registers valid_email now salt meanwhile user_data ∷ ops) db id u (k, ks) has =
      run-keeps_owner ops _ id u ks
        (register-KeepsOwners sec minutes valid_email now salt meanwhile user_data k db id u has)
  run-keeps_owner (registers_device now meanwhile later user device pubkey ∷ ops) db id u (k, ks)
        has =
      run-keeps_owner ops _ id u ks
        (register_device-KeepsOwners now meanwhile later user device pubkey k.0 k.1 db id u has)

-- Requests with nothing in between.
abbrev pub alone : ℕ → ℕ → Text → Text → Database → Reply Device × Database
alone now = register_device now (λ db. db) (λ db. db)

-- Without other requests in between: a device of another user is refused and nothing changes; any
-- other gets the new key and stays with, or goes to, the user who asked.
pub register_device-alone :
    (now user_id : ℕ) (device_id pubkey : Text) (db : Database)
    → (found : Option Device) → lookup device_id db.devices ≡ found
    → alone now user_id device_id pubkey db ≡ (
        if is_foreign user_id found
        then (refused owned_by_another, db)
        else (given (upserted now user_id pubkey found), upsert now user_id device_id pubkey db))
unfolding register_device upsert
register_device-alone now user_id device_id pubkey db found e = rw e (rw lookup-put (rw beq_refl))

-- Two users ask for the same new device, and the second is served between the check and the upsert
-- of the first. Then the device is the second's, the first is told that it is registered, and the
-- key that is stored is the first's.
pub register_device-races :
    (now first second : ℕ) (device_id first_key second_key : Text) (db : Database)
    → lookup device_id db.devices ≡ none
    → (device : Device) × ((register_device now
          (λ s. (alone now second device_id second_key s).1)
          (λ s. s)
          first
          device_id
          first_key
          db).0
        ≡ given device)
      × (lookup device_id
            (register_device now
              (λ s. (alone now second device_id second_key s).1)
              (λ s. s)
              first
              device_id
              first_key
              db).1.devices
          ≡ some device)
      × (device.user_id ≡ second)
      × (device.pubkey ≡ first_key)
unfolding register_device upsert
register_device-races now first second device_id first_key second_key db free = (
  record { user_id = second; pubkey = first_key; created_at = now; last_seen = now },
  simp (free, lookup-put, seq_beq_refl),
  simp (free, lookup-put, seq_beq_refl),
  refl,
  refl,
)

abbrev pub is_owner : ℕ → Option ℕ → Bool
is_owner user_id none = false
is_owner user_id (some u) = nat_beq u user_id

-- `verify_token_and_device` over the tables.
abbrev pub auth_of : Security → ℕ → Database → Auth
auth_of sec now db = record {
  user_of = sec.decode_access_token now;
  owns = λ user_id device_id. is_owner user_id (owner device_id db);
}

upserted-own :
    (now user_id : ℕ) (pubkey : Text) (found : Option Device)
    → is_foreign user_id found ≡ false
    → (upserted now user_id pubkey found).user_id ≡ user_id
upserted-own now user_id pubkey none own = refl
upserted-own now user_id pubkey (some device) own = ground (arith, own)

alone-owner :
    (now user_id : ℕ) (device_id pubkey : Text) (db : Database)
    → is_foreign user_id (lookup device_id db.devices) ≡ false
    → owner device_id (alone now user_id device_id pubkey db).1 ≡ some user_id
unfolding upsert
alone-owner now user_id device_id pubkey db allowed =
    ap (λ r. owner device_id r.1) (register_device-alone now user_id device_id pubkey db _ refl)
    ∙ rw allowed (
        rw lookup-put (
          rw beq_refl
            (ap some (upserted-own now user_id pubkey (lookup device_id db.devices) allowed))))

bearer-given :
    (r : Result (Option ℕ)) (user_id : ℕ) → (bearer r ≡ given user_id) ↔ (r ≡ ok (some user_id))
unfolding bearer
bearer-given (err e) user_id = (λ h. cc, λ h. cc)
bearer-given (ok none) user_id = (λ h. cc, λ h. cc)
bearer-given (ok (some u)) user_id = (λ h. cc, λ h. cc)

-- A user whom the token of a request names registers a device that is not another's, with no other
-- requests in between. Then the signaling endpoint accepts a token for that device, whatever that
-- token is, if and only if the other endpoints take it for a token of the same user.
pub register_device-verifies :
    (sec : Security) (now : ℕ) (device_id pubkey mine token : Text) (user_id : ℕ) (db : Database)
    → get_current_user_id sec now mine ≡ given user_id
    → is_foreign user_id (lookup device_id db.devices) ≡ false
    → (verify_token_and_device
          (auth_of sec now (alone now user_id device_id pubkey db).1)
          token
          device_id
        ≡ true)
      ↔ (get_current_user_id sec now token ≡ get_current_user_id sec now mine)
unfolding get_current_user_id
register_device-verifies sec now device_id pubkey mine token user_id db reads allowed =
    let (accepts, accepted) =
      verify-accepts (auth_of sec now (alone now user_id device_id pubkey db).1) token device_id
        user_id
        (λ asking. ap (is_owner asking) (alone-owner now user_id device_id pubkey db allowed)) in
    let (names, named) = bearer-given (sec.decode_access_token now token) user_id in
    (λ h. named (accepts h) ∙ sym reads, λ h. accepted (names (h ∙ reads)))
