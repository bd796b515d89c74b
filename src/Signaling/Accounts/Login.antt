-- ===== src/Signaling/Accounts/Login.antt =====
-- cloud/signaling/app/api/auth.py: a registration and the logins that follow it.
use lem.Base.{
  ℕ, suc, ◌+◌, ◌*◌, ◌<◌, ◌≡◌, ◌∙◌, ap, Bool, true, false, Option, none, some, seq_eq, if◌then◌else◌,
  Bool-cases, inl, inr, arith, ok,
}
use lem.Base.Dict.{lookup, put, contains, lookup-put, beq_refl}
use lem.Text.{Text}
use lem.Signaling.Accounts.{
  Security, User, Database, refused, given, incorrect_password, UserCreate, is_valid,
  create_access_token, register, checked, login,
}

module _ (sec : Security) (minutes : ℕ) where
  -- The token of a login is one for a user in the table.
  checked-given :
      (now : ℕ) (password token : Text) (o : Option User)
      → checked sec minutes now password o ≡ given token
      → (u : User) × (create_access_token sec minutes now u.email u.id ≡ token)
  unfolding checked
  checked-given now password token none h = cc
  checked-given now password token (some u) h = (u, ground (arith, h))

  pub login-given :
      (valid_email : Text → Bool) (now : ℕ) (credentials : UserCreate) (db : Database)
      (token : Text)
      → login sec minutes valid_email now credentials db ≡ given token
      → (u : User) × (create_access_token sec minutes now u.email u.id ≡ token)
  unfolding login
  login-given valid_email now credentials db token h =
      elim (Bool-cases (valid_email credentials.email)) [
        | inl valid ↦
            checked-given now credentials.password token (lookup credentials.email db.users)
              (rw valid at h)
        | inr wrong ↦ cc (rw wrong at h)
      ]

  -- A token reads until it expires.
  pub create_access_token-lasts :
      (now later : ℕ) (email : Text) (user_id : ℕ)
      → later < now + minutes * 60
      → sec.decode_access_token later (create_access_token sec minutes now email user_id)
        ≡ ok (some user_id)
  unfolding create_access_token
  create_access_token-lasts now later email user_id h =
      sec.decode-encode email user_id (now + minutes * 60) later h

module _ (sec : Security) (minutes : ℕ) (lasting : 0 < minutes) where
  create_access_token-reads :
      (now : ℕ) (email : Text) (user_id : ℕ)
      → sec.decode_access_token now (create_access_token sec minutes now email user_id)
        ≡ ok (some user_id)
  create_access_token-reads now email user_id =
      create_access_token-lasts sec minutes now now email user_id (omega arith)

  login-stored :
      (valid_email : Text → Bool) (now : ℕ) (email password : Text) (user : User) (db : Database)
      → valid_email email ≡ true
      → lookup email db.users ≡ some user
      → login sec minutes valid_email now (record { email = email; password = password }) db ≡ (
          if sec.verify_password password user.hashed_password
          then given (create_access_token sec minutes now user.email user.id)
          else refused incorrect_password)
  unfolding login
  login-stored valid_email now email password user db valid stored = rw (valid, stored, checked)

  module _ (valid_email : Text → Bool) (now salt : ℕ) (meanwhile : Database → Database)
      (user_data : UserCreate) (db : Database) where
    -- The row that the registration stores.
    abbrev row : User
    row = record {
      id = (meanwhile db).next_id;
      email = user_data.email;
      hashed_password = sec.get_password_hash salt user_data.password;
    }

    email_valid : is_valid valid_email user_data ≡ true → valid_email user_data.email ≡ true
    email_valid valid = ground (arith, valid)

    register-eq :
        is_valid valid_email user_data ≡ true
        → contains user_data.email db.users ≡ false
        → contains user_data.email (meanwhile db).users ≡ false
        → register sec minutes valid_email now salt meanwhile user_data db ≡ (
          given (create_access_token sec minutes now user_data.email (meanwhile db).next_id),
          record (meanwhile db) {
            users = put user_data.email row (meanwhile db).users;
            next_id = suc (meanwhile db).next_id;
          },
        )
    unfolding register
    register-eq valid free still_free = rw (valid, free, still_free)

    -- A valid registration of an address that stays free gives a token for a new user. As long as
    -- other requests leave the user's row alone, a login with the same password gives a token for
    -- the same user, and one with a password that does not verify is refused. Tokens are taken to
    -- last for some minutes.
    pub register-login :
        (later : ℕ) (others : Database → Database) (wrong : Text)
        → is_valid valid_email user_data ≡ true
        → contains user_data.email db.users ≡ false
        → contains user_data.email (meanwhile db).users ≡ false
        → lookup user_data.email
            (others (register sec minutes valid_email now salt meanwhile user_data db).1).users
          ≡ lookup user_data.email
              (register sec minutes valid_email now salt meanwhile user_data db).1.users
        → sec.verify_password wrong (sec.get_password_hash salt user_data.password) ≡ false
        → (token : Text) × (token' : Text) × ((register sec minutes valid_email now salt meanwhile
              user_data db).0
            ≡ given token)
          × (sec.decode_access_token now token ≡ ok (some (meanwhile db).next_id))
          × (login sec minutes valid_email later user_data
                (others (register sec minutes valid_email now salt meanwhile user_data db).1)
              ≡ given token')
          × (sec.decode_access_token later token' ≡ ok (some (meanwhile db).next_id))
          × (login sec minutes valid_email later
                (record user_data { password = wrong })
                (others (register sec minutes valid_email now salt meanwhile user_data db).1)
              ≡ refused incorrect_password)
    register-login later others wrong valid free still_free kept fails =
        let e = register-eq valid free still_free in
        let after = others (register sec minutes valid_email now salt meanwhile user_data db).1 in
        let stored : lookup user_data.email after.users ≡ some row =
          kept ∙ ap (λ r. lookup user_data.email r.1.users) e ∙ rw lookup-put (rw beq_refl) in
        (
          create_access_token sec minutes now user_data.email (meanwhile db).next_id,
          create_access_token sec minutes later user_data.email (meanwhile db).next_id,
          ap (λ r. r.0) e,
          create_access_token-reads now user_data.email (meanwhile db).next_id,
          login-stored valid_email later user_data.email user_data.password row after
                (email_valid valid) stored
              ∙ rw (sec.verify_password-hash salt user_data.password),
          create_access_token-reads later user_data.email (meanwhile db).next_id,
          login-stored valid_email later user_data.email wrong row after (email_valid valid) stored
              ∙ rw fails,
        )
