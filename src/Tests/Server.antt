-- ===== src/Tests/Server.antt =====
-- The server's database and login on concrete requests.
use lem.Base.{
  ◌≡◌, refl, some, [], ◌∷◌, ◌++◌, Result, ok, length, take, drop, take-length, drop-length, seq_eq,
}
use lem.Base.Dict.{Dict}
use lem.Text.{Text}
use lem.Text.Methods.{lit}
use lem.Server.Database.{AuthState, Device, AuthJson, empty_db, to_dict, get_device}
use lem.Server.Database.Refinement.{
  gets, sets, gets_login, gets_device, blank, performs, promises, performs-refines,
}
use lem.Server.Login.{Server, LoginRequest, Response, World, login}
use lem.Server.Login.Kept.{Request, logs_out, HasDevice, Names, serves, serves-keeps_device}
use lem.Server.Login.Stored.{Settled, Unmoved, login-settles, login-keeps_agent}
use lem.Server.App.Restart.{Outlives, login-survives}
use lem.Tests.Manager.{joins, running}

-- The values, each behind its length.
abbrev dumps : Dict Text Text → Text
dumps [] = []
dumps ((k, v) ∷ d) = length v ∷ (v ++ dumps d)

abbrev cut : Text → Text × Text
cut [] = ([], [])
cut (n ∷ t) = (take n t, drop n t)

abbrev loads : Text → Result (Dict Text Text)
loads t =
    let a = cut t in
    let b = cut a.1 in
    let c = cut b.1 in
    let d = cut c.1 in
    ok (
      (lit "email", a.0)
      ∷ (lit "jwt_token", b.0)
      ∷ (lit "device_id", c.0)
      ∷ (lit "signaling_url", d.0)
      ∷ [])

loads-dumps : (a : AuthState) → loads (dumps (to_dict a)) ≡ ok (to_dict a)
unfolding to_dict
loads-dumps a = simp (take-length, drop-length)

abbrev json : AuthJson
json = record { dumps = dumps; loads = loads; loads-dumps = loads-dumps }

performs-refines_example :
    performs json
      (sets (lit "k") (lit "v") ∷ gets (lit "k") ∷ gets_login ∷ gets_device ∷ [])
      empty_db
    ≡ promises (sets (lit "k") (lit "v") ∷ gets (lit "k") ∷ gets_login ∷ gets_device ∷ []) blank
performs-refines_example =
    performs-refines json
      (sets (lit "k") (lit "v") ∷ gets (lit "k") ∷ gets_login ∷ gets_device ∷ [])

abbrev request : LoginRequest
request = record {
  email = lit "a@lem.gg";
  password = lit "password";
  signaling_url = lit "https://other.lem.gg/";
}

abbrev fine : Response
fine = record { status = 200; text = ok []; field = λ key. ok (some (lit "t")) }

abbrev world : World
world = record {
  first = record { answer = ok fine; meanwhile = λ s. s };
  second = record { answer = ok fine; meanwhile = λ s. s };
  written = ok tt;
  now = 5;
  hex = lit "0123456789";
  connect = joins;
  locking = λ s. s;
  joining = λ s. s;
}

abbrev laptop : Device
laptop = record { id = lit "d"; pubkey = lit "k"; created_at = 1 }

abbrev server : Server
server = record { db = record empty_db { device = laptop ∷ [] }; tunnel_manager = some running }

login-settles_example :
    Settled json server
      (lit "a@lem.gg")
      (login json world request server).0
      (login json world request server).1
login-settles_example =
    login-settles json world request server (λ t. (refl, refl)) (λ t. (refl, refl))
      (λ t. (refl, refl)) (λ t. (refl, refl))

login-keeps_agent_example :
    Unmoved json running (login json world request server).0 (login json world request server).1
login-keeps_agent_example =
    login-keeps_agent json world request running server (λ t. (refl, refl)) (λ t. (refl, refl))
      (λ t. (refl, refl)) (λ t. (refl, refl)) refl refl

serves-keeps_device_example :
    HasDevice json laptop (serves json (Request.logs_in world request ∷ logs_out ∷ []) server)
    × Names json
        (lit "d")
        (login json world request
          (serves json (Request.logs_in world request ∷ logs_out ∷ []) server)).0
unfolding get_device
serves-keeps_device_example =
    serves-keeps_device json laptop (Request.logs_in world request ∷ logs_out ∷ []) world request
      server (((λ t h. h), (λ t h. h), (λ t h. h), (λ t h. h)), (tt, tt))
      ((λ t h. h), (λ t h. h), (λ t h. h), (λ t h. h)) refl

login-survives_example :
    Outlives json joins request
      (login json world request server).0
      (login json world request server).1
login-survives_example =
    login-survives json joins world request server (λ d t. refl) (λ t. (refl, refl))
      (λ t. (refl, refl))
