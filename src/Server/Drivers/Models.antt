-- ===== src/Server/Drivers/Models.antt =====
-- server/app/drivers/runners/ollama.py: the calls of Ollama's API. What httpx answers is an argument,
-- and so are `str.strip` and the JSON of a line.
use lem.Base.{
  ℕ, Bool, ◌&&◌, Option, none, some, List, [], ◌∷◌, if◌then◌else◌, leb, Result, ok, err, Exn,
}
use lem.Text.{Text}
use lem.Text.Methods.{truthy}

-- How a request ends: with a response, or with one of the exceptions that are told apart.
pub data Ending (A : Type 0) : Type 0 where
  responds : ℕ → A → Ending A
  connect_fails times_out : Ending A
  breaks : Exn → Ending A

-- The errors of the two endpoints, by the `type` of their detail.
pub data ApiError : Type 0 where
  ollama_unavailable ollama_timeout invalid_model_ref : ApiError
  api_status : ℕ → ApiError
  api_error : Text → ApiError
  internal_error : ApiError

pub data Reply (A : Type 0) : Type 0 where
  refused : ApiError → Reply A
  given : A → Reply A

-- `raise_for_status` lets a 2xx through.
abbrev pub is_success : ℕ → Bool
is_success status = leb 200 status && leb status 299

-- The body of a pull: its lines, and what `error_detail` is after an error.
pub record PullBody : Type 0 where
  pub lines : List Text
  pub error : Text

module _ {V : Type 0} where
  -- `data.get("models", [])`
  models_in : Result (Option (List V)) → Reply (List V)
  models_in (err e) = refused internal_error
  models_in (ok none) = given []
  models_in (ok (some models)) = given models

  -- `list_ollama_models`; the body is what `response.json().get("models")` gives. A timeout is not
  -- told apart.
  unfoldable pub list_ollama_models : Ending (Result (Option (List V))) → Reply (List V)
  unfolding models_in
  list_ollama_models (responds status body) =
      if is_success status then models_in body else refused (api_status status)
  list_ollama_models connect_fails = refused ollama_unavailable
  list_ollama_models times_out = refused internal_error
  list_ollama_models (breaks e) = refused internal_error

  -- A line that is not blank and is JSON replaces the status.
  abbrev noted : Option V → Result V → Option V
  noted last (ok v) = some v
  noted last (err e) = last

  unfoldable pub last_status : (Text → Text) → (Text → Result V) → List Text → Option V → Option V
  last_status strip loads [] last = last
  last_status strip loads (line ∷ lines) last =
      last_status strip loads lines (if truthy (strip line) then noted last (loads line) else last)

  -- `pull_ollama_model`; what is returned is the last status.
  unfoldable pub pull_ollama_model :
      (Text → Text) → (Text → Result V) → Text → Ending PullBody → Reply (Option V)
  unfolding last_status
  pull_ollama_model strip loads model_ref ending =
      if truthy model_ref
      then elim ending [
        | responds status body ↦
            if is_success status
            then given (last_status strip loads body.lines none)
            else refused (api_error body.error)
        | connect_fails ↦ refused ollama_unavailable
        | times_out ↦ refused ollama_timeout
        | breaks e ↦ refused internal_error
      ]
      else refused invalid_model_ref
