-- ===== src/Json.antt =====
-- `json.dumps` and `json.loads` of the headers, as an interface: the frame code hands the texts on
-- and never looks into them.
use lem.Base.{◌<◌, ◌≡◌, List, Result, ok, All}
use lem.Text.{Text}

-- `of_dict`: what a dict from texts to texts is for the encoder.
-- `loads-dumps`: the decoder reads what the encoder wrote. `dumps-IsAscii`: `ensure_ascii` is
-- the default, so all else is escaped.
pub record Json : Type 1 where
  pub Value : Type 0
  pub of_dict : List (Text × Text) → Value
  pub dumps : Value → Text
  pub loads : Text → Result Value
  pub loads-dumps : (v : Value) → loads (dumps v) ≡ ok v
  pub dumps-IsAscii : (v : Value) → All (λ c. c < 128) (dumps v)
