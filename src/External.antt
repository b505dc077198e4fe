-- ===== src/External.antt =====
-- What the code calls and does not implement: google/uuid, bcrypt, and of Go's standard library the
-- parsers of JSON text and of durations (the latter computes with floats). They are parameters; a
-- theorem that relies on their documented behaviour says so by a hypothesis.
use enterprise_kratos.Base.{ℕ, String, Option, Uuid, Json}

-- A parsed `time.Duration`, in nanoseconds.
pub data Duration : Type 0 where
  positive : ℕ → Duration
  not_positive : Duration

pub record External : Type 0 where
  -- `uuid.Parse` and `UUID.String`
  pub parse_uuid : String → Option Uuid
  pub uuid_text : Uuid → String
  -- `time.ParseDuration`
  pub parse_duration : String → Option Duration
  -- `json.Unmarshal` of a text
  pub parse_json : String → Option Json
