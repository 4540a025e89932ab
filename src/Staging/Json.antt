-- ===== src/Staging/Json.antt =====
-- What `json.Unmarshal` makes of a document: the cases that internal/staging tells apart. A number is
-- its text. Reading, printing and the texts of identifiers are those of packages outside.
use deploy_sentry.Base.{nat_eq, string_eq, ℕ, String, Bool, Option}

mutual
  pub data Json : Type 0 where
    null : Json
    bool : Bool → Json
    number string : String → Json
    array : Items → Json
    object : Fields → Json

  pub data Items : Type 0 where
    no_item : Items
    item : Json → Items → Items

  pub data Fields : Type 0 where
    no_field : Fields
    field : String → Json → Fields → Fields

pub record Texts : Type 0 where
  -- `json.Unmarshal`, `json.Marshal`, `uuid.Parse` and `UUID.String`; `none` for an error.
  pub unmarshal : String → Option Json
  pub marshal : Json → Option String
  pub parse : String → Option ℕ
  pub print : ℕ → String
