-- ===== src/Host.antt =====
-- What the platform provides to the code: parsed addresses, URL patterns and JSON values.
use text.Mathlib.Text.{◌==◌}
use browshare.Prelude.{Bool, Option, none, some, List, [], ◌∷◌, String, if◌then◌else◌}

-- The parts of a `URL` that the code reads.
pub record Url : Type 0 where
  pub protocol : String
  pub username : String
  pub password : String
  pub href : String
  pub search : String
  pub hash : String

-- What `JSON.parse` returns. Numbers are not looked into.
mutual
  pub data Json : Type 0 where
    null number : Json
    boolean : Bool → Json
    str : String → Json
    array : Items → Json
    object : Fields → Json

  pub data Items : Type 0 where
    nil : Items
    cons : Json → Items → Items

  pub data Fields : Type 0 where
    end : Fields
    field : String → Json → Fields → Fields

abbrev pub key_names : Fields → List String
key_names end = []
key_names (field k v fs) = k ∷ key_names fs

abbrev pub find_field : String → Fields → Option Json
find_field key end = none
find_field key (field k v fs) = if k == key then some v else find_field key fs

-- `new URL`, `new URLPattern(...).test` and `JSON.parse`, which fail where those throw.
pub record Platform : Type 0 where
  pub parse_url : String → Option Url
  pub compile_pattern : String → Option (String → Bool)
  pub parse_json : String → Option Json
