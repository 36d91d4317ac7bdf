-- ===== src/Contracts/Json.antt =====
-- A JSON value as JSON.parse gives it, and the reads that the parsers of the services make of it.
use straitsx.Prelude.{ℕ, ◌≡◌, Bool, false, Option, none, some, if◌then◌else◌}
use straitsx.Text.{Text, same}

-- A number is natural, or none where it is not finite; a member's last value wins when it is parsed.
mutual
  pub data Json : Type 0 where
    null : Json
    boolean : Bool → Json
    number : Option ℕ → Json
    string : Text → Json
    array : Items → Json
    object : Fields → Json

  pub data Items : Type 0 where
    close_array : Items
    item : Json → Items → Items

  pub data Fields : Type 0 where
    close_object : Fields
    field : Text → Json → Fields → Fields

unfoldable pub lookup : Text → Fields → Option Json
lookup key close_object = none
lookup key (field k v rest) = if same k key then some v else lookup key rest

-- o[key], with none for undefined; an array has none of the keys that are read
unfoldable pub member : Text → Json → Option Json
member key (object fields) = lookup key fields
member key _ = none

-- typeof v === "object" && v !== null
abbrev pub as_object : Json → Option Json
as_object (object fields) = some (object fields)
as_object (array items) = some (array items)
as_object _ = none

-- typeof v === "string"
abbrev pub as_string : Json → Option Text
as_string (string s) = some s
as_string _ = none

-- typeof v === "number" && Number.isFinite(v)
abbrev pub as_finite : Json → Option ℕ
as_finite (number n) = n
as_finite _ = none

-- The first item of an array that has one.
abbrev pub first_item : Json → Option Json
first_item (array (item v rest)) = some v
first_item _ = none

pub lookup-other :
    (key k : Text) (v : Json) (fields : Fields)
    → same k key ≡ false
    → lookup key (field k v fields) ≡ lookup key fields
unfolding lookup
lookup-other key k v fields h = rw h
