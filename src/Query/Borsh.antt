-- ===== src/Query/Borsh.antt =====
-- crates/query/src/serializer/borsh.rs: JSON values with numbers of 64 bits, for Borsh. The numbers of
-- `serde_json`, 64-bit floats and the encoding by `borsh` are parameters.
use schema_js.Prelude.{◌≡◌, refl, Bool, [], Option, some}
use schema_js.Prelude.Results.{Result, ok, err, panic, ◌>>=◌, expect_some}
use schema_js.Prelude.Bytes.{Bytes}
use schema_js.Primitives.Column.{Text}
use schema_js.Query.Row.{RowSerializationError}

-- `serde_json::Value` and `BorshJsonValue`, which differ in their numbers. The members of an object
-- are a list in one of the orders in which the maps may be gone through.
mutual
  pub data JsonValue (Number : Type 0) : Type 0 where
    null : JsonValue Number
    boolean : Bool → JsonValue Number
    number : Number → JsonValue Number
    string : Text → JsonValue Number
    array : JsonArray Number → JsonValue Number
    object : JsonMembers Number → JsonValue Number

  pub data JsonArray (Number : Type 0) : Type 0 where
    no_items : JsonArray Number
    item : JsonValue Number → JsonArray Number → JsonArray Number

  pub data JsonMembers (Number : Type 0) : Type 0 where
    no_members : JsonMembers Number
    member : Text → JsonValue Number → JsonMembers Number → JsonMembers Number

-- A value with its numbers converted; a number that cannot be is unwrapped.
unfoldable mutual
  pub convert : {E A B : Type 0} → (A → Option B) → JsonValue A → Result E (JsonValue B)
  convert f JsonValue.null = ok JsonValue.null
  convert f (JsonValue.boolean b) = ok (JsonValue.boolean b)
  convert f (JsonValue.number n) = (expect_some (f n) >>= λ m. ok (JsonValue.number m))
  convert f (JsonValue.string s) = ok (JsonValue.string s)
  convert f (JsonValue.array items) = (convert_array f items >>= λ r. ok (JsonValue.array r))
  convert f (JsonValue.object members) =
      (convert_members f members >>= λ r. ok (JsonValue.object r))

  convert_array : {E A B : Type 0} → (A → Option B) → JsonArray A → Result E (JsonArray B)
  convert_array f JsonArray.no_items = ok JsonArray.no_items
  convert_array f (JsonArray.item v rest) =
      (convert f v >>= λ v'. convert_array f rest >>= λ rest'. ok (JsonArray.item v' rest'))

  convert_members : {E A B : Type 0} → (A → Option B) → JsonMembers A → Result E (JsonMembers B)
  convert_members f JsonMembers.no_members = ok JsonMembers.no_members
  convert_members f (JsonMembers.member key v rest) =
      (convert f v >>= λ v'.
      convert_members f rest >>= λ rest'. ok (JsonMembers.member key v' rest'))

-- What the program uses of numbers and of `borsh`, whose error is a text.
pub record BorshApi (Number Float : Type 0) : Type 0 where
  pub as_f64 : Number → Option Float
  pub from_f64 : Float → Option Number
  pub try_from_slice : Bytes → Result Text (JsonValue Float)

module _ {Number Float : Type 0} (api : BorshApi Number Float) where
  -- `From<&Value> for BorshJsonValue` and `Into<Value> for BorshJsonValue`
  abbrev pub borsh_of : {E : Type 0} → JsonValue Number → Result E (JsonValue Float)
  borsh_of v = convert api.as_f64 v

  abbrev pub value_of : {E : Type 0} → JsonValue Float → Result E (JsonValue Number)
  value_of v = convert api.from_f64 v

  -- `BorshRowSerializer`, which writes nothing.
  abbrev pub borsh_serialize : Result RowSerializationError Bytes
  borsh_serialize = ok []

  abbrev pub borsh_deserialize : Bytes → Result RowSerializationError (JsonValue Number)
  borsh_deserialize bytes = elim (api.try_from_slice bytes) [
    | ok borsh_value ↦ value_of borsh_value
    | err e ↦ err (RowSerializationError.deserialization_error e)
    | panic ↦ panic
  ]

-- Every number in a value comes back from the conversion there and back.
abbrev mutual
  pub Returning : {A B : Type 0} → (A → Option B) → (B → Option A) → JsonValue A → Type 0
  Returning f g JsonValue.null = Unit
  Returning f g (JsonValue.boolean b) = Unit
  Returning {B = B} f g (JsonValue.number n) = (m : B) × (f n ≡ some m) × (g m ≡ some n)
  Returning f g (JsonValue.string s) = Unit
  Returning f g (JsonValue.array items) = ReturningItems f g items
  Returning f g (JsonValue.object members) = ReturningMembers f g members

  ReturningItems : {A B : Type 0} → (A → Option B) → (B → Option A) → JsonArray A → Type 0
  ReturningItems f g JsonArray.no_items = Unit
  ReturningItems f g (JsonArray.item v rest) = Returning f g v × ReturningItems f g rest

  ReturningMembers : {A B : Type 0} → (A → Option B) → (B → Option A) → JsonMembers A → Type 0
  ReturningMembers f g JsonMembers.no_members = Unit
  ReturningMembers f g (JsonMembers.member key v rest) = Returning f g v × ReturningMembers f g rest

module _ (E : Type 0) {A B : Type 0} (f : A → Option B) (g : B → Option A) where
  -- The value that is converted, which is converted back.
  abbrev Back : JsonValue A → Type 0
  Back v = (w : JsonValue B) × (convert {E = E} f v ≡ ok w) × (convert {E = E} g w ≡ ok v)

  abbrev BackItems : JsonArray A → Type 0
  BackItems vs =
      (ws : JsonArray B) × (convert_array {E = E} f vs ≡ ok ws)
      × (convert_array {E = E} g ws ≡ ok vs)

  abbrev BackMembers : JsonMembers A → Type 0
  BackMembers vs =
      (ws : JsonMembers B) × (convert_members {E = E} f vs ≡ ok ws)
      × (convert_members {E = E} g ws ≡ ok vs)

  mutual
    unfolding convert

    back : (v : JsonValue A) → Returning f g v → Back v
    back JsonValue.null r = (JsonValue.null, refl, refl)
    back (JsonValue.boolean b) r = (JsonValue.boolean b, refl, refl)
    back (JsonValue.number n) (m, there, here) = (JsonValue.number m, rw there refl, rw here refl)
    back (JsonValue.string s) r = (JsonValue.string s, refl, refl)
    back (JsonValue.array items) r =
        let (ws, there, here) = back_items items r in
        (JsonValue.array ws, rw there refl, rw here refl)
    back (JsonValue.object members) r =
        let (ws, there, here) = back_members members r in
        (JsonValue.object ws, rw there refl, rw here refl)

    back_items : (vs : JsonArray A) → ReturningItems f g vs → BackItems vs
    back_items JsonArray.no_items r = (JsonArray.no_items, refl, refl)
    back_items (JsonArray.item v rest) (r, rs) =
        let (w, there, here) = back v r in
        let (ws, theres, heres) = back_items rest rs in
        (JsonArray.item w ws, rw (there, ◌>>=◌, theres) refl, rw (here, ◌>>=◌, heres) refl)

    back_members : (vs : JsonMembers A) → ReturningMembers f g vs → BackMembers vs
    back_members JsonMembers.no_members r = (JsonMembers.no_members, refl, refl)
    back_members (JsonMembers.member key v rest) (r, rs) =
        let (w, there, here) = back v r in
        let (ws, theres, heres) = back_members rest rs in
        (JsonMembers.member key w ws, rw (there, ◌>>=◌, theres) refl, rw (here, ◌>>=◌, heres) refl)

-- A JSON value all of whose numbers come back from 64-bit floats comes back from its Borsh form, with
-- the arrays and objects in it.
pub value_of-borsh_of :
    {Number Float : Type 0} (E : Type 0) (api : BorshApi Number Float) (v : JsonValue Number)
    → Returning api.as_f64 api.from_f64 v
    → (b : JsonValue Float) × (borsh_of api {E = E} v ≡ ok b) × (value_of api {E = E} b ≡ ok v)
value_of-borsh_of E api v returning = back E api.as_f64 api.from_f64 v returning
