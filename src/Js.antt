-- ===== src/Js.antt =====
-- The values of JavaScript that the neon_encoder.rs files and the mod.rs files of src/ build with the
-- crate neon, as trees of the calls that the code makes.
use stacks_encoding_native_j.Prelude.{
  ℕ, Bool, true, false, ◌&&◌, List, [], ◌∷◌, codes, Outcome, Option, none, some, ◌==◌,
  if◌then◌else◌,
}
use Prim.Native.String.{String}
use stacks_encoding_native_j.Address.Crockford.Defs.{C32Error}

-- `object` holds the calls of `set` on an object, and `array` the length given to `JsArray::new` and
-- what was set at the indices 0, 1 and so on. A string is the list of its bytes in UTF-8.
mutual
  pub data JsValue : Type 0 where
    string : List ℕ → JsValue
    number : ℕ → JsValue
    boolean : Bool → JsValue
    null : JsValue
    object : JsObject → JsValue
    array : ℕ → JsItems → JsValue

  pub data JsProperty : Type 0 where
    property : List ℕ → JsValue → JsProperty

  -- The last call of `set` stands on the right.
  infixl 4 ◌&◌
  pub data JsObject : Type 0 where
    empty_object : JsObject
    ◌&◌ : JsObject → JsProperty → JsObject

  pub data JsItems : Type 0 where
    no_items : JsItems
    item : JsValue → JsItems → JsItems

infix 6 ◌is◌
abbrev pub ◌is◌ : String → JsValue → JsProperty
key is value = property (codes key) value

-- An encoder: `throw_error` is only called when an address has no text.
abbrev pub Encoded : Type 0
Encoded = Outcome C32Error JsObject

abbrev pub same_key : List ℕ → List ℕ → Bool
same_key [] [] = true
same_key (j ∷ js) (k ∷ ks) = j == k && same_key js ks
same_key _ _ = false

-- The property of an object: what the last `set` of its key gave.
abbrev pub get : List ℕ → JsObject → Option JsValue
get key empty_object = none
get key (obj & property k v) = if same_key k key then some v else get key obj
