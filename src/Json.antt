-- ===== src/Json.antt =====
-- The values that src/ holds at type `unknown`: what `JSON.parse` and `JSON.stringify` read and print,
-- and `bigint`.
use Prim.Native.String.{String}
use package.text.Mathlib.Text.{◌==◌ as str_eq}
use cgov_api.Prelude.{Bool, if◌then◌else◌}
use cgov_api.Prelude.Int.{ℤ}

-- `number` is an integer, `fraction` another finite number, by its shortest text, and `not_finite` a
-- NaN or an infinity. The keys of an object differ.
mutual
  pub data JsValue : Type 0 where
    undefined null not_finite : JsValue
    boolean : Bool → JsValue
    big : ℤ → JsValue
    number : ℤ → JsValue
    fraction : String → JsValue
    str : String → JsValue
    array : JsItems → JsValue
    object : JsFields → JsValue

  pub data JsItems : Type 0 where
    nil : JsItems
    item : JsValue → JsItems → JsItems

  pub data JsFields : Type 0 where
    end : JsFields
    field : String → JsValue → JsFields → JsFields

-- `value.key`, on an object.
unfoldable pub get_field : String → JsFields → JsValue
get_field key end = undefined
get_field key (field k v fs) = if str_eq k key then v else get_field key fs

-- `a ?? b`.
abbrev pub or_value : JsValue → JsValue → JsValue
or_value undefined b = b
or_value null b = b
or_value a b = a
