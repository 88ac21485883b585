-- ===== src/Brokers/Alpaca/Json.antt =====
-- The values that `response.json()` returns, and Python's `str`, `[...]`, `get` and truth on them.
use broker_ai.Base.{
  Bool, true, false, not, ◌||◌, if◌then◌else◌, Option, none, some, List, [], ◌∷◌, Text, text_beq,
  ◌==◌,
}
use broker_ai.Base.Result.{Result, Error, ok, err}

mutual
  -- A number is its `str`. In an object, the last of two values of one key comes first.
  pub data Json : Type 0 where
    null : Json
    boolean : Bool → Json
    number : Text → Json
    text : Text → Json
    array : Items → Json
    object : Fields → Json

  pub data Items : Type 0 where
    no_items : Items
    item : Json → Items → Items

  pub data Fields : Type 0 where
    no_fields : Fields
    field : Text → Json → Fields → Fields

abbrev pub items_of : Items → List Json
items_of Items.no_items = []
items_of (Items.item j items) = j ∷ items_of items

abbrev pub value_at : Text → Fields → Option Json
value_at key Fields.no_fields = none
value_at key (Fields.field k j fields) = if text_beq key k then some j else value_at key fields

-- `value[key]` for a text `key`
unfoldable pub subscript : Text → Json → Result Json
subscript key (Json.object fields) = elim (value_at key fields) [
  | none ↦ err Error.key_error
  | some j ↦ ok j
]
subscript key _ = err Error.type_error

-- `value.get(key, default)`
unfoldable pub get : Text → Json → Json → Result Json
get key default (Json.object fields) = elim (value_at key fields) [
  | none ↦ ok default
  | some j ↦ ok j
]
get key default _ = err Error.attribute_error

-- The `str` of the zeros.
abbrev pub is_zero_text : Text → Bool
is_zero_text t =
    text_beq t (b'0' ∷ [])
    || text_beq t (b'0' ∷ b'.' ∷ b'0' ∷ [])
    || text_beq t (b'-' ∷ b'0' ∷ b'.' ∷ b'0' ∷ [])

-- `bool(value)`
abbrev pub truth : Json → Bool
truth Json.null = false
truth (Json.boolean b) = b
truth (Json.number t) = not (is_zero_text t)
truth (Json.text []) = false
truth (Json.text (_ ∷ _)) = true
truth (Json.array Items.no_items) = false
truth (Json.array (Items.item _ _)) = true
truth (Json.object Fields.no_fields) = false
truth (Json.object (Fields.field _ _ _)) = true

-- `str(value)`, where `compound` stands for it on lists and objects.
abbrev pub str : (Json → Text) → Json → Text
str compound Json.null = b'N' ∷ b'o' ∷ b'n' ∷ b'e' ∷ []
str compound (Json.boolean true) = b'T' ∷ b'r' ∷ b'u' ∷ b'e' ∷ []
str compound (Json.boolean false) = b'F' ∷ b'a' ∷ b'l' ∷ b's' ∷ b'e' ∷ []
str compound (Json.number t) = t
str compound (Json.text t) = t
str compound j = compound j

-- `value.replace("Z", "+00:00")`
abbrev pub with_offset : Text → Text
with_offset [] = []
with_offset (c ∷ t) =
    if c == b'Z' then b'+' ∷ b'0' ∷ b'0' ∷ b':' ∷ b'0' ∷ b'0' ∷ with_offset t else c ∷ with_offset t
