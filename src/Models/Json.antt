-- ===== src/Models/Json.antt =====
-- src/models.rs: how the JSON columns of an invoice, which are stored as texts, are read from a
-- request and written to a reply. serde_json is a parameter, and so is what `Option::deserialize`
-- has made of the field.
use invoices_contracts.Base.{
  ◌≡◌, Bool, Bool-cases, inl, inr, ◌⊎◌, Option, none, some, Text, ascii, arith, if◌then◌else◌,
}

-- Values of serde_json: their texts, and what they are.
pub record Json : Type 1 where
  pub Value : Type 0
  pub from_str : Text → Option Value
  pub to_string : Value → Option Text
  pub is_null : Value → Bool
  pub number_text : Value → Option Text
  pub string_text : Value → Option Text

module _ (json : Json) where
  -- `none` is `serialize_none`.
  abbrev pub serialize_json_str : Option Text → Option json.Value
  serialize_json_str none = none
  serialize_json_str (some src) = json.from_str src

  abbrev pub object_text : Option json.Value → Option Text
  object_text none = none
  object_text (some v) = if json.is_null v then none else json.to_string v

  module _ {E : Type 0} (custom : Text → E) where
    abbrev pub deserialize_json_obj : E ⊎ Option json.Value → E ⊎ Option Text
    deserialize_json_obj (inl e) = inl e
    deserialize_json_obj (inr val) = inr (object_text val)

    abbrev string_of : json.Value → E ⊎ Option Text
    string_of v = elim (json.string_text v) [
      | some s ↦ inr (some s)
      | none ↦ inl (custom (ascii "expected number, string, or null"))
    ]

    abbrev number_or_string : json.Value → E ⊎ Option Text
    number_or_string v = elim (json.number_text v) [ some n ↦ inr (some n) | none ↦ string_of v ]

    abbrev pub deserialize_opt_number_to_string : E ⊎ Option json.Value → E ⊎ Option Text
    deserialize_opt_number_to_string (inl e) = inl e
    deserialize_opt_number_to_string (inr none) = inr none
    deserialize_opt_number_to_string (inr (some v)) =
        if json.is_null v then inr none else number_or_string v

  -- A value that is stored is shown as it was sent, where its text reads back as the value; null is
  -- shown as null.
  pub serialize_json_str-object_text :
      (v : json.Value) (t : Text)
      → json.to_string v ≡ some t
      → json.from_str t ≡ some v
      → serialize_json_str (object_text (some v)) ≡ (if json.is_null v then none else some v)
  serialize_json_str-object_text v t printed parsed = elim (Bool-cases (json.is_null v)) [
    | inl null ↦ ground arith
    | inr other ↦ ground (arith, printed, parsed)
  ]
