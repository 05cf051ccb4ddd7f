-- ===== src/Discovery/MultiTransport/Payloads.antt =====
-- Collector payloads: Python dictionaries from texts to values (backend/app/discovery/
-- multi_transport.py, `_execute_transport_attempt`).
use network_operations_platf.Common.{
  Bool, true, false, String, Option, none, some, List, [], ◌∷◌, any, str_eq, not, ◌||◌,
  if◌then◌else◌,
}

mutual
  pub data Value : Type 0 where
    null : Value
    flag : Bool → Value
    text : String → Value
    object : Fields → Value
    -- A list, by the texts that `str` gives of its elements.
    items : List String → Value

  pub data Fields : Type 0 where
    end : Fields
    field : String → Value → Fields → Fields

unfoldable pub get : String → Fields → Option Value
get k end = none
get k (field j v rest) = if str_eq j k then some v else get k rest

unfoldable pub has_key : Fields → String → Bool
unfolding get
has_key p k = elim (get k p) [ none ↦ false | some _ ↦ true ]

abbrev pub nonempty : Fields → Bool
nonempty end = false
nonempty (field _ _ _) = true

abbrev pub is_filled : List String → Bool
is_filled [] = false
is_filled (t ∷ ts) = true

-- Python's truth of a value.
truthy : Option Value → Bool
truthy none = false
truthy (some null) = false
truthy (some (flag b)) = b
truthy (some (text s)) = not (str_eq s "")
truthy (some (object fields)) = nonempty fields
truthy (some (items ts)) = is_filled ts

-- `dict(payload[k])` if the key holds a dictionary.
unfoldable pub dict_of : Fields → String → Option Fields
dict_of p k = elim (get k p) [ some (object fields) ↦ some fields | _ ↦ none ]

-- The listed keys that hold a value other than `None`, in their order.
pub extract : Fields → List String → Fields
extract p [] = end
extract p (k ∷ ks) =
    let rest = extract p ks in
    elim (get k p) [ none ↦ rest | some null ↦ rest | some v ↦ field k v rest ]

unfoldable pub device_info_of : Fields → Option Fields
unfolding dict_of extract
device_info_of p = elim (dict_of p "device_info") [
  | some info ↦ some info
  | none ↦ elim (dict_of p "facts") [
    | some facts ↦ some facts
    | none ↦
        (let found =
            extract p ("hostname" ∷ "platform" ∷ "vendor" ∷ "model" ∷ "serial_number" ∷ []) in
          if nonempty found then some found else none)
  ]
]

-- Whether a payload identifies a device or says that it succeeded.
unfoldable pub identifies : Fields → Bool
unfolding has_key truthy
identifies p =
    any (has_key p) ("device_info" ∷ "facts" ∷ "inventory" ∷ "hostname" ∷ "platform" ∷ [])
    || truthy (get "success" p)
