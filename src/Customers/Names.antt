-- ===== src/Customers/Names.antt =====
-- What the service makes of a request's texts: normalizeName, and the list of phone numbers.
use Prim.Native.String.{String}
use text.Mathlib.Text.{◌==◌ as str_eq}
use restaurant_management_ba.Base.{
  Option, none, some, List, [], ◌∷◌, map, filled, trim, or_text, filter_filled, join_spaces,
}
use restaurant_management_ba.Store.{delete_many}

-- The argument `payload` of createCustomer and updateCustomer, and what the row of a customer has.
pub record NameFields : Type 0 where
  pub first_name : Option String
  pub last_name : Option String
  pub name : Option String

pub record Names : Type 0 where
  pub first_name : String
  pub last_name : Option String
  pub name : String

-- `text?.trim()`
abbrev pub trimmed : Option String → Option String
trimmed none = none
trimmed (some s) = some (trim s)

abbrev list_of : Option String → List String
list_of none = []
list_of (some s) = s ∷ []

unfoldable pub normalize_name : NameFields → Names
normalize_name payload =
    let first = or_text (trimmed payload.first_name) (or_text (trimmed payload.name) "") in
    let last = filled (trimmed payload.last_name) in
    record {
      first_name = first;
      last_name = last;
      name = join_spaces (filter_filled (first ∷ list_of last));
    }

-- `[...new Set(texts)]`
unfoldable pub dedupe : List String → List String
unfolding delete_many
dedupe [] = []
dedupe (s ∷ ss) = s ∷ delete_many (str_eq s) (dedupe ss)

-- `texts.map((p) => p.trim()).filter(Boolean)`
unfoldable pub trim_phones : List String → List String
trim_phones ss = filter_filled (map trim ss)
