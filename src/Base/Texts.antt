-- ===== src/Base/Texts.antt =====
-- What the source asks of a text: whether it is blank once trimmed, trimming, and words.
use Prim.Native.Nat.{ℕ}
use Prim.Native.Char.{Char, code}
use Prim.Native.String.{String, ◌++◌}
use mathlib.Core.Bool.{Bool, true, false, ◌&&◌, ◌||◌}
use mathlib.Core.Option.{Option, none, some}
use mathlib.Core.List.{List, [], ◌∷◌}
use restaurant_management_ba.Base.Tests.{leb, ◌==◌}

-- The code points that `String.prototype.trim` removes.
unfoldable pub is_space : ℕ → Bool
is_space c =
    (leb 9 c && leb c 13)
    || c == 32
    || c == 160
    || c == 0x1680
    || (leb 0x2000 c && leb c 0x200a)
    || c == 0x2028
    || c == 0x2029
    || c == 0x202f
    || c == 0x205f
    || c == 0x3000
    || c == 0xfeff

-- `text.trim().length === 0`
abbrev pub is_blank : String → Bool
is_blank String.[] = true
is_blank (String.◌∷◌ c s) = is_space (code c) && is_blank s

-- `!text || text.trim().length === 0`, and also `!text?.trim()`
abbrev pub is_missing : Option String → Bool
is_missing none = true
is_missing (some s) = is_blank s

-- `text || null`
abbrev pub filled : Option String → Option String
filled none = none
filled (some String.[]) = none
filled (some (String.◌∷◌ c s)) = some (String.◌∷◌ c s)

-- `text.trimStart()`
abbrev pub trim_start : String → String
trim_start String.[] = ""
trim_start (String.◌∷◌ c s) = elim (is_space (code c)) [
  | true ↦ trim_start s
  | false ↦ String.◌∷◌ c s
]

abbrev pub put : Char → String → String
put c String.[] = elim (is_space (code c)) [ true ↦ "" | false ↦ String.◌∷◌ c "" ]
put c (String.◌∷◌ d s) = String.◌∷◌ c (String.◌∷◌ d s)

-- `text.trimEnd()`
abbrev pub trim_end : String → String
trim_end String.[] = ""
trim_end (String.◌∷◌ c s) = put c (trim_end s)

-- `text.trim()`
unfoldable pub trim : String → String
trim s = trim_end (trim_start s)

abbrev head_word : Char → List String → List String
head_word c [] = String.◌∷◌ c "" ∷ []
head_word c (w ∷ ws) = String.◌∷◌ c w ∷ ws

abbrev split_from : Bool → String → List String
split_from gap String.[] = "" ∷ []
split_from gap (String.◌∷◌ c s) = elim (is_space (code c)) [
  | true ↦ elim gap [ true ↦ split_from true s | false ↦ "" ∷ split_from true s ]
  | false ↦ head_word c (split_from false s)
]

-- `text.split(/\s+/)`
unfoldable pub split_spaces : String → List String
split_spaces s = split_from false s

-- `words.join(" ")`
unfoldable pub join_spaces : List String → String
join_spaces [] = ""
join_spaces (w ∷ []) = w
join_spaces (w ∷ v ∷ ws) = w ++ (" " ++ join_spaces (v ∷ ws))

-- `texts.filter(Boolean)`
abbrev pub filter_filled : List String → List String
filter_filled [] = []
filter_filled (String.[] ∷ ss) = filter_filled ss
filter_filled (String.◌∷◌ c s ∷ ss) = String.◌∷◌ c s ∷ filter_filled ss

-- `a || b`
abbrev pub or_text : Option String → String → String
or_text none d = d
or_text (some String.[]) d = d
or_text (some (String.◌∷◌ c s)) d = String.◌∷◌ c s
