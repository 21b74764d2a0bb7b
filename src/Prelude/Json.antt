-- ===== src/Prelude/Json.antt =====
-- Python dictionaries with text keys, in insertion order, and the JSON values that the relay
-- stores in them. `json.loads` after `json.dumps` is the identity on these.
use Prim.Native.Nat.{ℕ}
use Prim.Native.String.{String}
use mathlib.Core.Path.{◌≡◌, refl}
use mathlib.Core.Bool.{Bool, true, false}
use mathlib.Core.Option.{Option, none, some}
use mathlib.Core.List.{List, [], ◌∷◌}
use native.Mathlib.Omega.{arith}
use text.Mathlib.Text.{◌==◌}
use text.Mathlib.TextEquality.{eq_iff}
use morok_relay.Prelude.Tests.{if◌then◌else◌, eqb}

pub data Json : Type 0 where
  null : Json
  bool : Bool → Json
  int : ℕ → Json
  str : String → Json

abbrev pub Dict : Type 0
Dict = List (String × Json)

-- `d.get(k)`, with `none` for Python's `None` of a missing key
abbrev pub lookup : String → Dict → Option Json
lookup k [] = none
lookup k ((j, v) ∷ d) = if j == k then some v else lookup k d

-- `k in d`
abbrev pub contains : String → Dict → Bool
contains k [] = false
contains k ((j, v) ∷ d) = if j == k then true else contains k d

-- `d[k] = v`
abbrev pub insert : String → Json → Dict → Dict
insert k v [] = (k, v) ∷ []
insert k v ((j, w) ∷ d) = if j == k then (k, v) ∷ d else (j, w) ∷ insert k v d

-- `bool(d.get(k))`: what an `if` sees
abbrev pub truthy : Option Json → Bool
truthy none = false
truthy (some Json.null) = false
truthy (some (bool b)) = b
truthy (some (int n)) = if eqb n 0 then false else true
truthy (some (str s)) = if s == "" then false else true

-- `d.get(k) == t` for a text `t`
abbrev pub is_text : Option Json → String → Bool
is_text (some (str s)) t = s == t
is_text _ t = false

-- `d.get(k) is True`
abbrev pub is_true : Option Json → Bool
is_true (some (bool b)) = b
is_true _ = false

-- `None` or a text, as JSON
abbrev pub or_null : Option String → Json
or_null none = Json.null
or_null (some s) = str s

pub lookup-insert :
    (k j : String) (v : Json) (d : Dict)
    → lookup j (insert k v d) ≡ (if k == j then some v else lookup j d)
lookup-insert k j v [] = refl
lookup-insert k j v ((i, w) ∷ d) =
    ground (arith, eq_iff k j, eq_iff i k, eq_iff i j, lookup-insert k j v d)
