-- ===== src/Federation/Hostname.antt =====
-- federation_client.py: `_HOSTNAME_RE`, as a test on the labels between the dots. Its labels hold
-- no dot, so that there is one way to split a name.
use Prim.Native.Char.{code}
use morok_relay.Prelude.{
  ℕ, String, Bool, true, false, ◌&&◌, ◌||◌, List, [], ◌∷◌, leb, eqb, length, ◌==◌, if◌then◌else◌,
}

abbrev pub is_letter : ℕ → Bool
is_letter c = (leb b'a' c && leb c b'z') || (leb b'A' c && leb c b'Z')

abbrev pub is_letter_or_digit : ℕ → Bool
is_letter_or_digit c = is_letter c || (leb b'0' c && leb c b'9')

abbrev pub is_label_char : ℕ → Bool
is_label_char c = is_letter_or_digit c || eqb c b'-'

-- the codes of the characters, without a newline at the end, which `$` passes over
unfoldable pub codes : String → List ℕ
codes String.[] = []
codes (String.◌∷◌ c s) =
    let rest = codes s in if eqb (code c) 10 && (s == "") then [] else code c ∷ rest

abbrev pub all_of : (ℕ → Bool) → List ℕ → Bool
all_of test [] = true
all_of test (c ∷ cs) = test c && all_of test cs

abbrev pub first_is : (ℕ → Bool) → List ℕ → Bool
first_is test [] = false
first_is test (c ∷ cs) = test c

abbrev pub last_is : (ℕ → Bool) → List ℕ → Bool
last_is test [] = false
last_is test (c ∷ []) = test c
last_is test (c ∷ d ∷ cs) = last_is test (d ∷ cs)

-- `[a-zA-Z0-9](?:[a-zA-Z0-9-]{0,61}[a-zA-Z0-9])?`
abbrev pub is_label : List ℕ → Bool
is_label cs =
    first_is is_letter_or_digit cs
    && (last_is is_letter_or_digit cs && (all_of is_label_char cs && leb (length cs) 63))

-- `[a-zA-Z]{2,63}`
abbrev pub is_top_label : List ℕ → Bool
is_top_label cs = all_of is_letter cs && (leb 2 (length cs) && leb (length cs) 63)

abbrev pub in_first : ℕ → List (List ℕ) → List (List ℕ)
in_first c [] = (c ∷ []) ∷ []
in_first c (l ∷ ls) = (c ∷ l) ∷ ls

unfoldable pub labels : List ℕ → List (List ℕ)
labels [] = [] ∷ []
labels (c ∷ cs) = let rest = labels cs in if eqb c b'.' then [] ∷ rest else in_first c rest

-- one label or more before the last
unfoldable pub is_label_list : List (List ℕ) → Bool
is_label_list [] = false
is_label_list (l ∷ []) = false
is_label_list (l ∷ t ∷ []) = is_label l && is_top_label t
is_label_list (l ∷ m ∷ n ∷ ls) = is_label l && is_label_list (m ∷ n ∷ ls)

unfoldable pub is_hostname : String → Bool
unfolding codes labels is_label_list
is_hostname hostname =
    let cs = codes hostname in
    (leb 1 (length cs) && leb (length cs) 253) && is_label_list (labels cs)
