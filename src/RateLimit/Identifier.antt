-- ===== src/RateLimit/Identifier.antt =====
-- rate_limit.py: `get_ip_from_request`.
use Prim.Native.Char.{code}
use morok_relay.Prelude.{
  ℕ, ◌+◌, String, ◌≡◌, Bool, true, false, ◌&&◌, ◌||◌, Option, none, some, List, [], ◌∷◌, elem, ◌==◌,
  eqb, leb, if◌then◌else◌,
}

-- what `str.strip()` takes off, as far as a header can hold it
abbrev is_space : ℕ → Bool
is_space c = eqb c 32 || (leb 9 c && leb c 13)

unfoldable pub strip_left : String → String
strip_left String.[] = ""
strip_left (String.◌∷◌ c s) =
    let rest = strip_left s in if is_space (code c) then rest else String.◌∷◌ c s

unfoldable pub strip_right : String → String
strip_right String.[] = ""
strip_right (String.◌∷◌ c s) =
    let rest = strip_right s in if is_space (code c) && rest == "" then "" else String.◌∷◌ c rest

unfoldable pub strip : String → String
unfolding strip_left strip_right
strip s = strip_right (strip_left s)

-- `s.lower() == t` for a lower-case ASCII text `t`: a capital letter counts as its small one
abbrev small : ℕ → ℕ
small c = if leb b'A' c && leb c b'Z' then c + 32 else c

unfoldable pub lower_is : String → String → Bool
lower_is String.[] String.[] = true
lower_is (String.◌∷◌ c s) (String.◌∷◌ e t) = eqb (small (code c)) (code e) && lower_is s t
lower_is _ _ = false

pub record Request : Type 0 where
  -- `request.client.host`
  pub peer : Option String
  -- the headers that the function reads
  pub via : Option String
  pub real_ip : Option String
  pub forwarded_for : Option String

-- the pieces of `s.split(",")`, the first one apart
unfoldable pub split_commas : String → String × List String
split_commas String.[] = ("", [])
split_commas (String.◌∷◌ c s) =
    let (first, rest) = split_commas s in
    if eqb (code c) b',' then ("", first ∷ rest) else (String.◌∷◌ c first, rest)

abbrev pub non_empty : String → List String → List String
non_empty ip ips = if ip == "" then ips else ip ∷ ips

unfoldable pub stripped : List String → List String
stripped [] = []
stripped (ip ∷ ips) = non_empty (strip ip) (stripped ips)

-- the set `trusted` of the source
unfoldable pub trusted_ips : String → List String
unfolding split_commas stripped strip
trusted_ips setting = let (first, rest) = split_commas setting in stripped (first ∷ rest)

abbrev pub or_empty : Option String → String
or_empty none = ""
or_empty (some s) = s

abbrev pub peer_or_unknown : Option String → String
peer_or_unknown none = "unknown"
peer_or_unknown (some p) = if p == "" then "unknown" else p

abbrev pub from_forwarded : Option String → Option String → String
from_forwarded none peer = peer_or_unknown peer
from_forwarded (some fwd) peer =
    if fwd == "" then peer_or_unknown peer else strip (split_commas fwd).0

abbrev pub from_headers : Option String → Option String → Option String → String
from_headers none fwd peer = from_forwarded fwd peer
from_headers (some ip) fwd peer = if ip == "" then from_forwarded fwd peer else strip ip

abbrev pub is_trusted : Option String → List String → Bool
is_trusted none trusted = false
is_trusted (some p) trusted = elem p trusted

unfoldable pub get_ip_from_request : String → Request → String
unfolding trusted_ips lower_is strip split_commas
get_ip_from_request trusted_proxy_ips request =
    if is_trusted request.peer (trusted_ips trusted_proxy_ips)
    then (if lower_is (strip (or_empty request.via)) "tor"
        then "tor"
        else from_headers request.real_ip request.forwarded_for request.peer)
    else peer_or_unknown request.peer

-- Whatever headers a client that is no trusted proxy sends, it is known by its own address.
pub untrusted_headers_ignored :
    (setting peer : String) (via real_ip forwarded_for : Option String)
    → elem peer (trusted_ips setting) ≡ false
    → (peer == "") ≡ false
    → get_ip_from_request setting
        (record { peer = some peer; via = via; real_ip = real_ip; forwarded_for = forwarded_for })
      ≡ peer
unfolding get_ip_from_request
untrusted_headers_ignored setting peer via real_ip forwarded_for h ne = rw (h, ne)
