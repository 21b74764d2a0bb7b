-- ===== src/Blob.antt =====
-- blob_storage.py: one file for each envelope, named by its id under two levels of directories.
-- The directory is a list of names and contents; a file on which the system raises OSError is
-- `sick`. The overwriting before the unlink has no effect that the program can see.
use Prim.Native.Char.{code}
use Prim.Native.String.{count}
use morok_relay.Prelude.{
  ℕ, String, ◌≡◌, refl, Bool, true, false, not, ◌&&◌, ◌||◌, Option, none, some, List, [], ◌∷◌,
  arith, ◌==◌, eq_iff, leb, ltb, if◌then◌else◌,
}
use morok_relay.Redis.{Redis}
use morok_relay.Exec.{Exec, ok, raised, value_error, os_error, raise_if, ◌>>◌}

is_hex_digit : ℕ → Bool
is_hex_digit c = (leb b'0' c && leb c b'9') || (leb b'a' c && leb c b'f')

unfoldable pub all_hex : String → Bool
unfolding is_hex_digit
all_hex String.[] = true
all_hex (String.◌∷◌ c s) = is_hex_digit (code c) && all_hex s

-- the test of `_blob_path`
unfoldable pub is_blob_id : String → Bool
unfolding all_hex
is_blob_id envelope_id = not (ltb (count envelope_id) 4) && all_hex envelope_id

abbrev pub Disk : Type 0
Disk = List (String × String)

unfoldable pub file : String → Disk → Option String
file k [] = none
file k ((j, v) ∷ d) = if j == k then some v else file k d

pub put_file : String → String → Disk → Disk
put_file k v [] = (k, v) ∷ []
put_file k v ((j, w) ∷ d) = if j == k then (k, v) ∷ d else (j, w) ∷ put_file k v d

pub unlink : String → Disk → Disk
unlink k [] = []
unlink k ((j, v) ∷ d) = let rest = unlink k d in if j == k then rest else (j, v) ∷ rest

abbrev pub is_file : Option String → Bool
is_file none = false
is_file (some v) = true

pub file-put_file :
    (k j v : String) (d : Disk) → file j (put_file k v d) ≡ (if k == j then some v else file j d)
unfolding file put_file
file-put_file k j v [] = refl
file-put_file k j v ((i, w) ∷ d) =
    ground (arith, eq_iff k j, eq_iff i k, eq_iff i j, file-put_file k j v d)

pub file-unlink :
    (k j : String) (d : Disk) → file j (unlink k d) ≡ (if k == j then none else file j d)
unfolding file unlink
file-unlink k j [] = ground arith
file-unlink k j ((i, w) ∷ d) = ground (arith, eq_iff k j, eq_iff i k, eq_iff i j, file-unlink k j d)

module _ ⦃R : Redis⦄ where
  abbrev pub replace : String → String → Exec (Unit {0})
  replace k v w =
      if w.sick k then (raised os_error, w) else (ok tt, record w { disk = put_file k v w.disk })

  unfoldable pub write_blob : String → String → Exec (Unit {0})
  write_blob envelope_id blob = do
    raise_if (not (is_blob_id envelope_id)) value_error
    replace envelope_id blob

  unfoldable pub read_blob : String → Exec (Option String)
  read_blob envelope_id = do
    raise_if (not (is_blob_id envelope_id)) value_error
    λ w. (ok (file envelope_id w.disk), w)

  abbrev pub erase : String → Exec Bool
  erase k w =
      if is_file (file k w.disk)
      then (if w.sick k then (ok false, w) else (ok true, record w { disk = unlink k w.disk }))
      else (ok false, w)

  unfoldable pub secure_delete_blob : String → Exec Bool
  secure_delete_blob envelope_id = do
    raise_if (not (is_blob_id envelope_id)) value_error
    erase envelope_id

  unfoldable pub blob_exists : String → Exec Bool
  blob_exists envelope_id = do
    raise_if (not (is_blob_id envelope_id)) value_error
    λ w. (ok (is_file (file envelope_id w.disk)), w)
