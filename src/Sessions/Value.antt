-- ===== src/Sessions/Value.antt =====
-- sessions.py: the value of a session, `f"{pubkey}|{created_at}"`, and its `partition("|")`.
use Prim.Native.Char.{code}
use Prim.Native.String.{◌++◌ as ◌+ˢ◌}
use text.Mathlib.TextLemmas.{nil-append, cons-append}
use morok_relay.Prelude.{
  ℕ, String, ◌≡◌, Bool, false, ◌||◌, Option, some, arith, eqb, ◌==◌, if◌then◌else◌,
}

-- Python's `str` and `int` of natural numbers
pub record Decimal : Type 0 where
  pub show : ℕ → String
  pub read : String → Option ℕ
  pub read-show : (n : ℕ) → read (show n) ≡ some n
  pub show-not_empty : (n : ℕ) → (show n == "") ≡ false

-- the texts before and after the first bar
unfoldable pub partition : String → String × String
partition String.[] = ("", "")
partition (String.◌∷◌ c s) =
    let (first, rest) = partition s in
    if eqb (code c) b'|' then ("", s) else (String.◌∷◌ c first, rest)

abbrev pub stamped : ⦃D : Decimal⦄ → String → ℕ → String
stamped ⦃D⦄ pubkey now = pubkey +ˢ ("|" +ˢ D.show now)

unfoldable pub has_bar : String → Bool
has_bar String.[] = false
has_bar (String.◌∷◌ c s) = eqb (code c) b'|' || has_bar s

-- A key without a bar comes back out of the value, and so does the time.
pub partition-stamped :
    (pubkey rest : String)
    → has_bar pubkey ≡ false
    → partition (pubkey +ˢ ("|" +ˢ rest)) ≡ (pubkey, rest)
unfolding partition has_bar
partition-stamped String.[] rest h = rw (nil-append, cons-append, nil-append)
partition-stamped (String.◌∷◌ c s) rest h =
    simp cons-append (ground (arith, partition-stamped s rest))
