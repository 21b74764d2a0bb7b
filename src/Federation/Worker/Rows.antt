-- ===== src/Federation/Worker/Rows.antt =====
-- Reading a row of the outbound queue after an UPDATE.
use morok_relay.Prelude.{
  String, Bool, true, false, Option, none, some, List, [], ◌∷◌, ◌≡◌, refl, ltb, if◌then◌else◌,
  eq_iff, arith, Option-cases, inl, inr,
}
use morok_relay.Federation.{Outbound}
use morok_relay.Federation.Worker.{update, rowcount, get}

abbrev pub changed : (Outbound → Bool) → (Outbound → Outbound) → Option Outbound → Option Outbound
changed where_ values none = none
changed where_ values (some r) = some (if where_ r then values r else r)

abbrev pub KeepsId : (Outbound → Outbound) → Type 0
KeepsId values = (r : Outbound) → (values r).id ≡ r.id

-- an UPDATE that keeps the identifiers, seen at one of them
pub get-update :
    (where_ : Outbound → Bool) (values : Outbound → Outbound) (id : String)
    → KeepsId values
    → (rows : List Outbound)
    → get id (update where_ values rows) ≡ changed where_ values (get id rows)
unfolding get update
get-update where_ values id keeps [] = refl
get-update where_ values id keeps (r ∷ rows) =
    ground (arith, keeps r, get-update where_ values id keeps rows)

-- the row that is read has the identifier
pub get_id : (id : String) (rows : List Outbound) (r : Outbound) → get id rows ≡ some r → r.id ≡ id
unfolding get
get_id id [] r h = ground arith
get_id id (x ∷ rows) r h = ground (arith, eq_iff x.id id, get_id id rows r)

-- an UPDATE counts the row that it finds
pub rowcount_pos :
    (where_ : Outbound → Bool) (id : String) (rows : List Outbound) (r : Outbound)
    → get id rows ≡ some r
    → where_ r ≡ true
    → ltb 0 (rowcount where_ rows) ≡ true
unfolding get rowcount
rowcount_pos where_ id [] r h t = ground arith
rowcount_pos where_ id (x ∷ rows) r h t = ground (arith, rowcount_pos where_ id rows r)

-- an UPDATE of a row that it finds
pub get-update_self :
    (where_ : Outbound → Bool) (values : Outbound → Outbound) (id : String)
    → KeepsId values
    → (rows : List Outbound) (r : Outbound) → get id rows ≡ some r
    → where_ r ≡ true
    → get id (update where_ values rows) ≡ some (values r)
get-update_self where_ values id keeps rows r h t =
    ground (arith, get-update where_ values id keeps rows)

-- an UPDATE that passes a row over
pub get-update_ne :
    (where_ : Outbound → Bool) (values : Outbound → Outbound) (id : String)
    → KeepsId values
    → ((r : Outbound) → r.id ≡ id → where_ r ≡ false)
    → (rows : List Outbound) → get id (update where_ values rows) ≡ get id rows
get-update_ne where_ values id keeps misses rows = elim (Option-cases (get id rows)) [
  | inl e ↦ ground (arith, get-update where_ values id keeps rows)
  | inr (r, e) ↦
      ground (arith, get-update where_ values id keeps rows, misses r (get_id id rows r e))
]
