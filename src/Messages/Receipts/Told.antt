-- ===== src/Messages/Receipts/Told.antt =====
-- What is counted of the receipts, and which receipts are passed on.
use morok_relay.Prelude.{
  ℕ, ◌+◌, String, Bool, true, false, List, [], ◌∷◌, length, ◌==◌, ◌≡◌, refl, arith, Bool-cases,
  Option-cases, inl, inr, ◌⊎◌,
}
use morok_relay.Redis.{Key, Redis}
use morok_relay.Redis.Pipeline.{exists}
use morok_relay.Exec.{World, ok, calm, call}
use morok_relay.Exec.Yields.{Yields, Yields-bind, Yields-pure, Yields-any}
use morok_relay.Sessions.Value.{Decimal}
use morok_relay.Dms.{Codec}
use morok_relay.Queue.Model.{Sha256}
use morok_relay.Queue.Inbox.{was_delivered_to}
use morok_relay.Federation.{Signer, Outbound, Account, FedSettings}
use morok_relay.Messages.Receipts.{
  ReadReceiptItem, Tally, tell_if, Fate, was_sent, was_federated, was_skipped, counted, is_honest,
  read_one, read_all, post_read_receipts,
}

total : Tally → ℕ
total t = t.sent + t.federated + t.skipped

total-counted : (f : Fate) (t : Tally) → total (counted f t) ≡ total t + 1
unfolding total
total-counted was_sent t = omega arith
total-counted was_federated t = omega arith
total-counted was_skipped t = omega arith

module _ ⦃R : Redis⦄ ⦃H : Sha256⦄ ⦃D : Decimal⦄ ⦃C : Codec⦄ ⦃S : Signer⦄ (settings : FedSettings)
    (reader : String) where
  read_all-total :
      (reads : List (String × ReadReceiptItem)) (accounts : List Account) (t : Tally)
      (rows : List Outbound)
      → Yields
          (λ (r : Tally × List Outbound). total r.0 ≡ total t + length reads)
          (read_all settings reader reads accounts t rows)
  unfolding read_all
  read_all-total [] accounts t rows = Yields-pure _ (omega arith)
  read_all-total ((id, r) ∷ reads) accounts t rows =
      Yields-bind {P = λ _. Unit {0}} (read_one settings reader id r accounts rows)
        (λ told. read_all settings reader reads accounts (counted told.0 t) told.1)
        (Yields-any (read_one settings reader id r accounts rows))
        (λ told _. record {
          yields = λ w b h.
              let rest = read_all-total reads accounts (counted told.0 t) told.1 in
              omega (arith, rest.yields w b h, total-counted told.0 t);
        })

  -- Every item of the request is counted as sent, federated or skipped.
  pub post_read_receipts-total :
      (reads : List (String × ReadReceiptItem)) (accounts : List Account)
      (rows rows' : List Outbound) (w : World) (t : Tally)
      → (post_read_receipts settings reader reads accounts rows w).0 ≡ ok (t, rows')
      → t.sent + t.federated + t.skipped ≡ length reads
  unfolding post_read_receipts total
  post_read_receipts-total reads accounts rows rows' w t h =
      let counts =
        read_all-total reads accounts (record { sent = 0; federated = 0; skipped = 0 }) rows in
      omega (arith, counts.yields w (t, rows') h)

  -- With the connection up, a receipt for an envelope that this user has not acknowledged, or for one
  -- of the user's own, or with a signature that is not right, is skipped and changes nothing.
  pub read_one_skipped :
      (s : R.Store) (t : ℕ) (d : List (String × String)) (k : String → Bool) (id : String)
      (r : ReadReceiptItem) (accounts : List Account) (rows : List Outbound)
      → ((exists (Key.delivered r.envelope_id reader) s ≡ false)
          ⊎ (((r.sender_pubkey_hex == reader) ≡ true) ⊎ (is_honest settings reader t r ≡ false)))
      → read_one settings reader id r accounts rows (calm s t d k)
        ≡ (ok (was_skipped, rows), calm s t d k)
  unfolding read_one was_delivered_to call tell_if
  read_one_skipped s t d k id r accounts rows (inl e) =
      elim (Bool-cases (r.sender_pubkey_hex == reader)) [
        | inl own ↦ simp own refl
        | inr own ↦ elim (Bool-cases (is_honest settings reader t r)) [
          | inr bad ↦ simp (own, bad) refl
          | inl good ↦ elim (Option-cases (C.from_hex r.sender_pubkey_hex)) [
            | inl f ↦ simp (own, good, f) refl
            | inr (sender, f) ↦ simp (own, good, f, e) refl
          ]
        ]
      ]
  read_one_skipped s t d k id r accounts rows (inr (inl own)) = simp own refl
  read_one_skipped s t d k id r accounts rows (inr (inr bad)) =
      elim (Bool-cases (r.sender_pubkey_hex == reader)) [
        | inl own ↦ simp own refl
        | inr own ↦ simp (own, bad) refl
      ]
