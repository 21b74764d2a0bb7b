-- ===== src/Tests/Queues.antt =====
-- The queue at a concrete envelope.
use morok_relay.Prelude.{ℕ, ◌<◌, String, ◌≡◌, refl, inl, true, none, some, [], ◌∷◌, arith}
use morok_relay.Redis.{Key, document, gone}
use morok_relay.Redis.Memory.{Memory, blank}
use morok_relay.Redis.Pipeline.{get, zset_at}
use morok_relay.Redis.Sets.{card, zprune, zscore}
use morok_relay.Exec.{World, ok, raised, rejected, calm}
use morok_relay.Blob.{file, is_blob_id}
use morok_relay.Queue.Model.{
  meta_of, plain_meta, server_meta, sealed_meta, add_extra, max_inbox_queue_depth,
}
use morok_relay.Queue.Enqueue.{enqueue_envelope, write_blob_then_enqueue}
use morok_relay.Queue.Enqueue.Contract.{Ends, enqueue_envelope-Ends}
use morok_relay.Queue.Ack.{acknowledge_envelope}
use morok_relay.Queue.Ack.Contract.{Acked, acknowledge_envelope-Acked}
use morok_relay.Queue.Lifecycle.{refused_leaves_no_blob, delivered_then_erased}
use morok_relay.Queue.Delete.{delete_envelope_by_sender}
use morok_relay.Queue.Delete.Authority.{Decided, delete_envelope_by_sender-Decided}
use morok_relay.Queue.Depth.Commands.{IsCapped}
use morok_relay.Queue.Depth.Reach.{Reach-IsCapped, here, next, enqueues, acknowledges}
use morok_relay.Redis.{document}
use morok_relay.Queue.Fanout.{GroupEnvelope, enqueue_envelope_for_recipients}
use morok_relay.Queue.Fanout.Delivery.{distinct, with_room, offered, fan_out_reaches}
use morok_relay.Tests.Fixtures.{server, tagged, healthy, letter}

abbrev start : World
start = calm blank 1000 [] healthy

letter_meta : meta_of letter 4600 ≡ some (plain_meta letter 4600)
unfolding meta_of server_meta sealed_meta add_extra plain_meta
letter_meta = refl

letter_id : is_blob_id "abcd" ≡ true
unfolding is_blob_id
letter_id = refl

enqueue_envelope-Ends_example :
    Ends letter (plain_meta letter 4600) blank 1000 start (enqueue_envelope letter start)
enqueue_envelope-Ends_example = enqueue_envelope-Ends letter blank 1000 [] healthy letter_meta

refused_leaves_no_blob_example :
    (c : ℕ) × (why : String) × ((write_blob_then_enqueue letter "sealed bytes"
        (calm blank 9000 [] healthy)).0
      ≡ raised (rejected c why))
    × (file "abcd"
          (write_blob_then_enqueue letter "sealed bytes" (calm blank 9000 [] healthy)).1.disk
        ≡ none)
refused_leaves_no_blob_example =
    refused_leaves_no_blob letter "sealed bytes" blank 9000 [] healthy letter_id refl
      (plain_meta letter 4600) letter_meta (inl (omega arith))

letter_room : card (zprune 1000 (zset_at (Key.inbox "b0b") blank)) < max_inbox_queue_depth
unfolding zprune
letter_room = omega arith

delivered_then_erased_example :
    let sent = write_blob_then_enqueue letter "sealed bytes" start in
    let acked = acknowledge_envelope "b0b" "abcd" sent.1 in
    (sent.0 ≡ ok (some 4600))
    × (file "abcd" sent.1.disk ≡ some "sealed bytes")
    × (get (Key.envelope "abcd") sent.1.db ≡ some (document (plain_meta letter 4600)))
    × (acked.0 ≡ ok true)
    × (file "abcd" acked.1.disk ≡ none)
    × (server.at acked.1.db (Key.envelope "abcd") ≡ gone)
    × (zscore "abcd" (zset_at (Key.inbox "b0b") acked.1.db) ≡ none)
delivered_then_erased_example =
    delivered_then_erased letter "sealed bytes" blank 1000 [] healthy letter_id refl (omega arith)
      letter_meta refl letter_room refl

-- a store in which the envelope waits for its recipient
abbrev holding : Memory
holding = (write_blob_then_enqueue letter "sealed bytes" start).1.db

acknowledge_envelope-Acked_example :
    Acked "b0b" "abcd" holding 1010 [] healthy
      (acknowledge_envelope "b0b" "abcd" (calm holding 1010 [] healthy))
acknowledge_envelope-Acked_example = acknowledge_envelope-Acked "b0b" "abcd" holding 1010 [] healthy

Reach-IsCapped_example :
    IsCapped (acknowledge_envelope "b0b" "abcd" (enqueue_envelope letter start).1).1.db
Reach-IsCapped_example =
    Reach-IsCapped (next (next here (enqueues start letter)) (acknowledges _ "b0b" "abcd"))
      (record { within = λ r. omega arith })

delete_envelope_by_sender-Decided_example :
    Decided "abcd" "a11ce" "b0b" holding 1010 [] healthy
      (delete_envelope_by_sender "abcd" "a11ce" "b0b" (calm holding 1010 [] healthy))
delete_envelope_by_sender-Decided_example =
    delete_envelope_by_sender-Decided "abcd" "a11ce" "b0b" holding 1010 [] healthy

abbrev broadcast : GroupEnvelope
broadcast = record {
  envelope_id = "abcd";
  sender = "a11ce";
  recipients = "b0b" ∷ "ca01" ∷ [];
  timestamp = 1000;
  ttl_seconds = 3600;
  signature = "5160";
  hard_ceiling_seconds = 86400;
  group_id = some "9";
  sender_username = none;
}

all_distinct : distinct broadcast.recipients ≡ true
unfolding distinct
all_distinct = refl

fan_out_reaches_example :
    let after = enqueue_envelope_for_recipients broadcast start in
    after.0 ≡ ok (4600, with_room 1000 "abcd" 4600 ("b0b" ∷ "ca01" ∷ []) blank)
    × zset_at (Key.inbox "ca01") after.1.db
      ≡ offered 1000 "abcd" 4600 ("b0b" ∷ "ca01" ∷ []) "ca01" blank
fan_out_reaches_example =
    fan_out_reaches broadcast blank 1000 [] healthy "ca01" (omega arith) all_distinct
