-- ===== src/RadioQueue/Tests.antt =====
-- Runs and witnesses of the queue.
use cc2530_zigbee.Base.{◌<◌, ◌≡◌, refl, ◌⊎◌, true, false, some, [], ◌∷◌, ◌++◌, arith}
use cc2530_zigbee.RadioQueue.{
  ok, full, Queue, Frame, blank, copied, waiting, request_rx, service, rx_ok, rx_read, tx_submit,
  tx_read, caller,
}
use cc2530_zigbee.RadioQueue.Fifo.{InOrder, requests, request_rx-requests}
use cc2530_zigbee.RadioQueue.Frames.{frames, service-frames, rx_read-frames, tx_read-tx_submit}

-- The variables after three requests of which one was served, with one frame of two bytes.
abbrev one_frame : Frame
one_frame = record { length = 2; rssi_raw = 200; correlation = 100; body = 1 ∷ 2 ∷ [] }

abbrev in_use : Queue
in_use = record {
  fault = ok;
  event_head = 3;
  event_tail = 1;
  events = 7 ∷ 8 ∷ 9 ∷ 0 ∷ [];
  dropped = 0;
  rx = one_frame ∷ blank ∷ [];
  rx_head = 0;
  rx_tail = 1;
  rx_count = 1;
  tx_length = 0;
  tx_body = [];
  tx_count = 0;
  cancelled = 0;
  crc_errors = 0;
  last_cookie = 7;
  driver_valid = true;
  driver_result = 0;
}

in_use-InOrder : InOrder in_use
in_use-InOrder = record {
  fault = refl;
  indices = (omega arith, omega arith);
  bound = omega arith;
  ring = refl;
}

request_rx-requests_example :
    InOrder (request_rx 5 true in_use).1
    × (((waiting in_use < 4)
          × ((request_rx 5 true in_use).0 ≡ ok)
          × (requests (request_rx 5 true in_use).1 ≡ requests in_use ++ (5 ∷ [])))
        ⊎ ((waiting in_use ≡ 4)
            × ((request_rx 5 true in_use).0 ≡ full)
            × (requests (request_rx 5 true in_use).1 ≡ requests in_use)))
request_rx-requests_example = request_rx-requests 5 in_use in_use-InOrder

abbrev after_service : Queue
after_service = (service 15 1000 10 false rx_ok one_frame in_use).1

service-frames_example :
    ((service 15 1000 10 false rx_ok one_frame in_use).0 ≡ ok)
    × (frames after_service ≡ frames in_use ++ (one_frame ∷ []))
    × (requests in_use ≡ after_service.last_cookie ∷ requests after_service)
service-frames_example =
    service-frames 15 1000 10 one_frame blank one_frame in_use in_use-InOrder refl refl
      (omega arith) (omega arith) (omega arith, omega arith, omega arith, omega arith, omega arith)

owned : caller 0x800 0x700 0x1000 128 ≡ true
unfolding caller
owned = refl

rx_read-frames_example :
    let (r, o, d) = rx_read 0x800 0x700 (some 0x1000) in_use in
    (r ≡ ok) × (o ≡ some (copied one_frame)) × (frames d ≡ [])
rx_read-frames_example =
    rx_read-frames 0x800 0x700 0x1000 one_frame blank in_use one_frame [] owned refl refl refl
      (omega arith, omega arith)

owned_body : caller 0x800 0x700 0x1000 2 ≡ true
unfolding caller
owned_body = refl

owned_frame : caller 0x800 0x700 0x1100 126 ≡ true
unfolding caller
owned_frame = refl

tx_read-tx_submit_example :
    let (r, d) = tx_submit 0x800 0x700 (some (0x1000, 5 ∷ 6 ∷ [])) 2 in_use in
    let (s, o, last) = tx_read 0x800 0x700 (some 0x1100) d in
    (r ≡ ok)
    × (s ≡ ok)
    × (o ≡ some (5 ∷ 6 ∷ []))
    × (last ≡ record in_use { tx_body = 5 ∷ 6 ∷ []; tx_length = 2 })
tx_read-tx_submit_example =
    tx_read-tx_submit 0x800 0x700 0x1000 0x1100 (5 ∷ 6 ∷ []) in_use refl refl
      (omega arith, omega arith) owned_body owned_frame
