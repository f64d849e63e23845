-- ===== src/Examples.antt =====
-- What the concrete runs start from: a scripted radio, and a node that uses it.
pub mod Chips
pub mod Delivery
pub mod Discovery
pub mod Firmwares
pub mod Packets
pub mod Sketches
pub mod Tables
pub mod Wires
use grove_lo_ra_433mhz_and.Prelude.{
  ℕ, zero, suc, ◌+◌, ◌-◌, ◌*◌, ◌/◌, ◌≤◌, ◌<◌, ◌≡◌, ◌≢◌, refl, ap, ◌∙◌, ◌⊎◌, inl, inr, Option, none,
  some, Bool, true, false, List, [], ◌∷◌, ◌++◌, arith, ◌==◌, not, if◌then◌else◌, length, take, drop,
  blit, replicate, u8, u32, bit_or, ◌||◌, ◌&&◌, leb, get_elem?, get_or,
}
use grove_lo_ra_433mhz_and.Prelude.Commands.{Run, done, Cmd}
use grove_lo_ra_433mhz_and.Driver
use grove_lo_ra_433mhz_and.Driver.{Device, Driver, Radio, RhMode, idle, broadcast_address}
use grove_lo_ra_433mhz_and.Node.{Node}
use grove_lo_ra_433mhz_and.Datagram.{Message}
use grove_lo_ra_433mhz_and.Reliable
use grove_lo_ra_433mhz_and.Reliable.{Receipt, received}
use grove_lo_ra_433mhz_and.Reliable.Sending.{sendto_wait_result}
use grove_lo_ra_433mhz_and.Reliable.Kept.{Acked}
use grove_lo_ra_433mhz_and.Table.{Table, entry, invalid, valid}

-- The chip of the scripted radio is what it is still to receive. Its clock stands still.
abbrev pub Inbox : Type 0
Inbox = List Message

abbrev pub deliver_next : Inbox → Driver → Run (Device Inbox) (Option (List ℕ))
deliver_next [] d = done none (record { driver = d; chip = [] })
deliver_next (m ∷ ms) d = done (some m.payload) (record {
  driver = record d {
    rx_header_to = m.to;
    rx_header_from = m.from;
    rx_header_id = m.id;
    rx_header_flags = m.flags;
  };
  chip = ms;
})

abbrev pub has_message : Inbox → Bool
has_message [] = false
has_message (m ∷ ms) = true

abbrev pub scripted : Radio Inbox
scripted = record {
  init = λ d. done true d;
  available = λ d. done (has_message d.chip) d;
  recv = λ len d. deliver_next d.chip d.driver;
  send = λ octets d. done true d;
  max_message_length = 251;
  millis = λ d. done 0 d;
  random = λ lo hi d. done lo d;
}

abbrev pub driver : Driver
driver = record {
  mode = idle;
  this_address = 1;
  promiscuous = false;
  rx_header_to = 0;
  rx_header_from = 0;
  rx_header_id = 0;
  rx_header_flags = 0;
  tx_header_to = 255;
  tx_header_from = 1;
  tx_header_id = 0;
  tx_header_flags = 0;
  last_rssi = 0;
  rx_bad = 0;
  rx_good = 0;
  tx_good = 0;
}

abbrev pub no_routes : Table
no_routes = replicate 10 (entry 0 0 invalid)

-- The node with the address 1, and what it is to receive.
abbrev pub node : Inbox → Table → Node Inbox
node inbox routes = record {
  device = record { driver = driver; chip = inbox };
  this_address = 1;
  retransmissions = 0;
  last_sequence_number = 0;
  timeout = 200;
  retries = 3;
  seen_ids = λ _. 0;
  last_e2e_sequence_number = 0;
  max_hops = 30;
  routes = routes;
  router_message = replicate 255 0;
  mesh_message = replicate 250 0;
}

abbrev pub after : {S A : Type 0} → S → Run S A → S
after s (done a t) = t
after s Run.fault = s
after s Run.out_of_fuel = s

abbrev pub ack : (from id : ℕ) → Message
ack from id = record { payload = b'!' ∷ []; from = from; to = 1; id = id; flags = 0x80 }
