-- ===== src/Reliable/Agreement.antt =====
-- A message, and the acknowledgement that it brings about, between two nodes.
use grove_lo_ra_433mhz_and.Prelude.{
  ℕ, ◌-◌, ◌<◌, ◌==◌, ◌≡◌, ◌≢◌, refl, sym, true, false, not, ◌&&◌, List, [], ◌∷◌, arith, bit_and,
  bit_or, all_below_sound,
}
use grove_lo_ra_433mhz_and.Prelude.Commands.{Cmd, done, pure, ◌>>◌}
use grove_lo_ra_433mhz_and.Driver
use grove_lo_ra_433mhz_and.Driver.{Driver, Radio, broadcast_address, flags_none}
use grove_lo_ra_433mhz_and.Node.{Node, on_device, update}
use grove_lo_ra_433mhz_and.Datagram
use grove_lo_ra_433mhz_and.Datagram.{Message}
use grove_lo_ra_433mhz_and.Reliable.{
  received, is_ack, flags_ack, acknowledge, examine, transmit, accept,
}
use grove_lo_ra_433mhz_and.Reliable.Replies.{acknowledge-Kept}
use grove_lo_ra_433mhz_and.Reliable.Kept.{Kept-refl}

-- What another node receives of the octets that a driver sends.
abbrev pub on_air : List ℕ → Driver → Message
on_air octets d = record {
  payload = octets;
  from = d.tx_header_from;
  to = d.tx_header_to;
  id = d.tx_header_id;
  flags = d.tx_header_flags;
}

-- The node when the headers are set.
abbrev pub with_headers : {C : Type 0} → (to id set clear : ℕ) → Node C → Node C
with_headers to id set clear n = record n {
  device = record (n.device) {
    driver =
        Driver.set_header_to to
          (Driver.set_header_flags set clear (Driver.set_header_id id n.device.driver));
  };
}

is_ack-set :
    (flags : ℕ) → flags < 256 → is_ack (bit_or (bit_and flags (255 - flags_none)) flags_ack) ≡ true
is_ack-set flags h =
    all_below_sound 256 (λ flags. is_ack (bit_or (bit_and flags (255 - flags_none)) flags_ack))
      flags refl h

is_ack-clear :
    (flags : ℕ) → flags < 256 → is_ack (bit_or (bit_and flags (255 - flags_ack)) flags_none) ≡ false
is_ack-clear flags h = ground (
  arith,
  all_below_sound 256 (λ flags. not (is_ack (bit_or (bit_and flags (255 - flags_ack)) flags_none)))
      flags refl h,
)

module _ {C : Type 0} (r : Radio C) (fuel : ℕ) where
  -- What is left of a transmission when the headers are set.
  abbrev pub send_now : List ℕ → Cmd (Node C) (Unit {0})
  send_now octets = on_device (r.send octets) >> (Datagram.wait_packet_sent r fuel >> pure tt)

  transmit-send_now :
      (buf : List ℕ) (id to : ℕ) (s : Node C)
      → transmit r fuel buf id to s ≡ send_now buf (with_headers to id flags_none flags_ack s)
  unfolding transmit Datagram.set_header_id Datagram.set_header_flags Datagram.sendto
      Datagram.set_header_to
  transmit-send_now buf id to s = refl

  acknowledge-send_now :
      (id to : ℕ) (t : Node C)
      → acknowledge r fuel id to t
        ≡ send_now (b'!' ∷ []) (with_headers to id flags_ack flags_none t)
  unfolding acknowledge Datagram.set_header_id Datagram.set_header_flags Datagram.sendto
      Datagram.set_header_to
  acknowledge-send_now id to t = refl

  accept_new :
      (m : Message) (from : ℕ) (t : Node C) {u : Node C}
      → is_ack m.flags ≡ false
      → m.to ≢ broadcast_address
      → m.from ≡ from
      → m.id ≢ t.seen_ids from
      → acknowledge r fuel m.id from t ≡ done tt u
      → accept r fuel m t ≡ done (received m) (record u { seen_ids = update t.seen_ids from m.id })
  unfolding accept
  accept_new m from t {u} f one a new e =
      let k = (acknowledge-Kept r fuel t m.id from).apply (Kept-refl t) e in
      let single : (m.to == broadcast_address) ≡ false = ground arith in
      let other : (m.id == t.seen_ids from) ≡ false = ground arith in
      rw (f, single, a, e, k.seen_ids, other) refl

  examine_answer :
      (id address : ℕ) (m : Message) (v : Node C)
      → m.from ≡ address
      → m.to ≡ v.this_address
      → is_ack m.flags ≡ true
      → m.id ≡ id
      → examine r fuel id address m v ≡ done true v
  unfolding examine
  examine_answer id address m v a b c d =
      let mine : (m.from == address && m.to == v.this_address && is_ack m.flags && m.id == id)
          ≡ true =
        ground arith in
      rw mine refl

  -- A message is sent from one node to another, which has not seen its ID from that node last: the other
  -- node acknowledges it and hands it over, and the acknowledgement is the one that the first node
  -- waits for.
  pub exchange :
      (buf : List ℕ) (id : ℕ) (s t v : Node C) {u : Node C}
      → s.device.driver.tx_header_flags < 256
      → t.device.driver.tx_header_flags < 256
      → s.device.driver.tx_header_from ≡ s.this_address
      → t.device.driver.tx_header_from ≡ t.this_address
      → v.this_address ≡ s.this_address
      → t.this_address ≢ broadcast_address
      → id ≢ t.seen_ids s.this_address
      → acknowledge r fuel id s.this_address t ≡ done tt u
      → let s' = with_headers t.this_address id flags_none flags_ack s in
        let m = on_air buf s'.device.driver in
        let t' = with_headers s.this_address id flags_ack flags_none t in
        let answer = on_air (b'!' ∷ []) t'.device.driver in
        (transmit r fuel buf id t.this_address s ≡ send_now buf s')
        × (acknowledge r fuel id s.this_address t ≡ send_now (b'!' ∷ []) t')
        × (accept r fuel m t
            ≡ done (received m) (record u { seen_ids = update t.seen_ids s.this_address id }))
        × (examine r fuel id t.this_address answer v ≡ done true v)
  unfolding Driver.set_header_to Driver.set_header_flags Driver.set_header_id
  exchange buf id s t v {u} fs ft from from' same one new e =
      let s' = with_headers t.this_address id flags_none flags_ack s in
      let t' = with_headers s.this_address id flags_ack flags_none t in
      (
        transmit-send_now buf id t.this_address s,
        acknowledge-send_now id s.this_address t,
        accept_new (on_air buf s'.device.driver) s.this_address t
            (is_ack-clear s.device.driver.tx_header_flags fs) one from new e,
        examine_answer id t.this_address (on_air (b'!' ∷ []) t'.device.driver) v from' (sym same)
            (is_ack-set t.device.driver.tx_header_flags ft) refl,
      )
