-- ===== src/Reliable/Kept.antt =====
-- What a transmission of RHReliableDatagram.cpp leaves alone, and what it waits for.
use grove_lo_ra_433mhz_and.Prelude.{ℕ, ◌≡◌, refl, Bool, true}
use grove_lo_ra_433mhz_and.Node.{Node}
use grove_lo_ra_433mhz_and.Node.Frame.{IsStable}
use grove_lo_ra_433mhz_and.Reliable.{is_ack}

-- The fields that a transmission leaves alone.
pub record Kept {C : Type 0} (n₀ n : Node C) : Type 0 where
  pub this_address : n.this_address ≡ n₀.this_address
  pub last_sequence_number : n.last_sequence_number ≡ n₀.last_sequence_number
  pub retries : n.retries ≡ n₀.retries
  pub timeout : n.timeout ≡ n₀.timeout
  pub seen_ids : n.seen_ids ≡ n₀.seen_ids
  pub routes : n.routes ≡ n₀.routes
  pub max_hops : n.max_hops ≡ n₀.max_hops
  pub router_message : n.router_message ≡ n₀.router_message
  pub mesh_message : n.mesh_message ≡ n₀.mesh_message

-- The last message that the driver has received is the acknowledgement of a given one.
pub record Acked {C : Type 0} (sequence_number address : ℕ) (n : Node C) : Type 0 where
  pub from : n.device.driver.rx_header_from ≡ address
  pub to : n.device.driver.rx_header_to ≡ n.this_address
  pub flags : is_ack n.device.driver.rx_header_flags ≡ true
  pub id : n.device.driver.rx_header_id ≡ sequence_number

pub Kept-stable : {C : Type 0} (n₀ : Node C) → IsStable (Kept n₀)
Kept-stable n₀ n d k = record {
  this_address = k.this_address;
  last_sequence_number = k.last_sequence_number;
  retries = k.retries;
  timeout = k.timeout;
  seen_ids = k.seen_ids;
  routes = k.routes;
  max_hops = k.max_hops;
  router_message = k.router_message;
  mesh_message = k.mesh_message;
}

pub Kept-refl : {C : Type 0} (n : Node C) → Kept n n
Kept-refl n = record {
  this_address = refl;
  last_sequence_number = refl;
  retries = refl;
  timeout = refl;
  seen_ids = refl;
  routes = refl;
  max_hops = refl;
  router_message = refl;
  mesh_message = refl;
}

pub Kept-retransmissions :
    {C : Type 0} (n₀ n : Node C) (x : ℕ) → Kept n₀ n → Kept n₀ (record n { retransmissions = x })
Kept-retransmissions n₀ n x k = record {
  this_address = k.this_address;
  last_sequence_number = k.last_sequence_number;
  retries = k.retries;
  timeout = k.timeout;
  seen_ids = k.seen_ids;
  routes = k.routes;
  max_hops = k.max_hops;
  router_message = k.router_message;
  mesh_message = k.mesh_message;
}

-- The outcome of waiting: on true the acknowledgement is there.
abbrev pub Waited : {C : Type 0} → Node C → (sequence_number address : ℕ) → Bool → Node C → Type 0
Waited n₀ sequence_number address b n = Kept n₀ n × (b ≡ true → Acked sequence_number address n)
