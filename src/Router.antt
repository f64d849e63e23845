-- ===== src/Router.antt =====
-- RHRouter.h and RHRouter.cpp: multi-hop delivery by a routing table. The table itself is in
-- Table.antt. The two virtual functions are parameters here: a router and a mesh node differ in them.
pub mod Routing
pub mod Invariant
pub mod Messages
use grove_lo_ra_433mhz_and.Prelude.{
  ℕ, zero, suc, ◌+◌, ◌==◌, ltb, if◌then◌else◌, Bool, min, ◌||◌, Option, none, some, List, [], ◌∷◌,
  length, get_or, take, drop, blit, u8, sub8, sub32, u16,
}
use grove_lo_ra_433mhz_and.Prelude.Commands.{
  Cmd, fault, out_of_fuel, pure, get, gets, modify, when, ◌>>=◌, ◌>>◌,
}
use grove_lo_ra_433mhz_and.Driver.{Radio, broadcast_address}
use grove_lo_ra_433mhz_and.Node.{Node, set_routes, set_router_message}
use grove_lo_ra_433mhz_and.Datagram
use grove_lo_ra_433mhz_and.Datagram.{Message}
use grove_lo_ra_433mhz_and.Reliable
use grove_lo_ra_433mhz_and.Reliable.{Receipt, nothing, discarded, received, is_positive}
use grove_lo_ra_433mhz_and.Table.{get_route_to, clear_routing_table}

abbrev pub default_max_hops : ℕ
default_max_hops = 30

-- The error codes.
abbrev pub error_none : ℕ
error_none = 0

abbrev pub error_invalid_length : ℕ
error_invalid_length = 1

abbrev pub error_no_route : ℕ
error_no_route = 2

abbrev pub error_unable_to_deliver : ℕ
error_unable_to_deliver = 5

-- sizeof(RoutedMessageHeader), RH_ROUTER_MAX_MESSAGE_LEN and sizeof(RoutedMessage)
abbrev pub header_size : ℕ
header_size = 5

abbrev pub max_message_len : ℕ
max_message_len = 250

abbrev pub message_size : ℕ
message_size = 255

-- The fields of a RoutedMessage, which are octets in this order.
abbrev pub message_dest : List ℕ → ℕ
message_dest m = get_or m 0 0

abbrev pub message_source : List ℕ → ℕ
message_source m = get_or m 1 0

abbrev pub message_hops : List ℕ → ℕ
message_hops m = get_or m 2 0

abbrev pub message_id : List ℕ → ℕ
message_id m = get_or m 3 0

abbrev pub message_flags : List ℕ → ℕ
message_flags m = get_or m 4 0

abbrev pub message_data : List ℕ → List ℕ
message_data m = drop 5 m

-- What `recvfromAck` writes through its pointers when it returns true.
pub record Delivery : Type 0 where
  pub payload : List ℕ
  pub source : ℕ
  pub dest : ℕ
  pub id : ℕ
  pub flags : ℕ

-- The virtual functions; both act on `router_message`, whose length they are given.
pub record Overrides (C : Type 0) : Type 0 where
  pub peek_at_message : ℕ → Cmd (Node C) (Unit {0})
  pub route : ℕ → Cmd (Node C) ℕ

module _ {C : Type 0} where
  -- The constructor.
  unfoldable pub construct : ℕ → Node C → Node C
  unfolding Reliable.construct clear_routing_table
  construct address n =
      set_routes clear_routing_table
        (record (Reliable.construct address n) { max_hops = default_max_hops })

  abbrev pub set_max_hops : ℕ → Node C → Node C
  set_max_hops max_hops n = record n { max_hops = max_hops }

module _ {C : Type 0} (r : Radio C) (fuel : ℕ) where
  unfoldable pub init : Cmd (Node C) Bool
  unfolding Datagram.init
  init = do ret ← Datagram.init r; when ret (modify (set_max_hops default_max_hops)); pure ret

  -- RHRouter::route
  unfoldable pub forward_to : ℕ → ℕ → Cmd (Node C) ℕ
  forward_to message_len next_hop = do
    n ← get
    sent ← Reliable.sendto_wait r fuel (take message_len n.router_message) next_hop
    pure (if sent then error_none else error_unable_to_deliver)

  unfoldable pub route : ℕ → Cmd (Node C) ℕ
  unfolding forward_to
  route message_len = do
    n ← get
    if message_dest n.router_message == broadcast_address
        then forward_to message_len broadcast_address
        else elim (get_route_to (message_dest n.router_message) n.routes) [
          | none ↦ pure error_no_route
          | some e ↦ forward_to message_len e.next_hop
        ]

  -- The default of `peekAtMessage` does nothing.
  abbrev pub router : Overrides C
  router = record { peek_at_message = λ len. pure tt; route = route }

module _ {C : Type 0} (r : Radio C) (fuel : ℕ) (v : Overrides C) where
  unfoldable pub sendto_from_source_wait : List ℕ → (dest source flags : ℕ) → Cmd (Node C) ℕ
  sendto_from_source_wait buf dest source flags =
      if ltb r.max_message_length (length buf + header_size) then pure error_invalid_length else do
        n ← get
        let id = n.last_e2e_sequence_number
        modify (λ n. record n { last_e2e_sequence_number = u8 (id + 1) })
        modify (set_router_message (blit 0 (dest ∷ source ∷ 0 ∷ id ∷ flags ∷ buf)))
        v.route (header_size + length buf)

  unfoldable pub sendto_wait : List ℕ → (dest flags : ℕ) → Cmd (Node C) ℕ
  unfolding sendto_from_source_wait
  sendto_wait buf dest flags = do
    source ← gets (λ n. n.this_address)
    sendto_from_source_wait buf dest source flags

  -- The message is for this node: the caller has room for `len` octets.
  unfoldable pub deliver : (len message_len : ℕ) → Cmd (Node C) (Option Delivery)
  deliver len message_len = do
    n ← get
    let m = n.router_message
    let copied = min len (sub8 message_len header_size)
    if ltb max_message_len copied
        then (λ _. fault)
        else pure (
            some (record {
              payload = take copied (message_data m);
              source = message_source m;
              dest = message_dest m;
              id = message_id m;
              flags = message_flags m;
            }))

  -- The message may have to be routed to the next hop.
  unfoldable pub forward : ℕ → Cmd (Node C) (Unit {0})
  forward message_len = do
    n ← get
    let hops = message_hops n.router_message
    modify (set_router_message (λ m. blit 2 (u8 (hops + 1) ∷ []) m))
    when (ltb hops n.max_hops) (v.route message_len >> pure tt)

  unfoldable pub dispatch : (len message_len : ℕ) → Cmd (Node C) (Option Delivery)
  unfolding deliver forward
  dispatch len message_len = do
    n ← get
    let dest = message_dest n.router_message
    if dest == n.this_address || dest == broadcast_address
        then deliver len message_len
        else (forward message_len >> pure none)

  unfoldable pub recvfrom_ack : ℕ → Cmd (Node C) (Option Delivery)
  unfolding dispatch
  recvfrom_ack len = do
    receipt ← Reliable.recvfrom_ack r fuel (some message_size)
    elim receipt [
      | nothing ↦ pure none
      | discarded octets ↦ do modify (set_router_message (blit 0 octets)); pure none
      | received m ↦ do
        modify (set_router_message (blit 0 m.payload))
        v.peek_at_message (length m.payload)
        dispatch len (length m.payload)
    ]

  unfoldable pub recvfrom_ack_loop :
      ℕ → (len timeout starttime : ℕ) → Cmd (Node C) (Option Delivery)
  recvfrom_ack_loop zero len timeout starttime n = out_of_fuel
  recvfrom_ack_loop (suc rounds) len timeout starttime n =
      (do
        now ← Datagram.millis r
        let time_left = sub32 timeout (sub32 now starttime)
        if is_positive time_left
            then (do
              ready ← Datagram.wait_available_timeout r fuel (u16 time_left)
              if ready
                  then (do
                    got ← recvfrom_ack len
                    elim got [
                      | some m ↦ pure (some m)
                      | none ↦ recvfrom_ack_loop rounds len timeout starttime
                    ])
                  else recvfrom_ack_loop rounds len timeout starttime)
            else pure none)
        n

  unfoldable pub recvfrom_ack_timeout : (len timeout : ℕ) → Cmd (Node C) (Option Delivery)
  recvfrom_ack_timeout len timeout = do
    starttime ← Datagram.millis r
    recvfrom_ack_loop fuel len timeout starttime
