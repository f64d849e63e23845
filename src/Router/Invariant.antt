-- ===== src/Router/Invariant.antt =====
-- The routing table of a node stays well-formed under every operation of RHRouter.
use grove_lo_ra_433mhz_and.Prelude.{
  ℕ, ◌+◌, Option, none, some, List, [], ◌∷◌, ◌==◌, not, if◌then◌else◌, ◌||◌, length, take, blit,
  ltb, u8, sub8, min,
}
use mathlib.Core.Path.{subst, sym}
use grove_lo_ra_433mhz_and.Prelude.Commands.{Cmd, pure, modify, ◌>>◌}
use grove_lo_ra_433mhz_and.Prelude.Post
use grove_lo_ra_433mhz_and.Prelude.Post.{Post}
use grove_lo_ra_433mhz_and.Driver.{Device, Radio, broadcast_address}
use grove_lo_ra_433mhz_and.Node.{Node, on_device, update, set_router_message}
use grove_lo_ra_433mhz_and.Node.Frame.{HasHeaders, on_device-Post, recvfrom-Post}
use grove_lo_ra_433mhz_and.Datagram.{Message}
use grove_lo_ra_433mhz_and.Reliable
use grove_lo_ra_433mhz_and.Reliable.{
  Receipt, nothing, discarded, received, is_ack, is_positive, accept,
}
use grove_lo_ra_433mhz_and.Reliable.Replies.{acknowledge-Kept}
use grove_lo_ra_433mhz_and.Reliable.Sending.{sendto_wait_facts}
use grove_lo_ra_433mhz_and.Reliable.Kept.{Kept-refl}
use grove_lo_ra_433mhz_and.Router.{
  Overrides, Delivery, error_no_route, header_size, max_message_len, message_dest, message_hops,
  forward_to, route, sendto_from_source_wait, sendto_wait, deliver, forward, dispatch, recvfrom_ack,
  message_size,
}
use grove_lo_ra_433mhz_and.Table.{get_route_to, RoutingTableEntry}
use grove_lo_ra_433mhz_and.Table.Invariant.{IsTable}

abbrev pub HasTable : {C : Type 0} → Node C → Type 0
HasTable n = IsTable n.routes

-- A command after which the table is well-formed if it was before.
abbrev pub KeepsTable : {C A : Type 0} → Cmd (Node C) A → Type 0
KeepsTable {C = C} m = Post HasTable m (λ _. HasTable)

-- Every virtual function keeps the table.
pub record KeepTables {C : Type 0} (v : Overrides C) : Type 0 where
  pub peek : (message_len : ℕ) → KeepsTable (v.peek_at_message message_len)
  pub route : (message_len : ℕ) → KeepsTable (v.route message_len)

pub device_table : {C A : Type 0} (m : Cmd (Device C) A) → KeepsTable (on_device m)
device_table m = on_device-Post (λ n d h. h) m

-- An assignment to another field, with a condition beforehand from which the table is known.
pub change_table :
    {C : Type 0} {P : Node C → Type 0} (f : Node C → Node C)
    → ((n : Node C) → P n → IsTable (f n).routes)
    → Post P (modify f) (λ _. HasTable)
change_table f h = Post.modifies h

module _ {C : Type 0} (r : Radio C) (fuel : ℕ) where
  acknowledge_table : (id from : ℕ) → KeepsTable (Reliable.acknowledge r fuel id from)
  acknowledge_table id from = record {
    apply = λ {s} p h.
        subst IsTable (sym ((acknowledge-Kept r fuel s id from).apply (Kept-refl s) h).routes) p;
  }

  pub reliable_send_table :
      (buf : List ℕ) (address : ℕ) → KeepsTable (Reliable.sendto_wait r fuel buf address)
  reliable_send_table buf address = record {
    apply = λ {s} p h. subst IsTable (sym (sendto_wait_facts r fuel buf address s h).4) p;
  }

  remember_table :
      (m : Message) (seen : ℕ)
      → KeepsTable {C = C} (
          if m.id == seen then pure (discarded m.payload) else do
            modify (λ n. record n { seen_ids = update n.seen_ids m.from m.id })
            pure (received m))
  remember_table m seen =
      Post.branch (m.id == seen) (λ _. Post.returns λ s p. p)
        (λ _.
          Post.next
            (change_table (λ n. record n { seen_ids = update n.seen_ids m.from m.id }) λ s p. p)
            (Post.returns λ s p. p))

  accept_table : (m : Message) → KeepsTable (accept r fuel m)
  unfolding accept
  accept_table m =
      Post.branch (is_ack m.flags) (λ _. Post.returns λ s p. p)
        (λ _.
          Post.next
            (Post.whenever (not (m.to == broadcast_address)) λ _. acknowledge_table m.id m.from)
            (Post.bind (Post.reads {f = λ n. n.seen_ids m.from})
              λ seen. Post.strengthen (λ s p. p.0) (remember_table m seen)))

  reliable_receive_table : (len : Option ℕ) → KeepsTable (Reliable.recvfrom_ack r fuel len)
  unfolding Reliable.recvfrom_ack
  reliable_receive_table len = Post.bind (device_table r.available) λ ready.
      Post.branch ready (λ _. Post.bind (recvfrom-Post (λ n d h. h) r len) look)
        (λ _. Post.returns λ s p. p)
    where
      look :
          (got : Option Message)
          → Post {S = Node C}
              (λ s. HasTable s × HasHeaders got s)
              (elim got [ none ↦ pure nothing | some m ↦ accept r fuel m ])
              (λ _. HasTable)
      look none = Post.returns λ s p. p.0
      look (some m) = Post.strengthen (λ s p. p.0) (accept_table m)

  forward_to_table :
      (message_len next_hop : ℕ) → KeepsTable (forward_to r fuel message_len next_hop)
  unfolding forward_to
  forward_to_table message_len next_hop = Post.fetch λ n.
      Post.bind
        (Post.strengthen (λ s p. p.0)
          (reliable_send_table (take message_len n.router_message) next_hop))
        λ sent. Post.returns λ s p. p

  pub route_table : (message_len : ℕ) → KeepsTable (route r fuel message_len)
  unfolding route
  route_table message_len = Post.fetch λ n.
      Post.strengthen (λ s p. p.0)
        (Post.branch (message_dest n.router_message == broadcast_address)
          (λ _. forward_to_table message_len broadcast_address)
          (λ _. found (get_route_to (message_dest n.router_message) n.routes)))
    where
      found :
          (e : Option RoutingTableEntry)
          → KeepsTable {C = C} (elim e [
            | none ↦ pure error_no_route
            | some e ↦ forward_to r fuel message_len e.next_hop
          ])
      found none = Post.returns λ s p. p
      found (some e) = forward_to_table message_len e.next_hop

module _ {C : Type 0} (r : Radio C) (fuel : ℕ) {v : Overrides C} (keep : KeepTables v) where
  pub source_send_table :
      (buf : List ℕ) (dest source flags : ℕ)
      → KeepsTable (sendto_from_source_wait r fuel v buf dest source flags)
  unfolding sendto_from_source_wait
  source_send_table buf dest source flags =
      Post.branch (ltb r.max_message_length (length buf + header_size)) (λ _. Post.returns λ s p. p)
        (λ _. Post.fetch λ n.
          Post.next
            (change_table
              (λ m. record m { last_e2e_sequence_number = u8 (n.last_e2e_sequence_number + 1) })
              λ s p. p.0)
            (Post.next
              (change_table
                (set_router_message
                  (blit 0 (dest ∷ source ∷ 0 ∷ n.last_e2e_sequence_number ∷ flags ∷ buf)))
                λ s p. p)
              (keep.route (header_size + length buf))))

  pub send_table :
      (buf : List ℕ) (dest flags : ℕ) → KeepsTable (sendto_wait r fuel v buf dest flags)
  unfolding sendto_wait
  send_table buf dest flags =
      Post.bind (Post.reads {f = λ n. n.this_address})
        λ source. Post.strengthen (λ s p. p.0) (source_send_table buf dest source flags)

  deliver_table : (len message_len : ℕ) → KeepsTable (deliver r fuel v len message_len)
  unfolding deliver
  deliver_table len message_len = Post.fetch λ n.
      Post.branch (ltb max_message_len (min len (sub8 message_len header_size)))
        (λ _. record { apply = λ p h. cc }) (λ _. Post.returns λ s p. p.0)

  forward_table : (message_len : ℕ) → KeepsTable (forward r fuel v message_len)
  unfolding forward
  forward_table message_len = Post.fetch λ n.
      Post.next
        (change_table
          (set_router_message (λ m. blit 2 (u8 (message_hops n.router_message + 1) ∷ []) m))
          λ s p. p.0)
        (Post.whenever (ltb (message_hops n.router_message) n.max_hops)
          λ _. Post.next (keep.route message_len) (Post.returns λ s p. p))

  dispatch_table : (len message_len : ℕ) → KeepsTable (dispatch r fuel v len message_len)
  unfolding dispatch
  dispatch_table len message_len = Post.fetch λ n.
      Post.strengthen (λ s p. p.0)
        (Post.branch
          (message_dest n.router_message == n.this_address
            || message_dest n.router_message == broadcast_address)
          (λ _. deliver_table len message_len)
          (λ _. Post.next (forward_table message_len) (Post.returns λ s p. p)))

  pub receive_table : (len : ℕ) → KeepsTable (recvfrom_ack r fuel v len)
  unfolding recvfrom_ack
  receive_table len = Post.bind (reliable_receive_table r fuel (some message_size)) handle
    where
      handle :
          (receipt : Receipt)
          → KeepsTable {C = C} {A = Option Delivery} (elim receipt [
            | nothing ↦ pure none
            | discarded octets ↦ (modify (set_router_message (blit 0 octets)) >> pure none)
            | received m ↦
                (modify (set_router_message (blit 0 m.payload))
                  >> (v.peek_at_message (length m.payload)
                      >> dispatch r fuel v len (length m.payload)))
          ])
      handle nothing = Post.returns λ s p. p
      handle (discarded octets) =
          Post.next (change_table (set_router_message (blit 0 octets)) λ s p. p)
            (Post.returns λ s p. p)
      handle (received m) =
          Post.next (change_table (set_router_message (blit 0 m.payload)) λ s p. p)
            (Post.next (keep.peek (length m.payload)) (dispatch_table len (length m.payload)))
