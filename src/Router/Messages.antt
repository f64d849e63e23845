-- ===== src/Router/Messages.antt =====
-- The routed message: what the originator writes, and what the nodes on the way make of it.
use grove_lo_ra_433mhz_and.Prelude.{
  ℕ, ◌+◌, ◌≤◌, ◌<◌, ◌≡◌, ◌≢◌, refl, ◌∙◌, ◌⊎◌, inl, inr, none, some, true, false, List, [], ◌∷◌,
  arith, ◌==◌, length, take, blit, ltb, u8, sub8, min, Bool-cases, ◌||◌, take-blit, take-min-blit,
  length-take, length-drop,
}
use grove_lo_ra_433mhz_and.Prelude.Commands.{done, pure, ◌>>◌, and_then-and_then}
use grove_lo_ra_433mhz_and.Driver.{Radio, broadcast_address}
use grove_lo_ra_433mhz_and.Node.{Node}
use grove_lo_ra_433mhz_and.Router.{
  Overrides, Delivery, header_size, message_size, max_message_len, error_invalid_length,
  message_dest, message_source, message_hops, message_id, message_flags, message_data,
  sendto_from_source_wait, deliver, forward, dispatch,
}

-- The octets of a new message.
unfoldable pub routed_message : List ℕ → (dest source id flags : ℕ) → List ℕ
routed_message buf dest source id flags = dest ∷ source ∷ 0 ∷ id ∷ flags ∷ buf

hop_fields :
    (m : List ℕ) (hops : ℕ)
    → length m ≡ message_size
    → let m' = blit 2 (hops ∷ []) m in
      (message_hops m' ≡ hops)
      × (message_dest m' ≡ message_dest m)
      × (message_source m' ≡ message_source m)
      × (message_id m' ≡ message_id m)
      × (message_flags m' ≡ message_flags m)
      × (message_data m' ≡ message_data m)
hop_fields (a ∷ b ∷ c ∷ d ∷ e ∷ x ∷ m) hops l = (refl, refl, refl, refl, refl, refl)
hop_fields _ hops l = absurd (omega arith)

module _ {C : Type 0} (r : Radio C) (fuel : ℕ) (v : Overrides C) where
  -- The node that `route` is called for: a sequence number is used up, and the message is written.
  unfoldable pub with_message : List ℕ → (dest source flags : ℕ) → Node C → Node C
  unfolding routed_message
  with_message buf dest source flags n = record n {
    last_e2e_sequence_number = u8 (n.last_e2e_sequence_number + 1);
    router_message =
        blit 0 (routed_message buf dest source n.last_e2e_sequence_number flags) n.router_message;
  }

  -- A message that does not fit the radio is refused, and nothing changes. Any other is handed to
  -- `route` with its header in front: the first octets of the buffer are those of the message, with
  -- no hops and the next end-to-end sequence number.
  pub sendto_from_source_wait_result :
      (buf : List ℕ) (dest source flags : ℕ) (n : Node C)
      → length n.router_message ≡ message_size
      → r.max_message_length ≤ message_size
      → ((r.max_message_length < length buf + header_size)
          × (sendto_from_source_wait r fuel v buf dest source flags n
              ≡ done error_invalid_length n))
        ⊎ ((length buf + header_size ≤ r.max_message_length)
            × (sendto_from_source_wait r fuel v buf dest source flags n
                ≡ v.route (header_size + length buf) (with_message buf dest source flags n))
            × (take (header_size + length buf) (with_message buf dest source flags n).router_message
                ≡ routed_message buf dest source n.last_e2e_sequence_number flags))
  unfolding sendto_from_source_wait
  sendto_from_source_wait_result buf dest source flags n l m =
      elim (Bool-cases (ltb r.max_message_length (length buf + header_size))) [
        | inl q ↦ inl (ground arith, rw q)
        | inr q ↦ inr (
          ground arith,
          rw q (unfold with_message in refl),
          unfold with_message in
              let message = dest ∷ source ∷ 0 ∷ n.last_e2e_sequence_number ∷ flags ∷ buf in
              let e : 5 + length buf ≡ length message = omega arith in
              let fits : length message ≤ length n.router_message = ground arith in
              rw e (take-blit message n.router_message fits),
        )
      ]

  -- What the originator has written, the node that it is for reads back: the sender, the
  -- destination, the sequence number, the flags, and the octets as far as the caller has room.
  pub dispatch-routed_message :
      (buf : List ℕ) (dest source id flags len : ℕ) (old : List ℕ) (n : Node C)
      → length buf ≤ max_message_len
      → length old ≡ message_size
      → n.router_message ≡ blit 0 (routed_message buf dest source id flags) old
      → (dest ≡ n.this_address) ⊎ (dest ≡ broadcast_address)
      → dispatch r fuel v len (header_size + length buf) n
        ≡ done
            (some (record {
              payload = take len buf;
              source = source;
              dest = dest;
              id = id;
              flags = flags;
            }))
            n
  unfolding dispatch routed_message
  dispatch-routed_message buf dest source id flags len (a ∷ b ∷ c ∷ d ∷ e ∷ old) n m l p w =
      let is_for_us : (dest == n.this_address || dest == broadcast_address) ≡ true = ground arith in
      let same : sub8 (header_size + length buf) header_size ≡ length buf = omega arith in
      let fits : ltb max_message_len (min len (length buf)) ≡ false = ground arith in
      simp (p, is_for_us, deliver, same, fits, take-min-blit len buf old (omega arith))
  dispatch-routed_message buf dest source id flags len _ n m l p w = absurd (omega arith)

  -- The node with the hop counted.
  unfoldable pub with_hop : Node C → Node C
  with_hop n = record n {
    router_message = blit 2 (u8 (message_hops n.router_message + 1) ∷ []) n.router_message;
  }

  -- A message for another node is routed on only below the hop limit, and what is routed differs
  -- from what came in by the hop count alone, which is then one more and at most the limit. At the
  -- limit the message is dropped, whatever `route` would do.
  pub dispatch-with_hop :
      (len message_len : ℕ) (n : Node C)
      → length n.router_message ≡ message_size
      → n.max_hops < 256
      → message_dest n.router_message ≢ n.this_address
      → message_dest n.router_message ≢ broadcast_address
      → let m = n.router_message in
        let m' = (with_hop n).router_message in
        ((message_hops m < n.max_hops)
          × (dispatch r fuel v len message_len n ≡ (v.route message_len >> pure none) (with_hop n))
          × (message_hops m' ≡ message_hops m + 1)
          × (message_hops m' ≤ n.max_hops)
          × (message_dest m' ≡ message_dest m)
          × (message_source m' ≡ message_source m)
          × (message_id m' ≡ message_id m)
          × (message_flags m' ≡ message_flags m)
          × (message_data m' ≡ message_data m))
        ⊎ ((n.max_hops ≤ message_hops m)
            × (dispatch r fuel v len message_len n ≡ done none (with_hop n)))
  unfolding dispatch with_hop
  dispatch-with_hop len message_len n l h a b =
      let other : (message_dest n.router_message == n.this_address
            || message_dest n.router_message == broadcast_address)
          ≡ false =
        ground arith in
      let (e, d, s, i, f, x) =
        hop_fields n.router_message (u8 (message_hops n.router_message + 1)) l in
      elim (Bool-cases (ltb (message_hops n.router_message) n.max_hops)) [
        | inl q ↦
            let below : message_hops n.router_message < n.max_hops = ground arith in
            inl (
              below,
              rw (other, forward, q) (and_then-and_then (v.route message_len _) _),
              e ∙ omega arith,
              rw e (omega arith),
              d,
              s,
              i,
              f,
              x,
            )
        | inr q ↦ inr (ground arith, rw (other, forward, q))
      ]

  -- Messages that are too short for a header are not told apart: the length of their data wraps,
  -- and the whole buffer of a caller with room for no more than the largest message is filled from what
  -- the message buffer held before.
  pub deliver_short :
      (len message_len : ℕ) (n : Node C)
      → length n.router_message ≡ message_size
      → message_len < header_size
      → len ≤ max_message_len
      → (m : Delivery) × (deliver r fuel v len message_len n ≡ done (some m) n)
        × (length m.payload ≡ len)
  unfolding deliver
  deliver_short len message_len n l h k =
      let all : min len (sub8 message_len header_size) ≡ len = omega arith in
      let fits : ltb max_message_len len ≡ false = ground arith in
      (
        record {
          payload = take len (message_data n.router_message);
          source = message_source n.router_message;
          dest = message_dest n.router_message;
          id = message_id n.router_message;
          flags = message_flags n.router_message;
        },
        simp (all, fits),
        omega (
          arith,
          length-take len (message_data n.router_message),
          length-drop {0} 5 n.router_message,
        ),
      )
