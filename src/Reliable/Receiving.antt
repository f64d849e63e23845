-- ===== src/Reliable/Receiving.antt =====
-- What `recvfromAck` hands over, whatever the radio and the other nodes do.
use grove_lo_ra_433mhz_and.Prelude.{
  ℕ, ◌≡◌, ◌≢◌, ap, ◌∙◌, Option, none, some, ◌⊎◌, inl, inr, false, List, [], ◌∷◌, arith, ◌==◌, not,
  if◌then◌else◌,
}
use mathlib.Core.Path.{subst}
use grove_lo_ra_433mhz_and.Prelude.Commands.{done, pure, modify, ◌>>◌}
use grove_lo_ra_433mhz_and.Prelude.Post
use grove_lo_ra_433mhz_and.Prelude.Post.{Post}
use grove_lo_ra_433mhz_and.Driver.{Radio, broadcast_address}
use grove_lo_ra_433mhz_and.Node.{Node, update}
use grove_lo_ra_433mhz_and.Node.Frame.{HasHeaders, on_device-Post, recvfrom-Post}
use grove_lo_ra_433mhz_and.Datagram.{Message}
use grove_lo_ra_433mhz_and.Reliable.{
  Receipt, nothing, discarded, received, is_ack, accept, recvfrom_ack,
}
use grove_lo_ra_433mhz_and.Reliable.Replies.{acknowledge-Kept}
use grove_lo_ra_433mhz_and.Reliable.Kept.{Kept, Kept-stable, Kept-refl}

-- A message is handed over only if it is no acknowledgement and its ID is not the one last seen
-- from its sender, and then its ID is remembered. In the other cases nothing is remembered.
pub data Received {C : Type 0} (n : Node C) : Receipt → Node C → Type 0 where
  no_message : {t : Node C} → t.seen_ids ≡ n.seen_ids → Received n nothing t
  dropped :
      {octets : List ℕ} {t : Node C} → t.seen_ids ≡ n.seen_ids → Received n (discarded octets) t
  handed_over :
      {m : Message} {t : Node C}
      → is_ack m.flags ≡ false
      → m.id ≢ n.seen_ids m.from
      → t.seen_ids ≡ update n.seen_ids m.from m.id
      → Received n (received m) t

module _ {C : Type 0} (r : Radio C) (fuel : ℕ) (n₀ : Node C) where
  unseen :
      {x : ℕ} {seen : ℕ → ℕ} (m : Message)
      → (m.id == x) ≡ false
      → seen ≡ n₀.seen_ids
      → x ≡ seen m.from
      → m.id ≢ n₀.seen_ids m.from
  unseen m new e e' q = ground (arith, ap (λ f. f m.from) e)

  remember-Received :
      (m : Message) (seen : ℕ)
      → is_ack m.flags ≡ false
      → Post
          (λ s. Kept n₀ s × (seen ≡ s.seen_ids m.from))
          (if m.id == seen then pure (discarded m.payload) else do
            modify (λ n. record n { seen_ids = update n.seen_ids m.from m.id })
            pure (received m))
          (Received n₀)
  remember-Received m seen f =
      Post.branch (m.id == seen) (λ _. Post.returns λ s (k, e). dropped k.seen_ids)
        (λ new.
          Post.next
            (Post.modifies
              {Q = λ t. (m.id ≢ n₀.seen_ids m.from) × (t.seen_ids ≡ update n₀.seen_ids m.from m.id)}
              λ s (k, e). (unseen m new k.seen_ids e, ap (λ f. update f m.from m.id) k.seen_ids))
            (Post.returns λ s k. handed_over f k.0 k.1))

  accept-Received : (m : Message) → Post (Kept n₀) (accept r fuel m) (Received n₀)
  unfolding accept
  accept-Received m =
      Post.branch (is_ack m.flags) (λ _. Post.returns λ s k. dropped k.seen_ids)
        (λ f.
          Post.next
            (Post.whenever (not (m.to == broadcast_address))
              λ _. acknowledge-Kept r fuel n₀ m.id m.from)
            (Post.bind (Post.reads {f = λ n. n.seen_ids m.from})
              λ seen. remember-Received m seen f))

module _ {C : Type 0} (r : Radio C) (fuel : ℕ) where
  recvfrom_ack-Received :
      (len : Option ℕ) (n : Node C) {a : Receipt} {t : Node C}
      → recvfrom_ack r fuel len n ≡ done a t
      → Received n a t
  unfolding recvfrom_ack
  recvfrom_ack-Received len n {a} {t} h = whole.apply (Kept-refl n) h
    where
      look :
          (got : Option Message)
          → Post
              (λ s. Kept n s × HasHeaders got s)
              (elim got [ none ↦ pure nothing | some m ↦ accept r fuel m ])
              (Received n)
      look none = Post.returns λ s (k, h). no_message k.seen_ids
      look (some m) = Post.strengthen (λ s k. k.0) (accept-Received r fuel n m)

      whole : Post (Kept n) (recvfrom_ack r fuel len) (Received n)
      whole = Post.bind (on_device-Post (Kept-stable n) r.available) λ ready.
          Post.branch ready (λ _. Post.bind (recvfrom-Post (Kept-stable n) r len) look)
            (λ _. Post.returns λ s k. no_message k.seen_ids)

  -- Any number of calls, one after the other, and the messages that they hand over, in order. What
  -- else happens to the node between two calls does not touch `seen_ids`.
  pub data Calls (len : Option ℕ) : Node C → List Message → Type 0 where
    stop : (n : Node C) → Calls len n []
    handed :
        {n t u : Node C} {m : Message} {ms : List Message}
        → recvfrom_ack r fuel len n ≡ done (received m) t
        → u.seen_ids ≡ t.seen_ids
        → Calls len u ms
        → Calls len n (m ∷ ms)
    empty :
        {n t u : Node C} {ms : List Message} (a : Receipt)
        → recvfrom_ack r fuel len n ≡ done a t
        → (a ≡ nothing) ⊎ ((octets : List ℕ) × (a ≡ discarded octets))
        → u.seen_ids ≡ t.seen_ids
        → Calls len u ms
        → Calls len n ms

-- No message has the ID of the message before it from the same sender; `seen` gives these IDs at
-- the start.
unfoldable pub Fresh : (ℕ → ℕ) → List Message → Type 0
Fresh seen [] = Unit
Fresh seen (m ∷ ms) =
    (is_ack m.flags ≡ false) × (m.id ≢ seen m.from) × Fresh (update seen m.from m.id) ms

module _ {C : Type 0} (r : Radio C) (fuel : ℕ) (len : Option ℕ) where
  fresh_one :
      {n t : Node C} {m : Message}
      → Received n (received m) t
      → (is_ack m.flags ≡ false)
        × (m.id ≢ n.seen_ids m.from)
        × (t.seen_ids ≡ update n.seen_ids m.from m.id)
  fresh_one (handed_over a b u) = (a, b, u)

  kept :
      {n t : Node C} (a : Receipt)
      → (a ≡ nothing) ⊎ ((octets : List ℕ) × (a ≡ discarded octets))
      → Received n a t
      → t.seen_ids ≡ n.seen_ids
  kept _ w (no_message e) = e
  kept _ w (dropped e) = e
  kept _ w (handed_over {m} a b e) = absurd (not_handed m w)
    where
      not_handed :
          (m : Message)
          → (received m ≡ nothing) ⊎ ((octets : List ℕ) × (received m ≡ discarded octets))
          → ⊥
      not_handed m (inl q) = cc
      not_handed m (inr (o, q)) = cc

  -- Retransmissions are handed over once: in any sequence of calls, no message has the ID that the
  -- message before it from the same sender had, and none is an acknowledgement.
  pub Calls-Fresh : {n : Node C} {ms : List Message} → Calls r fuel len n ms → Fresh n.seen_ids ms
  unfolding Fresh
  Calls-Fresh (stop n) = tt
  Calls-Fresh (handed {n} {m} {ms} e s c) =
      let (a, b, u) = fresh_one (recvfrom_ack-Received r fuel len n e) in
      (a, b, subst (λ seen. Fresh seen ms) (s ∙ u) (Calls-Fresh c))
  Calls-Fresh (empty {n} {ms} a e w s c) =
      subst (λ seen. Fresh seen ms) (s ∙ kept a w (recvfrom_ack-Received r fuel len n e))
        (Calls-Fresh c)
