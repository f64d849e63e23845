-- ===== src/Reliable/Sending.antt =====
-- What `sendtoWait` has achieved when it returns, whatever the radio and the other nodes do.
use grove_lo_ra_433mhz_and.Prelude.{
  ℕ, zero, suc, ◌+◌, ◌<◌, ◌≡◌, ◌≢◌, ◌⊎◌, inl, inr, Bool-cases, Bool, true, false, List, arith, ◌==◌,
  u8, leb, if◌then◌else◌,
}
use grove_lo_ra_433mhz_and.Prelude.Commands.{done, pure, ◌>>=◌, ◌>>◌}
use grove_lo_ra_433mhz_and.Prelude.Post
use grove_lo_ra_433mhz_and.Prelude.Post.{Post, done_subst}
use grove_lo_ra_433mhz_and.Driver.{Radio, broadcast_address}
use grove_lo_ra_433mhz_and.Node.{Node}
use grove_lo_ra_433mhz_and.Reliable.{transmit, await_reply, attempt, sendto_wait}
use grove_lo_ra_433mhz_and.Reliable.Kept.{Kept, Acked, Kept-refl}
use grove_lo_ra_433mhz_and.Reliable.Replies.{transmit-Kept, await_reply-Waited}

module _ {C : Type 0} (r : Radio C) (fuel : ℕ) (n₀ : Node C) where
  -- The outcome of the transmissions from the one that `retries` counts as the next.
  abbrev Sent : (sequence_number address retries : ℕ) → Bool → Node C → Type 0
  Sent id address retries b n =
      Kept n₀ n
      × (b ≡ true → (address ≡ broadcast_address) ⊎ Acked id address n)
      × (b ≡ false → (n₀.retries < 255) × ((n₀.retries < retries) ⊎ (address ≢ broadcast_address)))

  -- One round, given the outcome of the rounds after it.
  round-Sent :
      (rounds : ℕ) (buf : List ℕ) (id address retries : ℕ)
      → Post
          (Kept n₀)
          (attempt r fuel rounds buf id address (u8 (retries + 1)))
          (Sent id address (u8 (retries + 1)))
      → Post
          (Kept n₀)
          (transmit r fuel buf id address
            >> (if address == broadcast_address then pure true else do
              acked ← await_reply r fuel id address (u8 (retries + 1))
              if acked then pure true else attempt r fuel rounds buf id address (u8 (retries + 1))))
          (Sent id address retries)
  round-Sent rounds buf id address retries again =
      Post.next (transmit-Kept r fuel n₀ buf id address) (
        Post.branch (address == broadcast_address)
          (λ t. Post.returns λ s k. (k, (λ _. inl (ground arith)), λ q. cc))
          (λ f. Post.bind (await_reply-Waited r fuel n₀ id address _) λ acked.
            Post.branch acked (λ t. Post.returns λ s w. (w.0, (λ _. inr (w.1 t)), λ q. cc))
              (λ _.
                Post.weaken (Post.strengthen (λ s w. w.0) again)
                  λ b s t. (t.0, t.1, λ q. ((t.2 q).0, inr (ground arith))))))

  attempt-Sent :
      (rounds : ℕ) (buf : List ℕ) (id address retries : ℕ)
      → retries < 256
      → Post (Kept n₀) (attempt r fuel rounds buf id address retries) (Sent id address retries)
  unfolding attempt
  attempt-Sent zero buf id address retries h = record { apply = λ k e. cc }
  attempt-Sent (suc rounds) buf id address retries h = record {
    apply = λ {s} k e. elim (Bool-cases (leb retries s.retries)) [
      | inl more ↦
          (round-Sent rounds buf id address retries
              (attempt-Sent rounds buf id address (u8 (retries + 1)) (omega arith))).apply
            k (rw more at e)
      | inr over ↦
          done_subst (Sent id address retries) (rw over at e)
            (k, (λ q. cc), λ q. ground (arith, k.retries))
    ];
  }

module _ {C : Type 0} (r : Radio C) (fuel : ℕ) where
  -- What holds of a call of `sendto_wait` that returns.
  pub sendto_wait_facts :
      (buf : List ℕ) (address : ℕ) (n : Node C) {b : Bool} {t : Node C}
      → sendto_wait r fuel buf address n ≡ done b t
      → (b ≡ true
          → (address ≡ broadcast_address) ⊎ Acked (u8 (n.last_sequence_number + 1)) address t)
        × (b ≡ false → (n.retries < 255) × (address ≢ broadcast_address))
        × (t.this_address ≡ n.this_address)
        × (t.seen_ids ≡ n.seen_ids)
        × (t.routes ≡ n.routes)
        × (t.last_sequence_number ≡ u8 (n.last_sequence_number + 1))
  unfolding sendto_wait
  sendto_wait_facts buf address n {b} {t} h =
      let n₁ : Node C = record n { last_sequence_number = u8 (n.last_sequence_number + 1) } in
      let (k, yes_, no_) =
        (attempt-Sent r fuel n₁ fuel buf (u8 (n.last_sequence_number + 1)) address 0
            (omega arith)).apply
          (Kept-refl n₁) h in
      (
        yes_,
        (λ q. ((no_ q).0, not_first (no_ q).1)),
        k.this_address,
        k.seen_ids,
        k.routes,
        k.last_sequence_number,
      )
    where
      not_first : {x : ℕ} {Q : Type 0} → (x < 0) ⊎ Q → Q
      not_first (inl l) = absurd (omega arith)
      not_first (inr q) = q

  -- A call of `sendto_wait` leaves the address of the node, the messages of the router and the mesh
  -- and the number of retries alone.
  pub sendto_wait-same :
      (buf : List ℕ) (address : ℕ) (n : Node C) {b : Bool} {t : Node C}
      → sendto_wait r fuel buf address n ≡ done b t
      → (t.this_address ≡ n.this_address)
        × (t.router_message ≡ n.router_message)
        × (t.mesh_message ≡ n.mesh_message)
        × (t.retries ≡ n.retries)
  unfolding sendto_wait
  sendto_wait-same buf address n h =
      let n₁ : Node C = record n { last_sequence_number = u8 (n.last_sequence_number + 1) } in
      let (k, yes_, no_) =
        (attempt-Sent r fuel n₁ fuel buf (u8 (n.last_sequence_number + 1)) address 0
            (omega arith)).apply
          (Kept-refl n₁) h in
      (k.this_address, k.router_message, k.mesh_message, k.retries)

  -- Whenever `sendto_wait` returns true for one node, the last message received is that node's
  -- acknowledgement, to this node, of the sequence number that this call has used, the one after
  -- the last. When it returns false, the address was not the broadcast address, and the number of
  -- retries is less than 255: with 255 retries it never gives up. It changes no route and no seen
  -- ID, and counts one sequence number.
  pub sendto_wait_result :
      (buf : List ℕ) (address : ℕ) (n : Node C) {b : Bool} {t : Node C}
      → sendto_wait r fuel buf address n ≡ done b t
      → (((b ≡ true)
            × ((address ≡ broadcast_address) ⊎ Acked (u8 (n.last_sequence_number + 1)) address t))
          ⊎ ((b ≡ false) × (n.retries < 255) × (address ≢ broadcast_address)))
        × (t.this_address ≡ n.this_address)
        × (t.seen_ids ≡ n.seen_ids)
        × (t.routes ≡ n.routes)
        × (t.last_sequence_number ≡ u8 (n.last_sequence_number + 1))
  sendto_wait_result buf address n {b} h =
      let (good, bad, this, seen, routes, number) = sendto_wait_facts buf address n h in
      (
        elim (Bool-cases b) [
          | inl q ↦ inl (q, good q)
          | inr q ↦ inr (let (few, one) = bad q in (q, few, one))
        ],
        this,
        seen,
        routes,
        number,
      )
