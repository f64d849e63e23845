-- ===== src/Reliable/Replies.antt =====
-- What a transmission and the wait for its acknowledgement leave alone, whatever the radio and the other nodes do.
use grove_lo_ra_433mhz_and.Prelude.{
  ℕ, zero, suc, ◌≡◌, Option, none, some, true, false, List, [], ◌∷◌, arith, ◌==◌, ◌&&◌, u16, ltb,
  sub32,
}
use grove_lo_ra_433mhz_and.Prelude.Commands.{pure}
use grove_lo_ra_433mhz_and.Prelude.Post
use grove_lo_ra_433mhz_and.Prelude.Post.{Post, done_subst}
use grove_lo_ra_433mhz_and.Driver.{Radio, flags_none}
use grove_lo_ra_433mhz_and.Node.{Node}
use grove_lo_ra_433mhz_and.Node.Frame.{
  HasHeaders, on_device-Post, set_header_id-Post, set_header_flags-Post, sendto-Post, recvfrom-Post,
}
use grove_lo_ra_433mhz_and.Datagram.{Message}
use grove_lo_ra_433mhz_and.Driver.Wait
use grove_lo_ra_433mhz_and.Reliable.{
  is_ack, is_positive, flags_ack, acknowledge, examine, await_round, await_ack, transmit,
  await_reply,
}
use grove_lo_ra_433mhz_and.Reliable.Kept.{Kept, Acked, Kept-stable, Kept-retransmissions, Waited}

module _ {C : Type 0} (r : Radio C) (fuel : ℕ) (n₀ : Node C) where
  pub acknowledge-Kept : (id from : ℕ) → Post (Kept n₀) (acknowledge r fuel id from) (λ _. Kept n₀)
  unfolding acknowledge
  acknowledge-Kept id from = Post.next (set_header_id-Post (Kept-stable n₀) id) (
      Post.next (set_header_flags-Post (Kept-stable n₀) flags_ack flags_none) (
        Post.next (sendto-Post (Kept-stable n₀) r (b'!' ∷ []) from) (
          Post.next
            (on_device-Post (Kept-stable n₀) (Wait.wait_packet_sent r.available r.millis fuel))
            (Post.returns λ s k. k))))

  pub transmit-Kept :
      (buf : List ℕ) (id address : ℕ)
      → Post (Kept n₀) (transmit r fuel buf id address) (λ _. Kept n₀)
  unfolding transmit
  transmit-Kept buf id address = Post.next (set_header_id-Post (Kept-stable n₀) id) (
      Post.next (set_header_flags-Post (Kept-stable n₀) flags_none flags_ack) (
        Post.next (sendto-Post (Kept-stable n₀) r buf address) (
          Post.next
            (on_device-Post (Kept-stable n₀) (Wait.wait_packet_sent r.available r.millis fuel))
            (Post.returns λ s k. k))))

  examine-Waited :
      (id address : ℕ) (m : Message)
      → Post
          (λ n. Kept n₀ n × HasHeaders (some m) n)
          (examine r fuel id address m)
          (Waited n₀ id address)
  unfolding examine
  examine-Waited id address m = Post.fetch λ n.
      Post.branch _ (λ t. Post.returns λ s ((k, h), e). (k, λ _. acked t h e))
        (λ f.
          Post.strengthen (λ s ((k, h), e). k)
            (Post.next (Post.whenever _ λ _. acknowledge-Kept m.id m.from)
              (Post.returns λ s k. (k, λ q. cc))))
    where
      acked :
          {n s : Node C}
          → (m.from == address && m.to == n.this_address && is_ack m.flags && m.id == id) ≡ true
          → HasHeaders (some m) s
          → n ≡ s
          → Acked id address s
      acked t (a, b, c, d) e = record {
        from = ground arith;
        to = ground arith;
        flags = ground arith;
        id = ground arith;
      }

  await_round-Waited :
      (id address time_left : ℕ)
      → Post (Kept n₀) (await_round r fuel id address time_left) (Waited n₀ id address)
  unfolding await_round
  await_round-Waited id address time_left =
      Post.bind
        (on_device-Post (Kept-stable n₀)
          (Wait.wait_available_timeout r.available r.millis fuel (u16 time_left)))
        λ ready.
          Post.branch ready (λ _. Post.bind (recvfrom-Post (Kept-stable n₀) r none) look)
            (λ _. Post.returns λ s k. (k, λ q. cc))
    where
      look :
          (got : Option Message)
          → Post
              (λ n. Kept n₀ n × HasHeaders got n)
              (elim got [ none ↦ pure false | some m ↦ examine r fuel id address m ])
              (Waited n₀ id address)
      look none = Post.returns λ s (k, h). (k, λ q. cc)
      look (some m) = examine-Waited id address m

  await_ack-Waited :
      (rounds id address timeout send_time : ℕ)
      → Post (Kept n₀) (await_ack r fuel rounds id address timeout send_time) (Waited n₀ id address)
  unfolding await_ack
  await_ack-Waited zero id address timeout send_time = record { apply = λ k h. cc }
  await_ack-Waited (suc rounds) id address timeout send_time =
      Post.bind (on_device-Post (Kept-stable n₀) r.millis) λ now.
        Post.branch (is_positive (sub32 timeout (sub32 now send_time)))
          (λ _. Post.bind (await_round-Waited id address _) λ acked.
            Post.branch acked (λ t. Post.returns λ s w. (w.0, λ _. w.1 t))
              (λ _.
                Post.strengthen (λ s w. w.0)
                  (await_ack-Waited rounds id address timeout send_time)))
          (λ _. Post.returns λ s k. (k, λ q. cc))

  pub await_reply-Waited :
      (id address retries : ℕ)
      → Post (Kept n₀) (await_reply r fuel id address retries) (Waited n₀ id address)
  unfolding await_reply
  await_reply-Waited id address retries =
      Post.next
        (Post.whenever (ltb 1 retries) λ _. Post.modifies λ n k. Kept-retransmissions n₀ n _ k)
        (Post.bind (on_device-Post (Kept-stable n₀) r.millis) λ send_time.
          Post.bind (on_device-Post (Kept-stable n₀) (r.random 0 256)) λ random.
            Post.bind Post.reads λ timeout.
              Post.strengthen (λ s k. k.0) (await_ack-Waited fuel id address timeout send_time))
