-- ===== src/Sketch/Invariant.antt =====
-- Postconditions of the calls that a sketch makes.
use grove_lo_ra_433mhz_and.Prelude.{ℕ, ◌≡◌, refl, not}
use grove_lo_ra_433mhz_and.Prelude.Commands.{Cmd, Run, done}
use grove_lo_ra_433mhz_and.Prelude.Post
use grove_lo_ra_433mhz_and.Prelude.Post.{Post, done_subst}
use grove_lo_ra_433mhz_and.Driver
use grove_lo_ra_433mhz_and.Driver.{Radio}
use grove_lo_ra_433mhz_and.Node.Frame.{on_device-Post, on_driver-Post}
use grove_lo_ra_433mhz_and.Datagram
use grove_lo_ra_433mhz_and.Router
use grove_lo_ra_433mhz_and.Table.{Table}
use grove_lo_ra_433mhz_and.Sketch.{Sketch, Manager, on_state, start}

-- What a call of the objects leaves.
pub on_state-Post :
    {S A : Type 0} {P : S → Type 0} {m : Cmd S A} {Q : A → S → Type 0}
    → Post P m Q
    → Post (λ s. P s.state) (on_state m) (λ a s. Q a s.state)
on_state-Post {S} {A} {P} {m} {Q} f = record { apply = λ {s} p h. go s (m s.state) refl p h }
  where
    go :
        (s : Sketch S) (x : Run S A)
        → m s.state ≡ x
        → P s.state
        → {t : Sketch S} {a : A}
        → elim x [
          | done a t ↦ done a (record s { state = t })
          | Run.fault ↦ Run.fault
          | Run.out_of_fuel ↦ Run.out_of_fuel
        ]
          ≡ done a t
        → Q a t.state
    go s (done a u) e p h = done_subst (λ a t. Q a t.state) h (f.apply p e)
    go s Run.fault e p h = cc
    go s Run.out_of_fuel e p h = cc

module _ {C : Type 0} (r : Radio C) (fuel : ℕ) (P : Table → Type 0) where
  -- `init` leaves the table alone.
  init_routes : Post (λ n. P n.routes) (Router.init r fuel) (λ _ n. P n.routes)
  unfolding Router.init Datagram.init Datagram.set_this_address Datagram.set_header_from
  init_routes =
      Post.bind
        (Post.bind (on_device-Post (λ n d p. p) r.init) λ ret.
          Post.bind (Post.weaken (Post.reads {f = λ n. n.this_address}) λ a s p. p.0) λ address.
            Post.next
              (Post.whenever ret λ _.
                Post.next (on_driver-Post (λ n d p. p) (Driver.set_this_address address)) (
                  Post.next (on_driver-Post (λ n d p. p) (Driver.set_header_from address))
                    (Post.modifies {f = λ n. record n { this_address = address }} λ s p. p)))
              (Post.returns {a = ret} λ s p. p))
        λ ret.
          Post.next
            (Post.whenever ret
              λ _. Post.modifies {f = Router.set_max_hops Router.default_max_hops} λ s p. p)
            (Post.returns {a = ret} λ s p. p)

  pub start_routes :
      (m : Manager C)
      → m.init ≡ Router.init r fuel
      → Post (λ s. P s.state.routes) (start m) (λ _ s. P s.state.routes)
  unfolding start
  start_routes m e =
      Post.bind {Q = λ _ s. P s.state.routes}
        (on_state-Post {P = λ n. P n.routes} {m = m.init} {Q = λ _ n. P n.routes}
          (rw e init_routes))
        λ ready. Post.whenever (not ready) λ _. Post.modifies λ s p. p
