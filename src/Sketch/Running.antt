-- ===== src/Sketch/Running.antt =====
-- A sketch from its `setup` on, through any number of calls of `loop`, with any keys pressed between.
use grove_lo_ra_433mhz_and.Prelude.{
  ℕ, ◌-◌, ◌==◌, ltb, leb, ◌≡◌, refl, not, ◌&&◌, Option, none, some, List, [], ◌∷◌, length,
}
use mathlib.Core.Path.{subst, sym}
use grove_lo_ra_433mhz_and.Prelude.Commands.{Cmd, done, pure, when, ◌>>=◌, ◌>>◌}
use grove_lo_ra_433mhz_and.Prelude.Post
use grove_lo_ra_433mhz_and.Prelude.Post.{Post, done_subst}
use grove_lo_ra_433mhz_and.Driver.{Radio}
use grove_lo_ra_433mhz_and.Node.{Node}
use grove_lo_ra_433mhz_and.Router
use grove_lo_ra_433mhz_and.Router.{Delivery, error_none}
use grove_lo_ra_433mhz_and.Router.Invariant.{HasTable, KeepsTable}
use grove_lo_ra_433mhz_and.Mesh.Discovery.{sendto_table}
use grove_lo_ra_433mhz_and.Mesh.Listening.{recvfrom_table}
use grove_lo_ra_433mhz_and.Mesh.Timeouts.{timeout_table}
use grove_lo_ra_433mhz_and.Table.{routing_table_size}
use grove_lo_ra_433mhz_and.Table.Invariant.{IsTable, clear-IsTable}
use grove_lo_ra_433mhz_and.Sketch.{
  Sketch, Manager, Report, got_reply, got_message, no_reply, not_sent, reply_not_sent, sending,
  on_state, print, read_key, send_to, answer, chat, hello_world,
}
use grove_lo_ra_433mhz_and.Sketch.Meshes.{
  manager, buffer_size, back1, back2, back3, back4, node1, node2, node3, node4, setup1, setup2,
  setup3, setup4, loop1, loop2, loop3, loop4,
}
use grove_lo_ra_433mhz_and.Sketch.Line.{Place, second, third, fourth, first}
use grove_lo_ra_433mhz_and.Sketch.Invariant.{on_state-Post, start_routes}

-- The states that a sketch reaches from `s`.
pub data Runs {S : Type 0} (setup : Cmd (Sketch S) (Unit {0}))
    (loop : ℕ → Cmd (Sketch S) (Unit {0})) (s : Sketch S) : Sketch S → Type 0 where
  set_up : {t : Sketch S} → setup s ≡ done tt t → Runs setup loop s t
  looped :
      {t u : Sketch S} (keys : List ℕ) (garbage : ℕ)
      → Runs setup loop s t
      → loop garbage (record t { keys = keys }) ≡ done tt u
      → Runs setup loop s u

-- A condition that holds after `setup` and that `loop` keeps, whatever the keys, holds from then on.
Runs-invariant :
    {S : Type 0} {setup : Cmd (Sketch S) (Unit {0})} {loop : ℕ → Cmd (Sketch S) (Unit {0})}
    (P : S → Type 0) {s t : Sketch S}
    → ((t : Sketch S) → setup s ≡ done tt t → P t.state)
    → ((garbage : ℕ) → Post (λ s. P s.state) (loop garbage) (λ _ s. P s.state))
    → Runs setup loop s t
    → P t.state
Runs-invariant P begin step (set_up {t} e) = begin t e
Runs-invariant P begin step (looped keys garbage run e) =
    (step garbage).apply (Runs-invariant P begin step run) e

-- A manager whose operations keep the table well-formed.
record KeepsTables {C : Type 0} (m : Manager C) : Type 0 where
  sends : (buf : List ℕ) (dest flags : ℕ) → KeepsTable (m.sendto_wait buf dest flags)
  receives : (len : ℕ) → KeepsTable (m.recvfrom_ack len)
  waits : (len timeout : ℕ) → KeepsTable (m.recvfrom_ack_timeout len timeout)

abbrev KeepsState : {C A : Type 0} → Cmd (Sketch (Node C)) A → Type 0
KeepsState m = Post (λ s. HasTable s.state) m (λ _ s. HasTable s.state)

module _ {C : Type 0} where
  on_state-KeepsState : {A : Type 0} {m : Cmd (Node C) A} → KeepsTable m → KeepsState (on_state m)
  on_state-KeepsState {A} {m} k = on_state-Post {P = HasTable} {m = m} {Q = λ _. HasTable} k

  print-KeepsState : (x : Report) → KeepsState {C = C} (print x)
  print-KeepsState x = Post.modifies λ s p. p

  read_key-KeepsState : (garbage : ℕ) → KeepsState {C = C} (read_key garbage)
  unfolding read_key
  read_key-KeepsState garbage = record { apply = λ {s} p h. go s s.keys p h }
    where
      go :
          (s : Sketch (Node C)) (keys : List ℕ)
          → HasTable s.state
          → {a : ℕ} {t : Sketch (Node C)}
          → elim keys [ [] ↦ done garbage s | key ∷ keys ↦ done key (record s { keys = keys }) ]
            ≡ done a t
          → HasTable t.state
      go s [] p h = done_subst (λ _ t. HasTable t.state) h p
      go s (key ∷ keys) p h = done_subst (λ _ t. HasTable t.state) h p

module _ {C : Type 0} {m : Manager C} (keep : KeepsTables m) where
  send_to-KeepsState : (len dest : ℕ) → KeepsState (send_to m len dest)
  unfolding send_to
  send_to-KeepsState len dest = Post.next (print-KeepsState (sending dest)) (
      Post.bind {Q = λ _ s. HasTable s.state} (on_state-KeepsState (keep.sends hello_world dest 0))
        λ code.
          Post.branch (code == error_none)
            (λ _.
              Post.bind {Q = λ _ s. HasTable s.state} (on_state-KeepsState (keep.waits len 3000))
                reply)
            (λ _. Post.next (print-KeepsState not_sent) (Post.returns λ s p. p)))
    where
      reply :
          (got : Option Delivery)
          → KeepsState {C = C} {A = ℕ} (elim got [
            | some d ↦ print (got_reply d.source d.payload) >> pure (length d.payload)
            | none ↦ print no_reply >> pure len
          ])
      reply none = Post.next (print-KeepsState no_reply) (Post.returns λ s p. p)
      reply (some d) =
          Post.next (print-KeepsState (got_reply d.source d.payload)) (Post.returns λ s p. p)

  answer-KeepsState : (back : List ℕ) (len : ℕ) → KeepsState (answer m back len)
  unfolding answer
  answer-KeepsState back len =
      Post.bind {Q = λ _ s. HasTable s.state} (on_state-KeepsState (keep.receives len)) reply
    where
      reply :
          (got : Option Delivery)
          → KeepsState {C = C} {A = Unit {0}} (elim got [
            | none ↦ pure tt
            | some d ↦
                print (got_message d.source d.payload)
                >> (on_state (m.sendto_wait back d.source 0)
                    >>= (λ code. when (not (code == error_none)) (print reply_not_sent)))
          ])
      reply none = Post.returns λ s p. p
      reply (some d) = Post.next (print-KeepsState (got_message d.source d.payload)) (
          Post.bind {Q = λ _ s. HasTable s.state} (on_state-KeepsState (keep.sends back d.source 0))
            λ code. Post.whenever (not (code == error_none)) λ _. print-KeepsState reply_not_sent)

  chat-KeepsState : (back : List ℕ) (size garbage : ℕ) → KeepsState (chat m back size garbage)
  unfolding chat
  chat-KeepsState back size garbage =
      Post.bind {Q = λ _ s. HasTable s.state} (read_key-KeepsState garbage) λ addr.
        Post.bind {Q = λ _ s. HasTable s.state}
          (Post.branch (ltb b'0' addr && leb addr b'4') (λ _. send_to-KeepsState size (addr - b'0'))
            (λ _. Post.returns λ s p. p))
          λ len. answer-KeepsState back len

module _ {C : Type 0} (r : Radio C) (fuel : ℕ) where
  mesh_KeepsTables : KeepsTables (manager r fuel)
  mesh_KeepsTables = record {
    sends = sendto_table r fuel;
    receives = recvfrom_table r fuel;
    waits = timeout_table r fuel;
  }

  -- The mesh sketch at a place.
  abbrev pub mesh_node : Place → Node C → Node C
  mesh_node first = node1
  mesh_node second = node2
  mesh_node third = node3
  mesh_node fourth = node4

  abbrev pub mesh_setup : Place → Cmd (Sketch (Node C)) (Unit {0})
  mesh_setup first = setup1 r fuel
  mesh_setup second = setup2 r fuel
  mesh_setup third = setup3 r fuel
  mesh_setup fourth = setup4 r fuel

  abbrev pub mesh_loop : Place → ℕ → Cmd (Sketch (Node C)) (Unit {0})
  mesh_loop first = loop1 r fuel
  mesh_loop second = loop2 r fuel
  mesh_loop third = loop3 r fuel
  mesh_loop fourth = loop4 r fuel

  mesh_node-HasTable :
      (p : Place) (raw : Node C)
      → length raw.routes ≡ routing_table_size
      → HasTable (mesh_node p raw)
  unfolding Router.construct
  mesh_node-HasTable first raw l = clear-IsTable raw.routes l
  mesh_node-HasTable second raw l = clear-IsTable raw.routes l
  mesh_node-HasTable third raw l = clear-IsTable raw.routes l
  mesh_node-HasTable fourth raw l = clear-IsTable raw.routes l

  mesh_setup-KeepsState : (p : Place) → KeepsState (mesh_setup p)
  unfolding setup1 setup2 setup3 setup4
  mesh_setup-KeepsState first = start_routes r fuel IsTable (manager r fuel) refl
  mesh_setup-KeepsState second = start_routes r fuel IsTable (manager r fuel) refl
  mesh_setup-KeepsState third = start_routes r fuel IsTable (manager r fuel) refl
  mesh_setup-KeepsState fourth = start_routes r fuel IsTable (manager r fuel) refl

  mesh_loop-KeepsState : (p : Place) (garbage : ℕ) → KeepsState (mesh_loop p garbage)
  unfolding loop1 loop2 loop3 loop4
  mesh_loop-KeepsState first garbage = chat-KeepsState mesh_KeepsTables back1 buffer_size garbage
  mesh_loop-KeepsState second garbage = chat-KeepsState mesh_KeepsTables back2 buffer_size garbage
  mesh_loop-KeepsState third garbage = chat-KeepsState mesh_KeepsTables back3 buffer_size garbage
  mesh_loop-KeepsState fourth garbage = chat-KeepsState mesh_KeepsTables back4 buffer_size garbage

  -- In each of the mesh sketches the routing table is well-formed from `setup` on, however often
  -- `loop` is called, and whatever keys are pressed and messages come.
  mesh_Runs-HasTable :
      (p : Place) (raw : Node C) (s : Sketch (Node C)) {t : Sketch (Node C)}
      → length raw.routes ≡ routing_table_size
      → s.state ≡ mesh_node p raw
      → Runs (mesh_setup p) (mesh_loop p) s t
      → HasTable t.state
  mesh_Runs-HasTable p raw s l b run =
      Runs-invariant HasTable
        (λ t e.
          (mesh_setup-KeepsState p).apply (subst HasTable (sym b) (mesh_node-HasTable p raw l)) e)
        (mesh_loop-KeepsState p) run
