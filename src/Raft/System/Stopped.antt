-- ===== src/Raft/System/Stopped.antt =====
-- A packet that does not decode stops the engine's thread for good.
use lab_bcos.Base.{ℕ, ◌≡◌, refl, ap, ◌∙◌, true, false, none, some, List, [], ◌∷◌, ◌++◌}
use lab_bcos.Raft.Types.{Engine, World, Flow, Payload, Packet}
use lab_bcos.Raft.Roles.{check_elect_timeout}
use lab_bcos.Raft.Loop.{
  Place, pop_queue, on_pop, follow, enqueue, on_recv, valid_sender, is_follower,
  run_as_follower_imp, work,
}
use lab_bcos.Raft.System.{Node, Thread, Step, Reach, after_round, round, wake}
use Payload.{vote_req, heartbeat}
use Place.{following}
use Thread.{stopped}
use Step.{works, receives, reports, seals, wakes}
use Reach.{here, next}

-- A heartbeat or a vote request that does not decode.
pub data IsBroken : Payload → Type 0 where
  broken_vote_req : IsBroken (vote_req none)
  broken_heartbeat : IsBroken (heartbeat none)

follow_broken :
    (w : World) (s : Engine) (q : Packet) {body : Payload}
    → IsBroken body
    → (follow w s q body).2 ≡ Flow.thrown
unfolding follow
follow_broken w s q broken_vote_req = refl
follow_broken w s q broken_heartbeat = refl

Step-stopped : {n m : Node} → Step n m → n.thread ≡ stopped → m.thread ≡ stopped
unfolding wake
Step-stopped (works w place r) h = absurd (cc)
Step-stopped (receives node size decoded) h = h
Step-stopped (reports w b) h = h
Step-stopped (seals b free) h = h
Step-stopped (wakes w b held ready) h = h

-- The engine's thread, once stopped, does not run again, whatever the other threads do.
pub Reach-stopped : {n m : Node} → Reach n m → n.thread ≡ stopped → m.thread ≡ stopped
Reach-stopped here h = h
Reach-stopped (next r st) h = Step-stopped st (Reach-stopped r h)

stops_thread : (place : Place) (flow : Flow) → flow ≡ Flow.thrown → after_round place flow ≡ stopped
unfolding after_round
stops_thread place flow e = rw e refl

popped :
    (queue : List Packet) (q : Packet) (rest : List Packet) (idle : Engine × Place × Flow)
    (handle : Packet → Engine × Place × Flow)
    → queue ≡ q ∷ rest
    → on_pop queue idle handle ≡ handle q
unfolding on_pop
popped queue q rest idle handle e = rw e refl

broken_round :
    (w : World) (s : Engine) (q : Packet)
    → IsBroken q.payload
    → is_follower s.role ≡ true
    → check_elect_timeout w s ≡ false
    → s.msg_queue ≡ q ∷ []
    → (work w s following).2 ≡ Flow.thrown
unfolding work run_as_follower_imp
broken_round w s q broken follows early queued =
    rw (follows, early)
      (ap (λ (r : Engine × Place × Flow). r.2) (popped s.msg_queue q [] _ _ queued)
        ∙ follow_broken w (pop_queue s) q broken)

abbrev of_sender : ℕ → ℕ → Payload → Packet
of_sender node i body = record { node_idx = i; node_id = node; payload = body }

received :
    (node size i : ℕ) (body : Payload) (s : Engine)
    → valid_sender s node size ≡ some i
    → on_recv node size (some (some body)) s
      ≡ record s { msg_queue = s.msg_queue ++ of_sender node i body ∷ [] }
unfolding on_recv enqueue
received node size i body s valid = rw valid refl

received_round :
    (w : World) (node size i : ℕ) (body : Payload) (s : Engine)
    → IsBroken body
    → is_follower s.role ≡ true
    → s.msg_queue ≡ []
    → valid_sender s node size ≡ some i
    → check_elect_timeout w s ≡ false
    → (work w (on_recv node size (some (some body)) s) following).2 ≡ Flow.thrown
unfolding check_elect_timeout
received_round w node size i body s broken follows empty valid early =
    rw (received node size i body s valid) (
      broken_round w _ (of_sender node i body) broken follows early
        (ap (λ (q : List Packet). q ++ of_sender node i body ∷ []) empty))

-- One packet of another miner that does not decode stops a follower for good: where the queue is
-- empty and no election is due, the packet joins the queue, the next round throws, and the engine's
-- thread does not run again, whatever the other threads do.
pub broken_packet-stops :
    (w : World) (n m : Node) (node size i : ℕ) (body : Payload)
    → IsBroken body
    → is_follower n.engine.role ≡ true
    → n.engine.msg_queue ≡ []
    → valid_sender n.engine node size ≡ some i
    → check_elect_timeout w n.engine ≡ false
    → Reach
        (round w following (record n { engine = on_recv node size (some (some body)) n.engine }))
        m
    → m.thread ≡ stopped
unfolding round
broken_packet-stops w n m node size i body broken follows empty valid early r =
    Reach-stopped r (
      stops_thread _ _
        (received_round w node size i body n.engine broken follows empty valid early))
