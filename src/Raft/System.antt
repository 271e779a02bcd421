-- ===== src/Raft/System.antt =====
-- A node with the threads that call the Raft engine: its own, the network's, the one of block
-- synchronisation and the sealer's. Each step is what a thread does between two waits; the engine's
-- own thread takes one round of a loop at a time.
pub mod Coherent
pub mod Stopped
use lab_bcos.Base.{ℕ, ◌≡◌, Bool, true, false, Option, none, some}
use lab_bcos.Pbft.Msg.{Block}
use lab_bcos.Raft.Types.{Engine, World, Flow, Payload}
use lab_bcos.Raft.Save.{report_block}
use lab_bcos.Raft.Loop.{Place, top, on_recv, work}
use lab_bcos.Raft.Commit.{commit_start, commit_finish}
use Flow.{returned, thrown, deadlocked}

-- The engine's thread: in a loop, stopped by an exception (`Worker` ends its work then), or waiting
-- for a mutex that it holds.
pub data Thread : Type 0 where
  runs : Place → Thread
  stopped stuck : Thread

-- `sealing` is the block with which the sealer's thread waits in `commit`.
pub record Node : Type 0 where
  pub engine : Engine
  pub thread : Thread
  pub sealing : Option Block

unfoldable pub after_round : Place → Flow → Thread
after_round place returned = runs place
after_round place thrown = stopped
after_round place deadlocked = stuck

-- A round of the engine's thread.
unfoldable pub round : World → Place → Node → Node
round w place n =
    let (t, next, flow) = work w n.engine place in
    record n { engine = t; thread = after_round next flow }

-- What the sealer's thread does when `commit` goes on.
unfoldable pub wake : World → Block → Node → Node
wake w b n = record n { engine = (commit_finish w b n.engine).0; sealing = none }

-- The steps of a node.
pub data Step (n : Node) : Node → Type 0 where
  works : (w : World) (place : Place) → n.thread ≡ runs place → Step n (round w place n)
  receives :
      (node size : ℕ) (decoded : Option (Option Payload))
      → Step n (record n { engine = on_recv node size decoded n.engine })
  reports : (w : World) (b : Block) → Step n (record n { engine = report_block w n.engine b })
  seals :
      (b : Block)
      → n.sealing ≡ none
      → Step n (record n { engine = commit_start b n.engine; sealing = some b })
  wakes :
      (w : World) (b : Block)
      → n.sealing ≡ some b
      → n.engine.commit_ready ≡ true
      → Step n (wake w b n)

-- What a node gets to by steps.
pub data Reach (n : Node) : Node → Type 0 where
  here : Reach n n
  next : {t u : Node} → Reach n t → Step t u → Reach n u
