-- ===== src/Raft/Send/Frame.antt =====
-- Sending changes nothing but the list of calls.
use lab_bcos.Base.{ℕ, ◌≡◌, refl, ◌∙◌, Bool, true, false, List, [], ◌∷◌, arith}
use lab_bcos.Base.Tests.{if◌then◌else◌}
use lab_bcos.Raft.Types.{Engine, World, Payload, Effect, emit}
use lab_bcos.Base.Dict.{is_some}
use lab_bcos.Raft.Config.{get_index_by_miner}
use lab_bcos.Raft.Send.{send_response, broadcast_loop, broadcast_msg}

-- The state with another list of calls.
abbrev pub with_out : List Effect → Engine → Engine
with_out calls s = record s { out = calls }

pub send_response_frame :
    (w : World) (node : ℕ) (p : Payload) (s : Engine)
    → send_response w node p s ≡ with_out (send_response w node p s).out s
unfolding send_response emit
send_response_frame w node p s = ground arith

with_out-emit :
    (calls : List Effect) (b : Bool) (e : Effect) (s : Engine)
    → with_out calls (if b then emit e s else s) ≡ with_out calls s
unfolding emit
with_out-emit calls true e s = refl
with_out-emit calls false e s = refl

broadcast_loop_frame :
    (p : Payload) (nodes : List ℕ) (s : Engine)
    → broadcast_loop p nodes s ≡ with_out (broadcast_loop p nodes s).out s
unfolding broadcast_loop
broadcast_loop_frame p [] s = refl
broadcast_loop_frame p (node ∷ rest) s =
    broadcast_loop_frame p rest _ ∙ with_out-emit _ (is_some (get_index_by_miner s node)) _ s

pub broadcast_msg_frame :
    (w : World) (p : Payload) (s : Engine)
    → broadcast_msg w p s ≡ with_out (broadcast_msg w p s).out s
unfolding broadcast_msg
broadcast_msg_frame w p s = broadcast_loop_frame p w.sessions s
