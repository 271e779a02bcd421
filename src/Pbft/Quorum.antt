-- ===== src/Pbft/Quorum.antt =====
-- Counting voters and taking turns: `m_f`, `minValidNodes` and `getLeader`.
use lab_bcos.Base.{
  ℕ, zero, suc, ◌+◌, ◌-◌, ◌*◌, ◌%◌, ◌^◌, ◌≤◌, ◌<◌, ◌≡◌, ap, ◌∙◌, sym, Bool, true, false, ◌&&◌, inl,
  inr, arith,
}
use native.Mathlib.Nat.{mod-eq_of_lt, mod-add-mod, add-mod_right}
use lab_bcos.Base.Tests.{Bool-cases, ◌==◌, leb, if◌then◌else◌}
use lab_bcos.Base.Lists.{length}
use lab_bcos.Base.Int.{pos, ◌+ℤ◌, rem, to_u16}
use lab_bcos.Pbft.Msg.{invalid256}
use lab_bcos.Pbft.Engine.{Engine, min_valid_nodes, get_leader}
use lab_bcos.Pbft.Engine.Config.{set_counts}

-- How many of the first `n` nodes satisfy a test?
unfoldable pub count_nodes : ℕ → (ℕ → Bool) → ℕ
count_nodes zero p = 0
count_nodes (suc n) p = let rest = count_nodes n p in if p n then suc rest else rest

count_nodes_overlap :
    (n : ℕ) (p q : ℕ → Bool)
    → count_nodes n p + count_nodes n q ≤ n + count_nodes n (λ i. p i && q i)
unfolding count_nodes
count_nodes_overlap zero p q = omega arith
count_nodes_overlap (suc n) p q = ground (arith, count_nodes_overlap n p q)

counts :
    (s : Engine)
    → length s.miner_list < 2 ^ 16
    → 0 < length s.miner_list
    → let t = set_counts s in
      (t.node_num ≡ length s.miner_list)
      × (3 * t.f + 1 ≤ t.node_num)
      × (t.node_num ≤ 3 * t.f + 3)
      × (min_valid_nodes t ≡ t.node_num - t.f)
unfolding set_counts min_valid_nodes
counts s small some = (omega arith, omega arith, omega arith, omega arith)

-- After `resetConfig` has counted the miners (at least one and fewer than 2 ^ 16), two sets of at
-- least `minValidNodes` miners each share at least `m_f + 1` miners: more than the faulty ones.
pub quorums_overlap :
    (s : Engine) (p q : ℕ → Bool)
    → length s.miner_list < 2 ^ 16
    → 0 < length s.miner_list
    → min_valid_nodes (set_counts s) ≤ count_nodes (set_counts s).node_num p
    → min_valid_nodes (set_counts s) ≤ count_nodes (set_counts s).node_num q
    → suc (set_counts s).f ≤ count_nodes (set_counts s).node_num (λ i. p i && q i)
quorums_overlap s p q small some a b =
    omega (arith, counts s small some, count_nodes_overlap (set_counts s).node_num p q)

-- How many views later than sum `a` it is the turn of node `i` of `n`.
wait : ℕ → ℕ → ℕ → ℕ
wait a i n = if leb (a % n) i then i - a % n else i + n - a % n

wait-lt : (a i n : ℕ) → i < n → wait a i n < n
unfolding wait
wait-lt a i n h = grind arith

turn : (r i n : ℕ) → i < n → r < n → (r + (if leb r i then i - r else i + n - r)) % n ≡ i
turn r i n h k = elim (Bool-cases (leb r i)) [
  | inl e ↦ let d : r + (i - r) ≡ i = ground arith in rw e (ap (λ t. t % n) d ∙ mod-eq_of_lt h)
  | inr e ↦
      let d : r + (i + n - r) ≡ i + n = ground arith in
      rw e (ap (λ t. t % n) d ∙ add-mod_right i n ∙ mod-eq_of_lt h)
]

wait_turn : (a i n : ℕ) → i < n → (a + wait a i n) % n ≡ i
unfolding wait
wait_turn a i n h = sym (mod-add-mod a n (wait a i n)) ∙ turn (a % n) i n h (omega arith)

-- Is the configuration fit for choosing a leader?
pub record CanLead (s : Engine) (h : ℕ) : Type 0 where
  pub configured : s.cfg_err ≡ false
  pub trusted : s.leader_failed ≡ false
  pub sealed : (s.highest.sealer == invalid256) ≡ false
  pub number : s.highest.number ≡ pos h
  pub bounded : s.node_num < 2 ^ 16

leader_at :
    (s : Engine) (v h : ℕ)
    → 0 < s.node_num
    → CanLead s h
    → get_leader (record s { view = pos v }) ≡ (true, (v + h) % s.node_num)
unfolding get_leader
leader_at s v h some c =
    rw (c.configured, c.trusted, c.sealed)
      (unfold rem to_u16 ◌+ℤ◌ in ground (arith, c.number, c.bounded))

-- Each miner gets its turn: from any view, each index below `m_nodeNum` is the leader's within
-- fewer than `m_nodeNum` views, where the configuration holds, the leader has not failed, the
-- highest block has a sealer and a number from 0 on, and `m_nodeNum` fits 16 bits.
pub leader_rotation :
    (s : Engine) (v h i : ℕ)
    → CanLead s h
    → i < s.node_num
    → (k : ℕ) × (k < s.node_num) × (get_leader (record s { view = pos (v + k) }) ≡ (true, i))
leader_rotation s v h i c lt =
    let k = wait (v + h) i s.node_num in
    (
      k,
      wait-lt (v + h) i s.node_num lt,
      leader_at s (v + k) h (omega arith) c
          ∙ ap (λ t. (true, t % s.node_num)) (omega arith)
          ∙ ap (λ t. (true, t)) (wait_turn (v + h) i s.node_num lt),
    )

-- The leader is one of the miners: its index is below `m_nodeNum`, which is not 0.
pub leader-lt :
    (s : Engine) (v h : ℕ)
    → 0 < s.node_num
    → CanLead s h
    → (get_leader (record s { view = pos v })).1 < s.node_num
leader-lt s v h some c = rw (leader_at s v h some c) (omega arith)
