-- ===== src/Raft/Config/Miners.antt =====
-- Which nodes `updateMinerList` counts as miners.
use lab_bcos.Base.{
  ℕ, ◌≡◌, refl, ◌∙◌, Bool, false, not, ◌&&◌, ◌||◌, Option, none, some, List, [], ◌∷◌, ◌++◌, inl,
  inr, arith,
}
use lab_bcos.Base.Tests.{◌==◌, ==_iff, Option-cases}
use lab_bcos.Base.Lists.{contains, IsUnique, contains-append}
use lab_bcos.Base.Int.{ℤ, lez, eqz}
use lab_bcos.Pbft.Engine.Config.{sort, insert_sorted}
use lab_bcos.Raft.Types.{Engine, World, MinerRow}
use lab_bcos.Raft.Config.{
  erase_first, enabled_node, add_miner, remove_observer, add_miners, remove_observers, read_miners,
  update_miner_list,
}

-- Does a row of the wanted type name a node, as enabled at a height?
abbrev pub is_up_to : ℤ → Option ℤ → Bool
is_up_to height none = false
is_up_to height (some n) = lez n height

abbrev pub is_node : ℕ → Option ℕ → Bool
is_node x none = false
is_node x (some id) = id == x

abbrev pub row_names : ℤ → Bool → ℕ → MinerRow → Bool
row_names height fits x row = fits && (is_up_to height row.enable_num && is_node x row.node_id)

-- The nodes that the table lists as miners, and those that it lists as observers.
abbrev pub lists_miner : ℤ → ℕ → List (Option MinerRow) → Bool
lists_miner height x [] = false
lists_miner height x (none ∷ rows) = lists_miner height x rows
lists_miner height x (some row ∷ rows) =
    row_names height row.is_miner x row || lists_miner height x rows

abbrev pub lists_observer : ℤ → ℕ → List (Option MinerRow) → Bool
lists_observer height x [] = false
lists_observer height x (none ∷ rows) = lists_observer height x rows
lists_observer height x (some row ∷ rows) =
    row_names height row.is_observer x row || lists_observer height x rows

abbrev named : ℕ → Option ℕ → Bool
named x none = false
named x (some id) = id == x

-- The node that a row gives to the loops is the one that it names.
enabled_node-names :
    (height : ℤ) (fits : Bool) (x : ℕ) (row : MinerRow) (result : Option ℕ)
    → enabled_node height fits row ≡ some result
    → named x result ≡ row_names height fits x row
unfolding enabled_node
enabled_node-names height fits x row result h = ground arith

contains-add_miner :
    (x : ℕ) (node : Option ℕ) (miners : List ℕ)
    → contains (add_miner node miners) x ≡ (contains miners x || named x node)
unfolding add_miner contains
contains-add_miner x none miners = ground arith
contains-add_miner x (some id) miners =
    ground (arith, ==_iff id x, contains-append miners (id ∷ []) x)

IsUnique-append_one :
    (id : ℕ) (xs : List ℕ) → contains xs id ≡ false → IsUnique xs → IsUnique (xs ++ id ∷ [])
unfolding contains
IsUnique-append_one id [] h u = ground arith
IsUnique-append_one id (x ∷ xs) h u =
    ground (arith, IsUnique-append_one id xs, contains-append xs (id ∷ []) x, ==_iff x id)

add_miner-IsUnique :
    (node : Option ℕ) (miners : List ℕ) → IsUnique miners → IsUnique (add_miner node miners)
unfolding add_miner
add_miner-IsUnique none miners u = u
add_miner-IsUnique (some id) miners u = ground (arith, IsUnique-append_one id miners)

contains-erase_first :
    (x a : ℕ) (xs : List ℕ)
    → IsUnique xs
    → contains (erase_first a xs) x ≡ (contains xs x && not (a == x))
unfolding contains erase_first
contains-erase_first x a [] u = refl
contains-erase_first x a (y ∷ xs) u =
    ground (arith, ==_iff y a, ==_iff y x, ==_iff a x, contains-erase_first x a xs)

erase_first-IsUnique : (a : ℕ) (xs : List ℕ) → IsUnique xs → IsUnique (erase_first a xs)
unfolding erase_first
erase_first-IsUnique a [] u = tt
erase_first-IsUnique a (y ∷ xs) u =
    ground (arith, erase_first-IsUnique a xs, contains-erase_first y a xs)

contains-remove_observer :
    (x : ℕ) (node : Option ℕ) (miners : List ℕ)
    → IsUnique miners
    → contains (remove_observer node miners) x ≡ (contains miners x && not (named x node))
unfolding remove_observer
contains-remove_observer x none miners u = ground arith
contains-remove_observer x (some id) miners u = contains-erase_first x id miners u

remove_observer-IsUnique :
    (node : Option ℕ) (miners : List ℕ) → IsUnique miners → IsUnique (remove_observer node miners)
unfolding remove_observer
remove_observer-IsUnique none miners u = u
remove_observer-IsUnique (some id) miners u = erase_first-IsUnique id miners u

add_miners_lem :
    (height : ℤ) (rows : List (Option MinerRow)) (miners : List ℕ) {found : List ℕ}
    → IsUnique miners
    → add_miners height rows miners ≡ some found
    → IsUnique found
      × ((x : ℕ) → contains found x ≡ (contains miners x || lists_miner height x rows))
unfolding add_miners
add_miners_lem height [] miners u h = (ground arith, λ x. ground arith)
add_miners_lem height (none ∷ rows) miners u h = absurd (ground arith)
add_miners_lem height (some row ∷ rows) miners {found} u h =
    elim (Option-cases (enabled_node height row.is_miner row)) [
      | inl e ↦ absurd (ground arith)
      | inr (node, e) ↦
          (let r =
              add_miners_lem height rows (add_miner node miners) {found = found}
                (add_miner-IsUnique node miners u) (ground arith) in
            (
              r.0,
              λ x. ground (
                arith,
                r.1 x,
                contains-add_miner x node miners,
                enabled_node-names height row.is_miner x row node e,
              ),
            ))
    ]

remove_observers_lem :
    (height : ℤ) (rows : List (Option MinerRow)) (miners : List ℕ) {found : List ℕ}
    → IsUnique miners
    → remove_observers height rows miners ≡ some found
    → IsUnique found
      × ((x : ℕ) → contains found x ≡ (contains miners x && not (lists_observer height x rows)))
unfolding remove_observers
remove_observers_lem height [] miners u h = (ground arith, λ x. ground arith)
remove_observers_lem height (none ∷ rows) miners u h = absurd (ground arith)
remove_observers_lem height (some row ∷ rows) miners {found} u h =
    elim (Option-cases (enabled_node height row.is_observer row)) [
      | inl e ↦ absurd (ground arith)
      | inr (node, e) ↦
          (let r =
              remove_observers_lem height rows (remove_observer node miners) {found = found}
                (remove_observer-IsUnique node miners u) (ground arith) in
            (
              r.0,
              λ x. ground (
                arith,
                r.1 x,
                contains-remove_observer x node miners u,
                enabled_node-names height row.is_observer x row node e,
              ),
            ))
    ]

-- The nodes that count as miners once the table was read: those that counted before or are listed
-- as miners, without those that are listed as observers.
abbrev pub counts_as_miner : ℤ → List (Option MinerRow) → List ℕ → ℕ → Bool
counts_as_miner height rows miners x =
    (contains miners x || lists_miner height x rows) && not (lists_observer height x rows)

read_miners_lem :
    (height : ℤ) (rows : List (Option MinerRow)) (miners : List ℕ) {found : List ℕ}
    → IsUnique miners
    → read_miners height rows miners ≡ some found
    → IsUnique found × ((x : ℕ) → contains found x ≡ counts_as_miner height rows miners x)
unfolding read_miners
read_miners_lem height rows miners {found} u h =
    elim (Option-cases (add_miners height rows miners)) [
      | inl e ↦ absurd (ground arith)
      | inr (added, e) ↦
          (let a = add_miners_lem height rows miners u e in
            let r = remove_observers_lem height rows added {found = found} a.0 (ground arith) in
            (r.0, λ x. ground (arith, r.1 x, a.1 x)))
    ]

contains-insert_sorted :
    (x a : ℕ) (xs : List ℕ) → contains (insert_sorted a xs) x ≡ (a == x || contains xs x)
unfolding contains insert_sorted
contains-insert_sorted x a [] = refl
contains-insert_sorted x a (y ∷ xs) = ground (arith, contains-insert_sorted x a xs)

contains-sort : (x : ℕ) (xs : List ℕ) → contains (sort xs) x ≡ contains xs x
unfolding contains sort
contains-sort x [] = refl
contains-sort x (y ∷ xs) = ground (arith, contains-insert_sorted x y (sort xs), contains-sort x xs)

-- The table can be read: the chain has grown, and neither loop of `updateMinerList` breaks off.
pub record CanRead (w : World) (s : Engine) (rows : List (Option MinerRow)) (found : List ℕ)
    : Type 0 where
  pub grown : eqz s.highest.number s.last_obtain_miner_num ≡ false
  pub table : w.miner_rows ≡ some rows
  pub complete : read_miners s.highest.number rows s.miner_list ≡ some found

-- Where the table of miners can be read, and no node is in the list twice, the list afterwards
-- holds exactly the nodes that were in it or are listed and enabled as miners, but not those that
-- are listed and enabled as observers; the height of the reading is kept.
pub update_miner_list_lem :
    (w : World) (s : Engine) (rows : List (Option MinerRow)) (found : List ℕ)
    → IsUnique s.miner_list
    → CanRead w s rows found
    → ((x : ℕ)
        → contains (update_miner_list w s).miner_list x
          ≡ counts_as_miner s.highest.number rows s.miner_list x)
      × ((update_miner_list w s).last_obtain_miner_num ≡ s.highest.number)
unfolding update_miner_list
update_miner_list_lem w s rows found u can =
    rw (can.grown, can.table, can.complete)
      (
        λ x.
            contains-sort x found
            ∙ (read_miners_lem s.highest.number rows s.miner_list u can.complete).1 x,
        refl,
      )
