-- ===== src/QueueSet/Laws.antt =====
-- The queue and the set of a `QueueSet`, and what pushing and popping do to them.
use lab_bcos.Base.{
  ℕ, suc, max, ◌≡◌, refl, sym, ap, ◌∙◌, inl, inr, true, false, List, [], ◌∷◌, ◌++◌, arith,
}
use lab_bcos.Base.Tests.{◌==◌, if◌then◌else◌, ==_refl, ==_iff, Bool-cases}
use lab_bcos.Base.Lists.{
  length, contains, remove, IsUnique, contains-remove, remove_absent, contains-append,
  length-append,
}
use lab_bcos.QueueSet.{QueueSet, empty, exist, size, push, pop, pop_front}

-- The set holds the queue's items, and neither holds an item twice.
pub record IsConsistent (q : QueueSet) : Type 0 where
  pub same : (a : ℕ) → contains q.items a ≡ contains q.queue a
  pub unique : IsUnique q.queue
  pub unique_items : IsUnique q.items
  pub counted : length q.items ≡ length q.queue

length-remove :
    (a : ℕ) (xs : List ℕ)
    → IsUnique xs
    → contains xs a ≡ true
    → suc (length (remove a xs)) ≡ length xs
unfolding contains remove
length-remove a [] u h = cc
length-remove a (x ∷ xs) u h = ground (arith, length-remove a xs u.1, remove_absent x xs u.0)

remove-IsUnique : (a : ℕ) (xs : List ℕ) → IsUnique xs → IsUnique (remove a xs)
unfolding remove
remove-IsUnique a [] u = tt
remove-IsUnique a (x ∷ xs) u = ground (arith, remove-IsUnique a xs u.1, contains-remove a x xs, u.0)

append_one-IsUnique :
    (a : ℕ) (xs : List ℕ) → IsUnique xs → contains xs a ≡ false → IsUnique (xs ++ a ∷ [])
unfolding contains
append_one-IsUnique a [] u h = (refl, tt)
append_one-IsUnique a (x ∷ xs) u h =
    ground (arith, append_one-IsUnique a xs u.1, contains-append xs (a ∷ []) x, u.0)

pub empty-IsConsistent : IsConsistent empty
unfolding empty
empty-IsConsistent = record { same = λ a. refl; unique = tt; unique_items = tt; counted = refl }

push_new-IsConsistent :
    (q : QueueSet) (t : ℕ)
    → contains q.items t ≡ false
    → IsConsistent q
    → IsConsistent (record { items = t ∷ q.items; queue = q.queue ++ t ∷ [] })
unfolding contains
push_new-IsConsistent q t h c = record {
  same = λ a. ground (arith, c.same a, contains-append q.queue (t ∷ []) a);
  unique = append_one-IsUnique t q.queue c.unique (sym (c.same t) ∙ h);
  unique_items = (h, c.unique_items);
  counted = omega (arith, c.counted, length-append q.queue (t ∷ []));
}

-- Pushing keeps the set and the queue in step.
pub push-IsConsistent : (q : QueueSet) (t : ℕ) → IsConsistent q → IsConsistent (push q t).0
unfolding push
push-IsConsistent q t c = elim (Bool-cases (contains q.items t)) [
  | inl old ↦ rw old c
  | inr new ↦ rw new (push_new-IsConsistent q t new c)
]

pop_front-IsConsistent :
    (q : QueueSet) (xs : List ℕ) → q.queue ≡ xs → IsConsistent q → IsConsistent (pop_front q xs).0
unfolding pop_front contains
pop_front-IsConsistent q [] e c = c
pop_front-IsConsistent q (t ∷ rest) e c = record {
  same = λ a. same_rest a;
  unique = (rw e at c.unique).1;
  unique_items = remove-IsUnique t q.items c.unique_items;
  counted = omega (arith, length-remove t q.items c.unique_items front, c.counted, ap length e);
}
  where
    front : contains q.items t ≡ true
    front = c.same t ∙ rw e (ground (arith, ==_refl t))

    same_rest : (a : ℕ) → contains (remove t q.items) a ≡ contains rest a
    same_rest a = ground (
      arith,
      contains-remove t a q.items,
      c.same a,
      ap (λ l. contains l a) e,
      ==_iff t a,
      (rw e at c.unique).0,
    )

-- So does popping.
pub pop-IsConsistent : (q : QueueSet) → IsConsistent q → IsConsistent (pop q).0
unfolding pop
pop-IsConsistent q c = pop_front-IsConsistent q q.queue refl c

-- What was pushed is there, and the rest is as before.
pub exist-push :
    (q : QueueSet) (t a : ℕ) → exist (push q t).0 a ≡ (if t == a then true else exist q a)
unfolding push exist contains
exist-push q t a = ground (arith, ==_iff t a)

pop_front-head :
    (q : QueueSet) (xs : List ℕ)
    → q.queue ≡ xs
    → IsConsistent q
    → suc (size (pop_front q xs).0) ≡ max (size q) 1
unfolding pop_front size contains
pop_front-head q [] e c = omega (arith, c.counted, ap length e)
pop_front-head q (t ∷ rest) e c =
    omega (arith, length-remove t q.items c.unique_items front, c.counted, ap length e)
  where
    front : contains q.items t ≡ true
    front = c.same t ∙ rw e (ground (arith, ==_refl t))

-- Popping takes one item, if there is one.
pub size-pop : (q : QueueSet) → IsConsistent q → suc (size (pop q).0) ≡ max (size q) 1
unfolding pop
size-pop q c = pop_front-head q q.queue refl c

-- Pushing adds one item, unless it is there.
pub size-push :
    (q : QueueSet) (t : ℕ) → size (push q t).0 ≡ (if exist q t then size q else suc (size q))
unfolding push size exist
size-push q t = ground arith
