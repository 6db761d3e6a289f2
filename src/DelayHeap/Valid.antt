-- ===== src/DelayHeap/Valid.antt =====
-- The invariant of DelayHeap, and what it is to a client: a finite map from ids to nodes and times.
use eth2_validator.Base.{
  ℕ, zero, suc, ◌<◌, ◌≡◌, ◌≢◌, refl, sym, ap, ◌∙◌, false, String, Option, none, some, arith,
  string_eq, Option-cases, inl, inr,
}
use eth2_validator.GoMap
use eth2_validator.GoMap.{Map}
use eth2_validator.DelayHeap.{DelayHeap, new}
use eth2_validator.DelayHeap.Nodes.{Time, HeapNode, DelayedHeapImp, len, less_time, empty}
use eth2_validator.DelayHeap.Moves.{
  wait, Holds, IsTracked, SameNodes, not-less_time_trans, less_time_irrefl,
}
use eth2_validator.DelayHeap.Order.{IsHeap}
use eth2_validator.DelayHeap.Sift.{parent}

module _ {ℓ} {A : Type ℓ} ⦃node : HeapNode A⦄ where
  -- The map `index` leads from each id to the pointer of the node with that id, for the nodes of
  -- the slice and no others.
  pub record IsLinked (index : Map String ℕ) (h : DelayedHeapImp A) : Type 0 where
    pub allocated : (p : ℕ) → Holds h p → p < h.fresh
    pub indexed : (p : ℕ) → Holds h p → GoMap.lookup (node.id (h.store p).node) index ≡ some p
    pub held : (k : String) (p : ℕ) → GoMap.lookup k index ≡ some p → Holds h p
    pub named : (k : String) (p : ℕ) → GoMap.lookup k index ≡ some p → node.id (h.store p).node ≡ k

  pub record IsValid (d : DelayHeap A) : Type 0 where
    pub heap_ordered : IsHeap (len d.heap) d.heap
    pub tracked : IsTracked d.heap
    pub linked : IsLinked d.index d.heap

  -- The node and the time under an id.
  abbrev pub entry_at : DelayedHeapImp A → Option ℕ → Option (A × Time)
  entry_at h none = none
  entry_at h (some p) = some ((h.store p).node, (h.store p).wait_until)

  unfoldable pub entry : DelayHeap A → String → Option (A × Time)
  entry d k = entry_at d.heap (GoMap.lookup k d.index)

  pub IsLinked-SameNodes :
      {index : Map String ℕ} {h h' : DelayedHeapImp A}
      → IsLinked index h
      → SameNodes h h'
      → IsLinked index h'
  IsLinked-SameNodes {index} {h} {h'} l s = record {
    allocated = λ p k. omega (arith, l.allocated p (s.only p k), s.fresh);
    indexed = λ p k. rw (s.nodes p) (l.indexed p (s.only p k));
    held = λ k p e. s.kept p (l.held k p e);
    named = λ k p e. ap node.id (s.nodes p) ∙ l.named k p e;
  }

  pub entry_at-SameNodes :
      (h h' : DelayedHeapImp A) (o : Option ℕ) → SameNodes h h' → entry_at h' o ≡ entry_at h o
  entry_at-SameNodes h h' none s = refl
  entry_at-SameNodes h h' (some p) s = rw (s.nodes p, s.waits p)

  -- The root is due first.
  root_first :
      (k : ℕ) (h : DelayedHeapImp A) (i : ℕ)
      → IsHeap (len h) h
      → i < k
      → i < len h
      → less_time (wait h i) (wait h 0) ≡ false
  root_first zero h i o f p = absurd (omega arith)
  root_first (suc k) h zero o f p = less_time_irrefl (wait h 0)
  root_first (suc k) h (suc i) o f p =
      not-less_time_trans (wait h 0) (wait h (parent (suc i))) (wait h (suc i))
        (root_first k h (parent (suc i)) o (omega arith) (omega arith)) (o (suc i) (omega arith) p)

  pub root_least :
      (h : DelayedHeapImp A) (i : ℕ)
      → IsHeap (len h) h
      → i < len h
      → less_time (wait h i) (wait h 0) ≡ false
  root_least h i o p = root_first (suc i) h i o (omega arith) p

  -- A new heap is valid and holds nothing.
  pub new-IsValid : IsValid new × ((k : String) → entry new k ≡ none)
  unfolding new entry GoMap.lookup len empty
  new-IsValid = (
    record {
      heap_ordered = λ c p q. absurd (omega arith);
      tracked = λ c p. absurd (omega arith);
      linked = record {
        allocated = λ p (i, hi, e). absurd (omega arith);
        indexed = λ p (i, hi, e). absurd (omega arith);
        held = λ k p e. cc;
        named = λ k p e. cc;
      };
    },
    λ k. refl,
  )

  -- An entry is found under its own id only.
  pub entry-id :
      (d : DelayHeap A) (k : String) (x : A) (t : Time)
      → IsValid d
      → entry d k ≡ some (x, t)
      → node.id x ≡ k
  unfolding entry
  entry-id d k x t v e = elim (Option-cases (GoMap.lookup k d.index)) [
    | inl missing ↦ absurd (ground (arith, missing))
    | inr (p, found) ↦
        let at : some ((d.heap.store p).node, (d.heap.store p).wait_until) ≡ some (x, t) =
          ap (entry_at d.heap) (sym found) ∙ e in
        ap (λ o. entry_id o k) (sym at) ∙ v.linked.named k p found
  ]
    where
      entry_id : Option (A × Time) → String → String
      entry_id none j = j
      entry_id (some (y, _)) j = node.id y

  pub entry-held :
      (d : DelayHeap A) (k : String) (e : A × Time)
      → entry d k ≡ some e
      → GoMap.lookup k d.index ≢ none
  unfolding entry
  entry-held d k e h missing = ground (arith, missing)
