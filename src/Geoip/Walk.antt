-- ===== src/Geoip/Walk.antt =====
-- internal/geoip/mmdb.go: `walkIPv4` ends on any search tree, and reads inside the file.
use infrafence_agent.Base.{
  ℕ, zero, suc, ◌+◌, ◌*◌, ◌/◌, ◌≤◌, ◌<◌, ◌≡◌, List, [], ◌∷◌, Bool, false, Option, none, some, ltb,
  leb, ◌==◌, if◌then◌else◌, length, All, arith, Bool-cases, inl, inr,
}
use infrafence_agent.Base.Run.{Bytes, panicked, done, Returns, Returns-bind, Returns-weaken}
use infrafence_agent.Geoip.Tree.{
  Tree, u64, max_alloc, read_record, Network, Found, Item, mark, unvisited, leaf, visit, walk_stack,
  descend, walk,
}
use infrafence_agent.Geoip.Nodes.{
  Ends, length-mark, unseen, unseen-mark, unvisited_lem, get_elem?_inside, IsTree, Grown, IsItem,
  Pushed, Few, Bounded,
}
use infrafence_agent.Geoip.Steps.{visit-Pushed, read_record-Ends, leaf-Grown}

module _ (t : Tree) (fn : Network → Bool) (i : IsTree t)
    (fits : t.node_count * t.record_size / 4 ≤ length t.file) where
  walk_stack-Few :
      (fuel : ℕ) (visited : List Bool) (stack : List Item) (out : List Network)
      → length visited ≡ t.node_count
      → unseen visited < fuel
      → All (IsItem t) stack
      → length out + 2 * unseen visited ≤ 2 * t.node_count
      → Returns (Few t) (walk_stack t fn fuel visited stack out)
  unfolding walk_stack
  walk_stack-Few zero visited stack out n f a q = elim f [ ]
  walk_stack-Few (suc fuel) visited [] out n f a q = omega (arith, q)
  walk_stack-Few (suc fuel) visited (it ∷ stack) out n f a q =
      let (seen, e) = get_elem?_inside it.node visited (omega (arith, a.0.0, n)) in
      elim (Bool-cases seen) [
        | inl v ↦ rw (e, walk_stack, v) tt
        | inr v ↦
            let less = unseen-mark it.node visited (rw v at e) in
            rw (e, walk_stack, v)
              (Returns-bind (Pushed t 2 out) (Few t) (visit t fn it (stack, out)) _
                (visit-Pushed t fn i fits it stack out a.0 a.1)
                (next λ s k.
                  walk_stack-Few fuel (mark it.node visited) s.0 s.1
                    (omega (arith, n, length-mark it.node visited)) (omega (arith, f, less)) k.0
                    (omega (arith, k.1, q, less))))
      ]
    where
      next :
          ((s : List Item × List Network)
            → Pushed t 2 out (some s)
            → Returns (Few t) (walk_stack t fn fuel (mark it.node visited) s.0 s.1))
          → (o : Option (List Item × List Network)) → Pushed t 2 out o
          → Returns (Few t) (elim o [
            | none ↦ done none
            | some s ↦ walk_stack t fn fuel (mark it.node visited) s.0 s.1
          ])
      next ih none k = tt
      next ih (some s) k = ih s k

  descend-Ends : (n start : ℕ) → Ends (descend t fn n start)
  unfolding descend
  descend-Ends zero start = tt
  descend-Ends (suc n) start = elim (Bool-cases (leb t.node_count start)) [
    | inl l ↦ rw l tt
    | inr l ↦ rw l (
        Returns-bind (λ r. Unit) (λ r. Unit) (read_record t start false) _
          (read_record-Ends t fn i fits start false (ground (arith, l))) (λ r u. descend-Ends n r))
  ]

  Few-Bounded : (o : Found) → Few t o → Bounded t o
  Few-Bounded none h = tt
  Few-Bounded (some out) h = omega (arith, h)

  Grown-Bounded : (o : Found) → Grown 1 [] o → Bounded t o
  Grown-Bounded none h = tt
  Grown-Bounded (some out) h = omega (arith, h)

  started-Bounded :
      (start : ℕ)
      → Returns (Bounded t) (
          if leb t.node_count start
          then leaf t fn start 0 0 []
          else if ltb max_alloc t.node_count
          then panicked
          else walk_stack t fn
              (t.node_count + 2)
              (unvisited t.node_count)
              (record { node = start; prefix = 0; depth = 0 } ∷ [])
              [])
  started-Bounded start = elim (Bool-cases (leb t.node_count start)) [
    | inl l ↦ rw l (
        Returns-weaken (Grown 1 []) (Bounded t) (leaf t fn start 0 0 []) Grown-Bounded
          (leaf-Grown t fn i fits start 0 0 [] (omega arith)))
    | inr l ↦ elim (Bool-cases (ltb max_alloc t.node_count)) [
      | inl m ↦ absurd (ground (arith, m, small))
      | inr m ↦
          rw (l, m)
            (Returns-weaken (Few t) (Bounded t) _ Few-Bounded (
              walk_stack-Few (t.node_count + 2) (unvisited t.node_count) _ []
                (unvisited_lem t.node_count).0 (omega (arith, (unvisited_lem t.node_count).1))
                ((ground (arith, l), omega arith), tt)
                (omega (arith, (unvisited_lem t.node_count).1))))
    ]
  ]
    where
      small : t.node_count ≤ max_alloc
      small = elim i.size [
        | inl e ↦ omega (arith, rw e at fits, i.in_memory)
        | inr (inl e) ↦ omega (arith, rw e at fits, i.in_memory)
        | inr (inr e) ↦ omega (arith, rw e at fits, i.in_memory)
      ]

fitting :
    {t : Tree}
    → IsTree t
    → ltb (length t.file) (u64 (t.node_count * t.record_size) / 4) ≡ false
    → t.node_count * t.record_size / 4 ≤ length t.file
fitting i l = ground (arith, l, i.no_wrap)

-- A tree with 24, 28 or 32-bit records, of a file in memory, and with a node count whose product with
-- the record size does not wrap, is walked to the end or refused, whatever branches share nodes: every
-- read is inside the file, and at most two networks are reported for each node and one more.
pub walk-Bounded : (t : Tree) (fn : Network → Bool) (i : IsTree t) → Returns (Bounded t) (walk t fn)
unfolding walk
walk-Bounded t fn i =
    elim (Bool-cases (ltb (length t.file) (u64 (t.node_count * t.record_size) / 4))) [
      | inl l ↦ rw l tt
      | inr l ↦
          let fits : t.node_count * t.record_size / 4 ≤ length t.file = fitting i l in
          rw l (
            Returns-bind (λ r. Unit) (Bounded t)
              (descend t fn (if t.ip_version == 6 then 96 else 0) 0) _
              (descend-Ends t fn i fits (if t.ip_version == 6 then 96 else 0) 0)
              (λ start u. started-Bounded t fn i fits start))
    ]

-- A tree of 2^61 nodes with 32-bit records, which no file holds, passes the check against the file's
-- size, because the product wraps to 0, and the slice of its nodes cannot be made: the walk panics for
-- every file that states it for an IPv4 database.
pub walk_wrapped :
    (file : Bytes) (fn : Network → Bool)
    → walk
        (record { node_count = 2305843009213693952; record_size = 32; ip_version = 4; file = file })
        fn
      ≡ panicked
unfolding walk descend
walk_wrapped file fn = ground arith
