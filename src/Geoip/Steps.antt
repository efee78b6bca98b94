-- ===== src/Geoip/Steps.antt =====
-- internal/geoip/mmdb.go: one node of the search tree, and the two sides of it.
use infrafence_agent.Base.{
  ℕ, ◌+◌, ◌-◌, ◌*◌, ◌/◌, ◌^◌, ◌≤◌, ◌<◌, List, ◌∷◌, Bool, true, false, Option, none, some, ltb, leb,
  ◌==◌, if◌then◌else◌, length, All, arith, Bool-cases, inl, inr,
}
use infrafence_agent.Base.Run.{Run, panicked, exhausted, done, Returns, Returns-bind}
use Prim.Native.Nat.{bit_or}
use infrafence_agent.Geoip.Tree.{
  Tree, u64, read_record, Network, Found, Item, leaf, take_side, with_stack, visit_side, visit,
}
use infrafence_agent.Geoip.Nodes.{Ends, u24-Ends, u32-Ends, u28-Ends, IsTree, Grown, IsItem, Pushed}

module _ (t : Tree) (fn : Network → Bool) (i : IsTree t)
    (fits : t.node_count * t.record_size / 4 ≤ length t.file) where
  pub read_record-Ends :
      (node : ℕ) (right : Bool) → node < t.node_count → Ends (read_record t node right)
  unfolding read_record
  read_record-Ends node right p = elim i.size [
    | inl e ↦ rw e (u24-Ends t.file _ (ground (arith, p, rw e at fits)))
    | inr (inl e) ↦ rw e (u28-Ends t.file (node * 7) right (ground (arith, p, rw e at fits)))
    | inr (inr e) ↦ rw e (u32-Ends t.file _ (ground (arith, p, rw e at fits)))
  ]

  pub leaf-Grown :
      (rec first depth : ℕ) (out : List Network)
      → depth ≤ 32
      → Returns (Grown 1 out) (leaf t fn rec first depth out)
  unfolding leaf
  leaf-Grown rec first depth out p = elim (Bool-cases (rec == t.node_count)) [
    | inl e ↦ rw e (omega arith)
    | inr e ↦ elim (Bool-cases (ltb rec (u64 (t.node_count + 16)))) [
      | inl l ↦ rw (e, l) tt
      | inr l ↦ elim (Bool-cases (ltb 32 depth)) [
        | inl d ↦ absurd (ground (arith, d, p))
        | inr d ↦ rw (e, l, d) (taken _)
      ]
    ]
  ]
    where
      taken : (net : Network) → Grown 1 out (if fn net then some (net ∷ out) else none)
      taken net = elim (Bool-cases (fn net)) [ inl f ↦ rw f (omega arith) | inr f ↦ rw f tt ]

  with_stack-Pushed :
      (stack : List Item) (out : List Network) (o : Found)
      → All (IsItem t) stack
      → Grown 1 out o
      → Pushed t 1 out (with_stack stack o)
  with_stack-Pushed stack out none a g = tt
  with_stack-Pushed stack out (some out') a g = (a, g)

  take_side-Pushed :
      (it : Item) (right : Bool) (stack : List Item) (out : List Network) (rec : ℕ)
      → IsItem t it
      → All (IsItem t) stack
      → Returns (Pushed t 1 out) (take_side t fn it right (stack, out) rec)
  unfolding take_side
  take_side-Pushed it right stack out rec p a = elim (Bool-cases (ltb 31 it.depth)) [
    | inl d ↦ absurd (ground (arith, d, p.1))
    | inr d ↦ elim (Bool-cases (ltb rec t.node_count)) [
      | inl l ↦ elim (Bool-cases (leb 32 (it.depth + 1))) [
        | inl k ↦ rw (d, l, k) tt
        | inr k ↦ rw (d, l, k) (((ground (arith, l), ground (arith, k)), a), omega arith)
      ]
      | inr l ↦
          let prefix = if right then bit_or it.prefix (2 ^ (31 - it.depth)) else it.prefix in
          rw (d, l)
            (Returns-bind (Grown 1 out) (Pushed t 1 out) (leaf t fn rec prefix (it.depth + 1) out) _
              (leaf-Grown rec prefix (it.depth + 1) out (omega (arith, p.1)))
              (λ o g. with_stack-Pushed stack out o a g))
    ]
  ]

  visit_side-Pushed :
      (it : Item) (right : Bool) (stack : List Item) (out : List Network)
      → IsItem t it
      → All (IsItem t) stack
      → Returns (Pushed t 1 out) (visit_side t fn it right (stack, out))
  unfolding visit_side
  visit_side-Pushed it right stack out p a =
      Returns-bind (λ r. Unit) (Pushed t 1 out) (read_record t it.node right) _
        (read_record-Ends it.node right p.0) (λ rec u. take_side-Pushed it right stack out rec p a)

  pub visit-Pushed :
      (it : Item) (stack : List Item) (out : List Network)
      → IsItem t it
      → All (IsItem t) stack
      → Returns (Pushed t 2 out) (visit t fn it (stack, out))
  unfolding visit
  visit-Pushed it stack out p a =
      Returns-bind (Pushed t 1 out) (Pushed t 2 out) (visit_side t fn it true (stack, out)) _
        (visit_side-Pushed it true stack out p a) other
    where
      more :
          (out' : List Network)
          → length out' ≤ 1 + length out
          → (o : Option (List Item × List Network)) → Pushed t 1 out' o
          → Pushed t 2 out o
      more out' q none g = tt
      more out' q (some s) g = (g.0, omega (arith, q, g.1))

      returned :
          (out' : List Network)
          → length out' ≤ 1 + length out
          → (r : Run (Option (List Item × List Network))) → Returns (Pushed t 1 out') r
          → Returns (Pushed t 2 out) r
      returned out' q panicked g = g
      returned out' q exhausted g = g
      returned out' q (done o) g = more out' q o g

      other :
          (o : Option (List Item × List Network))
          → Pushed t 1 out o
          → Returns
              (Pushed t 2 out)
              (elim o [ none ↦ done none | some s' ↦ visit_side t fn it false s' ])
      other none g = tt
      other (some (stack', out')) g =
          returned out' g.1 _ (visit_side-Pushed it false stack' out' p g.0)
