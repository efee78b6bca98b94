-- ===== src/Geoip/Nodes.antt =====
-- internal/geoip/mmdb.go: the nodes of the search tree, and the marks of those visited.
use infrafence_agent.Base.{
  ℕ, zero, suc, ◌+◌, ◌*◌, ◌≤◌, ◌<◌, ◌≡◌, refl, ◌⊎◌, List, [], ◌∷◌, Bool, false, Option, none, some,
  if◌then◌else◌, length, get_elem?, All, arith,
}
use infrafence_agent.Base.Run.{Bytes, Run, Returns, Returns-bind, byte_Returns}
use infrafence_agent.Geoip.Tree.{
  Tree, max_alloc, u24, u32, u28, Network, Found, Item, mark, unvisited,
}

-- The run ends.
abbrev pub Ends : {A : Type 0} → Run A → Type 0
Ends r = Returns (λ a. Unit) r

pub u24-Ends : (b : Bytes) (i : ℕ) → i + 2 < length b → Ends (u24 b i)
unfolding u24
u24-Ends b i p =
    let (x, e) = byte_Returns b i (omega (arith, p)) in
    let (y, f) = byte_Returns b (i + 1) (omega (arith, p)) in
    let (z, g) = byte_Returns b (i + 2) p in rw (e, f, g) tt

pub u32-Ends : (b : Bytes) (i : ℕ) → i + 3 < length b → Ends (u32 b i)
unfolding u32
u32-Ends b i p =
    let (x, e) = byte_Returns b i (omega (arith, p)) in
    rw e (
      Returns-bind (λ a. Unit) (λ a. Unit) (u24 b (i + 1)) _ (u24-Ends b (i + 1) (omega (arith, p)))
        (λ a q. tt))

pub u28-Ends : (b : Bytes) (i : ℕ) (right : Bool) → i + 6 < length b → Ends (u28 b i right)
unfolding u28
u28-Ends b i right p =
    let (x, e) = byte_Returns b (i + 3) (omega (arith, p)) in
    let at = if right then i + 4 else i in
    rw e (
      Returns-bind (λ a. Unit) (λ a. Unit) (u24 b at) _ (u24-Ends b at (ground (arith, p)))
        (λ a q. tt))

pub length-mark : (n : ℕ) (vs : List Bool) → length (mark n vs) ≡ length vs
unfolding mark
length-mark n [] = refl
length-mark zero (v ∷ vs) = refl
length-mark (suc n) (v ∷ vs) = ground (arith, length-mark n vs)

-- How many nodes are not visited.
abbrev pub unseen : List Bool → ℕ
unseen [] = 0
unseen (v ∷ vs) = if v then unseen vs else suc (unseen vs)

pub unseen-mark :
    (n : ℕ) (vs : List Bool) → get_elem? vs n ≡ some false → suc (unseen (mark n vs)) ≡ unseen vs
unfolding mark
unseen-mark n [] h = cc h
unseen-mark zero (v ∷ vs) h = ground arith
unseen-mark (suc n) (v ∷ vs) h = ground (arith, unseen-mark n vs h)

pub unvisited_lem : (n : ℕ) → (length (unvisited n) ≡ n) × (unseen (unvisited n) ≡ n)
unfolding unvisited
unvisited_lem zero = (refl, refl)
unvisited_lem (suc n) = ground (arith, unvisited_lem n)

pub get_elem?_inside :
    (n : ℕ) (vs : List Bool) → n < length vs → (v : Bool) × (get_elem? vs n ≡ some v)
get_elem?_inside n [] p = elim p [ ]
get_elem?_inside zero (v ∷ vs) p = (v, refl)
get_elem?_inside (suc n) (v ∷ vs) p = get_elem?_inside n vs (omega (arith, p))

-- The tree of the file, whose metadata the reader has accepted, with a product that does not wrap.
pub record IsTree (t : Tree) : Type 0 where
  pub size : (t.record_size ≡ 24) ⊎ ((t.record_size ≡ 28) ⊎ (t.record_size ≡ 32))
  pub no_wrap : t.node_count * t.record_size < 18446744073709551616
  pub in_memory : length t.file ≤ max_alloc

-- At most `k` networks more.
abbrev pub Grown : ℕ → List Network → Found → Type 0
Grown k out none = Unit
Grown k out (some out') = length out' ≤ k + length out

-- A node of the tree at a depth of 31 at most.
abbrev pub IsItem : Tree → Item → Type 0
IsItem t it = (it.node < t.node_count) × (it.depth ≤ 31)

-- The stack is in order, and at most `k` networks are new.
abbrev pub Pushed : Tree → ℕ → List Network → Option (List Item × List Network) → Type 0
Pushed t k out none = Unit
Pushed t k out (some s) = All (IsItem t) s.0 × (length s.1 ≤ k + length out)

-- At most two networks for each node.
abbrev pub Few : Tree → Found → Type 0
Few t none = Unit
Few t (some out) = length out ≤ 2 * t.node_count

-- Two networks for each node, and one more where the tree is a single leaf.
abbrev pub Bounded : Tree → Found → Type 0
Bounded t none = Unit
Bounded t (some out) = length out ≤ 2 * t.node_count + 1
