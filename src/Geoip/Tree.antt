-- ===== src/Geoip/Tree.antt =====
-- internal/geoip/mmdb.go: `walkIPv4`. The fields of the reader's metadata are the model's own record; a
-- 64-bit product keeps its wrap-around.
use infrafence_agent.Base.{
  ℕ, zero, suc, ◌+◌, ◌-◌, ◌*◌, ◌/◌, ◌%◌, ◌^◌, List, [], ◌∷◌, Bool, true, false, Option, none, some,
  ltb, leb, ◌==◌, if◌then◌else◌, length, get_elem?,
}
use infrafence_agent.Base.Run.{Bytes, Run, panicked, exhausted, done, ◌>>=◌, byte}
use Prim.Native.Nat.{bit_or}

pub record Tree : Type 0 where
  pub node_count : ℕ
  pub record_size : ℕ
  pub ip_version : ℕ
  pub file : Bytes

abbrev pub u64 : ℕ → ℕ
u64 n = n % 18446744073709551616

-- The largest slice that the runtime makes on a 64-bit machine.
abbrev pub max_alloc : ℕ
max_alloc = 281474976710656

-- Three and four bytes, the first the highest.
unfoldable pub u24 : Bytes → ℕ → Run ℕ
u24 b i = do x ← byte b i; y ← byte b (i + 1); z ← byte b (i + 2); done (x * 65536 + y * 256 + z)

unfoldable pub u32 : Bytes → ℕ → Run ℕ
u32 b i = do x ← byte b i; rest ← u24 b (i + 1); done (x * 16777216 + rest)

-- The 28-bit records of a node share the fourth of its seven bytes.
unfoldable pub u28 : Bytes → ℕ → Bool → Run ℕ
u28 b i right = do
  x ← byte b (i + 3)
  rest ← u24 b (if right then i + 4 else i)
  done ((if right then x % 16 else x / 16) * 16777216 + rest)

-- `record`.
unfoldable pub read_record : Tree → ℕ → Bool → Run ℕ
read_record t node right =
    if t.record_size == 24
    then u24 t.file (node * 6 + (if right then 3 else 0))
    else if t.record_size == 28
    then u28 t.file (node * 7) right
    else u32 t.file (node * 8 + (if right then 4 else 0))

-- A network that `fn` is called for: its first and last address, and the offset of its data.
pub record Network : Type 0 where
  pub first : ℕ
  pub last : ℕ
  pub offset : ℕ

-- An `item` of the stack.
pub record Item : Type 0 where
  pub node : ℕ
  pub prefix : ℕ
  pub depth : ℕ

-- The networks that `fn` was called for, the last one first, or an error.
abbrev pub Found : Type 0
Found = Option (List Network)

abbrev pub with_stack : List Item → Found → Option (List Item × List Network)
with_stack stack none = none
with_stack stack (some out) = some (stack, out)

-- `visited[n] = true`.
unfoldable pub mark : ℕ → List Bool → List Bool
mark n [] = []
mark zero (v ∷ vs) = true ∷ vs
mark (suc n) (v ∷ vs) = v ∷ mark n vs

-- `make([]bool, n)`.
unfoldable pub unvisited : ℕ → List Bool
unvisited zero = []
unvisited (suc n) = false ∷ unvisited n

module _ (t : Tree) (fn : Network → Bool) where
  -- `leaf`. Shifting by a negative number would panic.
  unfoldable pub leaf : ℕ → ℕ → ℕ → List Network → Run Found
  leaf rec first depth out =
      if rec == t.node_count
      then done (some out)
      else if ltb rec (u64 (t.node_count + 16))
      then done none
      else if ltb 32 depth
      then panicked
      else (let net : Network = record {
        first = first;
        last = bit_or first (2 ^ (32 - depth) - 1);
        offset = rec - t.node_count - 16;
      } in
          done (if fn net then some (net ∷ out) else none))

  -- One side of a node: its subtree goes on the stack, or its leaf is taken.
  unfoldable pub take_side :
      Item → Bool → List Item × List Network → ℕ → Run (Option (List Item × List Network))
  take_side it right (stack, out) rec =
      if ltb 31 it.depth
      then panicked
      else (let prefix = if right then bit_or it.prefix (2 ^ (31 - it.depth)) else it.prefix in
          if ltb rec t.node_count
          then if leb 32 (it.depth + 1)
            then done none
            else done
                (some (record { node = rec; prefix = prefix; depth = it.depth + 1 } ∷ stack, out))
          else (leaf rec prefix (it.depth + 1) out >>= λ o. done (with_stack stack o)))

  unfoldable pub visit_side :
      Item → Bool → List Item × List Network → Run (Option (List Item × List Network))
  visit_side it right s = read_record t it.node right >>= take_side it right s

  -- The two sides of a node, the right one first.
  unfoldable pub visit : Item → List Item × List Network → Run (Option (List Item × List Network))
  visit it s =
      visit_side it true s >>= λ o. elim o [ none ↦ done none | some s' ↦ visit_side it false s' ]

  -- The loop over the stack, with the nodes visited so far.
  unfoldable pub walk_stack : ℕ → List Bool → List Item → List Network → Run Found
  walk_stack zero visited stack out = exhausted
  walk_stack (suc fuel) visited [] out = done (some out)
  walk_stack (suc fuel) visited (it ∷ stack) out = elim (get_elem? visited it.node) [
    | none ↦ panicked
    | some true ↦ done none
    | some false ↦ visit it (stack, out) >>= λ o. elim o [
      | none ↦ done none
      | some s ↦ walk_stack fuel (mark it.node visited) s.0 s.1
    ]
  ]

  -- The steps to ::/96 in an IPv6 database, or to the leaf above it.
  unfoldable pub descend : ℕ → ℕ → Run ℕ
  descend zero start = done start
  descend (suc n) start =
      if leb t.node_count start then done start else (read_record t start false >>= descend n)

  -- `walkIPv4`. A slice of `node_count` Booleans is made once the tree is known to fit the file.
  unfoldable pub walk : Run Found
  walk =
      if ltb (length t.file) (u64 (t.node_count * t.record_size) / 4)
      then done none
      else (descend (if t.ip_version == 6 then 96 else 0) 0 >>= λ start.
          if leb t.node_count start
          then leaf start 0 0 []
          else if ltb max_alloc t.node_count
          then panicked
          else walk_stack (t.node_count + 2) (unvisited t.node_count)
              (record { node = start; prefix = 0; depth = 0 } ∷ []) [])
