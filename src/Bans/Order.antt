-- ===== src/Bans/Order.antt =====
-- internal/firewall/bans.go: the order of eviction, and lists of bans without repeated addresses.
use infrafence_agent.Base.{
  suc, ◌+◌, Bool, true, false, none, some, List, [], ◌∷◌, String, if◌then◌else◌, length, select,
  All, ◌≡◌, refl, arith, Bool-cases, inl, inr,
}
use infrafence_agent.Base.Dict.{lookup, delete, Distinct, lookup-delete, delete-Distinct}
use infrafence_agent.Base.Keys.{string_key, =?-cases, =?-refl}
use infrafence_agent.Base.Sort.{In}
use infrafence_agent.Base.Text.{codes, lex_lt_asym, lex_lt_ordered}
use infrafence_agent.Bans.Registry.{Entry, Bans, goes_first, member, delete_all, addresses}

pub goes_first_asym : (x y : String × Entry) → goes_first x y ≡ true → goes_first y x ≡ false
unfolding goes_first
goes_first_asym (i, x) (j, y) h = ground (arith, lex_lt_asym (codes i) (codes j))

pub goes_first_ordered :
    (x y z : String × Entry)
    → goes_first y x ≡ false
    → goes_first z y ≡ false
    → goes_first z x ≡ false
unfolding goes_first
goes_first_ordered (i, x) (j, y) (k, z) h g =
    ground (arith, lex_lt_ordered (codes i) (codes j) (codes k))

pub lookup-delete_all :
    (j : String) (ks : List String) (m : Bans)
    → lookup j (delete_all ks m) ≡ (if member j ks then none else lookup j m)
unfolding delete_all
lookup-delete_all j [] m = refl
lookup-delete_all j (k ∷ ks) m =
    ground (arith, lookup-delete_all j ks (delete k m), lookup-delete k j m)

pub delete_all-Distinct : (ks : List String) (m : Bans) → Distinct m → Distinct (delete_all ks m)
unfolding delete_all
delete_all-Distinct [] m d = d
delete_all-Distinct (k ∷ ks) m d = delete_all-Distinct ks (delete k m) (delete-Distinct k m d)

delete_fresh : (k : String) (m : Bans) → lookup k m ≡ none → delete k m ≡ m
unfolding lookup delete
delete_fresh k [] h = refl
delete_fresh k ((i, w) ∷ m) h = ground (arith, delete_fresh k m)

length-delete :
    (k : String) (m : Bans) (v : Entry)
    → Distinct m
    → lookup k m ≡ some v
    → suc (length (delete k m)) ≡ length m
unfolding lookup delete
length-delete k [] v d h = cc
length-delete k ((i, w) ∷ m) v d h = elim (=?-cases i k) [
  | inl (t, e) ↦ rw t (let same : delete k m ≡ m = delete_fresh k m (rw e at d.0) in rw same)
  | inr (f, n) ↦ rw f (omega (arith, length-delete k m v d.1 (rw f at h)))
]

-- Each entry of the list is the registry's own.
abbrev pub Present : Bans → List (String × Entry) → Type 0
Present m es = All (λ e. lookup e.0 m ≡ some e.1) es

Present-delete :
    (k : String) (m : Bans) (es : Bans)
    → lookup k es ≡ none
    → Present m es
    → Present (delete k m) es
unfolding lookup
Present-delete k m [] f p = tt
Present-delete k m ((i, v) ∷ es) f p = elim (=?-cases i k) [
  | inl (t, e) ↦ cc (rw t at f)
  | inr (t, n) ↦ (
    ground (arith, lookup-delete k i m, string_key.beq_iff i k, string_key.beq_iff k i),
    Present-delete k m es (rw t at f) p.1,
  )
]

pub length-delete_all :
    (es : Bans) (m : Bans)
    → Distinct m
    → Distinct es
    → Present m es
    → length (delete_all (addresses es) m) + length es ≡ length m
unfolding delete_all
length-delete_all [] m d e p = omega arith
length-delete_all ((k, v) ∷ es) m d e p = omega (
  arith,
  length-delete_all es (delete k m) (delete-Distinct k m d) e.1 (Present-delete k m es e.0 p.1),
  length-delete k m v d p.0,
)

Present-cons :
    (k : String) (v : Entry) (m es : Bans)
    → lookup k m ≡ none
    → Present m es
    → Present ((k, v) ∷ m) es
unfolding lookup
Present-cons k v m [] f p = tt
Present-cons k v m ((i, w) ∷ es) f p =
    (ground (arith, string_key.beq_iff k i), Present-cons k v m es f p.1)

pub held_itself : (m : Bans) → Distinct m → Present m m
unfolding lookup
held_itself [] d = tt
held_itself ((k, v) ∷ m) d =
    (ground (arith, =?-refl k), Present-cons k v m m d.0 (held_itself m d.1))

pub In-lookup : (k : String) (v : Entry) (m : Bans) → lookup k m ≡ some v → In (k, v) m
unfolding lookup
In-lookup k v [] h = cc
In-lookup k v ((i, w) ∷ m) h = elim (=?-cases i k) [
  | inl (t, e) ↦ inl (let q : some w ≡ some v = rw t at h in ground arith)
  | inr (t, n) ↦ inr (In-lookup k v m (rw t at h))
]

pub In-select :
    (p : String × Entry → Bool) (e : String × Entry) (m : Bans)
    → In e m
    → p e ≡ true
    → In e (select p m)
In-select p e [] h t = h
In-select p e (f ∷ m) (inl q) t = ground (arith, q, t)
In-select p e (f ∷ m) (inr h) t = elim (Bool-cases (p f)) [
  | inl u ↦ rw u (inr (In-select p e m h t))
  | inr u ↦ rw u (In-select p e m h t)
]

pub All-select :
    (P : String × Entry → Type 0) (p : String × Entry → Bool) (m : Bans)
    → ((e : String × Entry) → p e ≡ true → P e)
    → All P (select p m)
All-select P p [] f = tt
All-select P p (e ∷ m) f = elim (Bool-cases (p e)) [
  | inl t ↦ rw t (f e t, All-select P p m f)
  | inr t ↦ rw t (All-select P p m f)
]

pub All-select_of :
    (P : String × Entry → Type 0) (p : String × Entry → Bool) (m : Bans)
    → All P m
    → All P (select p m)
All-select_of P p [] a = tt
All-select_of P p (e ∷ m) a = elim (Bool-cases (p e)) [
  | inl t ↦ rw t (a.0, All-select_of P p m a.1)
  | inr t ↦ rw t (All-select_of P p m a.1)
]
