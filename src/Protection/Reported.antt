-- ===== src/Protection/Reported.antt =====
-- cmd/infrafence-agent/protstate.go: the outbox over any sequence of its operations.
use infrafence_agent.Base.{
  ℕ, suc, ◌≤◌, ◌<◌, ◌≡◌, refl, ap, subst, sym, ◌∙◌, ◌⊎◌, Bool, true, false, not, ◌&&◌, Option, none,
  some, List, [], ◌∷◌, String, ltb, leb, if◌then◌else◌, length, is_some, arith, Bool-cases,
  Option-cases, inl, inr,
}
use infrafence_agent.Base.Dict.{
  lookup, delete, has, Distinct, length-insert, length-delete-le, length-retain-le, insert,
  insert-Distinct, delete-Distinct, retain-Distinct, lookup-retain,
}
use infrafence_agent.Base.Keys.{string_key, =?-refl}
use infrafence_agent.Protection.Outbox.{
  Pending, Outbox, max_ban_outbox, key_of, oldest_from, drop_oldest, note_local_ban,
  note_ban_reported, load_outbox, Answer, taken, rejected, failed, flush_loop, flush_local_bans,
  is_waiting, local_bans_to_keep,
}

-- No address twice, and not too many.
pub record IsOutbox (out : Outbox) : Type 0 where
  pub distinct : Distinct out
  pub within : length out ≤ max_ban_outbox

has_self : (e : String × Pending) (out : Outbox) → has e.0 (e ∷ out) ≡ true
unfolding lookup
has_self e out = ground (arith, =?-refl e.0)

has_cons :
    (k : String) (e : String × Pending) (out : Outbox) → has k out ≡ true → has k (e ∷ out) ≡ true
unfolding lookup
has_cons k e out h = ground (arith, h)

chosen :
    (b : Bool) (e found : String × Pending)
    → ((if b then e else found).0 ≡ e.0) ⊎ ((if b then e else found).0 ≡ found.0)
chosen true e found = inl refl
chosen false e found = inr refl

-- The oldest entry is one of the outbox, or the first one.
has-oldest_from :
    (found : String × Pending) (out : Outbox)
    → ((oldest_from found out).0 ≡ found.0) ⊎ (has (oldest_from found out).0 out ≡ true)
unfolding oldest_from
has-oldest_from found [] = inl refl
has-oldest_from found (e ∷ out) =
    let next = if ltb e.1.at found.1.at then e else found in
    elim (has-oldest_from next out) [
      | inr h ↦ inr (has_cons (oldest_from next out).0 e out h)
      | inl q ↦ elim (chosen (ltb e.1.at found.1.at) e found) [
        | inl c ↦ inr (subst (λ k. has k (e ∷ out) ≡ true) (sym (q ∙ c)) (has_self e out))
        | inr c ↦ inl (q ∙ c)
      ]
    ]

delete-shorter : (k : String) (m : Outbox) → has k m ≡ true → suc (length (delete k m)) ≤ length m
unfolding delete lookup
delete-shorter k [] h = cc h
delete-shorter k ((i, p) ∷ m) h = ground (arith, delete-shorter k m, length-delete-le k m)

drop_oldest-shorter : (out : Outbox) → 0 < length out → suc (length (drop_oldest out)) ≤ length out
unfolding drop_oldest lookup
drop_oldest-shorter [] h = absurd (omega (arith, h))
drop_oldest-shorter (e ∷ out) h =
    delete-shorter (oldest_from e out).0 (e ∷ out) (elim (has-oldest_from e out) [
      | inl q ↦ subst (λ k. has k (e ∷ out) ≡ true) (sym q) (has_self e out)
      | inr k ↦ has_cons (oldest_from e out).0 e out k
    ])

drop_oldest-Distinct : (out : Outbox) → Distinct out → Distinct (drop_oldest out)
unfolding drop_oldest
drop_oldest-Distinct [] d = d
drop_oldest-Distinct (e ∷ out) d = delete-Distinct (oldest_from e out).0 (e ∷ out) d

note_local_ban-IsOutbox :
    (parse : String → Option String) (out : Outbox) (ip reason : String) (count now : ℕ)
    → IsOutbox out
    → IsOutbox (note_local_ban parse out ip reason count now)
unfolding note_local_ban
note_local_ban-IsOutbox parse out ip reason count now i =
    let key = key_of parse ip in
    let p : Pending = record { ip = key; reason = reason; count = count; at = now; reported = 0 } in
    elim (Bool-cases (leb max_ban_outbox (length out))) [
      | inl t ↦ rw t (record {
        distinct = insert-Distinct key p _ (drop_oldest-Distinct out i.distinct);
        within = ground (
          arith,
          length-insert key p (drop_oldest out),
          i.within,
          drop_oldest-shorter out (ground (arith, t)),
        );
      })
      | inr t ↦ rw t (record {
        distinct = insert-Distinct key p out i.distinct;
        within = ground (arith, length-insert key p out, t);
      })
    ]

note_ban_reported-IsOutbox :
    (parse : String → Option String) (out : Outbox) (ip : String) (now : ℕ)
    → IsOutbox out
    → IsOutbox (note_ban_reported parse out ip now)
unfolding note_ban_reported
note_ban_reported-IsOutbox parse out ip now i = elim (Option-cases (lookup (key_of parse ip) out)) [
  | inl n ↦ rw (n, note_ban_reported) i
  | inr (p, q) ↦
      let p' : Pending = record p { reported = now } in
      rw (q, note_ban_reported)
        (record {
          distinct = insert-Distinct (key_of parse ip) p' out i.distinct;
          within = ground (arith, q, i.within, length-insert (key_of parse ip) p' out);
        })
]

loaded-IsOutbox :
    (ip : String) (p : Pending) (out : Outbox)
    → IsOutbox out
    → IsOutbox (if ltb (length out) max_ban_outbox then insert ip p out else out)
loaded-IsOutbox ip p out i = elim (Bool-cases (ltb (length out) max_ban_outbox)) [
  | inl t ↦ rw t (record {
    distinct = insert-Distinct ip p out i.distinct;
    within = ground (arith, t, length-insert ip p out);
  })
  | inr t ↦ rw t i
]

load_outbox-IsOutbox :
    (parse : String → Option String) (saved : List Pending) (out : Outbox)
    → IsOutbox out
    → IsOutbox (load_outbox parse saved out)
unfolding load_outbox
load_outbox-IsOutbox parse [] out i = i
load_outbox-IsOutbox parse (p ∷ saved) out i = elim (Option-cases (parse p.ip)) [
  | inl n ↦ rw (n, load_outbox) (load_outbox-IsOutbox parse saved out i)
  | inr (ip, q) ↦
      rw (q, load_outbox)
        (load_outbox-IsOutbox parse saved _ (loaded-IsOutbox ip (record p { ip = ip }) out i))
]

delete-IsOutbox : (k : String) (out : Outbox) → IsOutbox out → IsOutbox (delete k out)
delete-IsOutbox k out i = record {
  distinct = delete-Distinct k out i.distinct;
  within = omega (arith, i.within, length-delete-le k out);
}

module _ (parse : String → Option String) (in_force : String → Bool) (report : Pending → Answer)
    (now : ℕ) where
  flush_loop-IsOutbox :
      (todo : List Pending) (out : Outbox) (sent dropped : ℕ)
      → IsOutbox out
      → IsOutbox (flush_loop parse in_force report now todo (out, sent, dropped)).0
  unfolding flush_loop
  flush_loop-IsOutbox [] out sent dropped i = i
  flush_loop-IsOutbox (p ∷ todo) out sent dropped i = elim (Bool-cases (in_force p.ip)) [
    | inr f ↦
        rw f (
          flush_loop-IsOutbox todo (delete p.ip out) sent (suc dropped)
            (delete-IsOutbox p.ip out i))
    | inl f ↦ rw f (
        answered (report p)
          (flush_loop-IsOutbox todo (delete p.ip out) sent (suc dropped)
            (delete-IsOutbox p.ip out i))
          (flush_loop-IsOutbox todo (note_ban_reported parse out p.ip now) (suc sent) dropped
            (note_ban_reported-IsOutbox parse out p.ip now i)))
  ]
    where
      answered :
          (a : Answer)
          → IsOutbox
              (flush_loop parse in_force report now todo (delete p.ip out, sent, suc dropped)).0
          → IsOutbox
              (flush_loop parse in_force report now todo
                (note_ban_reported parse out p.ip now, suc sent, dropped)).0
          → IsOutbox
              (elim a as (λ x. Outbox × ℕ × ℕ) [
                | rejected ↦
                    flush_loop parse in_force report now todo (delete p.ip out, sent, suc dropped)
                | failed ↦ (out, sent, dropped)
                | taken ↦
                    flush_loop parse in_force report now todo
                      (note_ban_reported parse out p.ip now, suc sent, dropped)
              ]).0
      answered rejected j k = j
      answered failed j k = i
      answered taken j k = k

-- An operation on the outbox.
pub data Step : Type 0 where
  loading : List Pending → Step
  reporting : String → ℕ → Step
  noting : String → String → ℕ → ℕ → Step
  flushing : (String → Bool) → (Pending → Answer) → ℕ → Step
  syncing : (String → Bool) → ℕ → Step

unfoldable pub run_step : (String → Option String) → Outbox → Step → Outbox
run_step parse out (loading saved) = load_outbox parse saved out
run_step parse out (reporting ip now) = note_ban_reported parse out ip now
run_step parse out (noting ip reason count now) = note_local_ban parse out ip reason count now
run_step parse out (flushing in_force report now) =
    (flush_local_bans parse in_force report now out).0
run_step parse out (syncing listed now) = (local_bans_to_keep listed now out).0

-- The outbox after some operations, the latest first.
unfoldable pub run_steps : (String → Option String) → List Step → Outbox
run_steps parse [] = []
run_steps parse (s ∷ ss) = run_step parse (run_steps parse ss) s

-- Whatever is loaded from a saved state, noted, reported and confirmed, in any order, no address stands in the outbox twice, and it never holds
-- more than 5000 bans.
pub run_steps-IsOutbox :
    (parse : String → Option String) (ss : List Step) → IsOutbox (run_steps parse ss)
unfolding run_steps run_step flush_local_bans local_bans_to_keep
run_steps-IsOutbox parse [] = record { distinct = tt; within = omega arith }
run_steps-IsOutbox parse (loading saved ∷ ss) =
    load_outbox-IsOutbox parse saved _ (run_steps-IsOutbox parse ss)
run_steps-IsOutbox parse (reporting ip now ∷ ss) =
    note_ban_reported-IsOutbox parse _ ip now (run_steps-IsOutbox parse ss)
run_steps-IsOutbox parse (noting ip reason count now ∷ ss) =
    note_local_ban-IsOutbox parse _ ip reason count now (run_steps-IsOutbox parse ss)
run_steps-IsOutbox parse (flushing in_force report now ∷ ss) =
    flush_loop-IsOutbox parse in_force report now _ _ 0 0 (run_steps-IsOutbox parse ss)
run_steps-IsOutbox parse (syncing listed now ∷ ss) =
    let i = run_steps-IsOutbox parse ss in
    record {
      distinct = retain-Distinct _ _ i.distinct;
      within = omega (
        arith,
        i.within,
        length-retain-le (λ k p. not (listed k) && is_waiting now p) (run_steps parse ss),
      );
    }

-- A sync spares exactly the bans of the outbox that it does not list and that are not reported yet, or
-- were less than ten minutes ago, and those stay in the outbox as they are; every other ban leaves it.
pub local_bans_to_keep_lem :
    (listed : String → Bool) (now : ℕ) (out : Outbox) (ip : String)
    → Distinct out
    → let r = local_bans_to_keep listed now out in
      let kept : Option Pending = elim (lookup ip out) [
        | none ↦ none
        | some p ↦ if not (listed ip) && is_waiting now p then some p else none
      ] in
      (lookup ip r.0 ≡ kept) × (r.1 ip ≡ is_some kept)
unfolding local_bans_to_keep
local_bans_to_keep_lem listed now out ip d =
    let q = lookup-retain (λ k p. not (listed k) && is_waiting now p) ip out d in (q, ap is_some q)
