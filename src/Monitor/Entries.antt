-- ===== src/Monitor/Entries.antt =====
-- internal/monitor/flood.go: the loop over the counts, and what it makes of each source.
use infrafence_agent.Base.{
  ℕ, Bool, true, false, not, ◌&&◌, Option, none, some, List, [], ◌∷◌, ◌++◌, String, ltb,
  if◌then◌else◌, is_some, ◌≡◌, refl, ap, subst, ◌∙◌, sym, arith, Bool-cases, Option-cases, inl, inr,
}
use infrafence_agent.Base.Dict.{Dict, lookup, insert, has, Distinct, lookup-insert, insert-Distinct}
use infrafence_agent.Base.Keys.{string_key, ◌=?◌, =?-cases}
use infrafence_agent.Base.Time.{Time}
use infrafence_agent.Monitor.Flood.{
  conn_threshold, FloodEvent, connection_flood, syn_flood, number, report_conns,
}
use mathlib.Core.List.{append_assoc, append-nil}

-- The last report of a source after a scan.
abbrev pub reported_at : Time → ℕ → Option Time → Option Time
reported_at now n (some t) = some t
reported_at now n none = if ltb n conn_threshold then none else some now

-- The events of a scan on a source.
abbrev pub reports_of : String → List FloodEvent → List ℕ
reports_of ip [] = []
reports_of ip (connection_flood j n ∷ es) =
    if j =? ip then n ∷ reports_of ip es else reports_of ip es
reports_of ip (syn_flood c d ∷ es) = reports_of ip es

abbrev pub due : ℕ → Option Time → List ℕ
due n (some t) = []
due n none = if ltb n conn_threshold then [] else n ∷ []

pub reports_of-append :
    (ip : String) (es fs : List FloodEvent)
    → reports_of ip (es ++ fs) ≡ reports_of ip es ++ reports_of ip fs
reports_of-append ip [] fs = refl
reports_of-append ip (connection_flood j n ∷ es) fs = ground (arith, reports_of-append ip es fs)
reports_of-append ip (syn_flood c d ∷ es) fs = reports_of-append ip es fs

-- The count is enough and the source was not reported lately.
abbrev pub fires : String → ℕ → Dict String Time → Bool
fires ip n reported = not (ltb n conn_threshold) && not (has ip reported)

step_event_by :
    (ip j : String) (n : ℕ) (es : List FloodEvent) (b : Bool)
    → reports_of ip (if b then es ++ connection_flood j n ∷ [] else es)
      ≡ reports_of ip es ++ (if (j =? ip) && b then n ∷ [] else [])
step_event_by ip j n es false = elim (Bool-cases (j =? ip)) [
  | inl f ↦ rw (f) (sym (append-nil (reports_of ip es)))
  | inr f ↦ rw (f) (sym (append-nil (reports_of ip es)))
]
step_event_by ip j n es true = elim (Bool-cases (j =? ip)) [
  | inl f ↦ rw (reports_of-append ip es (connection_flood j n ∷ []), f) refl
  | inr f ↦ rw (reports_of-append ip es (connection_flood j n ∷ []), f) refl
]

-- The event of one entry of the counts.
step_events :
    (ip j : String) (n : ℕ) (es : List FloodEvent) (reported : Dict String Time)
    → reports_of ip (if fires j n reported then es ++ connection_flood j n ∷ [] else es)
      ≡ reports_of ip es ++ (if (j =? ip) && fires j n reported then n ∷ [] else [])
step_events ip j n es reported = step_event_by ip j n es (fires j n reported)

step_reported :
    (now : Time) (ip j : String) (n : ℕ) (reported : Dict String Time)
    → lookup ip (if fires j n reported then insert j now reported else reported)
      ≡ (if (j =? ip) && fires j n reported then some now else lookup ip reported)
step_reported now ip j n reported = ground (arith, lookup-insert j ip now reported)

-- An entry of a source is the only one of that source, so what is left changes nothing.
due_hit :
    (now : Time) (n : ℕ) (o : Option Time)
    → (if not (ltb n conn_threshold) && not (is_some o) then n ∷ [] else [])
        ++ due 0 (if not (ltb n conn_threshold) && not (is_some o) then some now else o)
      ≡ due n o
due_hit now n none = elim (Bool-cases (ltb n conn_threshold)) [
  | inl f ↦ rw (f) refl
  | inr f ↦ rw (f) refl
]
due_hit now n (some t) = elim (Bool-cases (ltb n conn_threshold)) [
  | inl f ↦ rw (f) refl
  | inr f ↦ rw (f) refl
]

reported_at_hit :
    (now : Time) (n : ℕ) (o : Option Time)
    → reported_at now 0 (if not (ltb n conn_threshold) && not (is_some o) then some now else o)
      ≡ reported_at now n o
reported_at_hit now n none = elim (Bool-cases (ltb n conn_threshold)) [
  | inl f ↦ rw (f) refl
  | inr f ↦ rw (f) refl
]
reported_at_hit now n (some t) = elim (Bool-cases (ltb n conn_threshold)) [
  | inl f ↦ rw (f) refl
  | inr f ↦ rw (f) refl
]

-- One entry of the counts, and the others after it.
due_step :
    (now : Time) (ip j : String) (n : ℕ) (m : Dict String ℕ) (reported : Dict String Time)
    → lookup j m ≡ none
    → (if (j =? ip) && fires j n reported then n ∷ [] else [])
        ++ due
            (number (lookup ip m))
            (if (j =? ip) && fires j n reported then some now else lookup ip reported)
      ≡ due (number (if j =? ip then some n else lookup ip m)) (lookup ip reported)
due_step now ip j n m reported free = elim (=?-cases j ip) [
  | inl (t, q) ↦
      rw
        (
          t,
          subst (λ k. lookup k m ≡ none) q free,
          subst (λ k. fires j n reported ≡ fires k n reported) q refl,
        )
        (due_hit now n (lookup ip reported))
  | inr (f, q) ↦ rw (f) refl
]

reported_at_step :
    (now : Time) (ip j : String) (n : ℕ) (m : Dict String ℕ) (reported : Dict String Time)
    → lookup j m ≡ none
    → reported_at now
        (number (lookup ip m))
        (if (j =? ip) && fires j n reported then some now else lookup ip reported)
      ≡ reported_at now (number (if j =? ip then some n else lookup ip m)) (lookup ip reported)
reported_at_step now ip j n m reported free = elim (=?-cases j ip) [
  | inl (t, q) ↦
      rw
        (
          t,
          subst (λ k. lookup k m ≡ none) q free,
          subst (λ k. fires j n reported ≡ fires k n reported) q refl,
        )
        (reported_at_hit now n (lookup ip reported))
  | inr (f, q) ↦ rw (f) refl
]

pub report_conns-due :
    (now : Time) (ip : String) (m : Dict String ℕ) (es : List FloodEvent)
    (reported : Dict String Time)
    → Distinct m
    → reports_of ip (report_conns now m es reported).0
      ≡ reports_of ip es ++ due (number (lookup ip m)) (lookup ip reported)
unfolding report_conns lookup
report_conns-due now ip [] es reported d = elim (Option-cases (lookup ip reported)) [
  | inl e ↦ rw (e) (sym (append-nil (reports_of ip es)))
  | inr (t, e) ↦ rw (e) (sym (append-nil (reports_of ip es)))
]
report_conns-due now ip ((j, n) ∷ m) es reported d =
    report_conns-due now ip m (if fires j n reported then es ++ connection_flood j n ∷ [] else es)
      (if fires j n reported then insert j now reported else reported) d.1
    ∙ (λ i.
        step_events ip j n es reported i
        ++ due (number (lookup ip m)) (step_reported now ip j n reported i))
    ∙ append_assoc (reports_of ip es) (if (j =? ip) && fires j n reported then n ∷ [] else []) _
    ∙ ap (λ l. reports_of ip es ++ l) (due_step now ip j n m reported d.0)

pub report_conns-reported_at :
    (now : Time) (ip : String) (m : Dict String ℕ) (es : List FloodEvent)
    (reported : Dict String Time)
    → Distinct m
    → lookup ip (report_conns now m es reported).1
      ≡ reported_at now (number (lookup ip m)) (lookup ip reported)
unfolding report_conns lookup
report_conns-reported_at now ip [] es reported d = elim (Option-cases (lookup ip reported)) [
  | inl e ↦ rw (e) refl
  | inr (t, e) ↦ rw (e) refl
]
report_conns-reported_at now ip ((j, n) ∷ m) es reported d =
    report_conns-reported_at now ip m
      (if fires j n reported then es ++ connection_flood j n ∷ [] else es)
      (if fires j n reported then insert j now reported else reported) d.1
    ∙ ap (reported_at now (number (lookup ip m))) (step_reported now ip j n reported)
    ∙ reported_at_step now ip j n m reported d.0

pub report_conns-Distinct :
    (now : Time) (m : Dict String ℕ) (es : List FloodEvent) (reported : Dict String Time)
    → Distinct reported
    → Distinct (report_conns now m es reported).1
unfolding report_conns
report_conns-Distinct now [] es reported d = d
report_conns-Distinct now ((j, n) ∷ m) es reported d =
    report_conns-Distinct now m (if fires j n reported then es ++ connection_flood j n ∷ [] else es)
      (if fires j n reported then insert j now reported else reported)
      (started (fires j n reported))
  where
    started : (b : Bool) → Distinct (if b then insert j now reported else reported)
    started false = d
    started true = insert-Distinct j now reported d
