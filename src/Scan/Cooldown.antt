-- ===== src/Scan/Cooldown.antt =====
-- internal/scanwatch/analyzer.go: how often one address is reported.
use infrafence_agent.Base.{
  ◌+◌, ◌≤◌, ◌≡◌, refl, subst, ◌∙◌, sym, ◌⊎◌, false, Option, none, some, List, [], ◌∷◌, ◌++◌, String,
  if◌then◌else◌, arith, Bool-cases, inl, inr,
}
use infrafence_agent.Base.Dict.{Dict, lookup, insert, Distinct, lookup-insert, insert-Distinct}
use infrafence_agent.Base.Keys.{string_key, ◌=?◌, =?-cases, =?-refl}
use infrafence_agent.Base.Time.{Time, Spaced}
use infrafence_agent.Scan.Analyzer.{cooldown, Analyzer, Scan, observe_address, observe}
use infrafence_agent.Scan.Networks.{Event, attempt, pruning, run_event, run_events}
use infrafence_agent.Scan.Held.{
  Held, Kept, prune-Kept, Judged, Observed, cooling, counted, observe_address-Observed,
  observe_network-Kept,
}

-- The time of a report of an address.
abbrev pub report_of : String → Time → Option Scan → List Time
report_of k now none = []
report_of k now (some s) = if s.ip =? k then now ∷ [] else []

-- The last report of an address is remembered, or its cooldown is over.
abbrev Remembered : String → Time → List Time → Dict String Time → Type 0
Remembered k now [] rep = Unit
Remembered k now (t ∷ ts) rep =
    (lookup k rep ≡ some t) ⊎ ((lookup k rep ≡ none) × (t + cooldown ≤ now))

held_Remembered :
    (k : String) (was now : Time) (times : List Time) (before after : Dict String Time)
    → was ≤ now
    → Held now (lookup k before) (lookup k after)
    → Remembered k was times before
    → Remembered k now times after
held_Remembered k was now [] before after p h r = tt
held_Remembered k was now (t ∷ ts) before after p (inl e) (inl r) = inl (e ∙ r)
held_Remembered k was now (t ∷ ts) before after p (inl e) (inr (r, q)) =
    inr (e ∙ r, omega (arith, p, q))
held_Remembered k was now (t ∷ ts) before after p (inr (e, g)) (inl r) = inr (e, g t r)
held_Remembered k was now (t ∷ ts) before after p (inr (e, g)) (inr (r, q)) =
    inr (e, omega (arith, p, q))

-- What holds of the reports of one address, up to a time.
record Reports (k : String) (now : Time) (times : List Time) (rep : Dict String Time) : Type 0 where
  distinct : Distinct rep
  remembered : Remembered k now times rep
  spaced : Spaced cooldown times

Kept-Reports :
    (k : String) (was now : Time) (times : List Time) (before after : Dict String Time)
    → was ≤ now
    → Kept now before after
    → Reports k was times before
    → Reports k now times after
Kept-Reports k was now times before after p kept r = record {
  distinct = kept.distinct;
  remembered = held_Remembered k was now times before after p (kept.held k) r.remembered;
  spaced = r.spaced;
}

-- The last report is at least the cooldown ago.
abbrev Over : Time → List Time → Type 0
Over now [] = Unit
Over now (t ∷ ts) = t + cooldown ≤ now

over_Remembered :
    (k : String) (now : Time) (times : List Time) (rep : Dict String Time)
    → lookup k rep ≡ none
    → Over now times
    → Remembered k now times rep
over_Remembered k now [] rep l o = tt
over_Remembered k now (t ∷ ts) rep l o = inr (l, o)

over :
    (k : String) (was now : Time) (times : List Time) (rep : Dict String Time)
    → was ≤ now
    → ((t : Time) → lookup k rep ≡ some t → t + cooldown ≤ now)
    → Remembered k was times rep
    → Over now times
over k was now [] rep p g r = tt
over k was now (t ∷ ts) rep p g (inl l) = g t l
over k was now (t ∷ ts) rep p g (inr (l, q)) = omega (arith, p, q)

over-Spaced :
    (now : Time) (times : List Time)
    → Over now times
    → Spaced cooldown times
    → Spaced cooldown (now ∷ times)
over-Spaced now [] o s = tt
over-Spaced now (t ∷ ts) o s = (o, s)

held_none : (now : Time) (o o' : Option Time) → o ≡ none → Held now o o' → o' ≡ none
held_none now o o' e (inl f) = f ∙ e
held_none now o o' e (inr (f, g)) = f

-- The reports of the address that is observed.
Judged-Reports :
    (k : String) (now : Time) (times : List Time) (rep : Dict String Time)
    (r : Analyzer × Option Scan)
    → Distinct rep
    → lookup k rep ≡ none
    → Over now times
    → Spaced cooldown times
    → Judged k now rep r
    → Reports k now (report_of k now r.1 ++ times) r.0.reported
Judged-Reports k now times rep r d l o s (inl (e, f)) =
    rw (e, f)
      (record { distinct = d; remembered = over_Remembered k now times rep l o; spaced = s })
Judged-Reports k now times rep r d l o s (inr (scan, e, q, f)) =
    rw (e, f, q, =?-refl k)
      (record {
        distinct = insert-Distinct k now rep d;
        remembered = inl (lookup-insert k k now rep ∙ rw (=?-refl k) refl);
        spaced = over-Spaced now times o s;
      })

-- And those of another one.
other-Reports :
    (key k : String) (now : Time) (times : List Time) (rep : Dict String Time)
    (r : Analyzer × Option Scan)
    → (key =? k) ≡ false
    → Reports k now times rep
    → Judged key now rep r
    → Reports k now (report_of k now r.1 ++ times) r.0.reported
other-Reports key k now times rep r n i (inl (e, f)) = rw (e, f) i
other-Reports key k now times rep r n i (inr (scan, e, q, f)) =
    rw (e, f, q, n)
      (record {
        distinct = insert-Distinct key now rep i.distinct;
        remembered =
            held_Remembered k now now times rep (insert key now rep) (omega arith)
              (inl (lookup-insert key k now rep ∙ rw n refl)) i.remembered;
        spaced = i.spaced;
      })

Observed-Reports :
    (key k : String) (was now : Time) (times : List Time) (a : Analyzer)
    (r : Analyzer × Option Scan)
    → was ≤ now
    → Reports k was times a.reported
    → Observed key now a r
    → Reports k now (report_of k now r.1 ++ times) r.0.reported
Observed-Reports key k was now times a r p i (cooling e) = rw e (
    Kept-Reports k was now times a.reported a.reported p
      (record { distinct = i.distinct; held = λ j. inl refl }) i)
Observed-Reports key k was now times a r p i (counted gone before same (rep, kept, judged)) =
    elim (=?-cases key k) [
      | inl (t, q) ↦
          let free : lookup k before ≡ none = rw t at (same k) in
          let gone_k : (u : Time) → lookup k a.reported ≡ some u → u + cooldown ≤ now =
            λ u l. gone u (subst (λ j. lookup j a.reported ≡ some u) (sym q) l) in
          Judged-Reports k now times rep r kept.distinct
            (held_none now (lookup k before) (lookup k rep) free (kept.held k))
            (over k was now times a.reported p gone_k i.remembered) i.spaced
            (subst (λ j. Judged j now rep r) q judged)
      | inr (t, q) ↦
          let free : lookup k before ≡ lookup k a.reported = rw t at (same k) in
          other-Reports key k now times rep r t
            (record {
              distinct = kept.distinct;
              remembered =
                  held_Remembered k was now times a.reported rep p
                    (subst (λ o. Held now o (lookup k rep)) free (kept.held k)) i.remembered;
              spaced = i.spaced;
            })
            judged
    ]

abbrev pub time_of : Event → Time
time_of (attempt src port now) = now
time_of (pruning now) = now

-- The time of the latest event.
abbrev pub clock : List Event → Time
clock [] = 0
clock (e ∷ es) = time_of e

-- The clock does not go back; the latest event stands first.
abbrev pub InOrder : List Event → Type 0
InOrder [] = Unit
InOrder (e ∷ es) = (clock es ≤ time_of e) × InOrder es

-- The times at which an event reports an address, and those of a run, the latest first.
unfoldable pub reports : String → Analyzer → Event → List Time
reports k a (attempt src port now) = report_of k now (observe a src port now).1
reports k a (pruning now) = []

unfoldable pub report_times : String → List Event → List Time
report_times k [] = []
report_times k (e ∷ es) = reports k (run_events es) e ++ report_times k es

event-Reports :
    (k : String) (was : Time) (times : List Time) (a : Analyzer) (e : Event)
    → was ≤ time_of e
    → Reports k was times a.reported
    → Reports k (time_of e) (reports k a e ++ times) (run_event a e).reported
unfolding reports run_event observe
event-Reports k was times a (pruning now) p i =
    Kept-Reports k was now times a.reported _ p (prune-Kept a now false i.distinct) i
event-Reports k was times a (attempt src port now) p i = elim (Bool-cases src.skipped) [
  | inl s ↦
      rw (s, observe, run_event)
        (Kept-Reports k was now times a.reported a.reported p
          (record { distinct = i.distinct; held = λ j. inl refl }) i)
  | inr s ↦
      let r = observe_address a src.address port now in
      let j =
        Observed-Reports src.address k was now times a r p i
          (observe_address-Observed a src.address port now i.distinct) in
      rw (s, observe, run_event)
        (Kept-Reports k now now _ r.0.reported _ (omega arith)
          (observe_network-Kept r.0 src.network src.address port now j.distinct) j)
]

run_events-Reports :
    (k : String) (es : List Event)
    → InOrder es
    → Reports k (clock es) (report_times k es) (run_events es).reported
unfolding report_times run_events
run_events-Reports k [] o = record { distinct = tt; remembered = tt; spaced = tt }
run_events-Reports k (e ∷ es) o =
    event-Reports k (clock es) (report_times k es) (run_events es) e o.0
      (run_events-Reports k es o.1)

-- While the clock does not go back, two reports of one address are at least ten minutes apart, whatever
-- other addresses do and however often the analyzer makes room.
pub report_times-Spaced :
    (k : String) (es : List Event) → InOrder es → Spaced cooldown (report_times k es)
report_times-Spaced k es o = (run_events-Reports k es o).spaced
