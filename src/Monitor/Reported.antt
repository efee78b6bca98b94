-- ===== src/Monitor/Reported.antt =====
-- internal/monitor/flood.go: one scan reports exactly the sources that hold too many connections and
-- were not reported lately.
use infrafence_agent.Base.{
  ℕ, Bool, true, false, not, Option, none, some, List, [], ◌∷◌, ◌++◌, String, if◌then◌else◌, ◌≡◌,
  refl, ap, ◌∙◌, arith, Bool-cases, Option-cases, inl, inr,
}
use infrafence_agent.Base.Dict.{Dict, lookup, retain, Distinct, lookup-retain, retain-Distinct}
use infrafence_agent.Base.Keys.{string_key}
use infrafence_agent.Base.Time.{Time, sub_gt}
use infrafence_agent.Monitor.Flood.{
  cooldown, Conn, FloodEvent, syn_flood, FloodDetector, number, count_conns, conn_signal,
  syn_signal, still_cool, scan,
}
use infrafence_agent.Monitor.Counted.{tally, count_conns-tally, count_conns-Distinct}
use infrafence_agent.Monitor.Entries.{
  reported_at, reports_of, due, reports_of-append, report_conns-due, report_conns-reported_at,
  report_conns-Distinct,
}
use mathlib.Core.List.{append-nil}

-- The connections that a scan reads.
abbrev pub read : Option (List Conn) → List Conn
read none = []
read (some conns) = conns

syn_signal-reports :
    (now : Time) (ip : String) (prev cur : Dict String ℕ) (o : Option Time)
    → reports_of ip (syn_signal now prev cur o).0 ≡ []
unfolding syn_signal
syn_signal-reports now ip [] cur o = refl
syn_signal-reports now ip (p ∷ prev) [] o = refl
syn_signal-reports now ip (p ∷ prev) (c ∷ cur) o = either _ _ _
  where
    either :
        (b : Bool) (x y : ℕ)
        → reports_of ip
            (if◌then◌else◌ {A = List FloodEvent × Option Time} b
              (syn_flood x y ∷ [], some now)
              ([], o)).0
          ≡ []
    either false x y = refl
    either true x y = refl

counted :
    (whitelists : List String) (ip : String) (conns : List Conn)
    → number (lookup ip (count_conns whitelists conns [])) ≡ tally whitelists ip conns
unfolding lookup
counted whitelists ip conns = omega (arith, count_conns-tally whitelists ip conns [])

-- The part of a scan that looks at the connections.
conn_signal_lem :
    (now : Time) (ip : String) (whitelists : List String) (conns : Option (List Conn))
    (reported : Dict String Time)
    → Distinct reported
    → (reports_of ip (conn_signal now whitelists conns reported).0
        ≡ due (tally whitelists ip (read conns)) (lookup ip reported))
      × (lookup ip (conn_signal now whitelists conns reported).1
          ≡ reported_at now (tally whitelists ip (read conns)) (lookup ip reported))
      × Distinct (conn_signal now whitelists conns reported).1
unfolding conn_signal
conn_signal_lem now ip whitelists none reported d = elim (Option-cases (lookup ip reported)) [
  | inl e ↦ rw (e) (refl, refl, d)
  | inr (t, e) ↦ rw (e) (refl, refl, d)
]
conn_signal_lem now ip whitelists (some conns) reported d =
    let counts = count_conns whitelists conns [] in
    let distinct = count_conns-Distinct whitelists conns [] tt in
    (
      report_conns-due now ip counts [] reported distinct
          ∙ ap (λ n. due n (lookup ip reported)) (counted whitelists ip conns),
      report_conns-reported_at now ip counts [] reported distinct
          ∙ ap (λ n. reported_at now n (lookup ip reported)) (counted whitelists ip conns),
      report_conns-Distinct now counts [] reported d,
    )

-- What a scan keeps of the cooldowns.
kept_cool :
    (now : Time) (ip : String) (reported : Dict String Time)
    → Distinct reported
    → lookup ip (retain (λ k t. not (sub_gt now t cooldown)) reported)
      ≡ still_cool now (lookup ip reported)
unfolding still_cool
kept_cool now ip reported d =
    lookup-retain (λ k t. not (sub_gt now t cooldown)) ip reported d ∙ cool (lookup ip reported)
  where
    cool :
        (o : Option Time)
        → elim o [ none ↦ none | some t ↦ if not (sub_gt now t cooldown) then some t else none ]
          ≡ still_cool now o
    cool none = refl
    cool (some t) = elim (Bool-cases (sub_gt now t cooldown)) [
      | inl e ↦ rw (e) refl
      | inr e ↦ rw (e) refl
    ]

-- Of each source, a scan reports the number of its connections that count, when they are at least the
-- threshold and no report of it is remembered, and nothing otherwise. A report is remembered until more
-- than the cooldown has passed. Connections that cannot be read are none.
pub scan_lem :
    (now : Time) (ip : String) (conns : Option (List Conn)) (cur : Dict String ℕ)
    (d : FloodDetector)
    → Distinct d.reported
    → (reports_of ip (scan now conns cur d).1
        ≡ due (tally d.whitelists ip (read conns)) (still_cool now (lookup ip d.reported)))
      × (lookup ip (scan now conns cur d).0.reported
          ≡ reported_at now
              (tally d.whitelists ip (read conns))
              (still_cool now (lookup ip d.reported)))
      × Distinct (scan now conns cur d).0.reported
unfolding scan
scan_lem now ip conns cur d distinct =
    let kept = retain (λ k t. not (sub_gt now t cooldown)) d.reported in
    let (events, remembered, fine) =
      conn_signal_lem now ip d.whitelists conns kept
        (retain-Distinct (λ k t. not (sub_gt now t cooldown)) d.reported distinct) in
    let cool = kept_cool now ip d.reported distinct in
    (
      reports_of-append ip (conn_signal now d.whitelists conns kept).0 _
          ∙ ap (λ l. reports_of ip (conn_signal now d.whitelists conns kept).0 ++ l)
              (syn_signal-reports now ip d.prev cur (still_cool now d.syn_reported))
          ∙ append-nil _
          ∙ events
          ∙ ap (due (tally d.whitelists ip (read conns))) cool,
      remembered ∙ ap (reported_at now (tally d.whitelists ip (read conns))) cool,
      fine,
    )
