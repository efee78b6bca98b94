-- ===== src/Protection/Evictions.antt =====
-- cmd/infrafence-agent/protstate.go: `evictionReporter`, which warns of bans that made room.
use infrafence_agent.Base.{
  ℕ, ◌+◌, ◌*◌, ◌<◌, ◌≡◌, refl, false, not, ◌&&◌, Option, none, some, List, [], ◌∷◌, if◌then◌else◌,
  arith, Bool-cases, inl, inr,
}
use infrafence_agent.Base.Time.{Time, Duration, minute, is_zero, sub_lt, Spaced}

abbrev pub eviction_report_every : Duration
eviction_report_every = 10 * minute

-- `evictionReporter`, less its lock and its functions.
pub record Reporter : Type 0 where
  pub last : Time
  pub pending : ℕ

-- `evicted`: the reporter, and how many evictions the warning counts if it is sent.
unfoldable pub evicted : Reporter → ℕ → Time → Reporter × Option ℕ
evicted r n now =
    if not (is_zero r.last) && sub_lt now r.last eviction_report_every
    then (record r { pending = r.pending + n }, none)
    else (record { last = now; pending = 0 }, some (r.pending + n))

-- The evictions, each with its time, the latest first.
abbrev pub History : Type 0
History = List (ℕ × Time)

abbrev pub total : History → ℕ
total [] = 0
total (e ∷ es) = e.0 + total es

abbrev pub with_report : Time → Option ℕ → History → History
with_report now none es = es
with_report now (some n) es = (n, now) ∷ es

-- The reporter after them, and what it has reported.
unfoldable pub report_all : History → Reporter × History
report_all [] = (record { last = 0; pending = 0 }, [])
report_all (e ∷ es) =
    let s = report_all es in let r = evicted s.0 e.0 e.1 in (r.0, with_report e.1 r.1 s.1)

abbrev pub times : History → List Time
times [] = []
times (e ∷ es) = e.1 ∷ times es

abbrev pub AllPositive : History → Type 0
AllPositive [] = Unit
AllPositive (e ∷ es) = (0 < e.1) × AllPositive es

-- The latest report is the one that the reporter remembers.
abbrev Latest : List Time → Time → Type 0
Latest [] last = last ≡ 0
Latest (t ∷ ts) last = (last ≡ t) × (0 < t)

record Counts (es : History) (r : Reporter) (sent : History) : Type 0 where
  spaced : Spaced eviction_report_every (times sent)
  latest : Latest (times sent) r.last
  counted : total sent + r.pending ≡ total es

spaced_next :
    (now last : Time) (ts : List Time)
    → (not (is_zero last) && sub_lt now last eviction_report_every) ≡ false
    → Latest ts last
    → Spaced eviction_report_every ts
    → Spaced eviction_report_every (now ∷ ts)
spaced_next now last [] h l s = tt
spaced_next now last (t ∷ ts) h l s = (ground (arith, h, l.0, l.1), s)

evicted-Counts :
    (es : History) (n : ℕ) (now : Time) (r : Reporter) (sent : History)
    → 0 < now
    → Counts es r sent
    → Counts ((n, now) ∷ es) (evicted r n now).0 (with_report now (evicted r n now).1 sent)
unfolding evicted
evicted-Counts es n now r sent p c =
    elim (Bool-cases (not (is_zero r.last) && sub_lt now r.last eviction_report_every)) [
      | inl t ↦
          rw t (record { spaced = c.spaced; latest = c.latest; counted = omega (arith, c.counted) })
      | inr t ↦ rw t (record {
        spaced = spaced_next now r.last (times sent) t c.latest c.spaced;
        latest = (refl, p);
        counted = omega (arith, c.counted);
      })
    ]

report_all-Counts : (es : History) → AllPositive es → Counts es (report_all es).0 (report_all es).1
unfolding report_all
report_all-Counts [] a = record { spaced = tt; latest = refl; counted = omega arith }
report_all-Counts (e ∷ es) a =
    evicted-Counts es e.0 e.1 (report_all es).0 (report_all es).1 a.0 (report_all-Counts es a.1)

-- Over any history of evictions at times past the zero time, two warnings lie ten minutes apart at
-- least, and the evictions that they count and those still to be reported are the evictions made.
pub report_all-Spaced :
    (es : History)
    → AllPositive es
    → let s = report_all es in
      Spaced eviction_report_every (times s.1) × (total s.1 + s.0.pending ≡ total es)
report_all-Spaced es a = let c = report_all-Counts es a in (c.spaced, c.counted)
