-- ===== src/Watcher/Decay.antt =====
-- internal/watcher/botscore.go: what an idle time takes off a score.
use infrafence_agent.Base.{
  suc, ◌+◌, ◌-◌, ◌≤◌, ◌<◌, ◌≡◌, refl, ap, subst, ◌∙◌, ◌⊎◌, true, false, Option, none, some, [], ◌∷◌,
  String, ltb, leb, if◌then◌else◌, length, arith, inl, inr,
}
use infrafence_agent.Base.Dict.{lookup, Distinct}
use infrafence_agent.Base.Keys.{string_key, ◌=?◌, =?-cases}
use infrafence_agent.Base.Time.{Time, minute, sub_gt}
use infrafence_agent.Watcher.Scores.{
  max_bot_score_entries, cleanup_max_age, IpScore, Tracker, decay, aged, sweep, decay_and_cleanup,
  keep_entry, get_score,
}

length-keep_entry :
    (ip : String) (o : Option IpScore) (m : Tracker) → length (keep_entry ip o m) ≤ suc (length m)
length-keep_entry ip none m = omega arith
length-keep_entry ip (some e) m = omega arith

lookup-keep_entry :
    (ip k : String) (o : Option IpScore) (m : Tracker)
    → lookup k m ≡ none ⊎ ((ip =? k) ≡ false)
    → lookup k (keep_entry ip o m) ≡ (if ip =? k then o else lookup k m)
unfolding lookup
lookup-keep_entry ip k none m h = ground (arith, h)
lookup-keep_entry ip k (some e) m h = refl

length-sweep : (now : Time) (m : Tracker) → length (sweep now m) ≤ length m
unfolding sweep
length-sweep now [] = omega arith
length-sweep now ((ip, e) ∷ m) =
    omega (arith, length-keep_entry ip (aged now e) (sweep now m), length-sweep now m)

lookup-sweep-none :
    (now : Time) (k : String) (m : Tracker) → lookup k m ≡ none → lookup k (sweep now m) ≡ none
unfolding sweep lookup
lookup-sweep-none now k [] h = refl
lookup-sweep-none now k ((ip, e) ∷ m) h = elim (=?-cases ip k) [
  | inl (t, q) ↦ cc (rw t at h)
  | inr (t, q) ↦
      lookup-keep_entry ip k (aged now e) (sweep now m) (inr t)
      ∙ rw t (lookup-sweep-none now k m (rw t at h))
]

lookup-sweep :
    (now : Time) (k : String) (m : Tracker) (e : IpScore)
    → Distinct m
    → lookup k m ≡ some e
    → lookup k (sweep now m) ≡ aged now e
unfolding sweep lookup
lookup-sweep now k [] e d h = cc h
lookup-sweep now k ((ip, w) ∷ m) e d h = elim (=?-cases ip k) [
  | inl (t, q) ↦
      let same : w ≡ e = ground (arith, rw t at h) in
      let rest = lookup-sweep-none now k m (subst (λ j. lookup j m ≡ none) q d.0) in
      lookup-keep_entry ip k (aged now w) (sweep now m) (inl rest) ∙ rw t (ap (aged now) same)
  | inr (t, q) ↦
      lookup-keep_entry ip k (aged now w) (sweep now m) (inr t)
      ∙ rw t (lookup-sweep now k m e d.1 (rw t at h))
]

known_score :
    (m : Tracker) (ip : String) (e : IpScore) (now : Time)
    → lookup ip m ≡ some e
    → (get_score m ip now).0 ≡ e.score - decay now e
unfolding get_score
known_score m ip e now l = rw (l, get_score) refl

aged_late :
    (e : IpScore) (now : Time)
    → e.last_update + minute < now
    → now ≤ e.last_update + cleanup_max_age
    → decay now e < e.score
    → aged now e ≡ some (record e { score = e.score - decay now e })
unfolding aged
aged_late e now idle young left =
    let old : sub_gt now e.last_update cleanup_max_age ≡ false = ground (arith, young) in
    let late : sub_gt now e.last_update minute ≡ true = ground (arith, idle) in
    let more : leb e.score (decay now e) ≡ false = ground (arith, left) in
    ground (arith, old, late, more)

small_sweep :
    (m : Tracker) (now : Time)
    → length m ≤ max_bot_score_entries
    → decay_and_cleanup m now ≡ sweep now m
unfolding decay_and_cleanup
small_sweep m now few =
    let small : ltb max_bot_score_entries (length (sweep now m)) ≡ false =
      ground (arith, few, length-sweep now m) in
    rw small refl

-- An address that is idle for more than a minute and not longer than the table keeps it, and whose score
-- is more than its decay: a cleanup takes the decay off, and the next look at the score, at the same
-- time, takes it off once more, although without the cleanup it is taken off once.
pub get_score-decay_and_cleanup :
    (m : Tracker) (ip : String) (e : IpScore) (now : Time)
    → Distinct m
    → length m ≤ max_bot_score_entries
    → lookup ip m ≡ some e
    → e.last_update + minute < now
    → now ≤ e.last_update + cleanup_max_age
    → decay now e < e.score
    → ((get_score m ip now).0 ≡ e.score - decay now e)
      × ((get_score (decay_and_cleanup m now) ip now).0 ≡ e.score - decay now e - decay now e)
get_score-decay_and_cleanup m ip e now d few l idle young left = (
  known_score m ip e now l,
  rw (small_sweep m now few) (
      known_score (sweep now m) ip (record e { score = e.score - decay now e }) now
        (lookup-sweep now ip m e d l ∙ aged_late e now idle young left)),
)
