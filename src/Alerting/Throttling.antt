-- ===== src/Alerting/Throttling.antt =====
-- internal/alerting/engine.go: how far apart the alerts of one identifier are, and how many wait.
use ar_csent.Prelude.{
  ℕ, ◌+◌, ◌-◌, ◌≤◌, ◌<◌, ◌≡◌, refl, ◌∙◌, sym, ap, Bool, true, false, Option, some, List, [], ◌∷◌,
  length, length-append, ltb, All, arith, Bool-cases, inl, inr, ltb→lt, not, ◌&&◌, ℤ, if◌then◌else◌,
}
use mathlib.Core.Path.{subst}
use ar_csent.Text.{Text, text_eq}
use ar_csent.Dict.{Dict, get, set}
use ar_csent.Dict.Laws.{get-set, get-set_self}
use ar_csent.Alerting.{
  Alert, Engine, new_engine, Config, queue_size, prepare, within, is_throttled, mark_seen, enqueue,
  send_prepared, send,
}
use ar_csent.Alerting.Steps.{
  World, passes, submit, Step, submitted, waited, taken, Reach, here, next,
}

-- Any two of one identifier are at least the window apart.
abbrev pub Spaced : ℕ → List (Text × ℕ) → Type 0
Spaced window [] = Unit
Spaced window ((id, t) ∷ passed) =
    All (λ x. x.0 ≡ id → x.1 + window ≤ t) passed × Spaced window passed

-- The last time of an identifier is remembered.
abbrev Seen : Dict ℕ → Text × ℕ → Type 0
Seen last_seen x = (last : ℕ) × (get x.0 last_seen ≡ some last) × (x.1 ≤ last)

-- What passed is apart and remembered, and no more alerts wait than the queue holds.
pub record IsThrottling {J : Type 0} (w : World J) : Type 0 where
  pub spaced : Spaced w.engine.throttle w.passed
  pub seen : All (Seen w.engine.last_seen) w.passed
  pub past : All (λ x. x.1 ≤ w.now) w.passed
  pub bounded : length w.engine.queue ≤ queue_size

Seen-set :
    (last_seen : Dict ℕ) (now : ℕ) (id : Text) (passed : List (Text × ℕ))
    → All (λ x. x.1 ≤ now) passed
    → All (Seen last_seen) passed
    → All (Seen (set id now last_seen)) passed
Seen-set last_seen now id [] early h = tt
Seen-set last_seen now id (x ∷ passed) (before, early) ((last, found, le), h) = (
  elim (Bool-cases (text_eq id x.0)) [
    | inl same ↦ (now, get-set id x.0 now last_seen ∙ rw same refl, before)
    | inr other ↦ (last, get-set id x.0 now last_seen ∙ rw other found, le)
  ],
  Seen-set last_seen now id passed early h,
)

-- What is not within the window comes at least the window after what passed before.
within-apart :
    (window now : ℕ) (last_seen : Dict ℕ) (id : Text) (passed : List (Text × ℕ))
    → within window now (get id last_seen) ≡ false
    → All (λ x. x.1 ≤ now) passed
    → All (Seen last_seen) passed
    → All (λ x. x.0 ≡ id → x.1 + window ≤ now) passed
within-apart window now last_seen id [] free early h = tt
within-apart window now last_seen id (x ∷ passed) free (before, early) ((last, found, le), h) = (
  λ same. later (ap (λ i. get i last_seen) (sym same) ∙ found),
  within-apart window now last_seen id passed free early h,
)
  where
    later : get id last_seen ≡ some last → x.1 + window ≤ now
    later e = let open_again : ltb (now - last) window ≡ false = rw e at free in ground arith

past-wait :
    (now ns : ℕ) (passed : List (Text × ℕ))
    → All (λ x. x.1 ≤ now) passed
    → All (λ x. x.1 ≤ now + ns) passed
past-wait now ns [] h = tt
past-wait now ns (x ∷ passed) h = (omega arith, past-wait now ns passed h.1)

not_throttled : (enabled throttled : Bool) → (enabled && not throttled) ≡ true → throttled ≡ false
not_throttled true true h = cc
not_throttled true false h = refl
not_throttled false true h = cc
not_throttled false false h = refl

passes_of_free :
    (enabled throttled : Bool)
    → enabled ≡ true
    → throttled ≡ false
    → (enabled && not throttled) ≡ true
passes_of_free true true on free = cc
passes_of_free true false on free = refl
passes_of_free false throttled on free = on

stops_of_throttled :
    (enabled throttled : Bool) → throttled ≡ true → (enabled && not throttled) ≡ false
stops_of_throttled true true h = refl
stops_of_throttled true false h = cc
stops_of_throttled false throttled h = refl

module _ {J : Type 0} where
  enqueue_lem :
      (alert : Alert J) (e : Engine J)
      → length e.queue ≤ queue_size
      → ((enqueue alert e).last_seen ≡ e.last_seen)
        × ((enqueue alert e).throttle ≡ e.throttle)
        × (length (enqueue alert e).queue ≤ queue_size)
  unfolding enqueue
  enqueue_lem alert e h = elim (Bool-cases (ltb (length e.queue) queue_size)) [
    | inl free ↦
        rw free (refl, refl, omega (arith, length-append e.queue (alert ∷ []), ltb→lt _ _ free))
    | inr full ↦ rw full (refl, refl, h)
  ]

  if-if :
      (enabled throttled : Bool) (e sent : Engine J)
      → (if enabled then (if throttled then e else sent) else e)
        ≡ (if enabled && not throttled then sent else e)
  if-if true true e sent = refl
  if-if true false e sent = refl
  if-if false throttled e sent = refl

  module _ (hash : Text → Text) where
    -- What is queued for an alert.
    abbrev sent : Alert J → World J → Engine J
    sent alert w = let a = prepare hash w.now alert in enqueue a (mark_seen w.now a.id w.engine)

    send_lem :
        (alert : Alert J) (w : World J)
        → send hash w.now alert w.engine
          ≡ (if passes hash w.now alert w.engine then sent alert w else w.engine)
    unfolding send send_prepared
    send_lem alert w =
        if-if w.engine.enabled (is_throttled w.now (prepare hash w.now alert).id w.engine) w.engine
          (sent alert w)

    passed-IsThrottling :
        (alert : Alert J) (w : World J)
        → IsThrottling w
        → passes hash w.now alert w.engine ≡ true
        → IsThrottling (record {
          engine = sent alert w;
          now = w.now;
          passed = ((prepare hash w.now alert).id, w.now) ∷ w.passed;
        })
    unfolding mark_seen is_throttled
    passed-IsThrottling alert w t h =
        let id = (prepare hash w.now alert).id in
        let e = w.engine in
        let kept = enqueue_lem (prepare hash w.now alert) (mark_seen w.now id e) t.bounded in
        let free = not_throttled e.enabled (is_throttled w.now id e) h in
        record {
          spaced =
              subst (λ window. Spaced window ((id, w.now) ∷ w.passed)) (sym kept.1)
                (
                  within-apart e.throttle w.now e.last_seen id w.passed free t.past t.seen,
                  t.spaced,
                );
          seen =
              subst (λ last_seen. All (Seen last_seen) ((id, w.now) ∷ w.passed)) (sym kept.0)
                (
                  (w.now, get-set_self id w.now e.last_seen, omega arith),
                  Seen-set e.last_seen w.now id w.passed t.past t.seen,
                );
          past = (omega arith, t.past);
          bounded = kept.2;
        }

    submit-IsThrottling :
        (alert : Alert J) (w : World J) → IsThrottling w → IsThrottling (submit hash alert w)
    submit-IsThrottling alert w t =
        rw (send_lem alert w) (on_answer (passes hash w.now alert w.engine) refl)
      where
        on_answer :
            (b : Bool)
            → passes hash w.now alert w.engine ≡ b
            → IsThrottling (record {
              engine = if b then sent alert w else w.engine;
              now = w.now;
              passed = if b then ((prepare hash w.now alert).id, w.now) ∷ w.passed else w.passed;
            })
        on_answer true h = passed-IsThrottling alert w t h
        on_answer false h = record {
          spaced = t.spaced;
          seen = t.seen;
          past = t.past;
          bounded = t.bounded;
        }

    Step-IsThrottling : {w w' : World J} → Step hash w w' → IsThrottling w → IsThrottling w'
    Step-IsThrottling {w} (submitted alert) t = submit-IsThrottling alert w t
    Step-IsThrottling {w} (waited ns) t = record {
      spaced = t.spaced;
      seen = t.seen;
      past = past-wait w.now ns w.passed t.past;
      bounded = t.bounded;
    }
    Step-IsThrottling {w} (taken alert rest e) t = record {
      spaced = t.spaced;
      seen = t.seen;
      past = t.past;
      bounded = omega (arith, ap length e, t.bounded);
    }

    -- In every run of a new engine any two alerts of one identifier that are not throttled are at
    -- least the engine's window apart, and no more alerts wait than the queue holds.
    pub Reach-IsThrottling :
        (parse_duration : Text → Option ℤ) (cfg : Config) (now : ℕ) {w : World J}
        → Reach hash (new_engine parse_duration cfg) now w
        → IsThrottling w
    Reach-IsThrottling parse_duration cfg now here =
        unfold new_engine in record { spaced = tt; seen = tt; past = tt; bounded = omega arith }
    Reach-IsThrottling parse_duration cfg now (next r st) =
        Step-IsThrottling st (Reach-IsThrottling parse_duration cfg now r)

    last_seen-enqueue : (alert : Alert J) (e : Engine J) → (enqueue alert e).last_seen ≡ e.last_seen
    unfolding enqueue
    last_seen-enqueue alert e = elim (Bool-cases (ltb (length e.queue) queue_size)) [
      | inl free ↦ rw free refl
      | inr full ↦ rw full refl
    ]

    enqueue_full :
        (alert : Alert J) (e : Engine J)
        → length e.queue ≡ queue_size
        → (enqueue alert e).queue ≡ e.queue
    unfolding enqueue
    enqueue_full alert e full =
        let no_room : ltb (length e.queue) queue_size ≡ false = ground arith in rw no_room refl

    -- An alert that finds the queue full is dropped and yet remembered: with an engine that
    -- remembers no more than that, and whatever waits in its queue, a later alert of the same
    -- identifier within the window is throttled.
    pub send_dropped :
        (alert again : Alert J) (e e' : Engine J) (now later : ℕ)
        → e.enabled ≡ true
        → is_throttled now (prepare hash now alert).id e ≡ false
        → length e.queue ≡ queue_size
        → e'.last_seen ≡ (send hash now alert e).last_seen
        → e'.throttle ≡ e.throttle
        → (prepare hash later again).id ≡ (prepare hash now alert).id
        → now ≤ later
        → later < now + e.throttle
        → ((send hash now alert e).queue ≡ e.queue) × (send hash later again e' ≡ e')
    unfolding mark_seen is_throttled
    send_dropped alert again e e' now later on free full seen window same after soon =
        let w : World J = record { engine = e; now = now; passed = [] } in
        let w' : World J = record { engine = e'; now = later; passed = [] } in
        let id = (prepare hash now alert).id in
        let stored : send hash now alert e ≡ sent alert w =
          send_lem alert w
          ∙ ap (λ b. if b then sent alert w else e)
              (passes_of_free e.enabled (is_throttled now id e) on free) in
        let recorded : (sent alert w).last_seen ≡ set id now e.last_seen =
          last_seen-enqueue (prepare hash now alert) (mark_seen now id e) in
        let found : get (prepare hash later again).id e'.last_seen ≡ some now =
          ap (λ i. get i e'.last_seen) same
          ∙ ap (get id) (seen ∙ ap (λ s. s.last_seen) stored ∙ recorded)
          ∙ get-set_self id now e.last_seen in
        let early : ltb (later - now) e'.throttle ≡ true = ground arith in
        let throttled : is_throttled later (prepare hash later again).id e' ≡ true =
          ap (within e'.throttle later) found ∙ early in
        (
          ap (λ s. s.queue) stored
              ∙ enqueue_full (prepare hash now alert) (mark_seen now id e) full,
          send_lem again w'
              ∙ ap (λ b. if b then sent again w' else e')
                  (stops_of_throttled e'.enabled
                    (is_throttled later (prepare hash later again).id e') throttled),
        )
