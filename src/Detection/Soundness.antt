-- ===== src/Detection/Soundness.antt =====
-- internal/detection/baseline.go: what holds of a baseline whatever the values are and whether or not
-- the store works.
use ar_csent.Prelude.{
  ℕ, suc, ◌+◌, ◌-◌, ◌≤◌, ◌<◌, ◌≡◌, ◌⊎◌, inl, inr, refl, sym, ◌∙◌, ap, Bool, true, false, ◌||◌,
  Option, none, some, List, [], ◌∷◌, ◌++◌, length, is_empty, arith, Bool-cases, not, ℤ, pos, negsuc,
  zero,
}
use mathlib.Core.Path.{subst}
use ar_csent.Text.{Text}
use ar_csent.Results.History.{length-drop}
use ar_csent.Scheduler.State.{increment}
use ar_csent.Detection.Floats.{Floats}
use ar_csent.Detection.Baseline.{
  Baseline, below, pos_part, fresh, kept_samples, observed, is_anomaly,
}
use ar_csent.Detection.Drift.{
  Got, found, missing, broken, BaselineStore, IsFaithful, get_baseline, put_baseline, written,
  updated, update, baseline_key, counted,
}

-- A count goes up by one at most; where Go's int wraps, it falls below 0.
pos_part-increment : (z : ℤ) → pos_part (increment z) ≤ suc (pos_part z)
unfolding increment
pos_part-increment (pos n) = ground arith
pos_part-increment (negsuc zero) = omega arith
pos_part-increment (negsuc (suc n)) = omega arith

le-pos_part : (z : ℤ) (k : ℕ) → below z k ≡ false → k ≤ pos_part z
le-pos_part (pos n) k h = ground arith
le-pos_part (negsuc n) k h = absurd (cc)

module _ {F : Type 0} (fl : Floats F) where
  -- A baseline of a metric after values of which `n` may be counted and `m` looked at: its run of
  -- anomalies begins behind the tenth one, and it has 200 samples at most.
  pub record IsSound (scanner_name metric : Text) (n m : ℕ) (b : Baseline F) : Type 0 where
    pub scanner : b.scanner_name ≡ scanner_name
    pub of_metric : b.metric ≡ metric
    pub count : pos_part b.count ≤ n
    pub run : (pos_part b.drift_count ≡ 0) ⊎ (pos_part b.drift_count + 10 ≤ m)
    pub samples : length b.samples ≤ 200

  length-kept_samples : (xs : List F) → length (kept_samples xs) ≤ 200
  length-kept_samples xs = ground (arith, length-drop (length xs - 200) xs)

  anomaly-count :
      (b : Baseline F) (value : F) → is_anomaly fl b value ≡ some true → 10 ≤ pos_part b.count
  unfolding is_anomaly
  anomaly-count b value h = elim (Bool-cases (below b.count 10)) [
    | inl few ↦
        absurd (let e : ◌≡◌ {A = Option Bool} (some false) (some true) = rw few at h in cc e)
    | inr many ↦ le-pos_part b.count 10 many
  ]

  module _ {scanner_name metric : Text} {n : ℕ} where
    observed-IsSound :
        (now : ℕ) (value : F) (b : Baseline F)
        → IsSound scanner_name metric n (suc n) b
        → IsSound scanner_name metric (suc n) (suc n) (observed fl now value b)
    unfolding observed
    observed-IsSound now value b s = record {
      scanner = s.scanner;
      of_metric = s.of_metric;
      count = omega (arith, pos_part-increment b.count, s.count);
      run = s.run;
      samples = length-kept_samples (b.samples ++ value ∷ []);
    }

    pub counted-IsSound :
        (now : ℕ) (value : F) (anomaly : Bool) (b : Baseline F)
        → IsSound scanner_name metric n n b
        → is_anomaly fl b value ≡ some anomaly
        → IsSound scanner_name metric n (suc n) (counted now value anomaly b)
    counted-IsSound now value true b s h =
        let many = anomaly-count b value h in
        record {
          scanner = s.scanner;
          of_metric = s.of_metric;
          count = s.count;
          run = elim s.run [
            | inl e ↦ inr (omega (arith, pos_part-increment b.drift_count, s.count))
            | inr r ↦ inr (omega (arith, pos_part-increment b.drift_count))
          ];
          samples = s.samples;
        }
    counted-IsSound now value false b s h = record {
      scanner = s.scanner;
      of_metric = s.of_metric;
      count = s.count;
      run = inl refl;
      samples = s.samples;
    }

    pub late :
        (k : ℕ) (b : Baseline F)
        → 0 < k
        → IsSound scanner_name metric n (suc n) b
        → not (below b.drift_count k) ≡ true
        → k + 10 ≤ suc n
    late k b positive s h =
        let reached = le-pos_part b.drift_count k (ground arith) in
        elim s.run [ inl e ↦ absurd (omega arith) | inr r ↦ omega arith ]

module _ {S B F : Type 0} (io : BaselineStore S B F) (fl : Floats F) (faithful : IsFaithful io)
    (scanner_name metric : Text) where
  -- What the store has for the metric is sound.
  abbrev pub Holds : ℕ → ℕ → S → Type 0
  Holds n m s =
      (b : Baseline F)
      → get_baseline io fl scanner_name metric s ≡ found b
      → IsSound fl scanner_name metric n m b

  get-put_baseline :
      (b : Baseline F) (s t : S)
      → put_baseline io fl b s ≡ some t
      → get_baseline io fl b.scanner_name b.metric t ≡ found b
  unfolding put_baseline get_baseline
  get-put_baseline b s t h = on_encoded (io.encode b) refl
    where
      on_encoded :
          (o : Option B) → io.encode b ≡ o → get_baseline io fl b.scanner_name b.metric t ≡ found b
      on_encoded none e = absurd (cc)
      on_encoded (some x) e =
          rw (faithful.read-write (baseline_key b.scanner_name b.metric) x s t (cc))
            (rw (faithful.decode-encode b x e) refl)

  pub put_baseline-Holds :
      (n m : ℕ) (b : Baseline F) (s t : S)
      → IsSound fl scanner_name metric n m b
      → put_baseline io fl b s ≡ some t
      → Holds n m t
  put_baseline-Holds n m b s t sound h c got =
      let e = get-put_baseline b s t h in
      let e' : get_baseline io fl scanner_name metric t ≡ found b =
        ap (λ x. get_baseline io fl x metric t) (sym sound.scanner)
        ∙ ap (λ x. get_baseline io fl b.scanner_name x t) (sym sound.of_metric)
        ∙ e in
      let same : b ≡ c = cc in subst (IsSound fl scanner_name metric n m) same sound

  written-Holds :
      (n m : ℕ) (b : Baseline F) (s : S)
      → IsSound fl scanner_name metric n m b
      → Holds n m s
      → Holds n m (written s (put_baseline io fl b s))
  written-Holds n m b s sound h = after (put_baseline io fl b s) refl
    where
      after : (o : Option S) → put_baseline io fl b s ≡ o → Holds n m (written s o)
      after none e = h
      after (some t) e = put_baseline-Holds n m b s t sound e

  pub Holds-le : (n n' m m' : ℕ) (s : S) → n ≤ n' → m ≤ m' → Holds n m s → Holds n' m' s
  Holds-le n n' m m' s hn hm h b got =
      let sound = h b got in
      record {
        scanner = sound.scanner;
        of_metric = sound.of_metric;
        count = omega (arith, sound.count);
        run = elim sound.run [ inl e ↦ inl e | inr r ↦ inr (omega arith) ];
        samples = sound.samples;
      }

  fresh-IsSound :
      (n : ℕ) (value : F)
      → IsSound fl scanner_name metric n (suc n) (fresh fl scanner_name metric value)
  fresh-IsSound n value = record {
    scanner = refl;
    of_metric = refl;
    count = omega arith;
    run = inl refl;
    samples = omega arith;
  }

  pub update-Holds :
      (n now : ℕ) (value : F) (s : S)
      → Holds n (suc n) s
      → Holds (suc n) (suc n) (update io fl scanner_name metric now value s)
  unfolding update
  update-Holds n now value s h = elim (Bool-cases (is_empty scanner_name || is_empty metric)) [
    | inl nameless ↦ rw nameless more
    | inr named ↦ rw named (after (get_baseline io fl scanner_name metric s) refl)
  ]
    where
      more : Holds (suc n) (suc n) s
      more = Holds-le n (suc n) (suc n) (suc n) s (omega arith) (omega arith) h

      after :
          (g : Got (Baseline F))
          → get_baseline io fl scanner_name metric s ≡ g
          → Holds (suc n) (suc n) (updated io fl scanner_name metric now value s g)
      after (found b) e =
          written-Holds (suc n) (suc n) (observed fl now value b) s
            (observed-IsSound fl now value b (h b e)) more
      after missing e =
          written-Holds (suc n) (suc n) (observed fl now value (fresh fl scanner_name metric value))
            s (observed-IsSound fl now value _ (fresh-IsSound n value)) more
      after broken e = more
