-- ===== src/Storage/Keys.antt =====
-- internal/storage/results.go, `Save`: the keys of the results, and saves that follow one another.
use ar_csent.Prelude.{
  ℕ, ◌≡◌, ◌≢◌, ◌⊎◌, inl, inr, ◌∙◌, sym, ap, refl, false, Bool-cases, ◌||◌, is_empty, List, [], ◌∷◌,
  ◌++◌, append_assoc, length, length-append, All, arith,
}
use ar_csent.Text.{Text, codes, text_eq}
use ar_csent.Text.Equality.{text_eq-false}
use ar_csent.Number.{digits_value}
use ar_csent.Number.Print.{show_nat}
use ar_csent.Number.RoundTrip.{Digits, show_nat-Digits, digits_value-show_nat}
use ar_csent.Results.{ScanResult}
use ar_csent.Storage.{Badger, make_key, put}
use ar_csent.Storage.Stored.{IsLawful, Result-cases}
use ar_csent.Storage.Buckets.{Codec, results_bucket, result_key, save}

-- A number ends at the first dash.
dash-inj : (a b x y : Text) → Digits a → Digits b → a ++ b'-' ∷ x ≡ b ++ b'-' ∷ y → a ≡ b
dash-inj [] [] x y ha hb h = refl
dash-inj [] (c ∷ b) x y ha hb h = absurd (ground arith)
dash-inj (c ∷ a) [] x y ha hb h = absurd (ground arith)
dash-inj (c ∷ a) (d ∷ b) x y ha hb h = ground (arith, dash-inj a b x y ha.1 hb.1)

show_nat-inj : (m n : ℕ) → show_nat m ≡ show_nat n → m ≡ n
show_nat-inj m n h = sym (digits_value-show_nat m) ∙ ap (digits_value 0) h ∙ digits_value-show_nat n

-- The keys of two times, or of two random suffixes of one length, are different.
now-result_key :
    (m n : ℕ) (name other s t : Text) → result_key m name s ≡ result_key n other t → m ≡ n
unfolding result_key
now-result_key m n name other s t h = show_nat-inj m n (
    dash-inj (show_nat m) (show_nat n) _ _ (show_nat-Digits m) (show_nat-Digits n)
      (simp append_assoc at h))

append-inj : (xs ys s t : Text) → length s ≡ length t → xs ++ s ≡ ys ++ t → s ≡ t
append-inj [] [] s t same h = h
append-inj [] (y ∷ ys) s t same h =
    absurd (omega (arith, ap length h, length-append (y ∷ ys) t, same))
append-inj (x ∷ xs) [] s t same h =
    absurd (omega (arith, ap length h, length-append (x ∷ xs) s, same))
append-inj (x ∷ xs) (y ∷ ys) s t same h = ground (arith, append-inj xs ys s t same)

suffix-result_key :
    (m n : ℕ) (name other s t : Text)
    → length s ≡ length t
    → result_key m name s ≡ result_key n other t
    → s ≡ t
unfolding result_key
suffix-result_key m n name other s t same h =
    append-inj (show_nat m ++ codes "-" ++ name ++ codes "-")
      (show_nat n ++ codes "-" ++ other ++ codes "-") s t same h

-- A call of `Save`: its time, what `randSuffix` gives it, and the result.
pub record Saving (J : Type 0) : Type 0 where
  pub at : ℕ
  pub suffix : Text
  pub result : ScanResult ℕ J

-- Made at another time, or with another random suffix of the same length.
abbrev pub Differs : {J : Type 0} → ℕ → Text → Saving J → Type 0
Differs now suffix l = (now ≢ l.at) ⊎ ((length suffix ≡ length l.suffix) × (suffix ≢ l.suffix))

Differs-result_key :
    {J : Type 0} (now : ℕ) (name suffix : Text) (l : Saving J)
    → Differs now suffix l
    → result_key l.at l.result.scanner_name l.suffix ≢ result_key now name suffix
Differs-result_key now name suffix l (inl apart) e =
    apart (sym (now-result_key l.at now l.result.scanner_name name l.suffix suffix e))
Differs-result_key now name suffix l (inr (same, apart)) e =
    apart (sym (suffix-result_key l.at now l.result.scanner_name name l.suffix suffix (sym same) e))

make_key-ne :
    (key other : Text)
    → key ≢ other
    → text_eq (make_key results_bucket key) (make_key results_bucket other) ≡ false
unfolding make_key
make_key-ne key other differ =
    text_eq-false (make_key results_bucket key) (make_key results_bucket other) (λ e. differ (cc e))

module _ {Db J : Type 0} (badger : Badger Db) (codec : Codec (ScanResult ℕ J))
    (lawful : IsLawful badger) where
  -- A write leaves the other keys of its bucket alone, with an error or without.
  get-put_ne :
      (key other v : Text) (db : Db)
      → key ≢ other
      → badger.get (make_key results_bucket other) (put badger results_bucket key v db).0
        ≡ badger.get (make_key results_bucket other) db
  unfolding put
  get-put_ne key other v db differ = elim (Bool-cases (is_empty results_bucket || is_empty key)) [
    | inl missing ↦ rw missing refl
    | inr given ↦ rw given (elim (Result-cases (badger.set (make_key results_bucket key) v db)) [
      | inl (after, done) ↦ rw done (
          lawful.get-set (make_key results_bucket key) results_bucket other v db after done
          ∙ rw (make_key-ne key other differ) refl)
      | inr (text, failed) ↦ rw failed refl
    ])
  ]

  get-save_ne :
      (l : Saving J) (other : Text) (db : Db)
      → result_key l.at l.result.scanner_name l.suffix ≢ other
      → badger.get (make_key results_bucket other) (save badger codec l.at l.suffix l.result db).0
        ≡ badger.get (make_key results_bucket other) db
  unfolding save
  get-save_ne l other db differ = elim (Result-cases (codec.encode l.result)) [
    | inl (raw, e) ↦
        rw e (get-put_ne (result_key l.at l.result.scanner_name l.suffix) other raw db differ)
    | inr (text, e) ↦ rw e refl
  ]

module _ {Db J : Type 0} (badger : Badger Db) (codec : Codec (ScanResult ℕ J)) where
  -- Calls of `Save` one after the other, whatever errors they give.
  abbrev pub save_all : List (Saving J) → Db → Db
  save_all [] db = db
  save_all (l ∷ later) db = save_all later (save badger codec l.at l.suffix l.result db).0

  -- A result stays under its key while others are saved.
  pub get-save_all :
      (now : ℕ) (name suffix : Text) (later : List (Saving J)) (db : Db)
      → IsLawful badger
      → All (Differs now suffix) later
      → badger.get (make_key results_bucket (result_key now name suffix)) (save_all later db)
        ≡ badger.get (make_key results_bucket (result_key now name suffix)) db
  get-save_all now name suffix [] db lawful differ = refl
  get-save_all now name suffix (l ∷ later) db lawful differ =
      get-save_all now name suffix later _ lawful differ.1
      ∙ get-save_ne badger codec lawful l (result_key now name suffix) db
          (Differs-result_key now name suffix l differ.0)
