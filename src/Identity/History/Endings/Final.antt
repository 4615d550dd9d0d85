-- ===== src/Identity/History/Endings/Final.antt =====
-- The ending that a history ends with.
use mathlib.Core.List.{Memᴰ}
use delist_detection.Prelude.{
  ℕ, ◌≤◌, ◌≡◌, ◌⊎◌, refl, sym, ◌∙◌, ap, Bool, true, false, ◌&&◌, Option, none, some, List, [], ◌∷◌,
  String, str_eq, arith, inl, inr, All, All-mem, All-self, All-sorted_by, All-of_sorted_by,
  IsSortedBy, sorted_by, sorted_by-IsSortedBy, Bool-cases, if◌then◌else◌,
}
use delist_detection.Vocabulary.ExitKind.LastTrades.{confirmed, end_day}
use delist_detection.Identity.History.Endings.{
  Ending, SecurityEnd, Inputs, endings, ends_key, final_in, final_ending, own_listing, end_by,
  end_of, starts_of, is_observed,
}

module _ (i : Inputs) (sid : String) where
  -- The ending is one of the security's, and ends it.
  abbrev pub is_final : Ending → Bool
  is_final e = str_eq e.sec_id sid && ends_key i e

  abbrev IsBefore : Option Ending → List Ending → Type 0
  IsBefore none es = Unit
  IsBefore (some l) es = All (λ f. l.delist_date ≤ f.delist_date) es

  abbrev IsBy : Option Ending → ℕ → Type 0
  IsBy none day = Unit
  IsBy (some l) day = l.delist_date ≤ day

  -- No ending of the list that ends the security has a later date.
  abbrev pub AreNoLater : ℕ → List Ending → Type 0
  AreNoLater day es = All (λ f. (is_final f ≡ false) ⊎ (f.delist_date ≤ day)) es

  final_in-step :
      (last : Option Ending) (f : Ending) (fs : List Ending) (b : Bool)
      → is_final f ≡ b
      → final_in i sid last (f ∷ fs) ≡ final_in i sid (if b then some f else last) fs
  unfolding final_in
  final_in-step last f fs b h = ap (λ (c : Bool). final_in i sid (if c then some f else last) fs) h

  the_same : (l e : Ending) → some l ≡ some e → l ≡ e
  the_same l e h = ap (λ (o : Option Ending). elim o [ none ↦ l | some x ↦ x ]) h

  IsBy-before :
      (last : Option Ending) (f : Ending) (fs : List Ending) (day : ℕ)
      → IsBefore last (f ∷ fs)
      → f.delist_date ≤ day
      → IsBy last day
  IsBy-before none f fs day before le = tt
  IsBy-before (some l) f fs day before le = let first = before.0 in omega (arith, first, le)

  IsBefore-tail :
      (last : Option Ending) (f : Ending) (fs : List Ending)
      → IsBefore last (f ∷ fs)
      → IsBefore last fs
  IsBefore-tail none f fs before = tt
  IsBefore-tail (some l) f fs before = before.1

  final_in-latest :
      (last : Option Ending) (es : List Ending) (e : Ending)
      → IsSortedBy (λ f. f.delist_date) es
      → IsBefore last es
      → final_in i sid last es ≡ some e
      → ((last ≡ some e) ⊎ (Memᴰ e es × (is_final e ≡ true)))
        × AreNoLater e.delist_date es
        × IsBy last e.delist_date
  unfolding final_in
  final_in-latest none [] e sorted before h = cc
  final_in-latest (some l) [] e sorted before h =
      let same : l.delist_date ≡ e.delist_date =
        ap (λ (x : Ending). x.delist_date) (the_same l e h) in
      (inl h, tt, omega (arith, same))
  final_in-latest last (f ∷ fs) e sorted before h = elim (Bool-cases (is_final f)) [
    | inl ends_it ↦
        let (from, later, by) =
          final_in-latest (some f) fs e sorted.1 sorted.0
            (sym (final_in-step last f fs true ends_it) ∙ h) in
        (inr (chosen from ends_it), (inr by, later), IsBy-before last f fs e.delist_date before by)
    | inr not_it ↦
        let (from, later, by) =
          final_in-latest last fs e sorted.1 (IsBefore-tail last f fs before)
            (sym (final_in-step last f fs false not_it) ∙ h) in
        (passed from, (inl not_it, later), by)
  ]
    where
      chosen :
          ((some f ≡ some e) ⊎ (Memᴰ e fs × (is_final e ≡ true)))
          → is_final f ≡ true
          → Memᴰ e (f ∷ fs) × (is_final e ≡ true)
      chosen (inl same) ends_it =
          (Memᴰ.head (sym (the_same f e same)), ap is_final (sym (the_same f e same)) ∙ ends_it)
      chosen (inr (there, is)) ends_it = (Memᴰ.tail there, is)

      passed :
          ((last ≡ some e) ⊎ (Memᴰ e fs × (is_final e ≡ true)))
          → (last ≡ some e) ⊎ (Memᴰ e (f ∷ fs) × (is_final e ≡ true))
      passed (inl same) = inl same
      passed (inr (there, is)) = inr (Memᴰ.tail there, is)

  pub final_ending-latest :
      (e : Ending)
      → final_ending i sid ≡ some e
      → Memᴰ e (endings i) × (is_final e ≡ true) × AreNoLater e.delist_date (endings i)
  unfolding final_ending
  final_ending-latest e h =
      let es = sorted_by (λ f. f.delist_date) (endings i) in
      let (from, later, by) =
        final_in-latest none es e (sorted_by-IsSortedBy (λ f. f.delist_date) (endings i)) tt h in
      elim from [
        | inl nothing ↦ absurd (none_some nothing)
        | inr (there, is) ↦ (
          All-mem (λ f. Memᴰ f (endings i)) es
              (All-sorted_by (λ f. f.delist_date) (λ f. Memᴰ f (endings i)) (endings i)
                (All-self (endings i)))
              there,
          is,
          All-of_sorted_by (λ f. f.delist_date)
              (λ f. (is_final f ≡ false) ⊎ (f.delist_date ≤ e.delist_date)) (endings i) later,
        )
      ]
    where
      none_some : none ≡ some e → ⊥
      none_some k = cc

  -- The last ending of the security that ends it: one of the run's endings, none such of a later date.
  abbrev pub IsLast : Ending → Type 0
  IsLast e = Memᴰ e (endings i) × (is_final e ≡ true) × AreNoLater e.delist_date (endings i)

  -- Where a history has an end, the security is not listed, and the end is the end day of its last ending,
  -- confirmed as that ending's last trade is.
  abbrev pub IsEndBy : SecurityEnd → ℕ → Type 0
  IsEndBy end day =
      (end.listed ≡ false)
      × ((e : Ending) × IsLast e
          × (end_day e.last_trade e.delist_date ≡ day)
          × (confirmed e.last_trade ≡ end.confirmed))

  end_by-lem :
      (last : Option Ending) (listed : Bool) (day : ℕ)
      → ((e : Ending) → last ≡ some e → IsLast e)
      → (end_by i sid last listed).day ≡ some day
      → IsEndBy (end_by i sid last listed) day
  unfolding end_by
  end_by-lem none listed day is h = cc
  end_by-lem (some e) true day is h = cc
  end_by-lem (some e) false day is h =
      (refl, (e, is e refl, ap (λ (o : Option ℕ). elim o [ none ↦ 0 | some d ↦ d ]) h, refl))

  end_of-observed :
      is_observed i sid ≡ true
      → end_of i sid
        ≡ end_by i sid
            (final_ending i sid)
            (own_listing i (final_ending i sid) (starts_of i sid) (i.security sid).listed)
  unfolding end_of
  end_of-observed h = rw (h, end_of) refl

  end_of-unobserved : is_observed i sid ≡ false → (day : ℕ) → (end_of i sid).day ≡ some day → ⊥
  unfolding end_of
  end_of-unobserved h day e = let k : ◌≡◌ {A = Option ℕ} none (some day) = rw h at e in cc

-- Where a history has an end day, its security is not listed; the day is the end day of an ending of the
-- security that ends it, one of the run's; no ending that ends the security has a later delisting date;
-- and the end is confirmed as that ending's last trade is.
pub end_of-IsEndBy :
    (i : Inputs) (sid : String) (day : ℕ)
    → (end_of i sid).day ≡ some day
    → IsEndBy i sid (end_of i sid) day
end_of-IsEndBy i sid day h = elim (Bool-cases (is_observed i sid)) [
  | inr unknown ↦ absurd (end_of-unobserved i sid unknown day h)
  | inl known ↦
      let listed = own_listing i (final_ending i sid) (starts_of i sid) (i.security sid).listed in
      rw (end_of-observed i sid known) (
        end_by-lem i sid (final_ending i sid) listed day (final_ending-latest i sid)
          (ap (λ (end : SecurityEnd). end.day) (sym (end_of-observed i sid known)) ∙ h))
]
