-- ===== src/Endings/EndOfEra/Resolve/ReadBack.antt =====
-- The readers of a published reason recover the branch that wrote it.
use delist_detection.Prelude.{
  ℕ, ◌≡◌, ◌⊎◌, refl, Bool, true, false, ◌++◌, some, Option, arith, is_among, text_eq, text_eq→eq,
  Text, codes, append_assoc, Bool-cases, inl, inr,
}
use delist_detection.Days.{isoformat}
use delist_detection.Vocabulary.ExitKind.Reasons.{
  relabel, rests_on_continued_filings, merger_relabel, names_successor_registration,
  merger_relabel-relabel, merger_relabel-other, change_in_control_reason,
  completed_acquisition_reason, successor_registration_reason, form_8k12b, form_8k12g3,
  resolved_from_continued_filings_suffix,
}
use delist_detection.Endings.EndOfEra.Signals.{
  Filed, filed_text, EraSignals, successor_forms, OwnExchange,
}
use delist_detection.Endings.EndOfEra.Resolve.{
  Branch, trading, successor, successor_merger, change_in_control, completed_merger,
  continued_filings, EraVerdict, resolve, changed_stake, goes_on,
}
use delist_detection.Endings.EndOfEra.Resolve.Rule.{resolve_ind}

-- The branches that a reason's readers tell apart.
abbrev pub stands : Branch → Bool
stands trading = true
stands continued_filings = true
stands _ = false

abbrev pub makes_merger : Branch → Bool
makes_merger change_in_control = true
makes_merger completed_merger = true
makes_merger _ = false

abbrev pub registers : Branch → Bool
registers successor = true
registers successor_merger = true
registers _ = false

-- What the three readers of a reason say of the verdict's branch.
pub record IsReadBack (v : EraVerdict) : Type 0 where
  pub standing : rests_on_continued_filings v.reason ≡ stands v.branch
  pub merging : merger_relabel v.reason ≡ makes_merger v.branch
  pub registering : names_successor_registration v.reason ≡ registers v.branch

Filed-cases :
    (form : Text)
    → is_among form successor_forms ≡ true
    → (form ≡ form_8k12b) ⊎ (form ≡ form_8k12g3)
Filed-cases form h = elim (Bool-cases (text_eq form form_8k12b)) [
  | inl b ↦ inl (text_eq→eq form form_8k12b b)
  | inr other ↦ inr (text_eq→eq form form_8k12g3 (ground arith))
]

form_lem :
    (form : Text) (day : Text) (text : Text)
    → is_among form successor_forms ≡ true
    → names_successor_registration (successor_registration_reason (form ++ (codes " " ++ day)) text)
      ≡ true
unfolding names_successor_registration successor_registration_reason
form_lem form day text h = elim (Filed-cases form h) [ inl b ↦ rw b | inr g ↦ rw g ]

registration_lem :
    (filing : Filed) (text : Text)
    → is_among filing.form successor_forms ≡ true
    → names_successor_registration (successor_registration_reason (filed_text filing) text) ≡ true
unfolding filed_text
registration_lem filing text h = form_lem filing.form (isoformat filing.day) text h

relabel-successor_registration_reason :
    (filing text : Text)
    → relabel (successor_registration_reason filing text)
      ≡ successor_registration_reason filing (text ++ resolved_from_continued_filings_suffix)
unfolding relabel successor_registration_reason
relabel-successor_registration_reason filing text = simp append_assoc

goes_on-registers :
    (filing : Filed)
    → is_among filing.form successor_forms ≡ true
    → names_successor_registration (goes_on filing).reason ≡ true
goes_on-registers filing h = rw relabel-successor_registration_reason (registration_lem filing _ h)

goes_on_lem :
    (filing : Filed) → is_among filing.form successor_forms ≡ true → IsReadBack (goes_on filing)
unfolding rests_on_continued_filings relabel successor_registration_reason
goes_on_lem filing h = record {
  standing = refl;
  merging = merger_relabel-other _ refl refl;
  registering = goes_on-registers filing h;
}

changed_stake_lem :
    (filing : Filed) (own : OwnExchange)
    → is_among filing.form successor_forms ≡ true
    → IsReadBack (changed_stake filing own)
unfolding rests_on_continued_filings successor_registration_reason
changed_stake_lem filing own h = record {
  standing = refl;
  merging = merger_relabel-other _ refl refl;
  registering = registration_lem filing _ h;
}

control_lem : (day : ℕ) → merger_relabel (change_in_control_reason day) ≡ true
unfolding change_in_control_reason
control_lem day = merger_relabel-relabel _ (inl refl)

completion_lem :
    (day : ℕ) (beside : Filed)
    → merger_relabel (completed_acquisition_reason day (filed_text beside)) ≡ true
unfolding completed_acquisition_reason
completion_lem day beside = merger_relabel-relabel _ (inr refl)

-- Whatever the evidence, as long as the successor registration is an 8-K12B or an 8-K12G3: the published
-- reason rests on continued filings exactly where those stand or the security still traded, reads as a
-- merger relabel exactly in the two merger branches, and names a successor registration exactly in the
-- two branches of one.
pub resolve-IsReadBack :
    (s : EraSignals) (items_code : Option ℕ)
    → ((f : Filed) → s.successor_filing ≡ some f → is_among f.form successor_forms ≡ true)
    → IsReadBack (resolve s items_code)
unfolding rests_on_continued_filings names_successor_registration relabel change_in_control_reason
    completed_acquisition_reason
resolve-IsReadBack s items_code registered =
    resolve_ind {s = s} {items_code = items_code} {P = IsReadBack} (record {
      on_trading = λ _. record {
        standing = refl;
        merging = merger_relabel-other _ refl refl;
        registering = refl;
      };
      on_successor = λ filing _ e. goes_on_lem filing (registered filing e);
      on_changed_stake = λ filing own _ e. changed_stake_lem filing own (registered filing e);
      on_control =
          λ day _ _ _ _. record { standing = refl; merging = control_lem day; registering = refl };
      on_completion = λ day beside _ _ _ _ _. record {
        standing = refl;
        merging = completion_lem day beside;
        registering = refl;
      };
      on_bankruptcy = λ filing day beside _ _ _ _. record {
        standing = refl;
        merging = merger_relabel-other _ refl refl;
        registering = refl;
      };
      on_deficiency = λ notice _ _ _. record {
        standing = refl;
        merging = merger_relabel-other _ refl refl;
        registering = refl;
      };
      on_liquidation = λ notice _ _ _. record {
        standing = refl;
        merging = merger_relabel-other _ refl refl;
        registering = refl;
      };
      on_standing = λ _ _ _. record {
        standing = refl;
        merging = merger_relabel-other _ refl refl;
        registering = refl;
      };
    })
