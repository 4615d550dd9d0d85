-- ===== src/Endings/EndOfEra/Signals.antt =====
-- `signals`: the evidence around an end date.
mod Hits
pub mod Windows
use delist_detection.Prelude.{
  ℕ, ◌+◌, ◌-◌, Bool, false, not, ◌&&◌, ◌||◌, Option, none, some, List, [], ◌∷◌, ◌++◌, text_eq,
  is_among, Text, codes, starts_with, leb, or_else, sorted_by, if◌then◌else◌,
}
use delist_detection.Days.{isoformat}
use delist_detection.Vocabulary.ExitKind.Reasons.{form_8k12b, form_8k12g3}

abbrev pub items_before_days : ℕ
items_before_days = 30

abbrev pub items_after_days : ℕ
items_after_days = 120

abbrev pub merger_filing_before_days : ℕ
merger_filing_before_days = 540

abbrev pub merger_filing_after_days : ℕ
merger_filing_after_days = 30

abbrev pub merger_filing_forms : List Text
merger_filing_forms =
    codes "DEFM14A"
    ∷ codes "DEFM14C"
    ∷ codes "PREM14A"
    ∷ codes "SC 14D9"
    ∷ codes "SC TO-T"
    ∷ codes "SC TO-I"
    ∷ codes "SC 13E3"
    ∷ codes "425"
    ∷ codes "S-4"
    ∷ []

abbrev pub delist_forms : List Text
delist_forms = codes "25-NSE" ∷ codes "25" ∷ []

abbrev pub successor_forms : List Text
successor_forms = form_8k12b ∷ form_8k12g3 ∷ []

pub record Filed : Type 0 where
  pub form : Text
  pub day : ℕ

-- `str(Filed)`
unfoldable pub filed_text : Filed → Text
filed_text f = f.form ++ (codes " " ++ isoformat f.day)

-- What the resolver reads of an `EdgarSubmission`: its form, the day of its filing_date and its items,
-- in the order of `sorted(f.item_set)`.
pub record Filing : Type 0 where
  pub form : Text
  pub day : Option ℕ
  pub items : List Text

-- What the registrant's own shares became (`exchange_terms.OwnExchange`), as the resolver reads it:
-- `ratio` is the text `{own.ratio:g}` and `split` the answer of `split_factor` on the ratio.
pub record OwnExchange : Type 0 where
  pub ratio : Text
  pub split : Bool
  pub cash : Bool
  pub ambiguous : Bool
  pub target : Text

unfoldable pub stake_changed : OwnExchange → Bool
stake_changed own = not own.ambiguous && (own.cash || not own.split)

-- A day that `signals` keeps for an 8-K item: `item_filed.setdefault(item, d)`.
abbrev pub ItemDays : Type 0
ItemDays = List (Text × ℕ)

pub item_day : Text → ItemDays → Option ℕ
item_day item [] = none
item_day item ((k, d) ∷ rest) = if text_eq k item then some d else item_day item rest

pub set_default : Text → ℕ → ItemDays → ItemDays
unfolding item_day
set_default item d days = elim (item_day item days) [
  | none ↦ (days ++ (item, d) ∷ [])
  | some _ ↦ days
]

pub record EraSignals : Type 0 where
  pub trading_after : Bool
  pub item_filed : ItemDays
  pub successor_filing : Option Filed
  pub merger_filing : Option Filed
  pub delist_filing : Option Filed
  pub deficiency_notice : Option Filed
  pub bankruptcy_filing : Option Filed
  pub survived : Bool
  pub liquidation_notice : Option Filed
  pub successor_terms : Option OwnExchange

-- The variables of the loop of `signals`.
pub record Found : Type 0 where
  pub item_filed : ItemDays
  pub successor : Option Filed
  pub merger : Option Filed
  pub delist : Option Filed

add_items : ℕ → List Text → ItemDays → ItemDays
add_items d [] days = days
add_items d (item ∷ items) days = add_items d items (set_default item d days)

-- `on - timedelta(days=before) <= d <= on + timedelta(days=after)`, with the subtraction moved over.
abbrev pub within : ℕ → ℕ → ℕ → ℕ → Bool
within on before after d = leb on (d + before) && leb d (on + after)

-- The loop's body at a filing of day `d`.
visit : ℕ → Filing → ℕ → Found → Found
unfolding add_items
visit on f d s =
    let near = within on items_before_days items_after_days d in
    let registers = is_among f.form successor_forms in
    record {
      item_filed =
          if near && not registers && starts_with f.form (codes "8-K")
          then add_items d f.items s.item_filed
          else s.item_filed;
      successor =
          if near && registers
          then or_else s.successor (some (record { form = f.form; day = d }))
          else s.successor;
      merger =
          if within on merger_filing_before_days merger_filing_after_days d
            && is_among f.form merger_filing_forms
          then some (record { form = f.form; day = d })
          else s.merger;
      delist =
          if near && is_among f.form delist_forms
          then or_else s.delist (some (record { form = f.form; day = d }))
          else s.delist;
    }

-- A filing with no readable day is passed over.
visit_filing : ℕ → Filing → Found → Found
unfolding visit
visit_filing on f s = elim f.day [ none ↦ s | some d ↦ visit on f d s ]

scan : ℕ → List Filing → Found → Found
scan on [] s = s
scan on (f ∷ fs) s = scan on fs (visit_filing on f s)

-- A filing whose day cannot be read sorts first; it is passed over anyway.
abbrev pub filing_key : Filing → ℕ
filing_key f = elim f.day [ none ↦ 0 | some d ↦ d ]

abbrev pub nothing_found : Found
nothing_found = record { item_filed = []; successor = none; merger = none; delist = none }

pub signals :
    List Filing
    → ℕ
    → (trading_after : Bool) → (deficiency bankruptcy liquidation : Option Filed) → EraSignals
unfolding scan
signals filings on trading_after deficiency bankruptcy liquidation =
    let s = scan on (sorted_by filing_key filings) nothing_found in
    record {
      trading_after = trading_after;
      item_filed = s.item_filed;
      successor_filing = s.successor;
      merger_filing = s.merger;
      delist_filing = s.delist;
      deficiency_notice = deficiency;
      bankruptcy_filing = bankruptcy;
      survived = false;
      liquidation_notice = liquidation;
      successor_terms = none;
    }
