-- ===== src/Outputs/Verdict/Securities.antt =====
-- The reasons for which a security is uncertain: `_security_verdicts` of outputs/verdict.py.
pub mod Placed
pub mod Clashes
mod Examples
use delist_detection.Prelude.{
  ℕ, ◌+◌, Bool, true, false, not, ◌&&◌, ◌||◌, Option, none, some, List, [], ◌∷◌, ◌++◌, String,
  str_eq, Text, reverse, length, is_among, text_eq, text_le, any, filter, map, sort_with, leb, ◌==◌,
  or_else, max, min, if◌then◌else◌,
}
use delist_detection.Days.{isoformat}
use delist_detection.Vocabulary.ExitKind.Row.{Row}
use delist_detection.Vocabulary.ExitKind.Kinds.{is_continuation, is_real_ending}
use delist_detection.Vocabulary.ExitKind.LastTrades.{end_day_of}
use delist_detection.Outputs.Verdict.{EndingRow, Interval, covered, own_form25, is_blank}

abbrev pub stale_seed_days : ℕ
stale_seed_days = 365

-- `text.split(c, 1)`
before_first : ℕ → Text → Text
before_first c [] = []
before_first c (d ∷ s) = let rest = before_first c s in if d == c then [] else d ∷ rest

after_first : ℕ → Text → Option Text
after_first c [] = none
after_first c (d ∷ s) = let rest = after_first c s in if d == c then some s else rest

pub is_introduction : (as_of : ℕ) → (era : Text) → Bool
unfolding before_first after_first
is_introduction as_of era =
    text_eq (isoformat as_of)
      (before_first b'#' (elim (after_first b'@' era) [ none ↦ era | some rest ↦ rest ]))

-- A row of securities.csv; a figi_source is the placeholder's or another.
pub record SecurityRow : Type 0 where
  pub sec_id : String
  pub is_placeholder : Bool
  pub issuer_cik : Text
  pub observed : Bool

pub record TickerRow : Type 0 where
  pub sec_id : String
  pub ticker : Text
  pub interval : Interval

-- A row of observation_map.csv: its security, or none, and whether its status is after_delisting.
pub record Seed : Type 0 where
  pub sec_id : Option String
  pub as_of : ℕ
  pub era : Text
  pub after_delisting : Bool

-- A row of delistings.csv with its ticker's successor; `doubted` is what `_doubted_ending` answers, which
-- compares floats.
pub record Delisted : Type 0 where
  pub ending : EndingRow
  pub ticker_successor_sec_id : String
  pub doubted : Bool

-- `_within_days`
pub within_days : ℕ → Row → Bool
within_days as_of row = leb (end_day_of row) as_of && leb as_of (end_day_of row + stale_seed_days)

-- `_stale_seed`, of the security's last ending and whether its own reasons are none.
pub stale_seed : Seed → Option (Delisted × Bool) → Bool
unfolding within_days
stale_seed seed none = false
stale_seed seed (some (last, settled)) =
    seed.after_delisting
    && (settled
        && (not (is_continuation last.ending.row)
            && (own_form25 last.ending
                && (not last.doubted && within_days seed.as_of last.ending.row))))

-- `r["sec_id"] == sid`
pub is_of : String → Seed → Bool
is_of sid seed = elim seed.sec_id [ none ↦ false | some s ↦ str_eq s sid ]

pub intervals_of : String → List TickerRow → List Interval
intervals_of sid rows = map (λ r. r.interval) (filter (λ r. str_eq r.sec_id sid) rows)

-- A seed of the security that counts against it.
pub is_outside : String → List TickerRow → Option (Delisted × Bool) → Seed → Bool
unfolding is_of intervals_of stale_seed
is_outside sid rows settled seed =
    is_of sid seed
    && (is_introduction seed.as_of seed.era
        && (not (covered (intervals_of sid rows) seed.as_of) && not (stale_seed seed settled)))

-- A delisting hands the ticker of one security to the other: `linked`.
names_pair : String → String → String → String → Bool
names_pair a b s other =
    not (str_eq other "")
    && (not (str_eq other s) && (str_eq s a && str_eq other b || str_eq s b && str_eq other a))

pub linked : List Delisted → String → String → Bool
unfolding names_pair
linked delistings a b =
    any
      (λ d.
        names_pair a b d.ending.row.sec_id d.ending.row.successor_sec_id
        || names_pair a b d.ending.row.sec_id d.ticker_successor_sec_id)
      delistings

-- `not r["valid_to"] or day <= r["valid_to"]`
holds_to : Interval → ℕ → Bool
holds_to i day = elim i.valid_to [ none ↦ true | some to ↦ leb day to ]

meets : Interval → Interval → Bool
unfolding holds_to
meets a b = holds_to b a.valid_from && holds_to a b.valid_from

-- Two rows of one ticker of two securities that no ending links, over a common day.
pub clashes : List Delisted → TickerRow → TickerRow → Bool
unfolding meets
clashes delistings a b =
    text_eq a.ticker b.ticker
    && (not (str_eq a.sec_id b.sec_id)
        && (not (linked delistings a.sec_id b.sec_id) && meets a.interval b.interval))

-- The two securities have rows of the ticker that clash.
pub shares : List Delisted → List TickerRow → String → String → Text → Bool
unfolding clashes
shares delistings rows sid other ticker =
    any
      (λ a.
        str_eq a.sec_id sid
        && (text_eq a.ticker ticker
            && any (λ b. str_eq b.sec_id other && clashes delistings a b) rows))
      rows

-- Texts in the order of their first places, each once.
pub in_order : List Text → List Text
in_order [] = []
in_order (t ∷ ts) = t ∷ filter (λ u. not (text_eq u t)) (in_order ts)

-- `overlaps[sid].get(other)`: the last ticker they share.
pub last_shared : List Delisted → List TickerRow → String → String → List Text → Option Text
unfolding shares
last_shared delistings rows sid other [] = none
last_shared delistings rows sid other (t ∷ ts) =
    or_else (last_shared delistings rows sid other ts)
      (if shares delistings rows sid other t then some t else none)

-- `overlaps[sid].values()`, an other security's ticker once for each of its rows.
pub overlapping_in : List Delisted → String → List TickerRow → List TickerRow → List Text
unfolding in_order last_shared
overlapping_in delistings sid rows [] = []
overlapping_in delistings sid rows (r ∷ rs) =
    let rest = overlapping_in delistings sid rows rs in
    elim (last_shared delistings rows sid r.sec_id (in_order (map (λ x. x.ticker) rows))) [
      | none ↦ rest
      | some t ↦ t ∷ rest
    ]

pub overlapping : List Delisted → String → List TickerRow → List Text
unfolding overlapping_in
overlapping delistings sid rows = overlapping_in delistings sid rows rows

pub data SecurityReason : Type 0 where
  placeholder_without_ticker_filing : Text → SecurityReason
  issuer_unresolved : SecurityReason
  seeds_outside_history : ℕ → ℕ → SecurityReason
  ticker_overlap : Text → SecurityReason
  closed_no_event : ℕ → SecurityReason
  open_under_bankruptcy_ticker : Text → SecurityReason

pub raised_if : Bool → SecurityReason → List SecurityReason
raised_if b r = if b then r ∷ [] else []

-- The texts in order, each once.
pub distinct : List Text → List Text
distinct [] = []
distinct (t ∷ ts) = let rest = distinct ts in if is_among t rest then rest else t ∷ rest

pub sorted_set : List Text → List Text
unfolding distinct
sorted_set ts = sort_with text_le (distinct ts)

-- How many the seeds outside the history are, and the day of the first.
pub outside_reasons : List Seed → List SecurityReason
outside_reasons [] = []
outside_reasons (s ∷ ss) = seeds_outside_history (length (s ∷ ss)) (first s ss) ∷ []
  where
    first : Seed → List Seed → ℕ
    first s [] = s.as_of
    first s (t ∷ ts) = min s.as_of (first t ts)

-- The last of the intervals' ends; none where one is open.
later_end : Option ℕ → Option ℕ → Option ℕ
later_end none rest = none
later_end (some to) none = none
later_end (some to) (some later) = some (max to later)

pub last_end : List Interval → Option ℕ
unfolding later_end
last_end [] = some 0
last_end (i ∷ is) = later_end i.valid_to (last_end is)

pub closed_by : Option ℕ → List SecurityReason
closed_by none = []
closed_by (some end) = closed_no_event end ∷ []

-- `_closed_without_ending`
pub closed_without_ending : SecurityRow → List Interval → List Delisted → List SecurityReason
unfolding last_end closed_by
closed_without_ending s [] endings = []
closed_without_ending s (i ∷ is) endings =
    if not s.observed || any (λ d. is_real_ending d.ending.row) endings
    then []
    else closed_by (last_end (i ∷ is))

is_letter : ℕ → Bool
is_letter c = leb 65 c && leb c 90 || leb 97 c && leb c 122

ends_in_q : Text → Bool
ends_in_q t = elim (reverse t) [ [] ↦ false | c ∷ _ ↦ c == b'Q' ]

is_bankruptcy_symbol : Text → Bool
unfolding is_letter ends_in_q
is_bankruptcy_symbol t = (length t == 5) && (ends_in_q t && not (any (λ c. not (is_letter c)) t))

pub is_open : Interval → Bool
is_open i = elim i.valid_to [ none ↦ true | some to ↦ false ]

pub bankruptcy_reasons : SecurityRow → List TickerRow → List SecurityReason
unfolding is_open is_bankruptcy_symbol sorted_set
bankruptcy_reasons s rows =
    if s.observed
    then map open_under_bankruptcy_ticker (
        filter is_bankruptcy_symbol
          (sorted_set (map (λ r. r.ticker) (filter (λ r. is_open r.interval) rows))))
    else []

-- The tables a run's verdicts read of securities, and what ties each placeholder's ticker to its CIK.
pub record Tables : Type 0 where
  pub ticker_history : List TickerRow
  pub observation_map : List Seed
  pub delistings : List Delisted
  pub has_evidence : String → Bool
  pub settled : String → Option (Delisted × Bool)

pub security_reasons : Tables → SecurityRow → List SecurityReason
unfolding sorted_set
security_reasons t s =
    let own = filter (λ r. str_eq r.sec_id s.sec_id) t.ticker_history in
    let endings = filter (λ d. str_eq d.ending.row.sec_id s.sec_id) t.delistings in
    raised_if (s.is_placeholder && not (t.has_evidence s.sec_id))
      (placeholder_without_ticker_filing s.issuer_cik)
    ++ (raised_if (s.observed && (not s.is_placeholder && is_blank s.issuer_cik)) issuer_unresolved
        ++ (outside_reasons
              (filter (is_outside s.sec_id t.ticker_history (t.settled s.sec_id)) t.observation_map)
            ++ (map ticker_overlap (sorted_set (overlapping t.delistings s.sec_id t.ticker_history))
                ++ (closed_without_ending s (map (λ r. r.interval) own) endings
                    ++ bankruptcy_reasons s own))))
