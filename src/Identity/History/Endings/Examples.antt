-- ===== src/Identity/History/Endings/Examples.antt =====
-- A security that ends and the successor that takes its ticker, at which its history is tested.
use mathlib.Core.List.{Memᴰ}
use delist_detection.Prelude.{
  ℕ, ◌≡◌, refl, ap, true, false, none, some, List, [], ◌∷◌, Text, codes, str_eq, if◌then◌else◌,
}
use delist_detection.Vocabulary.CrspCodes.{merger}
use delist_detection.Vocabulary.ExitKind.Row.{midas}
use delist_detection.Vocabulary.ExitKind.LastTrades.{confirmed, end_day}
use delist_detection.Sources.Ftd.{FtdIndex, trading_rows}
use delist_detection.Identity.History.Backfill.{filtered_ticker_sightings}
use delist_detection.Identity.History.Ranges.{observation, is_observation, is_ftd, Sighting}
use delist_detection.Identity.History.Endings.{
  Ending, SecurityEnd, Security, Inputs, is_observed, final_ending, same_key, real,
  continuation_bucket, keeps_trading, window_from, window_to, set_start, endings, own, end_of,
  starts_of, before_start, successor_sightings,
}
use delist_detection.Identity.History.Endings.Final.{IsEndBy, end_of-IsEndBy}
use delist_detection.Identity.History.Endings.Successors.{starts_of-takes}

abbrev pub index : FtdIndex
index = record {
  rows_by_symbol = λ s. [];
  rows_by_cusip = λ c. [];
  aliases = λ s. none;
  dates = [];
  file_periods = [];
  window_end = none;
}

abbrev pub aon : Text
aon = codes "AON"

abbrev pub sighting : ℕ → Text → Sighting
sighting day value = record { day = day; value = value; source = observation }

abbrev pub ending : Ending
ending = record {
  sec_id = "OLD";
  delist_date = 735105;
  last_trade = record { day = some 735100; source = midas; flags = []; halt_feed_failed = [] };
  bucket = merger;
  successor = some "NEW";
  exchange = codes "NYSE";
}

abbrev pub security : List Sighting → Security
security sightings = record {
  own_tickers = aon ∷ [];
  sightings = sightings;
  cusips = [];
  listed = false;
  described_by = λ d. false;
}

abbrev pub inputs : Inputs
inputs = record {
  sec_ids = "OLD" ∷ "NEW" ∷ [];
  security = λ sid.
      if str_eq sid "OLD"
      then security (sighting 735000 aon ∷ sighting 735102 aon ∷ [])
      else security (sighting 735103 aon ∷ []);
  held = [];
  ftd = index;
  all_endings = ending ∷ [];
  added = λ sid. none;
}

pub starts_is : starts_of inputs "OLD" ≡ (aon, 735103) ∷ []
unfolding starts_of endings own filtered_ticker_sightings is_observation is_ftd window_from
    confirmed window_to before_start set_start
starts_is = refl

pub end_is : end_of inputs "OLD" ≡ record { day = some 735100; confirmed = true; listed = false }
unfolding end_of is_observed final_ending endings same_key real confirmed continuation_bucket
    keeps_trading trading_rows starts_of own filtered_ticker_sightings is_observation is_ftd
    window_from window_to set_start before_start end_day
end_is = refl

old_ends : (end_of inputs "OLD").day ≡ some 735100
old_ends = ap (λ (e : SecurityEnd). e.day) end_is

end_of-IsEndBy_example : IsEndBy inputs "OLD" (end_of inputs "OLD") 735100
end_of-IsEndBy_example = end_of-IsEndBy inputs "OLD" 735100 old_ends

starts_of-takes_example : before_start (starts_of inputs "OLD") aon 735103 ≡ false
unfolding endings is_observed successor_sightings own filtered_ticker_sightings is_observation
    is_ftd window_from window_to confirmed
starts_of-takes_example =
    starts_of-takes inputs "OLD" ending "NEW" (sighting 735103 aon) (Memᴰ.head refl) refl
      (refl, refl) (Memᴰ.head refl) refl
