-- ===== src/Identity/History/Statuses/Examples.antt =====
-- An observation behind its security's end.

use delist_detection.Prelude.{◌<◌, ◌≡◌, ap, true, false, some, []}
use delist_detection.Vocabulary.ExitKind.LastTrades.{confirmed, end_day}
use delist_detection.Identity.History.Endings.{Ending, SecurityEnd, end_of}
use delist_detection.Identity.History.Endings.Final.{IsLast}
use delist_detection.Identity.History.Statuses.{
  observation_status, after_delisting, observation_status-after_delisting,
}
use delist_detection.Identity.History.Endings.Examples.{aon, index, inputs, end_is}

after_is :
    observation_status 735104 aon (some "OLD") (end_of inputs "OLD") false [] index
    ≡ after_delisting
unfolding observation_status
after_is =
    ap (λ (e : SecurityEnd). observation_status 735104 aon (some "OLD") e false [] index) end_is

observation_status-after_delisting_example :
    (e : Ending) × IsLast inputs "OLD" e
    × (confirmed e.last_trade ≡ true)
    × (end_day e.last_trade e.delist_date < 735104)
observation_status-after_delisting_example =
    observation_status-after_delisting inputs "OLD" 735104 aon false after_is
