-- ===== src/Endings/LastTrade/Examples.antt =====
-- Inputs at which the theorems about endings/last_trade.py apply.
use delist_detection.Prelude.{◌≡◌, Option, none, some, [], Text, codes, arith}
use delist_detection.Vocabulary.ExitKind.Row.{last_sighting}
use delist_detection.Vocabulary.ExitKind.LastTrades.{LastTrade}
use delist_detection.Endings.LastTrade.{Reading, decide_last_trade}
use delist_detection.Endings.LastTrade.Priority.{IsDated, decide_last_trade-IsDated}
use delist_detection.Endings.LastTrade.Dating.{Form25}

-- A bare date in the notice, and an 8-K's stated close a day later.
abbrev bare_notice : Reading
bare_notice = record { day = some 739070; kind = codes "notice_a" }

abbrev at_close : Reading
at_close = record { day = some 739072; kind = codes "8k_close" }

decide_last_trade-IsDated_example :
    (lt : LastTrade) × (decide_last_trade bare_notice at_close none none ≡ some lt)
    × IsDated bare_notice at_close none none lt
decide_last_trade-IsDated_example =
    decide_last_trade-IsDated bare_notice at_close none none (λ h k. absurd (ground (arith, k)))

abbrev handoff_row : LastTrade
handoff_row = record {
  day = some 739073;
  source = last_sighting;
  flags = [];
  halt_feed_failed = [];
}

abbrev fetched : Text → Option Form25
fetched accession = some (record { rule = codes "12d2-2(a)(3)"; notice = bare_notice })
