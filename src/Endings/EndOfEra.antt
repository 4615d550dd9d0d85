-- ===== src/Endings/EndOfEra.antt =====
-- endings/end_of_era.py: what happened to a security whose registrant kept filing after it stopped
-- trading. A filing's day is what `_day` reads of its filing_date (`none`: no day), and the filings are
-- sorted by it: EDGAR's filing dates are ISO texts, whose order is the days' order, and a filing whose
-- day cannot be read is skipped wherever it stands.
pub mod Signals
pub mod Resolve
mod Examples
