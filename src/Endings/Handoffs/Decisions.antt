-- ===== src/Endings/Handoffs/Decisions.antt =====
-- issuer_carries_on and decide_handoff of endings/handoffs.py. Whether the price carried over
-- (`price_carried` of the switch's price ratio, a comparison of floats) is given.
use delist_detection.Prelude.{
  ℕ, ◌+◌, ◌≤◌, ◌<◌, ◌≡◌, refl, ◌⊎◌, inl, inr, Bool, true, false, not, ◌&&◌, ◌||◌, Option, none,
  some, List, [], ◌∷◌, ◌++◌, String, Text, codes, str_eq, ◌==◌, any, is_some, strip_spaces, arith,
  Bool-cases, Option-cases, if◌then◌else◌,
}
use delist_detection.Vocabulary.ExitKind.Reasons.{timing_cik}
use delist_detection.Endings.Handoffs.{
  HandoffPair, Filing, continuation_days, issuer_age_days, at_most, more_than, within,
}

abbrev pub timing_cusip : Text
timing_cusip = codes "timing:cusip"

-- A security of the run: its issuer, and its first sighting.
pub record Issued : Type 0 where
  pub sec_id : String
  pub issuer_cik : Option ℕ
  pub first_seen : Option ℕ

issuer_of : List Issued → String → Option (Option ℕ)
issuer_of [] sec_id = none
issuer_of (s ∷ ss) sec_id =
    let rest = issuer_of ss sec_id in if str_eq s.sec_id sec_id then some s.issuer_cik else rest

is_issuer : Option ℕ → ℕ → Bool
is_issuer none cik = false
is_issuer (some c) cik = c == cik

-- Another line of A's issuer starts near A's last sighting.
starts_near : HandoffPair → ℕ → Issued → Bool
unfolding is_issuer
starts_near pair cik s =
    is_issuer s.issuer_cik cik
    && not (str_eq s.sec_id pair.a || str_eq s.sec_id pair.b)
    && elim s.first_seen [ none ↦ false | some first ↦ within continuation_days pair.a_last first ]

carries_on_by : HandoffPair → List Issued → Option (Option ℕ) → Option (Option ℕ) → Bool
unfolding starts_near is_issuer
carries_on_by pair securities (some (some cik)) (some b) =
    not (is_issuer b cik) && any (starts_near pair cik) securities
carries_on_by pair securities _ _ = false

pub issuer_carries_on : HandoffPair → List Issued → Bool
unfolding carries_on_by issuer_of
issuer_carries_on pair securities =
    carries_on_by pair securities (issuer_of securities pair.a) (issuer_of securities pair.b)

pub data Kind : Type 0 where
  continuation takeover : Kind

pub record HandoffDecision : Type 0 where
  pub pair : HandoffPair
  pub kind : Kind
  pub evidence : Text
  pub by_filing : Bool

-- What `decide_handoff` is told of the pair.
pub record Facts : Type 0 where
  pub filing : Option Filing
  pub same_issuer : Bool
  pub cusip_switch : Bool
  pub issuer_carries_on : Bool
  pub b_issuer_since : Option ℕ
  pub carried : Bool

pub lived_on : HandoffPair → Bool
unfolding more_than
lived_on pair = elim pair.a_last_any [
  | none ↦ false
  | some last ↦ more_than continuation_days pair.a_last last
]

pub existed : HandoffPair → Bool
unfolding more_than
existed pair = more_than continuation_days pair.b_first_any pair.a_last

pub is_older : HandoffPair → Facts → Bool
unfolding more_than
is_older pair f = not f.same_issuer && elim f.b_issuer_since [
  | none ↦ false
  | some since ↦ more_than issuer_age_days since pair.a_last
]

-- Rule 2.
pub continues_by_timing : HandoffPair → Facts → Bool
unfolding existed lived_on within
continues_by_timing pair f =
    within continuation_days pair.a_last pair.b_first
    && not (existed pair)
    && not (lived_on pair)
    && not f.issuer_carries_on
    && (f.same_issuer || f.cusip_switch && f.carried)

-- `f"{form} {accession}".strip()`
filing_text : Filing → Text
filing_text f = strip_spaces (f.form ++ (codes " " ++ f.accession))

-- Rules 2 to 4.
by_timing : HandoffPair → Facts → Option HandoffDecision
unfolding continues_by_timing existed is_older
by_timing pair f =
    if continues_by_timing pair f
    then some (record {
      pair = pair;
      kind = continuation;
      evidence = if f.same_issuer then timing_cik else timing_cusip;
      by_filing = false;
    })
    else if existed pair || is_older pair f
    then some (record {
      pair = pair;
      kind = takeover;
      evidence = if existed pair then codes "timing" else codes "timing:issuer";
      by_filing = false;
    })
    else none

-- Rule 1, then the others.
decided_by : HandoffPair → Facts → Option Filing → Option HandoffDecision
unfolding lived_on filing_text by_timing
decided_by pair f none = by_timing pair f
decided_by pair f (some filing) =
    if lived_on pair
    then by_timing pair f
    else some (record {
      pair = pair;
      kind = continuation;
      evidence = filing_text filing;
      by_filing = true;
    })

pub decide_handoff : HandoffPair → Facts → Option HandoffDecision
unfolding decided_by
decide_handoff pair f = decided_by pair f f.filing

-- What a decision of its kind rests on. By timing, A's last and B's first day are at most 10 days apart and B
-- was seen under no ticker more than 10 days before A's last; a takeover's B was, or B's issuer is another one
-- that filed more than a year before A's last day.
abbrev pub IsDecided : HandoffPair → Facts → HandoffDecision → Kind → Bool → Type 0
IsDecided pair f d continuation true = (lived_on pair ≡ false) × (is_some f.filing ≡ true)
IsDecided pair f d continuation false =
    (lived_on pair ≡ false)
    × (pair.a_last ≤ pair.b_first + 10)
    × (pair.b_first ≤ pair.a_last + 10)
    × (pair.a_last ≤ pair.b_first_any + 10)
    × (f.issuer_carries_on ≡ false)
    × ((f.same_issuer ≡ true) ⊎ ((f.cusip_switch ≡ true) × (f.carried ≡ true)))
IsDecided pair f d takeover true = ⊥
IsDecided pair f d takeover false =
    (pair.b_first_any + 10 < pair.a_last)
    ⊎ ((f.same_issuer ≡ false)
        × ((since : ℕ) × (f.b_issuer_since ≡ some since) × (since + 365 < pair.a_last)))

-- A pair is decided on what its kind needs; an undecided one has neither, and no filing but for an A that
-- lived on.
abbrev pub IsDecision : HandoffPair → Facts → Option HandoffDecision → Type 0
IsDecision pair f none =
    (continues_by_timing pair f ≡ false)
    × (existed pair ≡ false)
    × (is_older pair f ≡ false)
    × ((is_some f.filing && not (lived_on pair)) ≡ false)
IsDecision pair f (some d) = (d.pair ≡ pair) × IsDecided pair f d d.kind d.by_filing

existed-lt : (pair : HandoffPair) → existed pair ≡ true → pair.b_first_any + 10 < pair.a_last
unfolding existed more_than
existed-lt pair h = ground arith

older-since :
    (pair : HandoffPair) (f : Facts)
    → is_older pair f ≡ true
    → (f.same_issuer ≡ false)
      × ((since : ℕ) × (f.b_issuer_since ≡ some since) × (since + 365 < pair.a_last))
unfolding is_older more_than
older-since pair f h = elim (Option-cases f.b_issuer_since) [
  | inl off ↦ absurd (ground (arith, h, off))
  | inr (since, on) ↦ (ground arith, (since, on, ground (arith, h, on)))
]

timing-IsDecided :
    (pair : HandoffPair) (f : Facts)
    → continues_by_timing pair f ≡ true
    → (lived_on pair ≡ false)
      × (pair.a_last ≤ pair.b_first + 10)
      × (pair.b_first ≤ pair.a_last + 10)
      × (pair.a_last ≤ pair.b_first_any + 10)
      × (f.issuer_carries_on ≡ false)
      × ((f.same_issuer ≡ true) ⊎ ((f.cusip_switch ≡ true) × (f.carried ≡ true)))
unfolding continues_by_timing within at_most existed more_than
timing-IsDecided pair f h = (
  ground arith,
  ground arith,
  ground arith,
  ground arith,
  ground arith,
  elim (Bool-cases f.same_issuer) [
    | inl same ↦ inl same
    | inr other ↦ inr (ground arith, ground arith)
  ],
)

by_timing-IsDecision :
    (pair : HandoffPair) (f : Facts)
    → (is_some f.filing && not (lived_on pair)) ≡ false
    → IsDecision pair f (by_timing pair f)
unfolding by_timing
by_timing-IsDecision pair f unfiled = elim (Bool-cases (continues_by_timing pair f)) [
  | inl on ↦ rw (on, by_timing) (refl, timing-IsDecided pair f on)
  | inr off ↦ elim (Bool-cases (existed pair)) [
    | inl before ↦ rw (off, by_timing, before) (refl, inl (existed-lt pair before))
    | inr new ↦ elim (Bool-cases (is_older pair f)) [
      | inl old ↦ rw (off, by_timing, new, old) (refl, inr (older-since pair f old))
      | inr young ↦ rw (off, by_timing, new, young) (off, new, young, unfiled)
    ]
  ]
]

decided_by-lived :
    (pair : HandoffPair) (f : Facts) (filing : Filing)
    → lived_on pair ≡ true
    → decided_by pair f (some filing) ≡ by_timing pair f
unfolding decided_by
decided_by-lived pair f filing h = rw (h, decided_by) refl

decided_by-IsDecision :
    (pair : HandoffPair) (f : Facts) (o : Option Filing)
    → f.filing ≡ o
    → IsDecision pair f (decided_by pair f o)
unfolding decided_by
decided_by-IsDecision pair f none off = by_timing-IsDecision pair f (ground (arith, off))
decided_by-IsDecision pair f (some filing) on = elim (Bool-cases (lived_on pair)) [
  | inl lived ↦
      rw (decided_by-lived pair f filing lived)
        (by_timing-IsDecision pair f (ground (arith, lived)))
  | inr ended ↦ rw (ended, decided_by) (refl, (ended, ground (arith, on)))
]

-- What a pair is. A security that lived on under another ticker is continued by none. A continuation by filing has
-- a filing. One by timing has A's last and B's first day under the ticker at most 10 days apart, a B seen under no ticker
-- more than 10 days before A's last, no other line that A's issuer carries on in, and one issuer, or a CUSIP
-- switch at a price that carried over. A takeover's B was seen before, or its issuer is another one
-- that filed more than 365 days before A's last day. A pair that is nothing is none of these.
pub decide_handoff-IsDecision :
    (pair : HandoffPair) (f : Facts) → IsDecision pair f (decide_handoff pair f)
unfolding decide_handoff
decide_handoff-IsDecision pair f = decided_by-IsDecision pair f f.filing refl
