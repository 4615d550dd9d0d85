-- ===== src/Endings/LastTrade/Priority.antt =====
-- What decide_last_trade of endings/last_trade.py takes of its sources.
use delist_detection.Prelude.{
  ℕ, ◌≤◌, ◌≡◌, refl, Bool, true, false, not, ◌&&◌, ◌||◌, Option, none, some, List, [], ◌∷◌, inl,
  inr, arith, Text, is_among, ◌==◌, is_some, Bool-cases, Option-cases,
}
use delist_detection.Vocabulary.ExitKind.Row.{Source, midas, nasdaq_halt, ex99_notice, eightk_301}
use delist_detection.Vocabulary.ExitKind.LastTrades.{LastTrade, unconfirmed, conflict, confirmed}
use delist_detection.Vocabulary.TradingCalendar.{previous_trading_day}
use delist_detection.Vocabulary.TradingCalendar.Steps.{previous_trading_day-some}
use delist_detection.Endings.LastTrade.{
  Reading, pick, disagrees, text_days, halted, by_notice, by_texts, is_sure, decide_last_trade,
  halt_at_open_kinds, bare_notice_kinds, explicit_kinds,
}

-- The source's day is the one that source states, and no stronger source than a text's stands over it.
abbrev pub IsStated : Reading → Reading → Option ℕ → Option ℕ → Source → ℕ → Type 0
IsStated notice eightk volume halt midas d = volume ≡ some d
IsStated notice eightk volume halt nasdaq_halt d = (volume ≡ none) × (halt ≡ some d)
IsStated notice eightk volume halt ex99_notice d =
    (volume ≡ none) × (halt ≡ none) × (notice.day ≡ some d)
IsStated notice eightk volume halt eightk_301 d = (volume ≡ none) × (eightk.day ≡ some d)
IsStated notice eightk volume halt _ d = ⊥

-- A dated answer has a stated day, confirmed exactly as `sure` says, and flagged as a conflict exactly when
-- a text states another; an undated one had no source at all.
abbrev IsDatedBy : Reading → Reading → Option ℕ → Option ℕ → Bool → LastTrade → Option ℕ → Type 0
IsDatedBy notice eightk volume halt sure lt none =
    (volume ≡ none) × (halt ≡ none) × (notice.day ≡ none) × (eightk.day ≡ none)
IsDatedBy notice eightk volume halt sure lt (some d) =
    IsStated notice eightk volume halt lt.source d
    × (confirmed lt ≡ sure)
    × (is_among conflict lt.flags ≡ disagrees (text_days notice eightk) d)

-- A measured day is sure; of the texts, one whose wording is sure.
abbrev pub is_measured_or_sure : Reading → Reading → Option ℕ → Option ℕ → Bool
is_measured_or_sure notice eightk volume halt =
    is_some volume
    || is_some halt
    || is_some notice.day && is_sure notice.kind
    || is_some eightk.day && is_sure eightk.kind

abbrev pub IsDated : Reading → Reading → Option ℕ → Option ℕ → LastTrade → Type 0
IsDated notice eightk volume halt lt =
    IsDatedBy notice eightk volume halt (is_measured_or_sure notice eightk volume halt) lt lt.day

pick-confirmed :
    (texts : List ℕ) (d : ℕ) (source : Source)
    → (confirmed (pick texts d source []) ≡ true)
      × (confirmed (pick texts d source (unconfirmed ∷ [])) ≡ false)
unfolding pick confirmed
pick-confirmed texts d source = elim (Bool-cases (disagrees texts d)) [
  | inl h ↦ rw (h) (refl, refl)
  | inr h ↦ rw (h) (refl, refl)
]

pick-conflict :
    (texts : List ℕ) (d : ℕ) (source : Source)
    → (is_among conflict (pick texts d source []).flags ≡ disagrees texts d)
      × (is_among conflict (pick texts d source (unconfirmed ∷ [])).flags ≡ disagrees texts d)
unfolding pick
pick-conflict texts d source = elim (Bool-cases (disagrees texts d)) [
  | inl h ↦ rw (h) (refl, refl)
  | inr h ↦ rw (h) (refl, refl)
]

module _ (notice eightk : Reading) (volume halt : Option ℕ) (lt : LastTrade) where
  pick-IsDated :
      (d : ℕ) (source : Source)
      → lt ≡ pick (text_days notice eightk) d source []
      → IsStated notice eightk volume halt source d
      → is_measured_or_sure notice eightk volume halt ≡ true
      → IsDated notice eightk volume halt lt
  unfolding pick
  pick-IsDated d source e stated sure =
      rw (e, sure)
        (
          stated,
          (pick-confirmed (text_days notice eightk) d source).0,
          (pick-conflict (text_days notice eightk) d source).0,
        )

  pick-IsDated_unsure :
      (d : ℕ) (source : Source)
      → lt ≡ pick (text_days notice eightk) d source (unconfirmed ∷ [])
      → IsStated notice eightk volume halt source d
      → is_measured_or_sure notice eightk volume halt ≡ false
      → IsDated notice eightk volume halt lt
  unfolding pick
  pick-IsDated_unsure d source e stated unsure =
      rw (e, unsure)
        (
          stated,
          (pick-confirmed (text_days notice eightk) d source).1,
          (pick-conflict (text_days notice eightk) d source).1,
        )

abbrev said : Option ℕ → Text → Reading
said day kind = record { day = day; kind = kind }

-- What the texts alone give.
abbrev told : Option ℕ → Option ℕ → Text → Text → LastTrade
told n e sort kind = by_texts (text_days (said n sort) (said e kind)) (said n sort) (said e kind)

notice-IsDated :
    (n : ℕ) (e : Option ℕ) (sort kind : Text)
    → is_sure sort ≡ true
    → IsDated (said (some n) sort) (said e kind) none none (told (some n) e sort kind)
unfolding by_texts by_notice
notice-IsDated n none sort kind sure =
    pick-IsDated (said (some n) sort) (said none kind) none none (told (some n) none sort kind) n
      ex99_notice (rw sure refl) (refl, refl, refl) (rw sure refl)
notice-IsDated n (some e) sort kind sure =
    elim (Bool-cases
      (is_among sort bare_notice_kinds && is_among kind explicit_kinds && not (e == n))) [
        | inl gives ↦
            pick-IsDated (said (some n) sort) (said (some e) kind) none none
              (told (some n) (some e) sort kind) e eightk_301 (rw (sure, gives) refl) (refl, refl)
              (rw sure refl)
        | inr keeps ↦
            pick-IsDated (said (some n) sort) (said (some e) kind) none none
              (told (some n) (some e) sort kind) n ex99_notice (rw (sure, keeps) refl)
              (refl, refl, refl) (rw sure refl)
      ]

told-IsDated :
    (n e : Option ℕ) (sort kind : Text)
    → IsDated (said n sort) (said e kind) none none (told n e sort kind)
unfolding by_texts
told-IsDated none none sort kind = (refl, refl, refl, refl)
told-IsDated none (some e) sort kind = elim (Bool-cases (is_sure kind)) [
  | inl sure ↦
      pick-IsDated (said none sort) (said (some e) kind) none none (told none (some e) sort kind) e
        eightk_301 (rw sure refl) (refl, refl) (rw sure refl)
  | inr unsure ↦
      pick-IsDated_unsure (said none sort) (said (some e) kind) none none
        (told none (some e) sort kind) e eightk_301 (rw unsure refl) (refl, refl) (rw unsure refl)
]
told-IsDated (some n) none sort kind = elim (Bool-cases (is_sure sort)) [
  | inl sure ↦ notice-IsDated n none sort kind sure
  | inr unsure ↦
      pick-IsDated_unsure (said (some n) sort) (said none kind) none none
        (told (some n) none sort kind) n ex99_notice (rw unsure refl) (refl, refl, refl)
        (rw unsure refl)
]
told-IsDated (some n) (some e) sort kind = elim (Bool-cases (is_sure sort)) [
  | inl sure ↦ notice-IsDated n (some e) sort kind sure
  | inr unsure ↦ elim (Bool-cases (is_sure kind)) [
    | inl sure ↦
        pick-IsDated (said (some n) sort) (said (some e) kind) none none
          (told (some n) (some e) sort kind) e eightk_301 (rw (unsure, sure) refl) (refl, refl)
          (rw (unsure, sure) refl)
    | inr not_sure ↦
        pick-IsDated_unsure (said (some n) sort) (said (some e) kind) none none
          (told (some n) (some e) sort kind) n ex99_notice (rw (unsure, not_sure) refl)
          (refl, refl, refl) (rw (unsure, not_sure) refl)
  ]
]

-- The 8-K's day where it is the trading day before the halt, and the halt's day else.
halted-IsDated :
    (n e : Option ℕ) (sort kind : Text) (h : ℕ)
    → is_some (previous_trading_day h) ≡ true
    → (lt : LastTrade) × (halted (text_days (said n sort) (said e kind)) (said e kind) h ≡ some lt)
      × IsDated (said n sort) (said e kind) none (some h) lt
unfolding halted
halted-IsDated n none sort kind h past =
    let texts = text_days (said n sort) (said none kind) in
    let lt = pick texts h nasdaq_halt [] in
    (
      lt,
      refl,
      pick-IsDated (said n sort) (said none kind) none (some h) lt h nasdaq_halt refl (refl, refl)
          refl,
    )
halted-IsDated n (some e) sort kind h past =
    let texts = text_days (said n sort) (said (some e) kind) in
    let lt = pick texts h nasdaq_halt [] in
    let at_open = pick texts e eightk_301 [] in
    let own : IsDated (said n sort) (said (some e) kind) none (some h) lt =
      pick-IsDated (said n sort) (said (some e) kind) none (some h) lt h nasdaq_halt refl
        (refl, refl) refl in
    elim (Bool-cases (is_among kind halt_at_open_kinds)) [
      | inr other ↦ (lt, rw (other, halted) refl, own)
      | inl opens ↦ elim (Option-cases (previous_trading_day h)) [
        | inl first ↦ absurd (ground (arith, past, first))
        | inr (p, before) ↦ elim (Bool-cases (e == p)) [
          | inl meets ↦ (
            at_open,
            rw (opens, before, meets, halted) refl,
            pick-IsDated (said n sort) (said (some e) kind) none (some h) at_open e eightk_301 refl
                (refl, refl) refl,
          )
          | inr apart ↦ (lt, rw (opens, before, apart, halted) refl, own)
        ]
      ]
    ]

-- The last trade that the sources give. For a halt of 0001-01-03 or later there is one; its day
-- is MIDAS's where MIDAS has one, the halt's or the 8-K's where there is a halt, and a text's else. It is
-- confirmed exactly when MIDAS or a halt gave one or a text says it with sure words, it is flagged as a conflict exactly
-- when a text states another day, and it has no day only where no source had one.
pub decide_last_trade-IsDated :
    (notice eightk : Reading) (volume halt : Option ℕ)
    → ((h : ℕ) → halt ≡ some h → 3 ≤ h)
    → (lt : LastTrade) × (decide_last_trade notice eightk volume halt ≡ some lt)
      × IsDated notice eightk volume halt lt
unfolding decide_last_trade
decide_last_trade-IsDated notice eightk (some m) halt past = (
  _,
  refl,
  pick-IsDated notice eightk (some m) halt (pick (text_days notice eightk) m midas []) m midas refl
      refl refl,
)
decide_last_trade-IsDated notice eightk none (some h) past =
    halted-IsDated notice.day eightk.day notice.kind eightk.kind h
      (previous_trading_day-some h (past h refl))
decide_last_trade-IsDated notice eightk none none past =
    (_, refl, told-IsDated notice.day eightk.day notice.kind eightk.kind)
