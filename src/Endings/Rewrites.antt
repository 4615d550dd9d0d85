-- ===== src/Endings/Rewrites.antt =====
-- endings/rewrites.py: the one owner of a delisting's kind and successor after its record is built. A
-- function that changes its delisting in place returns the new one; one that raises has changed nothing
-- before, so its error carries no state. `MergerValues` is seen as the keys that it holds reads for.
pub mod Flags
pub mod Kinds
pub mod Steps
pub mod GoingOn
mod Examples
use delist_detection.Prelude.{
  ℕ, ◌+◌, String, Bool, true, false, not, ◌&&◌, ◌||◌, Option, none, some, List, [], ◌∷◌, ◌++◌, Text,
  codes, text_eq, is_among, ◌==◌, str_eq, filter, is_some, or_else, if◌then◌else◌,
}
use delist_detection.Vocabulary.CrspCodes.{
  CrspBucket, bucket_for_code, is_bucket, exchange_transfer, merger, unknown, continuation_code,
}
use delist_detection.Vocabulary.ExitKind.Flags.{flag_name}

abbrev pub successor_unknown : Text
successor_unknown = codes "successor_unknown"

abbrev pub no_evidence_default : Text
no_evidence_default = codes "no_evidence_default"

-- `GATE_FLAGS`
abbrev pub gate_flags : List Text
gate_flags =
    codes "payout_gate_failed"
    ∷ codes "llm_gate_failed"
    ∷ codes "terms_gate_failed"
    ∷ codes "terms_gate_skipped"
    ∷ []

-- `PAYOUT_FLAGS`
abbrev payout_flags : List Text
payout_flags =
    gate_flags
    ++ codes "llm_election_package"
      ∷ codes "election_no_default"
      ∷ codes "merger_at_par"
      ∷ codes "acquirer_close_lagged"
      ∷ codes "contingent_right_unvalued"
      ∷ codes "closing_dividend_unstated"
      ∷ []

abbrev pub merger_flags : List Text
merger_flags = payout_flags ++ codes "handoff_unchecked" ∷ []

pub data Rule : Type 0 where
  issuer_move continued trades_on r1 line_follow successor_link handoff : Rule
  plan_bankruptcy price_deficiency moved_otc midas_drop : Rule

pub record Rewrite : Type 0 where
  pub rule : Rule
  pub successor : String
  pub how : Text
  pub evidence : Text
  pub successor_from : Text

-- What rewrites read and write of a `Delisting` and its record: `flags` is `evidence["flags"]`.
pub record Delisting : Type 0 where
  pub sec_id : String
  pub delist_date : ℕ
  pub crsp_code : Option ℕ
  pub bucket : CrspBucket
  pub confidence : Text
  pub reason : Text
  pub successor_sec_id : Option String
  pub flags : List Text
  pub rewrites : List Rewrite

-- `DelistingKey`
abbrev pub Key : Type 0
Key = String × ℕ

unfoldable pub key_of : Delisting → Key
key_of d = (d.sec_id, d.delist_date)

pub same_key : Key → Key → Bool
same_key (s, d) (t, e) = str_eq s t && d == e

-- `MergerValues` by the keys it holds reads for, and `drop`.
abbrev pub Payouts : Type 0
Payouts = List Key

pub drop : Payouts → Key → Payouts
unfolding same_key
drop payouts key = filter (λ k. not (same_key k key)) payouts

pub data Error : Type 0 where
  needs_reason needs_payouts continuation_by_reclassify : Error

pub data Result {ℓ} (A : Type ℓ) : Type ℓ where
  ok : A → Result A
  err : Error → Result A

-- `_record`
recorded : Delisting → Rewrite → Delisting
recorded d rewrite = record d { rewrites = d.rewrites ++ rewrite ∷ [] }

-- The arguments of `continuation` behind the delisting.
pub record Terms : Type 0 where
  pub successor : String
  pub rule : Rule
  pub reason : Option Text
  pub confidence : Option Text
  pub flag : Option Text
  pub how : Text
  pub evidence : Text
  pub successor_from : Text

-- A flag that a continuation keeps.
survives : Text → Bool
survives f =
    not (is_among f (no_evidence_default ∷ successor_unknown ∷ []))
    && not (is_among (flag_name f) merger_flags)

-- `if flag is not None and flag not in kept: kept.append(flag)`
with_flag : Option Text → List Text → List Text
with_flag none kept = kept
with_flag (some flag) kept = if is_among flag kept then kept else kept ++ flag ∷ []

replaced : Option Text → Text → Text
replaced none old = old
replaced (some new) old = new

pub is_transfer : Delisting → Bool
is_transfer d = is_bucket d.bucket exchange_transfer

-- The delisting as a continuation.
pub continued_into : Delisting → Terms → Delisting
unfolding recorded survives with_flag replaced is_transfer
continued_into d t = record {
  sec_id = d.sec_id;
  delist_date = d.delist_date;
  crsp_code = if is_transfer d then d.crsp_code else some continuation_code;
  bucket = if is_transfer d then d.bucket else exchange_transfer;
  confidence = replaced t.confidence d.confidence;
  reason = replaced t.reason d.reason;
  successor_sec_id = some t.successor;
  flags = with_flag t.flag (filter survives d.flags);
  rewrites =
      d.rewrites
      ++ record {
        rule = t.rule;
        successor = t.successor;
        how = t.how;
        evidence = t.evidence;
        successor_from = t.successor_from;
      }
        ∷ [];
}

pub drop_from : Option Payouts → Key → Option Payouts
drop_from none key = none
drop_from (some payouts) key = some (drop payouts key)

pub continuation : Delisting → Terms → Option Payouts → Result (Delisting × Option Payouts)
unfolding is_transfer
continuation d t payouts =
    if not (is_transfer d) && not (is_some t.reason && is_some t.confidence)
    then err needs_reason
    else if is_bucket d.bucket merger && not (is_some payouts)
    then err needs_payouts
    else ok (continued_into d t, drop_from payouts (key_of d))

plain_rewrite : Rule → String → Rewrite
plain_rewrite rule successor = record {
  rule = rule;
  successor = successor;
  how = [];
  evidence = [];
  successor_from = [];
}

pub security_goes_on : Delisting → Rule → Delisting
unfolding recorded plain_rewrite
security_goes_on d rule = record (recorded d (plain_rewrite rule d.sec_id)) {
  successor_sec_id = some d.sec_id;
  flags = filter (λ f. not (text_eq f successor_unknown)) d.flags;
}

-- The flags that `reclassify` keeps when the bucket becomes `bucket`.
reclassified_flags : Delisting → CrspBucket → List Text
unfolding is_transfer
reclassified_flags d bucket =
    let first =
      if is_bucket d.bucket unknown && not (is_bucket bucket unknown)
      then filter (λ f. not (text_eq f no_evidence_default)) d.flags
      else d.flags in
    if is_transfer d
    then filter (λ f. not (is_among f (no_evidence_default ∷ successor_unknown ∷ []))) first
    else first

pub reclassify : Delisting → ℕ → Rule → Text → Option Text → Result Delisting
unfolding recorded plain_rewrite
reclassify d code rule reason confidence =
    let bucket = bucket_for_code (some code) in
    if is_bucket bucket exchange_transfer
    then err continuation_by_reclassify
    else ok (record (recorded d (plain_rewrite rule "")) {
      crsp_code = some code;
      bucket = bucket;
      reason = reason;
      confidence = replaced confidence d.confidence;
      flags = reclassified_flags d bucket;
    })

pub awaits_successor : Delisting → Bool
awaits_successor d = is_among successor_unknown d.flags

-- `not d.record.successor_sec_id`
pub is_blank : Option String → Bool
is_blank none = true
is_blank (some s) = str_eq s ""

-- A blank successor is not the security itself.
pub is_real_ending : Delisting → Bool
is_real_ending d = elim d.successor_sec_id [ none ↦ true | some s ↦ not (str_eq s d.sec_id) ]

pub is_held : Key → List Key → Bool
is_held key [] = false
is_held key (k ∷ keys) = same_key k key || is_held key keys

-- The delistings as `mark_going_on` leaves them, and how many it marked.
pub mark_going_on : List Delisting → List Key → List Delisting × ℕ
mark_going_on [] going_on = ([], 0)
mark_going_on (d ∷ ds) going_on =
    let (rest, marked) = mark_going_on ds going_on in
    if is_blank d.successor_sec_id && is_held (key_of d) going_on
    then (security_goes_on d trades_on ∷ rest, marked + 1)
    else (d ∷ rest, marked)

is_rule : Rule → Rule → Bool
is_rule issuer_move issuer_move = true
is_rule continued continued = true
is_rule trades_on trades_on = true
is_rule r1 r1 = true
is_rule line_follow line_follow = true
is_rule successor_link successor_link = true
is_rule handoff handoff = true
is_rule plan_bankruptcy plan_bankruptcy = true
is_rule price_deficiency price_deficiency = true
is_rule moved_otc moved_otc = true
is_rule midas_drop midas_drop = true
is_rule _ _ = false

last_by : Rule → List Rewrite → Option Rewrite
unfolding is_rule
last_by rule [] = none
last_by rule (r ∷ rs) = or_else (last_by rule rs) (if is_rule r.rule rule then some r else none)

-- The latest rewrite that the rule decided.
pub rewrite_by : Delisting → Rule → Option Rewrite
unfolding last_by
rewrite_by d rule = last_by rule d.rewrites
