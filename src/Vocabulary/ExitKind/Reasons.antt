-- ===== src/Vocabulary/ExitKind/Reasons.antt =====
-- The published reason's texts: each writer of vocabulary/exit_kind.py and its reader.
use delist_detection.Prelude.{
  ℕ, ◌≡◌, refl, Bool, true, false, ◌&&◌, ◌||◌, Option, none, some, [], ◌∷◌, ◌++◌, Text, codes,
  starts_with, is_in, starts_with-append_left, ◌⊎◌, inl, inr, and_false, or_true, is_in-append,
  is_in-append_end, is_in-append_right, ◌==◌, if◌then◌else◌,
}
use delist_detection.Days.{isoformat}

abbrev pub continued_filings : Text
continued_filings = codes "Continued 10-K/Q filings"

abbrev pub continued : Text
continued = continued_filings ++ codes " >180d after delist (moved to OTC or spun off)"

abbrev pub resolved_from_continued_filings_suffix : Text
resolved_from_continued_filings_suffix = codes "; the registrant kept filing after it"

abbrev pub change_in_control : Text
change_in_control = codes "Change in control (8-K item 5.01"

abbrev pub completed_acquisition : Text
completed_acquisition = codes "Completed acquisition (8-K item 2.01"

abbrev pub successor_registration : Text
successor_registration = codes "Successor registration"

abbrev pub continuation : Text
continuation = codes "Continuation"

abbrev pub timing_cik : Text
timing_cik = codes "timing:cik"

-- `SUCCESSOR_FORMS`
abbrev pub form_8k12b : Text
form_8k12b = codes "8-K12B"

abbrev pub form_8k12g3 : Text
form_8k12g3 = codes "8-K12G3"

parenthesised : Text → Text
parenthesised evidence = codes "(" ++ (evidence ++ codes ")")

unfoldable pub relabel : Text → Text
relabel text = text ++ resolved_from_continued_filings_suffix

unfoldable pub change_in_control_reason : ℕ → Text
change_in_control_reason filed =
    relabel (change_in_control ++ (codes " filed " ++ (isoformat filed ++ codes ")")))

-- `filing` is the text of the filing beside the 2.01: "<form> <day>".
unfoldable pub completed_acquisition_reason : ℕ → Text → Text
completed_acquisition_reason filed filing = relabel (
    completed_acquisition
    ++ (codes " filed " ++ (isoformat filed ++ (codes ", " ++ (filing ++ codes ")")))))

unfoldable pub successor_registration_reason : Text → Text → Text
successor_registration_reason filing text =
    successor_registration ++ (codes " " ++ (filing ++ (codes ": " ++ text)))

pub continuation_reason : Text → Text → Text
unfolding parenthesised
continuation_reason evidence text =
    continuation ++ (codes " " ++ (parenthesised evidence ++ (codes ": " ++ text)))

-- `how.replace("_", " ")`
spaced : Text → Text
spaced [] = []
spaced (c ∷ s) = (if c == b'_' then b' ' else c) ∷ spaced s

pub successor_note : Text → Text → Text
unfolding parenthesised spaced
successor_note [] evidence = []
successor_note (c ∷ how) [] = codes "; successor by " ++ spaced (c ∷ how)
successor_note (c ∷ how) (e ∷ evidence) =
    codes "; successor by " ++ (spaced (c ∷ how) ++ (codes " " ++ parenthesised (e ∷ evidence)))

unfoldable pub rests_on_continued_filings : Text → Bool
rests_on_continued_filings reason = starts_with reason continued_filings

unfoldable pub resolved_from_continued_filings : Text → Bool
resolved_from_continued_filings reason = is_in resolved_from_continued_filings_suffix reason

unfoldable pub merger_relabel : Text → Bool
merger_relabel reason =
    resolved_from_continued_filings reason
    && (starts_with reason change_in_control || starts_with reason completed_acquisition)

-- What is behind the prefix `p`.
pub strip : Text → Text → Option Text
strip [] s = some s
strip (p ∷ ps) [] = none
strip (p ∷ ps) (c ∷ s) = if c == p then strip ps s else none

-- `(?:8-K12B|8-K12G3)(?:/A)? `
matches_form : Text → Bool
unfolding strip
matches_form s =
    starts_with s (form_8k12b ++ codes " ")
    || starts_with s (form_8k12b ++ codes "/A ")
    || starts_with s (form_8k12g3 ++ codes " ")
    || starts_with s (form_8k12g3 ++ codes "/A ")

after_prefix : Option Text → Bool
unfolding matches_form
after_prefix none = false
after_prefix (some s) = matches_form s

-- `_SUCCESSOR_FILING.match(reason)`
unfoldable pub names_successor_registration : Text → Bool
unfolding after_prefix strip
names_successor_registration reason =
    after_prefix (strip (successor_registration ++ codes " ") reason)
    || after_prefix (strip (continuation ++ codes " (") reason)

pub linked_by_timing : Text → Bool
unfolding parenthesised
linked_by_timing reason = is_in (parenthesised timing_cik) reason

-- A relabelled reason is read as one, whatever it says.
pub resolved_from_continued_filings-relabel :
    (text : Text) → resolved_from_continued_filings (relabel text) ≡ true
unfolding resolved_from_continued_filings relabel
resolved_from_continued_filings-relabel text = is_in-append_end text _

relabel-starts_with :
    (text p : Text) → starts_with text p ≡ true → starts_with (relabel text) p ≡ true
unfolding relabel
relabel-starts_with text p h =
    starts_with-append_left text resolved_from_continued_filings_suffix p h

-- A relabelled reason that begins as a merger's does is read as a merger relabel.
pub merger_relabel-relabel :
    (text : Text)
    → (starts_with text change_in_control ≡ true) ⊎ (starts_with text completed_acquisition ≡ true)
    → merger_relabel (relabel text) ≡ true
unfolding merger_relabel
merger_relabel-relabel text (inl h) =
    rw (resolved_from_continued_filings-relabel text, relabel-starts_with text change_in_control h)
merger_relabel-relabel text (inr h) =
    rw
      (
        resolved_from_continued_filings-relabel text,
        relabel-starts_with text completed_acquisition h,
      )
      (or_true (starts_with (relabel text) change_in_control))

-- A reason that begins as neither merger's does is no merger relabel.
pub merger_relabel-other :
    (reason : Text)
    → starts_with reason change_in_control ≡ false
    → starts_with reason completed_acquisition ≡ false
    → merger_relabel reason ≡ false
unfolding merger_relabel
merger_relabel-other reason h k = rw (h, k) (and_false (resolved_from_continued_filings reason))

-- A continuation linked by timing is read as one, from its own reason and from the note that it adds to
-- any other.
pub linked_by_timing-written :
    (text reason how : Text) (c : ℕ)
    → (linked_by_timing (continuation_reason timing_cik text) ≡ true)
      × (linked_by_timing (reason ++ successor_note (c ∷ how) timing_cik) ≡ true)
unfolding linked_by_timing continuation_reason successor_note
linked_by_timing-written text reason how c = (
  is_in-append (continuation ++ codes " ") (parenthesised timing_cik) (codes ": " ++ text),
  is_in-append_right reason (parenthesised timing_cik) (successor_note (c ∷ how) timing_cik) (
      is_in-append_right (codes "; successor by ") (parenthesised timing_cik)
        (spaced (c ∷ how) ++ (codes " " ++ parenthesised timing_cik))
        (is_in-append_right (spaced (c ∷ how)) (parenthesised timing_cik)
          (codes " " ++ parenthesised timing_cik)
          (is_in-append_end (codes " ") (parenthesised timing_cik)))),
)

-- The two forms that carry a security to a successor.
pub data SuccessorForm : Type 0 where
  eight_k12b eight_k12g3 : SuccessorForm

abbrev pub form_text : SuccessorForm → Bool → Text
form_text eight_k12b amended = form_8k12b ++ (if amended then codes "/A" else [])
form_text eight_k12g3 amended = form_8k12g3 ++ (if amended then codes "/A" else [])

-- A successor registration, or its amendment, that the resolver or a handoff's continuation writes into
-- a reason is found there.
pub names_successor_registration-written :
    (form : SuccessorForm) (amended : Bool) (rest text : Text)
    → (names_successor_registration
          (successor_registration_reason (form_text form amended ++ (codes " " ++ rest)) text)
        ≡ true)
      × (names_successor_registration
            (continuation_reason (form_text form amended ++ (codes " " ++ rest)) text)
          ≡ true)
unfolding names_successor_registration successor_registration_reason continuation_reason
names_successor_registration-written eight_k12b true rest text = (refl, refl)
names_successor_registration-written eight_k12b false rest text = (refl, refl)
names_successor_registration-written eight_k12g3 true rest text = (refl, refl)
names_successor_registration-written eight_k12g3 false rest text = (refl, refl)
