-- ===== src/Endings/Rewrites/Flags.antt =====
-- What a rewrite does to a delisting's flags and to the merger values.
use delist_detection.Prelude.{
  ◌≡◌, refl, true, false, Option, none, some, List, [], ◌∷◌, arith, Text, is_among, if◌then◌else◌,
  Bool-cases, and_not, inl, inr, filter, All, All-append, All-map, All-filter, str_eq_iff,
}
use delist_detection.Vocabulary.ExitKind.Flags.{flag_name}
use delist_detection.Endings.Rewrites.{
  Delisting, Terms, Payouts, Key, key_of, same_key, is_held, drop, ok, continuation, continued_into,
  drop_from, survives, with_flag, merger_flags, successor_unknown, no_evidence_default,
}
use delist_detection.Endings.Rewrites.Kinds.{continuation-ok}

-- A flag that no continuation carries over: it says no evidence, an open successor, or a doubt about a
-- merger's value.
abbrev pub IsSettled : Text → Type 0
IsSettled f =
    (is_among f (no_evidence_default ∷ successor_unknown ∷ []) ≡ false)
    × (is_among (flag_name f) merger_flags ≡ false)

survives-IsSettled : (f : Text) → survives f ≡ true → IsSettled f
unfolding survives
survives-IsSettled f h =
    and_not (is_among f (no_evidence_default ∷ successor_unknown ∷ []))
      (is_among (flag_name f) merger_flags) h

with_flag-All :
    (P : Text → Type 0) (flag : Option Text) (kept : List Text)
    → ((f : Text) → flag ≡ some f → P f)
    → All P kept
    → All P (with_flag flag kept)
unfolding with_flag
with_flag-All P none kept own h = h
with_flag-All P (some f) kept own h = elim (Bool-cases (is_among f kept)) [
  | inl there ↦ rw there h
  | inr absent ↦ rw absent (All-append P kept (f ∷ []) h (own f refl, tt))
]

continued_into-IsSettled :
    (d : Delisting) (t : Terms)
    → ((f : Text) → t.flag ≡ some f → IsSettled f)
    → All IsSettled (continued_into d t).flags
unfolding continued_into
continued_into-IsSettled d t own = with_flag-All IsSettled t.flag (filter survives d.flags) own (
    All-map (λ f. survives f ≡ true) IsSettled survives-IsSettled (filter survives d.flags)
      (All-filter survives d.flags))

-- No flag of a continuation says that its evidence or its successor is missing, or doubts a merger's
-- value, as long as the rule's own flag does not.
pub continuation-IsSettled :
    (d d' : Delisting) (t : Terms) (payouts payouts' : Option Payouts)
    → ((f : Text) → t.flag ≡ some f → IsSettled f)
    → continuation d t payouts ≡ ok (d', payouts')
    → All IsSettled d'.flags
continuation-IsSettled d d' t payouts payouts' own e =
    let (same, _) = continuation-ok d d' t payouts payouts' e in
    rw same (continued_into-IsSettled d t own)

same_key_iff : (k j : Key) → same_key k j ≡ true → k ≡ j
unfolding same_key
same_key_iff (s, d) (t, e) h = ground (arith, str_eq_iff s t)

same_key_refl : (k : Key) → same_key k k ≡ true
unfolding same_key
same_key_refl (s, d) = ground (arith, str_eq_iff s s)

held-drop :
    (payouts : Payouts) (key other : Key)
    → is_held other (drop payouts key)
      ≡ (if same_key key other then false else is_held other payouts)
unfolding drop is_held
held-drop [] key other = ground arith
held-drop (k ∷ payouts) key other = ground (
  arith,
  held-drop payouts key other,
  same_key_iff k key,
  same_key_iff key other,
  same_key_iff k other,
  same_key_refl key,
  same_key_refl other,
)

-- A continuation forgets the merger reads of its own ending and keeps those of every other.
pub continuation-payouts :
    (d d' : Delisting) (t : Terms) (payouts : Payouts) (payouts' : Option Payouts) (other : Key)
    → continuation d t (some payouts) ≡ ok (d', payouts')
    → (kept : Payouts) × (payouts' ≡ some kept)
      × (is_held other kept ≡ (if same_key (key_of d) other then false else is_held other payouts))
unfolding drop_from
continuation-payouts d d' t payouts payouts' other e =
    let (_, same) = continuation-ok d d' t (some payouts) payouts' e in
    (drop payouts (key_of d), same, held-drop payouts (key_of d) other)
