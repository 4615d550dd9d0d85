-- ===== src/Endings/Rewrites/GoingOn.antt =====
-- The clip check's pass over the delistings.
use delist_detection.Prelude.{
  ℕ, ◌≡◌, refl, ap, Bool, false, ◌&&◌, List, [], ◌∷◌, arith, str_eq, if◌then◌else◌, All, Bool-cases,
  inl, inr, map,
}
use delist_detection.Endings.Rewrites.{
  Delisting, Key, key_of, is_held, is_blank, security_goes_on, trades_on, mark_going_on,
}

-- A delisting that the pass marks.
abbrev pub is_open : List Key → Delisting → Bool
is_open going_on d = is_blank d.successor_sec_id && is_held (key_of d) going_on

-- The pass's answer for one delisting.
abbrev pub settled : List Key → Delisting → Delisting
settled going_on d = if is_open going_on d then security_goes_on d trades_on else d

-- The pass treats each delisting by itself and in order: one with a blank successor whose key is in the
-- set goes on as itself, any other is as it was.
pub mark_going_on-map :
    (ds : List Delisting) (going_on : List Key)
    → (mark_going_on ds going_on).0 ≡ map (settled going_on) ds
unfolding mark_going_on
mark_going_on-map [] going_on = refl
mark_going_on-map (d ∷ ds) going_on = elim (Bool-cases (is_open going_on d)) [
  | inl open_one ↦ rw open_one (
      ap (λ (rest : List Delisting). security_goes_on d trades_on ∷ rest)
        (mark_going_on-map ds going_on))
  | inr closed ↦
      rw closed (ap (λ (rest : List Delisting). d ∷ rest) (mark_going_on-map ds going_on))
]

abbrev pub HasId : Delisting → Type 0
HasId d = str_eq d.sec_id "" ≡ false

-- A delisting that goes on as itself is marked no more.
security_goes_on-closed :
    (going_on : List Key) (d : Delisting)
    → HasId d
    → is_open going_on (security_goes_on d trades_on) ≡ false
unfolding security_goes_on is_blank
security_goes_on-closed going_on d h = ground arith

settled-closed :
    (going_on : List Key) (d : Delisting) → HasId d → is_open going_on (settled going_on d) ≡ false
settled-closed going_on d h = elim (Bool-cases (is_open going_on d)) [
  | inl open_one ↦ rw open_one (security_goes_on-closed going_on d h)
  | inr closed ↦ rw closed closed
]

marks_none :
    (going_on : List Key) (ds : List Delisting)
    → All (λ d. is_open going_on d ≡ false) ds
    → mark_going_on ds going_on ≡ (ds, 0)
unfolding mark_going_on
marks_none going_on [] h = refl
marks_none going_on (d ∷ ds) h =
    rw h.0 (ap (λ (r : List Delisting × ℕ). (d ∷ r.0, r.1)) (marks_none going_on ds h.1))

All-settled :
    (going_on : List Key) (ds : List Delisting)
    → All HasId ds
    → All (λ d. is_open going_on d ≡ false) (map (settled going_on) ds)
All-settled going_on [] h = tt
All-settled going_on (d ∷ ds) h = (settled-closed going_on d h.0, All-settled going_on ds h.1)

-- A second pass over delistings that all have an id marks none and changes none.
pub mark_going_on_again :
    (ds : List Delisting) (going_on : List Key)
    → All HasId ds
    → mark_going_on (mark_going_on ds going_on).0 going_on ≡ ((mark_going_on ds going_on).0, 0)
mark_going_on_again ds going_on h =
    rw (mark_going_on-map ds going_on)
      (marks_none going_on (map (settled going_on) ds) (All-settled going_on ds h))
