-- ===== src/Identity/History/Endings/Successors.antt =====
-- From which day a successor has a ticker.
use mathlib.Core.List.{Memᴰ}
use delist_detection.Prelude.{
  ℕ, ◌≡◌, refl, sym, ◌∙◌, ap, Bool, true, false, ◌&&◌, ◌||◌, none, some, List, [], ◌∷◌, Text,
  text_eq, text_eq→eq, text_eq_refl, String, str_eq, ltb, leb, arith, inl, inr, All-mem, All-self,
  All-of_sort_with, sort_with, Bool-cases, Option-cases, if_ind, if◌then◌else◌,
}
use delist_detection.Identity.History.Ranges.{Sighting, sighting_before}
use delist_detection.Identity.History.Endings.{
  Ending, Starts, before_start, set_start, Inputs, endings, window_from, window_to, take_day,
  take_days, take_ending, take_endings, successor_sightings, starts_of,
}
use delist_detection.Identity.History.Endings.Starts.{before_start-set_start, between}

module _ (i : Inputs) where
  -- A start that is set leaves no later day before it.
  take_day-keeps :
      (e : Ending) (mine : Starts) (g : Sighting) (v : Text) (d : ℕ)
      → before_start mine v d ≡ false
      → before_start (take_day i e mine g) v d ≡ false
  unfolding take_day
  take_day-keeps e mine g v d h =
      if_ind (λ (m : Starts). before_start m v d ≡ false)
        (leb (window_from i e) g.day
          && (leb g.day (window_to i e) && before_start mine g.value g.day))
        (set_start mine g.value g.day) mine
        (λ c.
          before_start-set_start mine g.value v g.day d
          ∙ cases (text_eq g.value v) refl (
              third (leb (window_from i e) g.day) (leb g.day (window_to i e))
                (before_start mine g.value g.day) c))
        (λ _. h)
    where
      third : (a b c : Bool) → (a && (b && c)) ≡ true → c ≡ true
      third a b c k = ground (arith, k)

      cases :
          (b : Bool)
          → text_eq g.value v ≡ b
          → before_start mine g.value g.day ≡ true
          → (if b then ltb d g.day else before_start mine v d) ≡ false
      cases true same free =
          between mine v g.day d
            (ap (λ (u : Text). before_start mine u g.day) (sym (text_eq→eq g.value v same)) ∙ free)
            h
      cases false other free = h

  -- The sighting is in the ending's window.
  abbrev pub is_taking : Ending → Sighting → Bool
  is_taking e g = leb (window_from i e) g.day && leb g.day (window_to i e)

  take_day-takes :
      (e : Ending) (mine : Starts) (g : Sighting)
      → is_taking e g ≡ true
      → before_start (take_day i e mine g) g.value g.day ≡ false
  unfolding take_day
  take_day-takes e mine g h =
      if_ind (λ (m : Starts). before_start m g.value g.day ≡ false)
        (leb (window_from i e) g.day
          && (leb g.day (window_to i e) && before_start mine g.value g.day))
        (set_start mine g.value g.day) mine
        (λ c.
          before_start-set_start mine g.value g.value g.day g.day
          ∙ own_day (text_eq g.value g.value) (text_eq_refl g.value))
        (λ c.
          third_not (leb (window_from i e) g.day) (leb g.day (window_to i e))
            (before_start mine g.value g.day) h c)
    where
      third_not : (a b c : Bool) → (a && b) ≡ true → (a && (b && c)) ≡ false → c ≡ false
      third_not a b c k l = ground (arith, k, l)

      own_day :
          (b : Bool)
          → b ≡ true
          → (if b then ltb g.day g.day else before_start mine g.value g.day) ≡ false
      own_day b k = rw k (ground arith)

  take_days-keeps :
      (e : Ending) (mine : Starts) (gs : List Sighting) (v : Text) (d : ℕ)
      → before_start mine v d ≡ false
      → before_start (take_days i e mine gs) v d ≡ false
  unfolding take_days
  take_days-keeps e mine [] v d h = h
  take_days-keeps e mine (g ∷ gs) v d h =
      take_days-keeps e (take_day i e mine g) gs v d (take_day-keeps e mine g v d h)

  take_days-takes :
      (e : Ending) (mine : Starts) (gs : List Sighting) (g : Sighting)
      → Memᴰ g gs
      → is_taking e g ≡ true
      → before_start (take_days i e mine gs) g.value g.day ≡ false
  unfolding take_days
  take_days-takes e mine [] g there h = elim there [ ]
  take_days-takes e mine (x ∷ gs) g (Memᴰ.head same) h =
      take_days-keeps e (take_day i e mine x) gs g.value g.day (
        ap (λ (y : Sighting). before_start (take_day i e mine y) g.value g.day) (sym same)
        ∙ take_day-takes e mine g h)
  take_days-takes e mine (x ∷ gs) g (Memᴰ.tail there) h =
      take_days-takes e (take_day i e mine x) gs g there h

  -- The ending has another security as its successor.
  abbrev pub IsSucceededBy : Ending → String → Type 0
  IsSucceededBy e x = (e.successor ≡ some x) × ((str_eq x "" || str_eq x e.sec_id) ≡ false)

  take_ending-some :
      (mine : Starts) (e : Ending) (x : String)
      → IsSucceededBy e x
      → take_ending i mine e
        ≡ take_days i e mine (sort_with sighting_before (successor_sightings i x))
  unfolding take_ending window_from window_to
  take_ending-some mine e x h = rw (h.0, h.1, take_ending) refl

  take_ending-none : (mine : Starts) (e : Ending) → e.successor ≡ none → take_ending i mine e ≡ mine
  unfolding take_ending
  take_ending-none mine e h = rw (h, take_ending) refl

  take_ending-own :
      (mine : Starts) (e : Ending) (x : String)
      → e.successor ≡ some x
      → (str_eq x "" || str_eq x e.sec_id) ≡ true
      → take_ending i mine e ≡ mine
  unfolding take_ending
  take_ending-own mine e x h k = rw (h, k, take_ending) refl

  take_ending-keeps :
      (mine : Starts) (e : Ending) (v : Text) (d : ℕ)
      → before_start mine v d ≡ false
      → before_start (take_ending i mine e) v d ≡ false
  take_ending-keeps mine e v d h = elim (Option-cases e.successor) [
    | inl nothing ↦ rw (take_ending-none mine e nothing) h
    | inr (x, is) ↦ elim (Bool-cases (str_eq x "" || str_eq x e.sec_id)) [
      | inl itself ↦ rw (take_ending-own mine e x is itself) h
      | inr another ↦
          rw (take_ending-some mine e x (is, another))
            (take_days-keeps e mine (sort_with sighting_before (successor_sightings i x)) v d h)
    ]
  ]

  take_endings-keeps :
      (sid : String) (mine : Starts) (es : List Ending) (v : Text) (d : ℕ)
      → before_start mine v d ≡ false
      → before_start (take_endings i sid mine es) v d ≡ false
  unfolding take_endings
  take_endings-keeps sid mine [] v d h = h
  take_endings-keeps sid mine (e ∷ es) v d h =
      take_endings-keeps sid (if str_eq e.sec_id sid then take_ending i mine e else mine) es v d (
        if_ind (λ (m : Starts). before_start m v d ≡ false) (str_eq e.sec_id sid)
          (take_ending i mine e) mine (λ _. take_ending-keeps mine e v d h) (λ _. h))

  take_endings-takes :
      (sid : String) (mine : Starts) (es : List Ending) (e : Ending) (x : String) (g : Sighting)
      → Memᴰ e es
      → str_eq e.sec_id sid ≡ true
      → IsSucceededBy e x
      → Memᴰ g (successor_sightings i x)
      → is_taking e g ≡ true
      → before_start (take_endings i sid mine es) g.value g.day ≡ false
  unfolding take_endings
  take_endings-takes sid mine [] e x g there own by seen h = elim there [ ]
  take_endings-takes sid mine (f ∷ es) e x g (Memᴰ.tail there) own by seen h =
      take_endings-takes sid (if str_eq f.sec_id sid then take_ending i mine f else mine) es e x g
        there own by seen h
  take_endings-takes sid mine (f ∷ es) e x g (Memᴰ.head same) own by seen h =
      take_endings-keeps sid (if str_eq f.sec_id sid then take_ending i mine f else mine) es g.value
        g.day
        (ap
            (λ (y : Ending).
              before_start (if str_eq y.sec_id sid then take_ending i mine y else mine) g.value
                g.day)
            (sym same)
          ∙ rw (own, take_ending-some mine e x by)
              (take_days-takes e mine (sort_with sighting_before (successor_sightings i x)) g
                (All-mem (λ y. Memᴰ y (sort_with sighting_before (successor_sightings i x)))
                  (successor_sightings i x)
                  (All-of_sort_with sighting_before
                    (λ y. Memᴰ y (sort_with sighting_before (successor_sightings i x)))
                    (successor_sightings i x)
                    (All-self (sort_with sighting_before (successor_sightings i x))))
                  seen)
                h))

-- Whatever ending of a security names another one as its successor: a sighting of that successor within the
-- ending's window is not before the day from which its ticker is the successor's, so neither it nor any later
-- one counts as the security's own.
pub starts_of-takes :
    (i : Inputs) (sid : String) (e : Ending) (x : String) (g : Sighting)
    → Memᴰ e (endings i)
    → str_eq e.sec_id sid ≡ true
    → IsSucceededBy i e x
    → Memᴰ g (successor_sightings i x)
    → is_taking i e g ≡ true
    → before_start (starts_of i sid) g.value g.day ≡ false
unfolding starts_of
starts_of-takes i sid e x g = take_endings-takes i sid [] (endings i) e x g
