-- ===== src/Identity/IssuerInForce/Timeline/Chain.antt =====
-- Timelines whose days strictly increase and whose neighbours differ.
use delist_detection.Prelude.{◌<◌, ◌≡◌, ◌≢◌, refl, some, [], ◌∷◌, ◌++◌, arith}
use delist_detection.Identity.IssuerInForce.Timeline.{Change, Timeline, last?}

-- The change comes later and to another issuer.
abbrev pub Follows : Change → Change → Type 0
Follows c d = (c.0 < d.0) × (c.1 ≢ d.1)

abbrev pub IsChain : Timeline → Type 0
IsChain [] = Unit
IsChain (c ∷ []) = Unit
IsChain (c ∷ d ∷ rest) = Follows c d × IsChain (d ∷ rest)

pub IsChain-snoc :
    (t : Timeline) (c n : Change)
    → IsChain t
    → last? t ≡ some c
    → Follows c n
    → IsChain (t ++ n ∷ [])
IsChain-snoc [] c n h e f = tt
IsChain-snoc (b ∷ []) c n h e f = ground arith
IsChain-snoc (b ∷ d ∷ rest) c n h e f = (h.0, IsChain-snoc (d ∷ rest) c n h.1 e f)

pub last?-snoc : (t : Timeline) (n : Change) → last? (t ++ n ∷ []) ≡ some n
last?-snoc [] n = refl
last?-snoc (b ∷ []) n = refl
last?-snoc (b ∷ d ∷ rest) n = last?-snoc (d ∷ rest) n

-- The last change of a chain comes last.
pub IsChain-last :
    (t : Timeline) (c n : Change) → IsChain (t ++ n ∷ []) → last? t ≡ some c → c.0 < n.0
IsChain-last [] c n h e = absurd (ground arith)
IsChain-last (b ∷ []) c n h e = ground arith
IsChain-last (b ∷ d ∷ rest) c n h e = IsChain-last (d ∷ rest) c n h.1 e
