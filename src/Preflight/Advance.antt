-- ===== src/Preflight/Advance.antt =====
-- What `validatePort` answers, and that the port it moves to is the next free one.
use phpo.Base.{ℕ, ◌+◌, ◌≤◌, ◌<◌, ◌≡◌, ◌⊎◌, Bool, true, false, is_some}
use phpo.Preflight.Ports.{Used, owner_of, PortCheck, invalid, free, occupied, advanced, in_use}

abbrev pub IsUsed : ℕ → Used → Type 0
IsUsed p used = is_some (owner_of p used) ≡ true

abbrev pub IsFree : ℕ → Used → Type 0
IsFree p used = is_some (owner_of p used) ≡ false

-- Every port from `lo` and below `hi` is in use.
abbrev pub AllUsed : ℕ → ℕ → Used → Type 0
AllUsed lo hi used = (p : ℕ) → lo ≤ p → p < hi → IsUsed p used

-- How the found port `next` follows the desired one among the ports from 1 to 65535: it is free, and
-- every port that comes before it, going up from the desired one and then on from 1, is in use.
pub data IsNext (desired : ℕ) (used : Used) (next : ℕ) : Type 0 where
  above :
      desired < next
      → next ≤ 65535
      → IsFree next used
      → AllUsed (desired + 1) next used
      → IsNext desired used next
  wrapped :
      1 ≤ next
      → next < desired
      → IsFree next used
      → AllUsed (desired + 1) 65536 used
      → AllUsed 1 next used
      → IsNext desired used next

-- What an answer about port `n` means, by the ports that count as used.
abbrev pub Means : Bool → Bool → Bool → ℕ → Used → PortCheck → Type 0
Means excluded keep advance n used invalid = ⊥
Means excluded keep advance n used (free m) = (m ≡ n) × ((excluded ≡ true) ⊎ IsFree n used)
Means excluded keep advance n used (occupied m o) =
    (m ≡ n) × (o ≡ owner_of n used) × IsUsed n used × (keep ≡ true)
Means excluded keep advance n used (advanced next m) =
    (m ≡ n) × IsUsed n used × (advance ≡ true) × IsNext n used next
Means excluded keep advance n used (in_use m o) =
    (m ≡ n) × (o ≡ owner_of n used) × IsUsed n used × (advance ≡ true → AllUsed 1 65536 used)
