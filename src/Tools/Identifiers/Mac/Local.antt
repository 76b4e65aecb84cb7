-- ===== src/Tools/Identifiers/Mac/Local.antt =====
-- asusrouter/tools/identifiers/mac.py: locally administered addresses.
use mathlib.Core.Path.{subst}
use asusrouter.Base.{
  ℕ, zero, suc, ◌+◌, ◌*◌, ◌/◌, ◌<◌, ◌≡◌, refl, sym, ap, Bool-cases, inl, inr, List, ◌∷◌, ◌==◌,
  ==_iff, if◌then◌else◌, ℕ_discrete, arith,
}
use asusrouter.Tools.Identifiers.Mac.{local_byte, local_head, set_locally_administered}
use asusrouter.Tools.Identifiers.Mac.Number.{IsMac}

-- On how many bytes under a bound the bit operations and the arithmetic disagree.
disagreements : ℕ → ℕ
unfolding local_byte
disagreements zero = 0
disagreements (suc b) =
    let others = disagreements b in if local_byte b == b / 4 * 4 + 2 then others else suc others

agreed :
    (bound byte : ℕ) → disagreements bound ≡ 0 → byte < bound → local_byte byte ≡ byte / 4 * 4 + 2
unfolding disagreements
agreed zero byte none_left lt = absurd (omega arith)
agreed (suc last) byte none_left lt = elim (Bool-cases (local_byte last == last / 4 * 4 + 2)) [
  | inl same ↦
      let fewer : disagreements last ≡ 0 = ground (arith, none_left, same) in
      let here : local_byte last ≡ last / 4 * 4 + 2 = (==_iff _ _).0 same in
      elim (ℕ_discrete byte last) [
        | yes p ↦ subst (λ c. local_byte c ≡ c / 4 * 4 + 2) (sym p) here
        | no other ↦ agreed last byte fewer (omega arith)
      ]
  | inr differs ↦ absurd (ground (arith, none_left, differs))
]

byte_disagreements : disagreements 256 ≡ 0
unfolding disagreements
byte_disagreements = refl

local_byte_lem : (byte : ℕ) → byte < 256 → local_byte byte ≡ byte / 4 * 4 + 2
local_byte_lem byte lt = agreed 256 byte byte_disagreements lt

-- Of an address of six bytes, the first one gets the two low bits 10 and keeps the others, the other
-- five are kept, and there are six bytes again.
pub set_locally_administered_lem :
    (b : ℕ) (s : List ℕ)
    → IsMac (record { octets = b ∷ s })
    → let local = set_locally_administered (record { octets = b ∷ s }) in
      (local.octets ≡ (b / 4 * 4 + 2) ∷ s) × IsMac local
unfolding set_locally_administered local_head
set_locally_administered_lem b s h =
    let byte = local_byte_lem b h.in_range.0 in
    let fits : local_byte b < 256 = omega (arith, byte, h.in_range.0) in
    (ap (λ c. c ∷ s) byte, record { six_octets = h.six_octets; in_range = (fits, h.in_range.1) })
